-- ===== src/Uart/Send/Exchange.antt =====
-- ser_cmd_send with a peer that answers: the command goes out, and the reply comes back.
use clpsz_demos.Base.{
  ℕ, ◌+◌, ◌≤◌, ◌<◌, ◌≡◌, ◌≢◌, refl, sym, ap, ◌∙◌, none, some, List, [], ◌∷◌, ◌++◌, append-nil,
  arith, ◌==◌, ≡→==, ≢→==, Bool, true, false, length, drop, Bytes, u8, u32,
}
use clpsz_demos.Debug.{dump}
use clpsz_demos.Uart.Packet.{err_ok, pkt_size}
use clpsz_demos.Uart.Packet.RoundTrip.{
  packet, length-packet, sized-packet, build_pkt-packet, sn-packet,
}
use clpsz_demos.Uart.State.{
  Ptr, null, Heap, find_block, Host, Serial, and_then, store_block, ser_hal_free, ser_hal_write,
}
use clpsz_demos.Uart.State.Laws.{
  with_heap, sent, find_block-top, find_block_below, ne_of_find, put_block-top, remove_block-under,
  free-top, load_u8_lem, load_block_lem, source_of_lem, ser_hal_write_lem, dump_pkt_lem,
}
use clpsz_demos.Uart.Receive.{ser_cmd_rcv}
use clpsz_demos.Uart.Receive.Assembly.{IsIdle}
use clpsz_demos.Uart.Receive.Sessions.{Plenty, get_memory}
use clpsz_demos.Uart.Receive.Errors.{rcv_reply}
use clpsz_demos.Uart.Send.{
  Reply, unset, set_to, ser_cmd_send, ser_hal_rcvreply, take_reply, keep_reply, return_of,
}

-- What the caller gets of a reply, and what stays of its block.
abbrev pub handed : (want : Bool) → Ptr → Reply
handed false r = unset
handed true r = set_to r

abbrev pub kept_block : (want : Bool) → Ptr × Bytes → Heap → Heap
kept_block false b h = h
kept_block true b h = b ∷ h

-- The reply has been taken.
abbrev taken : (want : Bool) → (reply : Bytes) → Heap → Serial → Serial
taken want reply h v = record v {
  heap = kept_block want (v.replied_pkt, reply) h;
  replied = 0;
  console = v.console ++ dump reply;
}

keep_reply_lem :
    (want : Bool) (reply : Bytes) (h : Heap) (v : Serial)
    → v.heap ≡ (v.replied_pkt, reply) ∷ h
    → find_block v.replied_pkt h ≡ none
    → v.replied_pkt ≢ null
    → keep_reply want (record v { replied = 0; console = v.console ++ dump reply })
      ≡ some (handed want v.replied_pkt, taken want reply h v)
unfolding keep_reply
keep_reply_lem false reply h v heap fresh ne = rw (
    free-top (record v { replied = 0; console = v.console ++ dump reply }) v.replied_pkt ne fresh
      heap)
keep_reply_lem true reply h v heap fresh ne =
    ap
      (λ (t : Heap). some (
        set_to v.replied_pkt,
        record v { heap = t; replied = 0; console = v.console ++ dump reply },
      ))
      heap

-- The end of the wait.
take_now :
    (host : Host) (want : Bool) (sn timeout c sn' : ℕ) (xs : Bytes) (h : Heap) (v : Serial)
    → v.replied ≡ 1
    → v.heap ≡ (v.replied_pkt, packet c sn' xs) ∷ h
    → find_block v.replied_pkt h ≡ none
    → v.replied_pkt ≢ null
    → ser_hal_rcvreply host want sn timeout [] v
      ≡ some (some (handed want v.replied_pkt), taken want (packet c sn' xs) h v)
unfolding ser_hal_rcvreply take_reply
take_now host want sn timeout c sn' xs h v replied heap fresh ne =
    let arrived : (v.replied == 0) ≡ false = ≢→== v.replied 0 (λ q. absurd (omega arith)) in
    let r = v.replied_pkt in
    let found = ap (find_block r) heap ∙ find_block-top r (packet c sn' xs) h in
    rw (
      arrived,
      dump_pkt_lem (record v { replied = 0 }) r found (sized-packet c sn' xs),
      keep_reply_lem want (packet c sn' xs) h v heap fresh ne,
    )

-- One sleep, in which the reply comes.
wait_one :
    (host : Host) (want : Bool) (sn timeout c sn' : ℕ) (xs slice : Bytes) (h : Heap)
    (out v : Serial)
    → out.replied ≡ 0
    → ser_cmd_rcv host slice out ≡ some (err_ok, v)
    → v.replied ≡ 1
    → v.heap ≡ (v.replied_pkt, packet c sn' xs) ∷ h
    → find_block v.replied_pkt h ≡ none
    → v.replied_pkt ≢ null
    → ser_hal_rcvreply host want sn timeout (slice ∷ []) out
      ≡ some (some (handed want v.replied_pkt), taken want (packet c sn' xs) h v)
unfolding ser_hal_rcvreply
wait_one host want sn timeout c sn' xs slice h out v waiting runs replied heap fresh ne =
    rw (≡→== out.replied 0 waiting, runs)
      (take_now host want sn timeout c sn' xs h v replied heap fresh ne)

-- The block of the request is freed, which lies under that of the reply if this was kept.
free_request :
    (want : Bool) (p r : Ptr) (request reply : Bytes) (h : Heap) (u : Serial)
    → u.heap ≡ kept_block want (r, reply) ((p, request) ∷ h)
    → p ≢ null
    → find_block p h ≡ none
    → r ≢ p
    → ser_hal_free p u ≡ some (tt, with_heap (kept_block want (r, reply) h) u)
unfolding ser_hal_free
free_request false p r request reply h u heap ne fresh apart = free-top u p ne fresh heap
free_request true p r request reply h u heap ne fresh apart = rw (
  ≢→== p null ne,
  heap,
  find_block_below p r reply ((p, request) ∷ h) apart,
  find_block-top p request h,
  remove_block-under p r request reply h apart fresh,
)

-- The request lies in its block and is on the wire, and the serial number is counted up.
abbrev pub gone_out : Host → Ptr → (request : Bytes) → Serial → Serial
gone_out host p request w =
    sent host request (record w { heap = (p, request) ∷ w.heap; send_sn = u8 (w.send_sn + 1) })

-- A command that has gone out under the current serial number: its block lies on the heap, and
-- what comes of ser_cmd_send is up to the wait.
pub record GoesOut (host : Host) (ret_res cmd : ℕ) (source : Ptr × ℕ) (xs : Bytes) (want : Bool)
    (w : Serial) : Type 0 where
  pub at : Ptr
  pub ne_null : at ≢ null
  pub fresh : find_block at w.heap ≡ none
  pub waits :
      (slices : List Bytes)
      → ser_cmd_send host ret_res cmd (some source) (length xs) want slices w
        ≡ and_then
            (ser_hal_rcvreply host want w.send_sn w.timeout slices
              (gone_out host at (packet cmd w.send_sn xs) w))
            (λ (got, v). return_of ret_res at got v)

pub to_GoesOut :
    (host : Host) (ret_res cmd q off : ℕ) (block xs more : Bytes) (want : Bool) (w : Serial)
    → Plenty host
    → find_block q w.heap ≡ some block
    → drop off block ≡ xs ++ more
    → length xs ≤ 249
    → GoesOut host ret_res cmd (q, off) xs want w
unfolding ser_cmd_send store_block
to_GoesOut host ret_res cmd q off block xs more want w plenty found readable small =
    let size : u32 (pkt_size + length xs) ≡ 6 + length xs = omega arith in
    let request = packet cmd w.send_sn xs in
    let got = get_memory host plenty (6 + length xs) w in
    let p = got.at in
    let empty = with_heap ((p, got.block) ∷ w.heap) w in
    let full = record w { heap = (p, request) ∷ w.heap; send_sn = u8 (w.send_sn + 1) } in
    let other =
      find_block_below q p got.block w.heap (ne_of_find q p w.heap found got.fresh) ∙ found in
    let top = find_block-top p request w.heap in
    let writes =
      ap (λ (n : ℕ). ser_hal_write host p n full) (sym (length-packet cmd w.send_sn xs))
      ∙ ser_hal_write_lem host full p request top in
    record {
      at = p;
      ne_null = got.ne_null;
      fresh = got.fresh;
      waits = λ slices. rw (
        size,
        got.result,
        ≢→== p null got.ne_null,
        source_of_lem empty q other off,
        readable,
        load_block_lem empty p (find_block-top p got.block w.heap),
        build_pkt-packet cmd w.send_sn xs more got.block small got.size,
        put_block-top p got.block request w.heap got.fresh,
        writes,
        load_u8_lem (gone_out host p request w) p top 4 (sn-packet cmd w.send_sn xs),
      );
    }

-- A sending thread whose peer answers within the wait.
pub record Exchanged (want : Bool) (w : Serial) (request reply : Bytes) (v : Serial) : Type 0 where
  pub reply_at : Ptr
  pub request_sent : v.wire ≡ w.wire ++ request ∷ []
  pub reply_kept : v.heap ≡ kept_block want (reply_at, reply) w.heap
  pub reply_fresh : find_block reply_at w.heap ≡ none
  pub next_sn : v.send_sn ≡ u8 (w.send_sn + 1)
  pub flag_reset : v.replied ≡ 0
  pub idle_again : IsIdle v.rcv

-- With memory, ser_cmd_send puts the command on the wire under the current serial number, which
-- it then counts up modulo 256, and frees its own block. The caller that wants the reply gets
-- the block of the packet that came with the reply bit; for the one that does not, that block is
-- freed, and the heap is as before. What it returns is not err_ok but whatever `ret_res` held,
-- and it does not look at the reply's own serial number.
pub ser_cmd_send-Exchanged :
    (host : Host) (ret_res cmd q off : ℕ) (block xs more : Bytes) (want : Bool) (c sn' : ℕ)
    (ys : Bytes) (w : Serial)
    → Plenty host
    → find_block q w.heap ≡ some block
    → drop off block ≡ xs ++ more
    → length xs ≤ 249
    → length ys ≤ 249
    → 128 ≤ c
    → c < 256
    → IsIdle w.rcv
    → w.replied ≡ 0
    → (v : Serial) × (e : Exchanged want w (packet cmd w.send_sn xs) (packet c sn' ys) v)
      × (ser_cmd_send host ret_res cmd (some (q, off)) (length xs) want (packet c sn' ys ∷ []) w
          ≡ some (some (ret_res, handed want e.reply_at), v))
unfolding return_of ser_cmd_rcv
ser_cmd_send-Exchanged host ret_res cmd q off block xs more want c sn' ys w plenty found readable
      small small' high byte ready waiting =
    let g = to_GoesOut host ret_res cmd q off block xs more want w plenty found readable small in
    let p = g.at in
    let request = packet cmd w.send_sn xs in
    let reply = packet c sn' ys in
    let out = gone_out host p request w in
    let (v, runs, replied, heap, fresh, ne, wire, send_sn, idle) =
      rcv_reply host c sn' ys [] out plenty small' ready high byte in
    let r = v.replied_pkt in
    let arrives = ap (λ (t : Bytes). ser_cmd_rcv host t out) (sym (append-nil reply)) ∙ runs in
    let apart : r ≢ p =
      ne_of_find p r ((p, request) ∷ w.heap) (find_block-top p request w.heap) fresh in
    let u = taken want reply ((p, request) ∷ w.heap) v in
    (
      with_heap (kept_block want (r, reply) w.heap) u,
      record {
        reply_at = r;
        request_sent = wire;
        reply_kept = refl;
        reply_fresh = sym (find_block_below r p request w.heap (λ e. apart (sym e))) ∙ fresh;
        next_sn = send_sn;
        flag_reset = refl;
        idle_again = idle;
      },
      g.waits (reply ∷ [])
          ∙ rw (
            wait_one host want w.send_sn w.timeout c sn' ys reply ((p, request) ∷ w.heap) out v
                waiting arrives replied heap fresh ne,
            free_request want p r request reply w.heap u refl g.ne_null g.fresh apart,
          ),
    )
