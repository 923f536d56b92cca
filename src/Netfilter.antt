-- ===== src/Netfilter.antt =====
-- linux/netfilter_frame/netfilter.c: the hook on the packets that come in, and the module.
pub mod Counting
pub mod Life
mod Tests
use clpsz_demos.Base.{
  ℕ, ◌+◌, ◌%◌, ◌^◌, Option, none, some, List, [], ◌∷◌, ◌++◌, Bytes, Bool, true, false, ltb, leb,
  ◌||◌, if◌then◌else◌, ◌==◌,
}

-- The source address of eth_hdr(skb).
pub record Packet : Type 0 where
  pub h_source : Bytes

-- NF_ACCEPT is the only verdict of the code.
pub data Verdict : Type 0 where
  accept drop : Verdict

-- A line of the kernel's log.
pub data Entry : Type 0 where
  packet_index : ℕ → Entry
  source_mac : Bytes → Entry
  register_failed : Entry
  installed : Entry
  removed : Entry

-- `count` is an int in two's complement, whose increment wraps in the kernel. `registered` is the
-- kernel's: whether it calls the hook.
pub record Module : Type 0 where
  pub count : ℕ
  pub registered : Bool
  pub log : List Entry

-- `count < 20`, which a negative count is too.
abbrev pub below_20 : ℕ → Bool
below_20 count = ltb count 20 || leb (2 ^ 31) count

unfoldable pub hook_out : Packet → Module → Verdict × Module
hook_out skb m =
    let next = (m.count + 1) % 2 ^ 32 in
    if below_20 m.count
    then (
      accept,
      record m { count = next; log = m.log ++ packet_index next ∷ source_mac skb.h_source ∷ [] },
    )
    else (accept, record m { count = next })

-- `answer` is the result of nf_register_hook. `none` is -1.
unfoldable pub sknf_init : (answer : ℕ) → Module → Option ℕ × Module
sknf_init answer m =
    if answer == 0
    then (some 0, record m { registered = true; log = m.log ++ installed ∷ [] })
    else (none, record m { log = m.log ++ register_failed ∷ [] })

unfoldable pub sknf_exit : Module → Module
sknf_exit m = record m { registered = false; log = m.log ++ removed ∷ [] }
