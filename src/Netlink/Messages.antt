-- ===== src/Netlink/Messages.antt =====
-- What the kernel module of linux/netlink_socket sends, and how much of it is not its own text.
use clpsz_demos.Base.{
  ℕ, zero, suc, ◌-◌, ◌^◌, ◌<◌, ◌≤◌, ◌≡◌, refl, sym, ap, ◌∙◌, some, [], ◌∷◌, ◌++◌, Bytes, true,
  arith, length, length-append, length-drop, drop, take, append_assoc, lt→leb, le→leb,
}
use clpsz_demos.Netlink.{
  Nlmsg, Module, Netlink, cleared, got_once, got_twice, message_to_user, unicast, nl_send_to_user,
  note_pid, kernel_receive, real_send,
}
use clpsz_demos.Uart.Block.{read_bytes-append, read_bytes-take, write_bytes_front}

pub length-cleared : (n : ℕ) → length (cleared n) ≡ n
unfolding cleared
length-cleared zero = refl
length-cleared (suc n) = ap suc (length-cleared n)

-- A message with the bytes `xs` at the front of an empty payload.
abbrev pub carrying : Netlink → Bytes → Nlmsg
carrying net xs = record {
  nlmsg_len = net.nlmsg_space (length xs);
  nlmsg_pid = 0;
  nlmsg_type = 0;
  payload = xs ++ drop (length xs) (cleared 1024);
}

module _ (net : Netlink) where
  -- Memory suffices in every state.
  abbrev pub Allocates : Type 0
  Allocates = (m : Module) → net.alloc_skb m ≡ true

  message_to_user-carrying :
      (xs rest : Bytes)
      → length xs ≤ 1024
      → message_to_user net (xs ++ rest) (length xs) ≡ some (carrying net xs)
  unfolding message_to_user
  message_to_user-carrying xs rest fits =
      let wide : length xs ≤ length (cleared 1024) = rw (length-cleared 1024) fits in
      rw (read_bytes-append xs rest, write_bytes_front xs (cleared 1024) wide)

  nl_send_to_user-carrying :
      (xs rest : Bytes) (m : Module)
      → Allocates
      → length xs ≤ 1024
      → m.g_pid < 2 ^ 31
      → nl_send_to_user net (xs ++ rest) (length xs) m
        ≡ some (record m { sent = m.sent ++ ((m.g_pid, carrying net xs) ∷ []) })
  unfolding nl_send_to_user unicast
  nl_send_to_user-carrying xs rest m room fits known =
      rw (lt→leb (2 ^ 31) m.g_pid known, room m, message_to_user-carrying xs rest fits)

  -- The same for 100 bytes from a literal, its terminator and what lies behind it.
  literal-carrying :
      (text behind secret rest : Bytes) (m : Module)
      → Allocates
      → behind ≡ secret ++ rest
      → length (text ++ (0 ∷ secret)) ≡ 100
      → m.g_pid < 2 ^ 31
      → nl_send_to_user net (text ++ (0 ∷ behind)) 100 m
        ≡ some (record m { sent = m.sent ++ ((m.g_pid, carrying net (text ++ (0 ∷ secret))) ∷ []) })
  literal-carrying text behind secret rest m room lies size known =
      let whole : text ++ (0 ∷ behind) ≡ (text ++ (0 ∷ secret)) ++ rest =
        ap (λ (b : Bytes). text ++ (0 ∷ b)) lies ∙ sym (append_assoc text (0 ∷ secret) rest) in
      ap (λ (b : Bytes). nl_send_to_user net b 100 m) whole
      ∙ ap (λ (n : ℕ). nl_send_to_user net ((text ++ (0 ∷ secret)) ++ rest) n m) (sym size)
      ∙ nl_send_to_user-carrying (text ++ (0 ∷ secret)) rest m room (omega arith) known

  -- A message from a process reaches the module: it remembers the process as the one to talk to
  -- and sends it two messages of 100 bytes each. Of these, 64 and 47 are not the module's own
  -- text but whatever lies behind the literals, where that much can be read.
  pub kernel_receive-leaks :
      (once twice rest1 rest2 : Bytes) (skb_len pid : ℕ) (m : Module)
      → Allocates
      → net.behind_once ≡ once ++ rest1
      → length once ≡ 64
      → net.behind_twice ≡ twice ++ rest2
      → length twice ≡ 47
      → net.nlmsg_space 0 ≤ skb_len
      → pid < 2 ^ 31
      → kernel_receive net skb_len pid m
        ≡ some (record {
          g_pid = pid;
          sent =
              (m.sent ++ ((pid, carrying net (got_once ++ (0 ∷ once))) ∷ []))
              ++ ((pid, carrying net (got_twice ++ (0 ∷ twice))) ∷ []);
        })
  unfolding kernel_receive note_pid
  kernel_receive-leaks once twice rest1 rest2 skb_len pid m room b1 l1 b2 l2 long known =
      let noted = record m { g_pid = pid } in
      let first =
        literal-carrying got_once net.behind_once once rest1 noted room b1 (omega arith) known in
      let told = record noted {
        sent = m.sent ++ ((pid, carrying net (got_once ++ (0 ∷ once))) ∷ []);
      } in
      rw (
        le→leb (net.nlmsg_space 0) skb_len long,
        first,
        literal-carrying got_twice net.behind_twice twice rest2 told room b2 (omega arith) known,
      )

-- real_send of the first bytes of a buffer: the message is NLMSG_SPACE(buf_len) bytes long, it
-- names the process, and behind the data it holds what the stack held, up to the alignment.
pub real_send-carries :
    (net : Netlink) (pid : ℕ) (stale xs rest : Bytes)
    → length stale ≡ 1024
    → length xs ≤ 1024
    → real_send net pid stale (xs ++ rest) (length xs)
      ≡ some (record {
        nlmsg_len = net.nlmsg_space (length xs);
        nlmsg_pid = pid;
        nlmsg_type = 0;
        payload = take (net.nlmsg_space (length xs) - 16) (xs ++ drop (length xs) stale);
      })
unfolding real_send
real_send-carries net pid stale xs rest size fits =
    let all : length (xs ++ drop (length xs) stale) ≡ 1024 =
      omega (arith, length-append xs (drop (length xs) stale), length-drop (length xs) stale) in
    let bound = net.nlmsg_space_max (length xs) fits in
    rw (
      read_bytes-append xs rest,
      write_bytes_front xs stale (omega arith),
      read_bytes-take (net.nlmsg_space (length xs) - 16) (xs ++ drop (length xs) stale)
          (omega arith),
    )

-- A process that sends is the one that the module talks to: the module notes the pid that
-- real_send wrote into the message.
real_send-kernel_receive :
    (net : Netlink) (pid : ℕ) (stale xs rest once twice rest1 rest2 : Bytes) (m : Module)
    → Allocates net
    → length stale ≡ 1024
    → length xs ≤ 1024
    → net.behind_once ≡ once ++ rest1
    → length once ≡ 64
    → net.behind_twice ≡ twice ++ rest2
    → length twice ≡ 47
    → pid < 2 ^ 31
    → (message : Nlmsg) × (v : Module) × (real_send net pid stale (xs ++ rest) (length xs)
        ≡ some message)
      × (kernel_receive net message.nlmsg_len message.nlmsg_pid m ≡ some v)
      × (v.g_pid ≡ pid)
real_send-kernel_receive net pid stale xs rest once twice rest1 rest2 m room size fits b1 l1 b2 l2
      known =
    (
      _,
      _,
      real_send-carries net pid stale xs rest size fits,
      kernel_receive-leaks net once twice rest1 rest2 (net.nlmsg_space (length xs)) pid m room b1 l1
          b2 l2 (net.nlmsg_space_mono (length xs)) known,
      refl,
    )
