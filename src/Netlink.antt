-- ===== src/Netlink.antt =====
-- linux/netlink_socket/netlink_kernel.c and netlink_user.c: messages between a process and a
-- kernel module. A read or a write outside a buffer is `none`.
pub mod Life
pub mod Messages
pub mod Process
mod Tests
use clpsz_demos.Base.{
  ℕ, zero, suc, ◌-◌, ◌^◌, ◌+◌, ◌≤◌, Option, none, some, List, [], ◌∷◌, ◌++◌, Bytes, Bool, codes,
  leb, if◌then◌else◌,
}
use clpsz_demos.Base.Maybe.{◌>>=◌}
use clpsz_demos.Uart.Block.{write_bytes, read_bytes}

-- The fields of nlmsghdr that the code sets, and the bytes behind the header.
pub record Nlmsg : Type 0 where
  pub nlmsg_len : ℕ
  pub nlmsg_pid : ℕ
  pub nlmsg_type : ℕ
  pub payload : Bytes

-- g_pid as its 32 bits, and the messages given to netlink_unicast with their destinations.
pub record Module : Type 0 where
  pub g_pid : ℕ
  pub sent : List (ℕ × Nlmsg)

-- -1 when the module is loaded.
abbrev pub loaded : Module
loaded = record { g_pid = 2 ^ 32 - 1; sent = [] }

-- NLMSG_SPACE, whether alloc_skb succeeds, and the bytes that lie behind the two literals of
-- kernel_receive and behind the literal of netlink_user.c.
pub record Netlink : Type 0 where
  pub nlmsg_space : ℕ → ℕ
  -- A larger payload does not take less space.
  pub nlmsg_space_mono : (n : ℕ) → nlmsg_space 0 ≤ nlmsg_space n
  -- MAX_PAYLOAD and the header of 16 bytes.
  pub nlmsg_space_max : (n : ℕ) → n ≤ 1024 → nlmsg_space n ≤ 1040
  pub alloc_skb : Module → Bool
  pub behind_once : Bytes
  pub behind_twice : Bytes
  pub behind_user : Bytes

-- memset of n bytes.
unfoldable pub cleared : ℕ → Bytes
cleared zero = []
cleared (suc n) = 0 ∷ cleared n

-- The two messages of kernel_receive and the message of netlink_user.c.
abbrev pub got_once : Bytes
got_once = codes "Hello user, I have got your message"

abbrev pub got_twice : Bytes
got_twice = codes "Hello user, I have got your message, tell you twitce"

abbrev pub hello : Bytes
hello = codes "hello xxx"

module _ (net : Netlink) where
  -- The message that a new skb of NLMSG_SPACE(MAX_PAYLOAD) carries.
  unfoldable pub message_to_user : (buf : Bytes) (buf_len : ℕ) → Option Nlmsg
  message_to_user buf buf_len = do
    data_read ← read_bytes 0 buf_len buf
    payload ← write_bytes 0 data_read (cleared 1024)
    some (record {
      nlmsg_len = net.nlmsg_space buf_len;
      nlmsg_pid = 0;
      nlmsg_type = 0;
      payload = payload;
    })

  unfoldable pub unicast : (buf : Bytes) (buf_len : ℕ) → Module → Option Module
  unicast buf buf_len m = do
    message ← message_to_user buf buf_len
    some (record m { sent = m.sent ++ ((m.g_pid, message) ∷ []) })

  -- `g_pid < 0` is a test on an int.
  unfoldable pub nl_send_to_user : (buf : Bytes) (buf_len : ℕ) → Module → Option Module
  nl_send_to_user buf buf_len m =
      let sending = unicast buf buf_len m in
      if leb (2 ^ 31) m.g_pid then some m else if net.alloc_skb m then sending else some m

  -- The length of the skb, and the pid of its header.
  unfoldable pub note_pid : (skb_len nlmsg_pid : ℕ) → Module → Module
  note_pid skb_len nlmsg_pid m =
      if leb (net.nlmsg_space 0) skb_len then record m { g_pid = nlmsg_pid } else m

  unfoldable pub kernel_receive : (skb_len nlmsg_pid : ℕ) → Module → Option Module
  kernel_receive skb_len nlmsg_pid m = do
    told ← nl_send_to_user (got_once ++ (0 ∷ net.behind_once)) 100 (note_pid skb_len nlmsg_pid m)
    nl_send_to_user (got_twice ++ (0 ∷ net.behind_twice)) 100 told

  -- real_send on a `msg_buf` that holds `stale`: what sendto is given, header and payload.
  unfoldable pub real_send : (pid : ℕ) (stale : Bytes) (buf : Bytes) (buf_len : ℕ) → Option Nlmsg
  real_send pid stale buf buf_len = do
    data_read ← read_bytes 0 buf_len buf
    whole ← write_bytes 0 data_read stale
    payload ← read_bytes 0 (net.nlmsg_space buf_len - 16) whole
    some (record {
      nlmsg_len = net.nlmsg_space buf_len;
      nlmsg_pid = pid;
      nlmsg_type = 0;
      payload = payload;
    })

  unfoldable pub send_message : (pid : ℕ) (stale : Bytes) → Option Nlmsg
  send_message pid stale = real_send pid stale (hello ++ (0 ∷ net.behind_user)) 100
