-- ===== src/Netlink/Process.antt =====
-- The process of linux/netlink_socket/netlink_user.c: main and its receiving thread. The thread
-- runs before the message is sent and after it; what recvfrom answers is a list for each time.
pub mod Answers
pub mod Refusals
pub mod Texts
mod Tests
use clpsz_demos.Base.{
  ℕ, Option, none, some, List, [], ◌∷◌, ◌++◌, Bytes, Bool, true, false, drop, take, if◌then◌else◌,
}
use clpsz_demos.Base.Maybe.{◌>>=◌}
use clpsz_demos.Json.Text.{text_of}
use clpsz_demos.Netlink.{Netlink, Nlmsg, send_message}
use clpsz_demos.Uart.Block.{write_bytes}

pub record SockaddrNl : Type 0 where
  pub nl_family : ℕ
  pub nl_pid : ℕ
  pub nl_groups : ℕ

-- The answers of the kernel, where none is -1; AF_NETLINK; and what the stack holds at the
-- `msg_buf` of real_send.
pub record Sockets : Type 0 where
  pub af_netlink : ℕ
  pub getpid : ℕ
  pub socket : Option ℕ
  pub bind : (sock_fd : ℕ) → SockaddrNl → Bool
  pub sendto : SockaddrNl → Nlmsg → Option ℕ
  pub stale : Bytes

-- recvfrom: the sender and the bytes, or none for -1.
abbrev pub Received : Type 0
Received = Option (SockaddrNl × Bytes)

-- The static variables but sock_fd, the `msg_buf` of the thread, the messages given to sendto
-- with their destinations, and the texts that were printed.
pub record Process : Type 0 where
  pub src_addr : SockaddrNl
  pub dest_addr : SockaddrNl
  pub msg_buf : Bytes
  pub sent : List (SockaddrNl × Nlmsg)
  pub printed : List Bytes

-- The process has exited, main has returned -1, or the thread waits for a message.
pub data Outcome : Type 0 where
  exited returned_error waiting : Process → Outcome

-- One message: recvfrom stores at most sizeof(msg_buf) bytes, and the data are printed as "%s".
unfoldable pub take_message : SockaddrNl → Bytes → Process → Option Process
take_message from_addr bytes p = do
  buf ← write_bytes 0 (take 1040 bytes) p.msg_buf
  data_text ← text_of (drop 16 buf)
  some (record p { dest_addr = from_addr; msg_buf = buf; printed = p.printed ++ data_text ∷ [] })

unfoldable pub recv_thread : List Received → Process → Option Outcome
recv_thread [] p = some (waiting p)
recv_thread (none ∷ answers) p = some (exited p)
recv_thread (some (from_addr, bytes) ∷ answers) p = do
  told ← take_message from_addr bytes p
  recv_thread answers told

module _ (os : Sockets) where
  -- The address that netlink_init_socket fills in.
  unfoldable pub own_addr : SockaddrNl
  own_addr = record { nl_family = os.af_netlink; nl_pid = os.getpid; nl_groups = 0 }

  -- The socket, or none where the process exits.
  unfoldable pub netlink_init_socket : Process → Option ℕ × Process
  netlink_init_socket p = elim os.socket [
    | none ↦ (none, p)
    | some sock_fd ↦
        if os.bind sock_fd own_addr
        then (some sock_fd, record p { src_addr = own_addr })
        else (none, record p { src_addr = own_addr })
  ]

  unfoldable pub netlink_init_dest_addr : Process → Process
  netlink_init_dest_addr p = record p {
    dest_addr = record { nl_family = os.af_netlink; nl_pid = 0; nl_groups = 0 };
  }

  -- sendto in real_send: the result, and the process with the message noted as sent.
  unfoldable pub send_to_dest : Nlmsg → Process → Option ℕ × Process
  send_to_dest message p =
      (os.sendto p.dest_addr message, record p { sent = p.sent ++ (p.dest_addr, message) ∷ [] })

  -- main when the thread has run for a while: it sends, and waits for the thread.
  unfoldable pub main_sends : Netlink → (after : List Received) → Outcome → Option Outcome
  main_sends net after (exited p) = some (exited p)
  main_sends net after (returned_error p) = some (returned_error p)
  main_sends net after (waiting p) = do
    message ← send_message net os.getpid os.stale
    let joined = recv_thread after (send_to_dest message p).1
    elim (os.sendto p.dest_addr message) [
      | none ↦ some (returned_error (send_to_dest message p).1)
      | some count ↦ joined
    ]

  unfoldable pub main : Netlink → (before after : List Received) → Process → Option Outcome
  main net before after p =
      let q = (netlink_init_socket p).1 in
      elim (netlink_init_socket p).0 [
        | none ↦ some (exited q)
        | some sock_fd ↦ do
          early ← recv_thread before (netlink_init_dest_addr q)
          main_sends net after early
      ]
