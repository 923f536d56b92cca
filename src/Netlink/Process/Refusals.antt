-- ===== src/Netlink/Process/Refusals.antt =====
-- The process of linux/netlink_socket/netlink_user.c when it gets no socket.
use clpsz_demos.Base.{ℕ, ◌≡◌, refl, ap, none, some, List, false, ◌⊎◌, inl, inr}
use clpsz_demos.Netlink.{Netlink}
use clpsz_demos.Netlink.Process.{
  Sockets, Received, Process, exited, own_addr, netlink_init_socket, main,
}

-- When socket or bind fails, the process exits, whatever would arrive, and nothing was sent or
-- printed.
main_refused :
    (net : Netlink) (os : Sockets) (before after : List Received) (p : Process)
    → (os.socket ≡ none)
      ⊎ ((sock_fd : ℕ) × (os.socket ≡ some sock_fd) × (os.bind sock_fd (own_addr os) ≡ false))
    → (q : Process) × (main os net before after p ≡ some (exited q))
      × (q.sent ≡ p.sent)
      × (q.printed ≡ p.printed)
unfolding main netlink_init_socket own_addr
main_refused net os before after p (inl no_socket) =
    let fails : netlink_init_socket os p ≡ (none, p) = rw (netlink_init_socket, no_socket) in
    (p, rw (main, fails) (ap (λ r. some (exited r.1)) fails), refl, refl)
main_refused net os before after p (inr (sock_fd, opens, no_bind)) =
    let fails : netlink_init_socket os p ≡ (none, record p { src_addr = own_addr os }) =
      rw (netlink_init_socket, opens, no_bind) in
    (
      record p { src_addr = own_addr os },
      rw (main, fails) (ap (λ r. some (exited r.1)) fails),
      refl,
      refl,
    )
