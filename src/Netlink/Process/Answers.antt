-- ===== src/Netlink/Process/Answers.antt =====
-- What the process of linux/netlink_socket/netlink_user.c prints when the module of
-- netlink_kernel.c answers it.
use clpsz_demos.Base.{ℕ, ◌-◌, some, List, [], ◌∷◌, ◌++◌, Bytes, drop, take, ◌==◌, if◌then◌else◌}
use clpsz_demos.Netlink.{Netlink, Nlmsg, hello}
use clpsz_demos.Netlink.Process.{SockaddrNl, Sockets, Received, Process, own_addr}

-- A message as the process receives it: the bytes of its header and its payload.
abbrev delivered : (kernel : SockaddrNl) (header : Nlmsg → Bytes) → Nlmsg → Received
delivered kernel header message = some (kernel, header message ++ message.payload)

abbrev pub kernel_addr : Sockets → SockaddrNl
kernel_addr os = record { nl_family = os.af_netlink; nl_pid = 0; nl_groups = 0 }

-- What of the module's messages reaches the process: those that are sent to its pid, which its
-- socket is bound to.
unfoldable pub deliveries : Sockets → (header : Nlmsg → Bytes) → List (ℕ × Nlmsg) → List Received
deliveries os header [] = []
deliveries os header ((pid, message) ∷ sent) =
    let rest = deliveries os header sent in
    if pid == os.getpid then delivered (kernel_addr os) header message ∷ rest else rest

-- The message of main, with what lies behind its literal and on the stack.
abbrev of_size : ℕ → Netlink → (pid : ℕ) (stale user : Bytes) → Nlmsg
of_size n net pid stale user = record {
  nlmsg_len = net.nlmsg_space n;
  nlmsg_pid = pid;
  nlmsg_type = 0;
  payload = take (net.nlmsg_space n - 16) ((hello ++ (0 ∷ user)) ++ drop n stale);
}

abbrev from_user : Netlink → (pid : ℕ) (stale user : Bytes) → Nlmsg
from_user net pid stale user = of_size 100 net pid stale user

-- The process when main has sent its message.
abbrev asking : Sockets → Nlmsg → Process → Process
asking os message p = record p {
  src_addr = own_addr os;
  dest_addr = kernel_addr os;
  sent = p.sent ++ (kernel_addr os, message) ∷ [];
}
