-- ===== src/Netlink/Process/Tests.antt =====
-- A process and a module that has just been loaded.
use clpsz_demos.Base.{ℕ, ◌+◌, ◌*◌, ◌/◌, Option, some, [], ◌++◌, Bytes, true, codes, arith}
use clpsz_demos.Netlink.{Netlink, Nlmsg, cleared}
use clpsz_demos.Netlink.Process.{Sockets, Process}

abbrev net : Netlink
net = record {
  nlmsg_space = λ n. (n + 19) / 4 * 4;
  nlmsg_space_mono = λ n. omega arith;
  nlmsg_space_max = λ n h. omega arith;
  alloc_skb = λ m. true;
  behind_once = cleared 64 ++ [];
  behind_twice = cleared 47 ++ codes "rest";
  behind_user = cleared 90 ++ [];
}

abbrev os : (socket : Option ℕ) → Sockets
os socket = record {
  af_netlink = 16;
  getpid = 77;
  socket = socket;
  bind = λ sock_fd addr. true;
  sendto = λ addr message. some 116;
  stale = cleared 1024;
}

abbrev started : Process
started = record {
  src_addr = record { nl_family = 0; nl_pid = 0; nl_groups = 0 };
  dest_addr = record { nl_family = 0; nl_pid = 0; nl_groups = 0 };
  msg_buf = cleared 1040;
  sent = [];
  printed = [];
}

abbrev header : Nlmsg → Bytes
header message = cleared 16
