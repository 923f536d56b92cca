-- ===== src/Netlink/Tests.antt =====
-- A module that has received a message.
use clpsz_demos.Base.{
  ◌+◌, ◌*◌, ◌/◌, ◌≡◌, refl, inl, none, some, [], ◌∷◌, ◌++◌, true, false, codes, arith,
}
use clpsz_demos.Netlink.{Netlink, Module, loaded, cleared, got_once, got_twice, kernel_receive}
use clpsz_demos.Netlink.Life.{
  Life, netlink_init, netlink_exit, load, message, remove, Steps, stay, step, Sound, Steps-Polite,
}
use clpsz_demos.Netlink.Messages.{carrying, kernel_receive-leaks}

-- Behind the literals lies a secret and enough zeros.
abbrev net : Netlink
net = record {
  nlmsg_space = λ n. (n + 19) / 4 * 4;
  nlmsg_space_mono = λ n. omega arith;
  nlmsg_space_max = λ n h. omega arith;
  alloc_skb = λ m. true;
  behind_once = (codes "secret" ++ cleared 58) ++ cleared 4;
  behind_twice = cleared 47 ++ [];
  behind_user = codes "more";
}

kernel_receive-leaks_example :
    kernel_receive net 16 77 loaded
    ≡ some (record {
      g_pid = 77;
      sent =
          ((77, carrying net (got_once ++ (0 ∷ (codes "secret" ++ cleared 58)))) ∷ [])
          ++ ((77, carrying net (got_twice ++ (0 ∷ cleared 47))) ∷ []);
    })
unfolding cleared
kernel_receive-leaks_example =
    kernel_receive-leaks net (codes "secret" ++ cleared 58) (cleared 47) (cleared 4) [] 16 77 loaded
      (λ m. refl) refl refl refl refl (omega arith) (omega arith)

-- Loaded, one message, removed.
abbrev off : Life
off = record { nl_sk = none; in_kernel = false; kernel = loaded; heard = [] }

abbrev answered : Module
answered = record {
  g_pid = 77;
  sent =
      ((77, carrying net (got_once ++ (0 ∷ (codes "secret" ++ cleared 58)))) ∷ [])
      ++ ((77, carrying net (got_twice ++ (0 ∷ cleared 47))) ∷ []);
}

abbrev gone : Life
gone = record { nl_sk = none; in_kernel = false; kernel = answered; heard = 77 ∷ [] }

short_life : Steps net off gone
unfolding netlink_init netlink_exit cleared
short_life = step (load (some 4) refl) (
    step
      (message 4 16 77 refl (
        kernel_receive-leaks net (codes "secret" ++ cleared 58) (cleared 47) (cleared 4) [] 16 77
          loaded (λ m. refl) refl refl refl refl (omega arith) (omega arith)))
      (step (remove refl) stay))

Steps-Polite_example : Sound gone
Steps-Polite_example =
    Steps-Polite net short_life
      (record { socket = refl; polite = record { known = inl refl; told = tt } })
