-- ===== src/Netlink/Life.antt =====
-- netlink_init and netlink_exit of linux/netlink_socket/netlink_kernel.c, and the module as the
-- kernel loads it, hands it messages and removes it.
use clpsz_demos.Base.{
  ℕ, ◌^◌, ◌<◌, ◌≡◌, refl, Option, none, some, List, [], ◌∷◌, ◌++◌, Bool, true, false, ◌⊎◌, inl, inr,
  All, All-append, Bytes, arith, leb, if◌then◌else◌, Bool-cases, Option-cases, ap, sym,
}
use mathlib.Core.Path.{subst}
use mathlib.Core.List.{Mem, mem-cons_self, mem-cons_of_mem}
use clpsz_demos.Netlink.{
  Netlink, Module, Nlmsg, loaded, note_pid, unicast, nl_send_to_user, kernel_receive, got_once,
  got_twice, message_to_user,
}

-- The module with the socket of nl_sk until it is released, whether it is in the kernel, and the pids in the headers
-- of the messages that it was handed, of those that were long enough for a header.
pub record Life : Type 0 where
  pub nl_sk : Option ℕ
  pub in_kernel : Bool
  pub kernel : Module
  pub heard : List ℕ

-- `created` is what netlink_kernel_create returns; `none` is -1.
unfoldable pub netlink_init : (created : Option ℕ) → Life → Option ℕ × Life
netlink_init none w = (none, record w { nl_sk = none })
netlink_init (some sk) w = (some 0, record w { nl_sk = some sk })

unfoldable pub netlink_exit : Life → Life
netlink_exit w = record w { nl_sk = none }

abbrev pub succeeds : Option ℕ → Bool
succeeds none = false
succeeds (some code) = true

-- The variables of the module as it is loaded.
abbrev pub anew : Life → Life
anew w = record w { nl_sk = none; kernel = record w.kernel { g_pid = loaded.g_pid } }

module _ (net : Netlink) where
  abbrev pub noted : (skb_len nlmsg_pid : ℕ) → List ℕ → List ℕ
  noted skb_len nlmsg_pid heard =
      if leb (net.nlmsg_space 0) skb_len then nlmsg_pid ∷ heard else heard

  -- The kernel loads the module with its variables anew, and keeps it when module_init does not
  -- fail; it hands it the messages to its socket, and calls module_exit when it is removed.
  pub data Step : Life → Life → Type 0 where
    load :
        {w : Life} (created : Option ℕ)
        → w.in_kernel ≡ false
        → Step w (record (netlink_init created (anew w)).1 {
          in_kernel = succeeds (netlink_init created (anew w)).0;
        })
    message :
        {w : Life} {m : Module} (sk skb_len nlmsg_pid : ℕ)
        → w.nl_sk ≡ some sk
        → kernel_receive net skb_len nlmsg_pid w.kernel ≡ some m
        → Step w (record w { kernel = m; heard = noted skb_len nlmsg_pid w.heard })
    remove :
        {w : Life} → w.in_kernel ≡ true → Step w (record (netlink_exit w) { in_kernel = false })

  pub data Steps : Life → Life → Type 0 where
    stay : {w : Life} → Steps w w
    step : {u v w : Life} → Step u v → Steps v w → Steps u w

-- A message that went to a pid that was heard and is not negative.
abbrev pub ToldTo : (heard : List ℕ) → ℕ × Nlmsg → Type 0
ToldTo heard (pid, message_to) = (pid < 2 ^ 31) × Mem pid heard

-- g_pid is -1 or a pid that was heard, and what was sent went to a pid that was heard and is not
-- negative.
pub record Polite (heard : List ℕ) (m : Module) : Type 0 where
  pub known : (m.g_pid ≡ loaded.g_pid) ⊎ Mem m.g_pid heard
  pub told : All (ToldTo heard) m.sent

-- The socket is there while the module is in the kernel.
pub record Sound (w : Life) : Type 0 where
  pub socket : succeeds w.nl_sk ≡ w.in_kernel
  pub polite : Polite w.heard w.kernel

-- What one call may send.
Tells : (m n : Module) → Type 0
Tells m n =
    (n.sent ≡ m.sent)
    ⊎ ((message : Nlmsg) × (n.sent ≡ m.sent ++ (m.g_pid, message) ∷ []) × (m.g_pid < 2 ^ 31))

some_module : (d : Module) → Option Module → Module
some_module d none = d
some_module d (some m) = m

one_module : (m n : Module) → some m ≡ some n → n ≡ m
unfolding some_module
one_module m n same = sym (ap (some_module m) same)

leb→lt : (n : ℕ) → leb (2 ^ 31) n ≡ false → n < 2 ^ 31
leb→lt n h = ground arith

module _ (net : Netlink) where
  nl_send_to_user-Tells :
      (buf : Bytes) (buf_len : ℕ) (m n : Module)
      → nl_send_to_user net buf buf_len m ≡ some n
      → (n.g_pid ≡ m.g_pid) × Tells m n
  unfolding nl_send_to_user unicast Tells
  nl_send_to_user-Tells buf buf_len m n runs = elim (Bool-cases (leb (2 ^ 31) m.g_pid)) [
    | inl none_yet ↦
        let same = one_module m n (rw none_yet at runs) in
        (ap (λ (t : Module). t.g_pid) same, inl (ap (λ (t : Module). t.sent) same))
    | inr heard ↦ elim (Bool-cases (net.alloc_skb m)) [
      | inr no_skb ↦
          let same = one_module m n (rw (heard, no_skb) at runs) in
          (ap (λ (t : Module). t.g_pid) same, inl (ap (λ (t : Module). t.sent) same))
      | inl skb ↦ elim (Option-cases (message_to_user net buf buf_len)) [
        | inl outside ↦
            let no : ◌≡◌ {A = Option Module} none (some n) = rw (heard, skb, outside) at runs in
            absurd (ground arith)
        | inr (carried, built) ↦
            let same =
              one_module (record m { sent = m.sent ++ (m.g_pid, carried) ∷ [] }) n
                (rw (heard, skb, built) at runs) in
            (
              ap (λ (t : Module). t.g_pid) same,
              inr (carried, ap (λ (t : Module). t.sent) same, leb→lt m.g_pid heard),
            )
      ]
    ]
  ]

Tells-Polite :
    (heard : List ℕ) (m n : Module)
    → n.g_pid ≡ m.g_pid
    → Tells m n
    → Polite heard m
    → Polite heard n
unfolding Tells
Tells-Polite heard m n same (inl nothing) p = record {
  known = subst (λ (g : ℕ). (g ≡ loaded.g_pid) ⊎ Mem g heard) (sym same) p.known;
  told = subst (All (ToldTo heard)) (sym nothing) p.told;
}
Tells-Polite heard m n same (inr (carried, more, low)) p =
    let here : Mem m.g_pid heard = elim p.known [ inl unset ↦ absurd (omega arith) | inr h ↦ h ] in
    record {
      known = subst (λ (g : ℕ). (g ≡ loaded.g_pid) ⊎ Mem g heard) (sym same) p.known;
      told =
          subst (All (ToldTo heard)) (sym more)
            (All-append (ToldTo heard) m.sent ((m.g_pid, carried) ∷ []) p.told ((low, here), tt));
    }

told_more :
    (pid : ℕ) (heard : List ℕ) (sent : List (ℕ × Nlmsg))
    → All (ToldTo heard) sent
    → All (ToldTo (pid ∷ heard)) sent
told_more pid heard [] told = tt
told_more pid heard (s ∷ sent) told =
    ((told.0.0, mem-cons_of_mem pid told.0.1), told_more pid heard sent told.1)

module _ (net : Netlink) where
  note_pid-Polite :
      (skb_len pid : ℕ) (heard : List ℕ) (m : Module)
      → Polite heard m
      → Polite (noted net skb_len pid heard) (note_pid net skb_len pid m)
  unfolding note_pid
  note_pid-Polite skb_len pid heard m p = elim (Bool-cases (leb (net.nlmsg_space 0) skb_len)) [
    | inl long ↦
        rw long (record { known = inr mem-cons_self; told = told_more pid heard m.sent p.told })
    | inr short ↦ rw short p
  ]

  kernel_receive-Polite :
      (skb_len pid : ℕ) (heard : List ℕ) (m n : Module)
      → kernel_receive net skb_len pid m ≡ some n
      → Polite heard m
      → Polite (noted net skb_len pid heard) n
  unfolding kernel_receive
  kernel_receive-Polite skb_len pid heard m n runs p =
      let first =
        nl_send_to_user net (got_once ++ (0 ∷ net.behind_once)) 100 (note_pid net skb_len pid m) in
      elim (Option-cases first) [
        | inl undefined ↦
            let no : ◌≡◌ {A = Option Module} none (some n) = rw undefined at runs in
            absurd (ground arith)
        | inr (told, sends) ↦
            let (same1, tells1) = nl_send_to_user-Tells net _ 100 _ told sends in
            let (same2, tells2) =
              nl_send_to_user-Tells net (got_twice ++ (0 ∷ net.behind_twice)) 100 told n
                (rw sends at runs) in
            Tells-Polite _ told n same2 tells2 (
              Tells-Polite _ (note_pid net skb_len pid m) told same1 tells1
                (note_pid-Polite skb_len pid heard m p))
      ]

  Step-Sound : {w v : Life} → Step net w v → Sound w → Sound v
  unfolding netlink_init netlink_exit
  Step-Sound {w} (load none out) s = record {
    socket = refl;
    polite = record { known = inl refl; told = s.polite.told };
  }
  Step-Sound {w} (load (some sk) out) s = record {
    socket = refl;
    polite = record { known = inl refl; told = s.polite.told };
  }
  Step-Sound {w} (message {m} sk skb_len pid listens runs) s = record {
    socket = s.socket;
    polite = kernel_receive-Polite skb_len pid w.heard w.kernel m runs s.polite;
  }
  Step-Sound {w} (remove here) s = record { socket = refl; polite = s.polite }

  -- However often the module is loaded, gets messages and is removed, from a sound state on: it
  -- has its socket just while it is in the kernel, g_pid is -1 or a pid that stood in the header
  -- of a message to it, and every message that it sent went to such a pid that is not negative
  -- as an int.
  pub Steps-Polite : {w v : Life} → Steps net w v → Sound w → Sound v
  Steps-Polite stay s = s
  Steps-Polite (step first more) s = Steps-Polite more (Step-Sound first s)
