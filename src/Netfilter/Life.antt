-- ===== src/Netfilter/Life.antt =====
-- The module of linux/netfilter_frame/netfilter.c as it is loaded, gets packets and is removed.
use clpsz_demos.Base.{
  All-append, ℕ, ◌+◌, ◌%◌, ◌^◌, ◌≤◌, ◌<◌, ◌≡◌, refl, ◌∙◌, Option, none, some, [], ◌∷◌, Bool, true,
  false, ltb, leb, ◌==◌, ◌||◌, ◌⊎◌, inl, inr, All, arith, Bool-cases, ltb→lt, ltb→le, leb→le,
}
use clpsz_demos.Netfilter.{
  Packet, Entry, packet_index, source_mac, register_failed, installed, removed, Module, below_20,
  hook_out, sknf_init, sknf_exit,
}

pub record World : Type 0 where
  pub loaded : Bool
  pub kernel : Module

abbrev pub succeeds : Option ℕ → Bool
succeeds none = false
succeeds (some code) = true

-- The kernel loads the module with its variables anew, and keeps it when module_init does not
-- fail; it calls the hook that is registered, and module_exit when the module is removed.
pub data Step : World → World → Type 0 where
  load :
      {w : World} (answer : ℕ)
      → w.loaded ≡ false
      → Step w (record {
        loaded = succeeds (sknf_init answer (record w.kernel { count = 0 })).0;
        kernel = (sknf_init answer (record w.kernel { count = 0 })).1;
      })
  packet :
      {w : World} (skb : Packet)
      → w.kernel.registered ≡ true
      → Step w (record w { kernel = (hook_out skb w.kernel).1 })
  remove :
      {w : World}
      → w.loaded ≡ true
      → Step w (record { loaded = false; kernel = sknf_exit w.kernel })

pub data Steps : World → World → Type 0 where
  stay : {w : World} → Steps w w
  step : {u v w : World} → Step u v → Steps v w → Steps u w

-- A number in the log is at most 20, or negative as an int.
abbrev pub Logged : Entry → Type 0
Logged (packet_index i) = (i ≤ 20) ⊎ (2 ^ 31 < i)
Logged (source_mac mac) = Unit
Logged register_failed = Unit
Logged installed = Unit
Logged removed = Unit

pub record Sound (w : World) : Type 0 where
  pub hook_in_module : w.kernel.registered ≡ w.loaded
  pub count_int : w.kernel.count < 2 ^ 32
  pub log_sound : All Logged w.kernel.log

or_right : (a b : Bool) → (a || b) ≡ true → a ≡ false → b ≡ true
or_right true b h first = ground arith
or_right false b h first = h

next_Logged :
    (count : ℕ)
    → count < 2 ^ 32
    → below_20 count ≡ true
    → Logged (packet_index ((count + 1) % 2 ^ 32))
next_Logged count int below = elim (Bool-cases (ltb count 20)) [
  | inl few ↦ inl (omega (arith, ltb→lt count 20 few))
  | inr many ↦
      let large = leb→le (2 ^ 31) count (or_right (ltb count 20) (leb (2 ^ 31) count) below many) in
      elim (Bool-cases (ltb (count + 1) (2 ^ 32))) [
        | inl fits ↦ inr (omega (arith, ltb→lt (count + 1) (2 ^ 32) fits))
        | inr wraps ↦ inl (omega (arith, ltb→le (count + 1) (2 ^ 32) wraps))
      ]
]

Step-Sound : {u v : World} → Step u v → Sound u → Sound v
unfolding sknf_init sknf_exit hook_out
Step-Sound {u} (load answer out) s = elim (Bool-cases (answer == 0)) [
  | inl fine ↦ rw fine (record {
    hook_in_module = refl;
    count_int = omega arith;
    log_sound = All-append Logged u.kernel.log (installed ∷ []) s.log_sound (tt, tt);
  })
  | inr fails ↦ rw fails (record {
    hook_in_module = s.hook_in_module ∙ out;
    count_int = omega arith;
    log_sound = All-append Logged u.kernel.log (register_failed ∷ []) s.log_sound (tt, tt);
  })
]
Step-Sound {u} (packet skb calls) s = elim (Bool-cases (below_20 u.kernel.count)) [
  | inl below ↦ rw below (record {
    hook_in_module = s.hook_in_module;
    count_int = omega arith;
    log_sound =
        All-append Logged u.kernel.log _ s.log_sound
          (next_Logged u.kernel.count s.count_int below, (tt, tt));
  })
  | inr above ↦ rw above (record {
    hook_in_module = s.hook_in_module;
    count_int = omega arith;
    log_sound = s.log_sound;
  })
]
Step-Sound {u} (remove in_kernel) s = record {
  hook_in_module = refl;
  count_int = s.count_int;
  log_sound = All-append Logged u.kernel.log (removed ∷ []) s.log_sound (tt, tt);
}

-- However often the module is loaded, gets packets and is removed, from a sound world on: the
-- kernel calls the hook only while the module is loaded, the count stays an int, and each number in
-- the log is at most 20 or negative as an int.
pub Steps-Sound : {u v : World} → Steps u v → Sound u → Sound v
Steps-Sound stay s = s
Steps-Sound (step first more) s = Steps-Sound more (Step-Sound first s)
