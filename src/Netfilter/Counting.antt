-- ===== src/Netfilter/Counting.antt =====
-- The packets that hook_out of linux/netfilter_frame/netfilter.c prints.
use clpsz_demos.Base.{
  ℕ, suc, ◌+◌, ◌-◌, ◌%◌, ◌^◌, ◌≤◌, ◌<◌, ◌≡◌, sym, ap, ◌∙◌, List, [], ◌∷◌, ◌++◌, map, ltb, length,
  take, arith, inl, inr, Bool-cases, append_assoc, append-nil, take-nil, lt→ltb, le→ltb, lt→leb,
  ltb→lt, ltb→le,
}
use clpsz_demos.Netfilter.{
  Packet, Verdict, accept, Entry, packet_index, source_mac, Module, hook_out,
}

-- The hook on each packet in turn.
unfoldable pub hook_all : List Packet → Module → List Verdict × Module
hook_all [] m = ([], m)
hook_all (skb ∷ skbs) m =
    let now = hook_out skb m in let later = hook_all skbs now.1 in (now.0 ∷ later.0, later.1)

-- The entries of packets, with numbers from `i` on.
unfoldable pub entries : (i : ℕ) → List Packet → List Entry
entries i [] = []
entries i (skb ∷ skbs) = packet_index i ∷ source_mac skb.h_source ∷ entries (i + 1) skbs

abbrev pub accepts : List Packet → List Verdict
accepts skbs = map (λ skb. accept) skbs

abbrev with_entries : Module → ℕ → List Entry → Module
with_entries m count more = record m { count = count; log = m.log ++ more }

next_count : (n : ℕ) → n < 2 ^ 31 → (n + 1) % 2 ^ 32 ≡ n + 1
next_count n small = omega arith

hook_out-shown :
    (skb : Packet) (m : Module)
    → m.count < 20
    → hook_out skb m ≡ (
      accept,
      with_entries m (m.count + 1) (packet_index (m.count + 1) ∷ source_mac skb.h_source ∷ []),
    )
unfolding hook_out
hook_out-shown skb m early = rw (lt→ltb m.count 20 early, next_count m.count (omega arith))

hook_out-hidden :
    (skb : Packet) (m : Module)
    → 20 ≤ m.count
    → m.count < 2 ^ 31
    → hook_out skb m ≡ (accept, record m { count = m.count + 1 })
unfolding hook_out
hook_out-hidden skb m late bounded =
    rw (le→ltb m.count 20 late, lt→leb (2 ^ 31) m.count bounded, next_count m.count bounded)

with_entries-≡ :
    (m : Module) (c c' : ℕ) {l l' : List Entry}
    → c ≡ c'
    → l ≡ l'
    → record m { count = c; log = l } ≡ record m { count = c'; log = l' }
with_entries-≡ m c c' e d i = record m { count = e i; log = d i }

-- The entries of those packets that come while the count is below 20.
abbrev shown : ℕ → List Packet → List Entry
shown count skbs = entries (count + 1) (take (20 - count) skbs)

shown-nil : (count : ℕ) → shown count [] ≡ []
unfolding entries
shown-nil count = ap (entries (count + 1)) (take-nil (20 - count))

shown_early :
    (count : ℕ) (skb : Packet) (skbs : List Packet)
    → count < 20
    → packet_index (count + 1) ∷ source_mac skb.h_source ∷ shown (count + 1) skbs
      ≡ shown count (skb ∷ skbs)
unfolding entries
shown_early count skb skbs early =
    ap (λ k. entries (count + 1) (take k (skb ∷ skbs))) {x = suc (20 - (count + 1))} (omega arith)

shown_late : (count : ℕ) (skbs : List Packet) → 20 ≤ count → shown count skbs ≡ []
unfolding entries
shown_late count skbs late = ap (λ k. entries (count + 1) (take k skbs)) {y = 0} (omega arith)

hook_all_from :
    (skbs : List Packet) (m : Module)
    → m.count + length skbs ≤ 2 ^ 31
    → hook_all skbs m ≡ (accepts skbs, with_entries m (m.count + length skbs) (shown m.count skbs))
unfolding hook_all
hook_all_from [] m bounded =
    ap (λ n. ([], n))
      (with_entries-≡ m m.count (m.count + 0) (omega arith)
        (sym (ap (λ l. m.log ++ l) (shown-nil m.count) ∙ append-nil m.log)))
hook_all_from (skb ∷ skbs) m bounded = elim (Bool-cases (ltb m.count 20)) [
  | inl early ↦
      let small = ltb→lt m.count 20 early in
      let now = packet_index (m.count + 1) ∷ source_mac skb.h_source ∷ [] in
      rw
        (
          hook_out-shown skb m small,
          hook_all_from skbs (with_entries m (m.count + 1) now) (omega arith),
        )
        (ap (λ n. (accepts (skb ∷ skbs), n))
          (with_entries-≡ m (m.count + 1 + length skbs) (m.count + suc (length skbs)) (omega arith)
            (append_assoc m.log now (shown (m.count + 1) skbs)
              ∙ ap (λ l. m.log ++ l) (shown_early m.count skb skbs small))))
  | inr late ↦
      let large = ltb→le m.count 20 late in
      rw
        (
          hook_out-hidden skb m large (omega arith),
          hook_all_from skbs (record m { count = m.count + 1 }) (omega arith),
        )
        (ap (λ n. (accepts (skb ∷ skbs), n))
          (with_entries-≡ m (m.count + 1 + length skbs) (m.count + suc (length skbs)) (omega arith)
            (ap (λ l. m.log ++ l)
              (shown_late (m.count + 1) skbs (omega arith)
                ∙ sym (shown_late m.count (skb ∷ skbs) large)))))
]

-- For up to 2^31 packets from a count of 0 on, each is accepted, and the log gets the numbers from 1 on
-- and the source addresses of the first 20 packets, in the packets' order, and no more.
pub hook_all_lem :
    (skbs : List Packet) (m : Module)
    → m.count ≡ 0
    → length skbs ≤ 2 ^ 31
    → ((hook_all skbs m).0 ≡ accepts skbs)
      × ((hook_all skbs m).1.log ≡ m.log ++ entries 1 (take 20 skbs))
      × ((hook_all skbs m).1.count ≡ length skbs)
unfolding entries
hook_all_lem skbs m fresh bounded =
    let e = hook_all_from skbs m (omega arith) in
    (
      ap (λ r. r.0) e,
      ap (λ r. r.1.log) e ∙ ap (λ c. m.log ++ shown c skbs) fresh,
      ap (λ r. r.1.count) e ∙ ap (λ c. c + length skbs) fresh ∙ omega arith,
    )
