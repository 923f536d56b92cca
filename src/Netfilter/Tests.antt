-- ===== src/Netfilter/Tests.antt =====
-- Packets from one card, and a count that has wrapped.
use clpsz_demos.Base.{◌+◌, ◌^◌, ◌≡◌, refl, [], ◌∷◌, ◌++◌, true, false, arith, take}
use clpsz_demos.Netfilter.{
  Packet, accept, packet_index, source_mac, installed, removed, Module, hook_out, sknf_init,
  sknf_exit,
}
use clpsz_demos.Netfilter.Counting.{hook_all, entries, hook_all_lem}
use clpsz_demos.Netfilter.Life.{World, load, packet, remove, Steps, stay, step, Sound, Steps-Sound}

abbrev frame : Packet
frame = record { h_source = 0 ∷ 0x1c ∷ 0x42 ∷ 1 ∷ 2 ∷ 3 ∷ [] }

abbrev fresh : Module
fresh = record { count = 0; registered = true; log = installed ∷ [] }

hook_all_lem_example :
    ((hook_all (frame ∷ frame ∷ []) fresh).0 ≡ accept ∷ accept ∷ [])
    × ((hook_all (frame ∷ frame ∷ []) fresh).1.log
        ≡ fresh.log ++ entries 1 (take 20 (frame ∷ frame ∷ [])))
    × ((hook_all (frame ∷ frame ∷ []) fresh).1.count ≡ 2)
hook_all_lem_example = hook_all_lem (frame ∷ frame ∷ []) fresh refl (omega arith)

abbrev negative : Module
negative = record { count = 2 ^ 31; registered = true; log = [] }

-- After 2^31 packets the count is negative, and the packets are printed again.
again : (hook_out frame negative).1.log ≡ packet_index (2 ^ 31 + 1) ∷ source_mac frame.h_source ∷ []
unfolding hook_out
again = refl

abbrev outside : World
outside = record { loaded = false; kernel = record { count = 0; registered = false; log = [] } }

abbrev removed_again : World
removed_again = record {
  loaded = false;
  kernel = record {
    count = 1;
    registered = false;
    log = installed ∷ packet_index 1 ∷ source_mac frame.h_source ∷ removed ∷ [];
  };
}

one_life : Steps outside removed_again
unfolding sknf_init sknf_exit hook_out
one_life = step (load 0 refl) (step (packet frame refl) (step (remove refl) stay))

outside-Sound : Sound outside
outside-Sound = record { hook_in_module = refl; count_int = omega arith; log_sound = tt }

Steps-Sound_example : Sound removed_again
Steps-Sound_example = Steps-Sound one_life outside-Sound
