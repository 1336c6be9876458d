-- ===== src/PacketFilter/Examples.antt =====
-- Two packets at 14/main.c, of which the filter lets the second pass.
use homework_module.Prelude.{ℕ, ◌≡◌, refl, List, [], ◌∷◌, ◌++◌, map, replicate, ok, arith}
use homework_module.Prelude.Int.{pos}
use homework_module.PacketFilter.{Shown, run}
use homework_module.PacketFilter.Matches.{matching, AreShown, written, run-matching}

-- A packet from address 1 with a UDP header and the two bytes "hi".
abbrev packet_to : (dest : ℕ) → List ℕ
packet_to dest =
    replicate 12 0
    ++ (0 ∷ 0 ∷ 0 ∷ 1 ∷ 0 ∷ 0 ∷ 0 ∷ dest ∷ 0 ∷ 7 ∷ 0 ∷ 9 ∷ 0 ∷ 10 ∷ 0 ∷ 0 ∷ 104 ∷ 105 ∷ [])

abbrev two_packets : List (List ℕ)
two_packets = packet_to 3 ∷ packet_to 2 ∷ []

two_packets-matching : matching 0 2 two_packets ≡ packet_to 2 ∷ []
two_packets-matching = refl

run-matching_example :
    (all : List Shown) × (run 0 2 (map written two_packets) [] ≡ ok (pos 0, packet_to 2 ++ [], all))
    × AreShown (packet_to 2 ∷ []) all
run-matching_example = run-matching 0 2 two_packets [] (omega arith, (omega arith, tt))
