-- ===== src/PacketFilter/Matches.antt =====
-- What 14/main.c writes and shows of all packets.
use mathlib.Core.List.{append_assoc, append-nil}
use homework_module.Prelude.{
  joined, ℕ, ◌-◌, ◌<◌, ◌≡◌, refl, sym, ap, ◌∙◌, Bool, true, false, ◌&&◌, ◌||◌, not, List, [], ◌∷◌,
  ◌++◌, map, ◌==◌, if◌then◌else◌, length, length-take, ok, arith,
}
use homework_module.Prelude.Int.{ℤ, pos}
use homework_module.PacketFilter.{buffer_size, address_at, skips, Shown, show, kept, received, run}
use homework_module.PacketFilter.Packet.{IsShown, show-IsShown, address_at-append}

-- A packet passes where each address that is asked for is its own.
abbrev pub is_match : (required_src required_dest : ℕ) → (packet : List ℕ) → Bool
is_match required_src required_dest packet =
    (required_src == 0 || address_at 12 packet == required_src)
    && (required_dest == 0 || address_at 16 packet == required_dest)

-- The packets that pass, each with at most its first 1023 bytes.
abbrev pub matching : (required_src required_dest : ℕ) → (packets : List (List ℕ)) → List (List ℕ)
matching required_src required_dest [] = []
matching required_src required_dest (packet ∷ packets) =
    let rest = matching required_src required_dest packets in
    if is_match required_src required_dest (kept packet) then kept packet ∷ rest else rest

abbrev pub AreShown : (packets : List (List ℕ)) → List Shown → Type 0
AreShown [] [] = Unit
AreShown (packet ∷ packets) (shown ∷ all) = IsShown packet shown × AreShown packets all
AreShown _ _ = ⊥

abbrev pub AllBytes : (packets : List (List ℕ)) → Type 0
AllBytes [] = Unit
AllBytes (packet ∷ packets) = (0 < length packet) × AllBytes packets

skips-is_match :
    (required_src required_dest : ℕ) (packet : List ℕ)
    → skips required_src required_dest (received packet)
      ≡ not (is_match required_src required_dest (kept packet))
unfolding skips received
skips-is_match required_src required_dest packet =
    let m = buffer_size - length (kept packet) in
    rw (address_at-append 12 (kept packet) m, address_at-append 16 (kept packet) m)
      (go (address_at 12 (kept packet) == required_src) (required_src == 0)
        (address_at 16 (kept packet) == required_dest) (required_dest == 0))
  where
    go : (a b c d : Bool) → ((not a && not b) || (not c && not d)) ≡ not ((b || a) && (d || c))
    go true true true true = refl
    go true true true false = refl
    go true true false true = refl
    go true true false false = refl
    go true false true true = refl
    go true false true false = refl
    go true false false true = refl
    go true false false false = refl
    go false true true true = refl
    go false true true false = refl
    go false true false true = refl
    go false true false false = refl
    go false false true true = refl
    go false false true false = refl
    go false false false true = refl
    go false false false false = refl

run-skips :
    (required_src required_dest c : ℕ) (cs : List ℕ) (packets : List (Bool × List ℕ))
    (file : List ℕ)
    → skips required_src required_dest (received (c ∷ cs)) ≡ true
    → run required_src required_dest ((true, c ∷ cs) ∷ packets) file
      ≡ run required_src required_dest packets file
unfolding run
run-skips required_src required_dest c cs packets file e = rw e refl

run-shows :
    (required_src required_dest c : ℕ) (cs : List ℕ) (packets : List (Bool × List ℕ))
    (file : List ℕ) (shown : Shown) (status : ℤ) (file' : List ℕ) (all : List Shown)
    → skips required_src required_dest (received (c ∷ cs)) ≡ false
    → show (length (kept (c ∷ cs))) (received (c ∷ cs)) ≡ ok shown
    → run required_src required_dest packets (file ++ kept (c ∷ cs)) ≡ ok (status, file', all)
    → run required_src required_dest ((true, c ∷ cs) ∷ packets) file
      ≡ ok (status, file', shown ∷ all)
unfolding run
run-shows required_src required_dest c cs packets file shown status file' all e f g =
    rw (e, f, g) refl

-- Every write works.
abbrev pub written : (packet : List ℕ) → Bool × List ℕ
written packet = (true, packet)

-- Where every write works and no packet is empty, the file grows by exactly the packets that pass, each
-- cut to 1023 bytes, in their order, and exactly these are shown: without a read behind the buffer,
-- in rows of 16 bytes that make up the packet and the zeros behind it, as text, and with the data
-- up to the end of the packet or to the length that is read in the wrong order.
pub run-matching :
    (required_src required_dest : ℕ) (packets : List (List ℕ)) (file : List ℕ)
    → AllBytes packets
    → (all : List Shown) × (run required_src required_dest (map written packets) file
        ≡ ok (pos 0, file ++ joined (matching required_src required_dest packets), all))
      × AreShown (matching required_src required_dest packets) all
run-matching required_src required_dest [] file bytes =
    ([], unfold run in ap (λ q. ok (pos 0, q, [])) (sym (append-nil file)), tt)
run-matching required_src required_dest ([] ∷ packets) file (some_byte, bytes) =
    absurd (omega arith)
run-matching required_src required_dest ((c ∷ cs) ∷ packets) file (some_byte, bytes) =
    go (is_match required_src required_dest (kept (c ∷ cs)))
      (skips-is_match required_src required_dest (c ∷ cs))
      (λ start. run-matching required_src required_dest packets start bytes)
  where
    rest : List (List ℕ)
    rest = matching required_src required_dest packets

    go :
        (match : Bool)
        → skips required_src required_dest (received (c ∷ cs)) ≡ not match
        → ((start : List ℕ)
            → (all : List Shown) × (run required_src required_dest (map written packets) start
                ≡ ok (pos 0, start ++ joined rest, all))
              × AreShown rest all)
        → (all : List Shown) × (run required_src required_dest
              (map written ((c ∷ cs) ∷ packets))
              file
            ≡ ok (pos 0, file ++ joined (if match then kept (c ∷ cs) ∷ rest else rest), all))
          × AreShown (if match then kept (c ∷ cs) ∷ rest else rest) all
    go false e later =
        let (all, f, are) = later file in
        (all, run-skips required_src required_dest c cs (map written packets) file e ∙ f, are)
    go true e later =
        let (shown, f, is) =
          show-IsShown (kept (c ∷ cs)) (omega (arith, length-take 1023 (c ∷ cs))) in
        let (all, g, are) = later (file ++ kept (c ∷ cs)) in
        (
          shown ∷ all,
          run-shows required_src required_dest c cs (map written packets) file shown (pos 0) _ all e
                (unfold received in f) g
              ∙ ap (λ q. ok (pos 0, q, shown ∷ all))
                  (append_assoc file (kept (c ∷ cs)) (joined rest)),
          (is, are),
        )
