-- ===== src/ForkServer/Receive.antt =====
-- The file that a child of 13/server.c receives.
use mathlib.Core.List.{append_assoc, append-nil}
use homework_module.Prelude.{
  ℕ, ◌+◌, ◌%◌, ◌^◌, ◌≤◌, ◌<◌, ◌≡◌, refl, sym, ap, ◌∙◌, false, Option, none, some, List, [], ◌∷◌,
  ◌++◌, map, ltb, length, arith, lt→ltb,
}
use homework_module.ForkServer.{save, World, done, receive_loop, write_or_exit}
use homework_module.ForkServer.Sum.{bind-done, write_or_exit-done}

abbrev pub total : List (List ℕ) → ℕ
total [] = 0
total (chunk ∷ chunks) = length chunk + total chunks

-- No chunk is empty, and each is read while the size is not reached.
abbrev pub Wanted : (size received : ℕ) → List (List ℕ) → Type 0
Wanted size received [] = Unit
Wanted size received ([] ∷ chunks) = ⊥
Wanted size received ((c ∷ cs) ∷ chunks) =
    (received < size) × Wanted size (received + length (c ∷ cs)) chunks

receive_loop-more :
    (size received c : ℕ) (cs : List ℕ) (reads : List (Option (List ℕ))) (w : World)
    → received < size
    → received + length (c ∷ cs) < 2 ^ 64
    → w.writes ≡ []
    → receive_loop size received (some (c ∷ cs) ∷ reads) w
      ≡ receive_loop size
          (received + length (c ∷ cs))
          reads
          (record w { effects = w.effects ++ save (c ∷ cs) ∷ [] })
unfolding receive_loop
receive_loop-more size received c cs reads w below fits ok_writes =
    let same : (received + length (c ∷ cs)) % 2 ^ 64 ≡ received + length (c ∷ cs) = omega arith in
    rw (lt→ltb received size below, same)
      (bind-done (write_or_exit (save (c ∷ cs)))
        (λ _. receive_loop size (received + length (c ∷ cs)) reads) w tt
        (record w { effects = w.effects ++ save (c ∷ cs) ∷ [] })
        (write_or_exit-done (save (c ∷ cs)) w ok_writes))

ltb-false : (a b : ℕ) → b ≤ a → ltb a b ≡ false
ltb-false a b h = ground arith

receive_loop-full :
    (size received : ℕ) (reads : List (Option (List ℕ))) (w : World)
    → size ≤ received
    → receive_loop size received reads w ≡ done tt (record w { reads = reads })
unfolding receive_loop
receive_loop-full size received [] w h = rw (ltb-false received size h) refl
receive_loop-full size received (none ∷ reads) w h = rw (ltb-false received size h) refl
receive_loop-full size received (some [] ∷ reads) w h = rw (ltb-false received size h) refl
receive_loop-full size received (some (c ∷ cs) ∷ reads) w h = rw (ltb-false received size h) refl

receive_loop-closed :
    (size received : ℕ) (reads : List (Option (List ℕ))) (w : World)
    → received < size
    → receive_loop size received (some [] ∷ reads) w ≡ done tt (record w { reads = reads })
unfolding receive_loop
receive_loop-closed size received reads w h = rw (lt→ltb received size h) refl

-- The chunks are saved, and the loop goes on behind them.
receive_loop-Wanted :
    (size received : ℕ) (chunks : List (List ℕ)) (reads : List (Option (List ℕ))) (w : World)
    → Wanted size received chunks
    → received + total chunks < 2 ^ 64
    → w.writes ≡ []
    → receive_loop size received (map some chunks ++ reads) w
      ≡ receive_loop size
          (received + total chunks)
          reads
          (record w { effects = w.effects ++ map save chunks })
receive_loop-Wanted size received [] reads w wanted fits ok_writes =
    ap (λ q. receive_loop size received reads (record w { effects = q }))
      (sym (append-nil w.effects))
    ∙ ap (λ n. receive_loop size n reads (record w { effects = w.effects ++ [] })) (omega arith)
receive_loop-Wanted size received ([] ∷ chunks) reads w wanted fits ok_writes = elim wanted [ ]
receive_loop-Wanted size received ((c ∷ cs) ∷ chunks) reads w (below, wanted) fits ok_writes =
    receive_loop-more size received c cs (map some chunks ++ reads) w below (omega arith) ok_writes
    ∙ receive_loop-Wanted size (received + length (c ∷ cs)) chunks reads
        (record w { effects = w.effects ++ save (c ∷ cs) ∷ [] }) wanted (omega arith) ok_writes
    ∙ ap
        (λ q.
          receive_loop size (received + length (c ∷ cs) + total chunks) reads
            (record w { effects = q }))
        (append_assoc w.effects (save (c ∷ cs) ∷ []) (map save chunks))
    ∙ ap
        (λ n.
          receive_loop size n reads
            (record w { effects = w.effects ++ map save ((c ∷ cs) ∷ chunks) }))
        (omega arith)

-- Where every `write` succeeds, the chunks that are read while the size is not reached are saved in
-- their order, and the loop ends: where they reach the size, or where the next `read` brings
-- nothing, in the same way. The sizes stay below 2 ^ 64.
pub receive_loop-saved :
    (size received : ℕ) (chunks : List (List ℕ)) (reads : List (Option (List ℕ))) (w : World)
    → Wanted size received chunks
    → received + total chunks < 2 ^ 64
    → w.writes ≡ []
    → (size ≤ received + total chunks
        → receive_loop size received (map some chunks ++ reads) w
          ≡ done tt (record w { reads = reads; effects = w.effects ++ map save chunks }))
      × (received + total chunks < size
          → receive_loop size received (map some chunks ++ some [] ∷ reads) w
            ≡ done tt (record w { reads = reads; effects = w.effects ++ map save chunks }))
receive_loop-saved size received chunks reads w wanted fits ok_writes =
    let saved = record w { effects = w.effects ++ map save chunks } in
    (
      λ enough.
          receive_loop-Wanted size received chunks reads w wanted fits ok_writes
          ∙ receive_loop-full size (received + total chunks) reads saved enough,
      λ part.
          receive_loop-Wanted size received chunks (some [] ∷ reads) w wanted fits ok_writes
          ∙ receive_loop-closed size (received + total chunks) reads saved part,
    )
