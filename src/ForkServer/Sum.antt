-- ===== src/ForkServer/Sum.antt =====
-- The sum that a child of 13/server.c does.
use mathlib.Core.List.{append_assoc}
use homework_module.Prelude.{
  ℕ, zero, suc, ◌+◌, ◌<◌, ◌≡◌, refl, ap, ◌∙◌, Bool, Option, some, List, [], ◌∷◌, ◌++◌, length,
  length-append, take, drop, get_or, set, ok, lt→ltb,
}
use homework_module.Prelude.Int.{ℤ}
use homework_module.CString.{c_str}
use homework_module.CString.Number.{atoi, print_int}
use homework_module.CString.Number.Decimal.{print_int-NoDelim, digit-no_end}
use homework_module.CString.Token.{NoDelim, is_end}
use homework_module.EpollServer.{str1, str2, str3, operation_of}
use homework_module.EpollServer.Arithmetic.{Operation, call}
use homework_module.ForkServer.{
  Effect, reply, World, Flow, done, do_math, choose, tell_result, result_text, print_over,
  write_or_exit, write_step, read_or_exit, read_step, ◌>>=◌, ◌>>◌,
}
use homework_module.CString.Text.{c_str-before}

NoDelim-take : (d : ℕ → Bool) (n : ℕ) (xs : List ℕ) → NoDelim d xs → NoDelim d (take n xs)
NoDelim-take d zero xs none_in = tt
NoDelim-take d (suc n) [] none_in = tt
NoDelim-take d (suc n) (x ∷ xs) (f, none_in) = (f, NoDelim-take d n xs none_in)

set-before :
    (text rest : List ℕ) (old v : ℕ) → set (text ++ old ∷ rest) (length text) v ≡ text ++ v ∷ rest
set-before [] rest old v = refl
set-before (c ∷ text) rest old v = ap (λ q. c ∷ q) (set-before text rest old v)

-- The digits that have a place, a newline, and what the buffer holds behind them.
abbrev pub cut_result : (buff : List ℕ) (room : ℕ) (result : ℤ) → List ℕ
cut_result buff room result =
    let digits = take room (print_int result) in digits ++ 10 ∷ drop (length digits + 1) buff

result_text-cut_result :
    (buff : List ℕ) (room : ℕ) (result : ℤ)
    → length (c_str buff) ≡ suc room
    → suc room < length buff
    → result_text buff result ≡ some (cut_result buff room result)
unfolding result_text
result_text-cut_result buff room result len inside =
    let digits = take room (print_int result) in
    let none_in =
      NoDelim-take is_end room (print_int result)
        (print_int-NoDelim is_end result digit-no_end refl) in
    let behind = drop (length digits + 1) buff in
    let printed : print_over buff (suc room) result ≡ digits ++ 0 ∷ behind =
      unfold print_over in
      ap (λ n. (digits ++ 0 ∷ []) ++ drop n buff) (length-append {0} digits (0 ∷ []))
      ∙ append_assoc digits (0 ∷ []) behind in
    rw (len, lt→ltb (suc room) (length buff) inside, printed)
      (ap (λ n. some (set (digits ++ 0 ∷ behind) (length n) 10))
          (c_str-before digits behind none_in)
        ∙ ap some (set-before digits behind 0 10))

-- The buffer behind a `read`.
abbrev pub seen : (buff bytes : List ℕ) → List ℕ
seen buff bytes = bytes ++ drop (length bytes) buff

pub bind-done :
    {A B : Type 0} (m : World → Flow A) (k : A → World → Flow B) (w : World) (a : A) (w' : World)
    → m w ≡ done a w'
    → (m >>= k) w ≡ k a w'
bind-done m k w a w' e = rw (e, ◌>>=◌) refl

pub write_or_exit-done :
    (effect : Effect) (w : World)
    → w.writes ≡ []
    → write_or_exit effect w ≡ done tt (record w { effects = w.effects ++ effect ∷ [] })
unfolding write_or_exit write_step
write_or_exit-done effect w e = ap (λ q. write_step effect q w) e

pub read_or_exit-done :
    (buff bytes : List ℕ) (reads : List (Option (List ℕ))) (w : World)
    → w.reads ≡ some bytes ∷ reads
    → read_or_exit buff w ≡ done (seen buff bytes) (record w { reads = reads })
unfolding read_or_exit read_step
read_or_exit-done buff bytes reads w e = ap (λ q. read_step buff q w) e

choose-some :
    (op : Operation) (a : ℤ) (buff : List ℕ) (w : World)
    → choose (some op) a buff w
      ≡ (do
        write_or_exit (reply str2)
        buff' ← read_or_exit buff
        tell_result buff' (call op a (atoi buff')))
          w
unfolding choose
choose-some op a buff w = refl

tell_result-ok :
    (buff : List ℕ) (result : ℤ) (w : World) (text : List ℕ)
    → result_text buff result ≡ some text
    → tell_result buff (ok result) w ≡ write_or_exit (reply text) w
unfolding tell_result
tell_result-ok buff result w text e = rw (e, tell_result) refl

four_effects :
    (effects : List Effect) (a b c d : Effect)
    → (((effects ++ a ∷ []) ++ b ∷ []) ++ c ∷ []) ++ d ∷ [] ≡ effects ++ a ∷ b ∷ c ∷ d ∷ []
four_effects effects a b c d = simp append_assoc

-- A child that reads a number, an operator and a number, where every `write` succeeds and the operation
-- has a result: the client gets the three prompts and then the result, but of its digits no more than
-- one less than the last buffer's text is long, a newline, and the rest of the buffer. The text of
-- that buffer is not empty and ends within it.
pub do_math-cut_result :
    (stack bytes_a bytes_op bytes_b : List ℕ) (reads : List (Option (List ℕ))) (w : World)
    (op : Operation) (room : ℕ) (result : ℤ)
    → let first = seen stack bytes_a in
      let second = seen first bytes_op in
      let last = seen second bytes_b in
      w.reads ≡ some bytes_a ∷ some bytes_op ∷ some bytes_b ∷ reads
      → w.writes ≡ []
      → operation_of (get_or second 0 0) ≡ some op
      → call op (atoi first) (atoi last) ≡ ok result
      → length (c_str last) ≡ suc room
      → suc room < length last
      → do_math stack w
        ≡ done tt (record w {
          reads = reads;
          effects =
              w.effects
              ++ reply str1 ∷ reply str3 ∷ reply str2 ∷ reply (cut_result last room result) ∷ [];
        })
unfolding do_math
do_math-cut_result stack bytes_a bytes_op bytes_b reads w op room result at_reads at_writes known
      called len inside =
    let first = seen stack bytes_a in
    let second = seen first bytes_op in
    let last = seen second bytes_b in
    let w_1 = record w { effects = w.effects ++ reply str1 ∷ [] } in
    let w_a = record w_1 { reads = some bytes_op ∷ some bytes_b ∷ reads } in
    let w_2 = record w_a { effects = w_a.effects ++ reply str3 ∷ [] } in
    let w_op = record w_2 { reads = some bytes_b ∷ reads } in
    let w_3 = record w_op { effects = w_op.effects ++ reply str2 ∷ [] } in
    let w_b = record w_3 { reads = reads } in
    bind-done (write_or_exit (reply str1)) _ w tt w_1 (write_or_exit-done (reply str1) w at_writes)
    ∙ bind-done (read_or_exit stack) _ w_1 first w_a
        (read_or_exit-done stack bytes_a (some bytes_op ∷ some bytes_b ∷ reads) w_1 at_reads)
    ∙ bind-done (write_or_exit (reply str3)) _ w_a tt w_2
        (write_or_exit-done (reply str3) w_a at_writes)
    ∙ bind-done (read_or_exit first) (λ q. choose (operation_of (get_or q 0 0)) (atoi first) q) w_2
        second w_op (read_or_exit-done first bytes_op (some bytes_b ∷ reads) w_2 refl)
    ∙ ap (λ o. choose o (atoi first) second w_op) known
    ∙ choose-some op (atoi first) second w_op
    ∙ bind-done (write_or_exit (reply str2)) _ w_op tt w_3
        (write_or_exit-done (reply str2) w_op at_writes)
    ∙ bind-done (read_or_exit second) (λ q. tell_result q (call op (atoi first) (atoi q))) w_3 last
        w_b (read_or_exit-done second bytes_b reads w_3 refl)
    ∙ ap (λ r. tell_result last r w_b) called
    ∙ tell_result-ok last result w_b (cut_result last room result)
        (result_text-cut_result last room result len inside)
    ∙ write_or_exit-done (reply (cut_result last room result)) w_b at_writes
    ∙ ap (λ q. done tt (record w { reads = reads; effects = q }))
        (four_effects w.effects (reply str1) (reply str3) (reply str2)
          (reply (cut_result last room result)))
