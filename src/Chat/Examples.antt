-- ===== src/Chat/Examples.antt =====
-- A first line "hi" at the client of 07/, which the client receives itself.
use homework_module.Prelude.{ℕ, ◌≡◌, refl, List, [], ◌∷◌, ◌++◌}
use homework_module.CString.{literal}
use homework_module.Chat.{started, cut_line, Reach, here}
use homework_module.Chat.Turns.{IsTurn, Reach-IsTurn}
use homework_module.Chat.Heard.{heard, Reach-heard}

abbrev hi : List ℕ
hi = literal "hi" ++ 10 ∷ []

hi-Reach : Reach (heard hi started)
hi-Reach = Reach-heard hi started here refl refl

hi-shown : (heard hi started).client_shows ≡ literal "hi" ∷ []
unfolding cut_line
hi-shown = refl

Reach-IsTurn_example : IsTurn (heard hi started)
Reach-IsTurn_example = Reach-IsTurn (heard hi started) hi-Reach

Reach-heard_example : Reach (heard (literal "you" ++ 10 ∷ []) (heard hi started))
Reach-heard_example = Reach-heard (literal "you" ++ 10 ∷ []) (heard hi started) hi-Reach refl refl
