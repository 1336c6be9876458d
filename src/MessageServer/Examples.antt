-- ===== src/MessageServer/Examples.antt =====
-- The theorems about 06/server.c at three clients.
use homework_module.Prelude.{◌≡◌, refl, [], ◌∷◌, replicate, ok, arith}
use homework_module.Prelude.Int.{pos}
use homework_module.CString.{literal}
use homework_module.MessageServer.{Registry, with_text, copied, try_parse_message, delete_client}
use homework_module.MessageServer.Clients.{registered, delete_client-registered}
use homework_module.MessageServer.Requests.{line_of, try_parse_message-line_of}

abbrev registry : Registry
registry = record { clients = pos 7 ∷ pos 8 ∷ pos 9 ∷ replicate 97 (pos 0); client_count = 3 }

delete_client-registered_example : registered (delete_client (pos 8) registry) ≡ pos 7 ∷ pos 9 ∷ []
delete_client-registered_example = delete_client-registered (pos 8) registry (omega arith)

try_parse_message-line_of_example :
    try_parse_message (record { type = pos 10; text = line_of (pos 8) (literal "hi") })
    ≡ ok (with_text (pos 8) (copied (literal "hi")))
try_parse_message-line_of_example =
    try_parse_message-line_of (pos 10) (pos 8) b'h' (literal "i") (omega arith) (refl, (refl, tt))
      (refl, (refl, tt)) (omega arith)
