-- ===== src/EpollServer/Examples.antt =====
-- Runs of the model of 15/server.c on concrete bytes, and its theorems at them.
use homework_module.Prelude.{
  false, ℕ, ◌≡◌, refl, true, some, List, [], ◌∷◌, ◌++◌, ok, arith, replicate,
}
use homework_module.Prelude.Int.{pos, negsuc, ◌+ℤ◌}
use homework_module.CString.{literal}
use homework_module.CString.Number.{print_int, digits}
use homework_module.EpollServer.{
  Client, math_wait_b, file_receive, file_done, status_fatal, reply, save, Calls, dostuff,
  not_found,
}
use homework_module.EpollServer.Arithmetic.{sum, divide, call, int_result}
use homework_module.EpollServer.Clients.{
  Server, blank, ready, get_client_idx, remove_client, idx_loop, handle,
}
use homework_module.EpollServer.Table.{registered, remove_client-registered}
use homework_module.EpollServer.Steps.{Steps, dostuff-Steps}
use homework_module.EpollServer.Loop.{Keeps, handle-Keeps}
use homework_module.EpollServer.Session.{play, math_reply}
use homework_module.EpollServer.Upload.{play-file}

abbrev calls : Calls
calls = record { socket_ok = true; file_ok = true; mkdir_ok = true; opened = some 9; pid = 77 }

abbrev stack : List ℕ
stack = replicate 8 0

abbrev with_fd : ℕ → Client
with_fd sockfd = record blank { sockfd = sockfd }

-- Clients 5, 6 and 7, and one free place.
abbrev server : Server
server = record { clients = with_fd 5 ∷ with_fd 6 ∷ with_fd 7 ∷ blank ∷ []; nclients = 3 }

abbrev uploading : Client
uploading = record (with_fd 5) { state = file_receive; file_size = 5; fd = 9 }

abbrev dividing : Client
dividing = record (with_fd 5) { state = math_wait_b; math_a = pos 7; math_op = some divide }

play-file_example :
    play
      ((calls, stack, literal "ab") ∷ (calls, stack, literal "cde") ∷ (calls, stack, []) ∷ [])
      uploading
    ≡ ok (
      record uploading { file_received = 5; state = file_done },
      status_fatal,
      save 9 (literal "ab") ∷ save 9 (literal "cde") ∷ reply 5 not_found ∷ [],
    )
play-file_example =
    play-file calls stack (literal "ab" ∷ []) (literal "cde") [] uploading refl refl refl
      (omega arith) (omega arith) (omega arith)

dostuff-Steps_example : Steps dividing (dostuff calls stack (some (literal "0")) dividing)
dostuff-Steps_example = dostuff-Steps calls stack (some (literal "0")) dividing (λ _. refl)

handle-Keeps_example : Keeps 4 false (handle server (ready 6 calls stack (some (literal "2"))))
unfolding get_client_idx idx_loop
handle-Keeps_example =
    handle-Keeps server (ready 6 calls stack (some (literal "2")))
      (omega arith, ((λ h. h), ((λ h. h), ((λ h. h), ((λ h. h), tt)))))

remove_client-registered_example :
    (removed : Server) × (remove_client server 6 ≡ ok removed)
    × (registered removed ≡ with_fd 5 ∷ with_fd 6 ∷ [])
unfolding get_client_idx idx_loop
remove_client-registered_example = remove_client-registered server 6 1 refl

-- A sum is told in decimal digits.
sum_test : math_reply sum (pos 12) (negsuc 29) ≡ ok (literal "-18" ++ 10 ∷ [])
unfolding call int_result print_int digits ◌+ℤ◌
sum_test = refl
