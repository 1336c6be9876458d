-- ===== src/ForkServer/Client.antt =====
-- `send_file` of 13/client.c: the file's name and size, and then the file in blocks.
use homework_module.Prelude.{
  ℕ, zero, suc, ◌-◌, ◌||◌, List, [], ◌∷◌, ◌++◌, ◌==◌, if◌then◌else◌, length, take, drop, replicate,
  Run, ok, out_of_fuel, and_then,
}
use homework_module.CString.Number.Size.{print_size}

abbrev pub buffer_size : ℕ
buffer_size = 1024

-- `filename[strcspn(filename, "\n")] = '\0'`.
unfoldable pub cut_line : List ℕ → List ℕ
cut_line [] = []
cut_line (c ∷ cs) = if c == 0 || c == 10 then [] else c ∷ cut_line cs

-- `snprintf(buffer, sizeof(buffer), "%s:%zu", filename, st.st_size)` into a buffer of zeros, which
-- is sent whole.
unfoldable pub file_header : (filename : List ℕ) (size : ℕ) → List ℕ
file_header filename size =
    let text = take (buffer_size - 1) (filename ++ b':' ∷ print_size size) in
    text ++ replicate (buffer_size - length text) 0

-- The loop over the file: what is sent. A `read` of nothing sends nothing and ends it.
unfoldable pub send_loop : (fuel : ℕ) (file : List ℕ) → Run (List (List ℕ))
send_loop zero file = out_of_fuel
send_loop (suc fuel) [] = ok []
send_loop (suc fuel) (c ∷ cs) =
    and_then (send_loop fuel (drop buffer_size (c ∷ cs)))
      (λ blocks. ok (take buffer_size (c ∷ cs) ∷ blocks))

-- The pieces that the client writes, where every call succeeds.
unfoldable pub send_file : (line file : List ℕ) → Run (List (List ℕ))
unfolding cut_line file_header send_loop
send_file line file =
    and_then (send_loop (suc (length file)) file)
      (λ blocks. ok ((b'2' ∷ 0 ∷ []) ∷ file_header (cut_line line) (length file) ∷ blocks))
