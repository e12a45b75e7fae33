-- ===== src/Network/Receiving.antt =====
-- The receiving thread of src/network.c: chunks of bytes, and the lines in them.
use xprc_server_plugin_c.Common.{
  ℕ, ◌+◌, ◌<◌, ◌≡◌, refl, ◌∙◌, sym, inl, inr, Bool, true, false, ◌||◌, List, [], ◌∷◌, ◌++◌, leb,
  ◌==◌, if◌then◌else◌, length, take, Bool-cases,
}
use xprc_server_plugin_c.Common.Run.{Run, ok, fault, ◌>>=◌}
use xprc_server_plugin_c.Network.{
  Receiver, complete_line, is_line_end, receive_chunk, receive_chunks, receive_max_line_length,
}

-- The buffer has its size, and there is room for another byte.
pub record IsValid (r : Receiver) : Type 0 where
  pub sized : length r.line_buffer ≡ receive_max_line_length
  pub room : r.line_write_offset < receive_max_line_length

-- The bytes of all chunks.
unfoldable pub concat : List (List ℕ) → List ℕ
concat [] = []
concat (chunk ∷ chunks) = chunk ++ concat chunks

bind_same :
    {A B C : Type 0} (run : Run A) (f : A → Run C) (g : A → Run B) (k : B → Run C)
    → ((a : A) → f a ≡ (g a >>= k))
    → (run >>= f) ≡ (run >>= g >>= k)
bind_same fault f g k same = refl
bind_same (ok a) f g k same = same a

module _ {S : Type 0} (on_line_received : S → List ℕ → List ℕ → Run S) (closing : S → Bool) where
  -- One chunk after another: the thread goes on unless it has given up.
  pub continue_with : List ℕ → S × Receiver × Bool → Run (S × Receiver × Bool)
  continue_with chunk (s, r, abort) =
      let next = receive_chunk on_line_received closing s r chunk in
      if abort then ok (s, r, true) else next

  closed_chunk :
      (s : S) (r : Receiver) (chunk : List ℕ)
      → closing s ≡ true
      → receive_chunk on_line_received closing s r chunk ≡ ok (s, r, false)
  unfolding receive_chunk
  closed_chunk s r [] closed = refl
  closed_chunk s r (ch ∷ chunk) closed = rw closed

  -- However the bytes are cut into chunks, the handler gets the same lines and the thread ends in
  -- the same state: one chunk is as good as its two parts after each other.
  pub receive_chunk-append :
      (s : S) (r : Receiver) (a b : List ℕ)
      → receive_chunk on_line_received closing s r (a ++ b)
        ≡ (do t ← receive_chunk on_line_received closing s r a; continue_with b t)
  unfolding receive_chunk continue_with
  receive_chunk-append s r [] b = refl
  receive_chunk-append s r (ch ∷ a) b = elim (Bool-cases (closing s)) [
    | inl closed ↦ rw closed (sym (closed_chunk s r b closed))
    | inr live ↦ elim (Bool-cases (is_line_end ch)) [
      | inl ends ↦
          rw (live, ends)
            (bind_same (complete_line on_line_received closing s r) _ _ (continue_with b)
              (λ t. receive_chunk-append t (record r { line_write_offset = 0 }) a b))
      | inr inner ↦ elim (Bool-cases (leb (length r.line_buffer) r.line_write_offset)) [
        | inl outside ↦ rw (live, inner, outside)
        | inr inside ↦ elim (Bool-cases (leb receive_max_line_length (r.line_write_offset + 1))) [
          | inl full ↦ rw (live, inner, inside, full)
          | inr room ↦ rw (live, inner, inside, room) (receive_chunk-append s _ a b)
        ]
      ]
    ]
  ]

  run_same :
      {A B : Type 0} (run : Run A) (f g : A → Run B)
      → ((a : A) → f a ≡ g a)
      → (run >>= f) ≡ (run >>= g)
  run_same fault f g same = refl
  run_same (ok a) f g same = same a

  chunk_step :
      (chunks : List (List ℕ))
      → ((s : S) (r : Receiver)
          → receive_chunks on_line_received closing s r chunks
            ≡ receive_chunk on_line_received closing s r (concat chunks))
      → (t : S × Receiver × Bool)
      → (if t.2 then ok t else receive_chunks on_line_received closing t.0 t.1 chunks)
        ≡ continue_with (concat chunks) t
  unfolding continue_with
  chunk_step chunks later (s, r, true) = refl
  chunk_step chunks later (s, r, false) = later s r

  -- The chunks one after another are as good as their bytes at once.
  pub receive_chunks-concat :
      (s : S) (r : Receiver) (chunks : List (List ℕ))
      → receive_chunks on_line_received closing s r chunks
        ≡ receive_chunk on_line_received closing s r (concat chunks)
  unfolding receive_chunks concat
  receive_chunks-concat s r [] = unfold receive_chunk in refl
  receive_chunks-concat s r (chunk ∷ chunks) = elim (Bool-cases (closing s)) [
    | inl closed ↦ rw closed (sym (closed_chunk s r (chunk ++ concat chunks) closed))
    | inr live ↦ rw live (
        run_same (receive_chunk on_line_received closing s r chunk) _
          (continue_with (concat chunks))
          (chunk_step chunks (λ t v. receive_chunks-concat t v chunks))
        ∙ sym (receive_chunk-append s r chunk (concat chunks)))
  ]

-- The lines of a stream, as a reference: a line ends at a line feed or a carriage return, and an empty
-- line is none. The first argument is what the line under way has so far. The flag tells that a line
-- came to fill the buffer; nothing behind it is read.
unfoldable pub lines_of : List ℕ → List ℕ → List (List ℕ) × Bool
lines_of line [] = ([], false)
lines_of line (ch ∷ rest) =
    let next = lines_of [] rest in
    let longer = lines_of (line ++ ch ∷ []) rest in
    if ch == 10 || ch == 13
    then (if length line == 0 then next else (line ∷ next.0, next.1))
    else if leb receive_max_line_length (length line + 1)
    then ([], true)
    else longer

-- A handler that collects the lines and never closes the connection.
abbrev pub collect : List (List ℕ) → List ℕ → List ℕ → Run (List (List ℕ))
collect lines behind line = ok (lines ++ line ∷ [])

abbrev pub never : List (List ℕ) → Bool
never lines = false

line_of : Receiver → List ℕ
line_of r = take r.line_write_offset r.line_buffer
