-- ===== src/FileIo/Lines.antt =====
-- `split_lines` and `join_lines` of src/fileio.c: what the lines of a text are, and that joining is undone.
use xprc_server_plugin_c.Common.{
  ℕ, ◌≡◌, ◌≢◌, ◌⊎◌, refl, ◌∙◌, sym, ap, inl, inr, arith, Bool, true, false, ◌&&◌, List, [], ◌∷◌,
  ◌++◌, ◌==◌, if◌then◌else◌, all, not, append_assoc, append-nil, codes, Bool-cases,
}
use xprc_server_plugin_c.FileIo.{is_line_break, join_lines, split_lines, split_loop}

-- Text without line breaks.
abbrev pub IsLine : List ℕ → Type 0
IsLine s = all (λ ch. not (is_line_break ch)) s ≡ true

-- What ends a line on one of the systems.
abbrev pub IsLineEnd : List ℕ → Type 0
IsLineEnd line_end = (line_end ≡ codes "\n") ⊎ (line_end ≡ codes "\r\n")

abbrev pub are_lines : List (List ℕ) → Bool
are_lines lines = all (λ line. all (λ ch. not (is_line_break ch)) line) lines

-- A list of lines, at least one.
abbrev pub AreLines : List (List ℕ) → Type 0
AreLines lines = (lines ≢ []) × (are_lines lines ≡ true)

split_loop-line :
    (start line rest : List ℕ)
    → IsLine line
    → split_loop false start (line ++ rest) ≡ split_loop false (start ++ line) rest
unfolding split_loop
split_loop-line start [] rest h = rw (append-nil start)
split_loop-line start (ch ∷ line) rest h =
    let inner : is_line_break ch ≡ false = ground arith in
    let later : IsLine line = ground arith in
    rw inner
      (split_loop-line (start ++ ch ∷ []) line rest later ∙ rw (append_assoc start (ch ∷ []) line))

split_loop-line_end :
    (line_end line rest : List ℕ)
    → IsLineEnd line_end
    → split_loop false line (line_end ++ rest) ≡ line ∷ split_loop false [] rest
unfolding split_loop is_line_break
split_loop-line_end line_end line rest (inl e) = rw e
split_loop-line_end line_end line rest (inr e) = rw e

split_loop-join_lines :
    (line_end : List ℕ) (line : List ℕ) (lines : List (List ℕ))
    → IsLineEnd line_end
    → are_lines (line ∷ lines) ≡ true
    → split_loop false [] (join_lines line_end (line ∷ lines)) ≡ line ∷ lines
unfolding join_lines
split_loop-join_lines line_end line [] ends h =
    let plain : IsLine line = ground arith in
    ap (λ s. split_loop false [] s) (sym (append-nil line))
    ∙ split_loop-line [] line [] plain
    ∙ unfold split_loop in refl
split_loop-join_lines line_end line (next ∷ lines) ends h =
    let plain : IsLine line = ground arith in
    let later : are_lines (next ∷ lines) ≡ true = ground arith in
    split_loop-line [] line (line_end ++ join_lines line_end (next ∷ lines)) plain
    ∙ split_loop-line_end line_end line (join_lines line_end (next ∷ lines)) ends
    ∙ ap (◌∷◌ line) (split_loop-join_lines line_end next lines ends later)

-- A list of lines that is not empty is read back from the text that joins it with either line end.
pub split_lines-join_lines :
    (line_end : List ℕ) (lines : List (List ℕ))
    → IsLineEnd line_end
    → AreLines lines
    → split_lines (join_lines line_end lines) ≡ lines
unfolding split_lines
split_lines-join_lines line_end [] ends (some_line, plain) = absurd (some_line refl)
split_lines-join_lines line_end (line ∷ lines) ends (some_line, plain) =
    split_loop-join_lines line_end line lines ends plain

pub all-append :
    (p : ℕ → Bool) (xs ys : List ℕ) → all p xs ≡ true → all p ys ≡ true → all p (xs ++ ys) ≡ true
all-append p [] ys h k = k
all-append p (x ∷ xs) ys h k = let more = all-append p xs ys in ground arith

split_loop-AreLines :
    (after_cr : Bool) (line s : List ℕ) → IsLine line → AreLines (split_loop after_cr line s)
unfolding split_loop
split_loop-AreLines after_cr line [] h = (λ e. cc, rw h)
split_loop-AreLines after_cr line (ch ∷ s) h = elim (Bool-cases (after_cr && (ch == b'\n'))) [
  | inl skipped ↦ rw skipped (split_loop-AreLines false line s h)
  | inr taken ↦ elim (Bool-cases (is_line_break ch)) [
    | inl ends ↦ rw (taken, ends) (λ e. cc, rw h (split_loop-AreLines (ch == b'\r') [] s refl).1)
    | inr inner ↦
        let single : IsLine (ch ∷ []) = rw inner in
        rw (taken, inner)
          (split_loop-AreLines false (line ++ ch ∷ []) s
            (all-append (λ c. not (is_line_break c)) line (ch ∷ []) h single))
  ]
]

-- The text with each of its line breaks, that is a carriage return and a line feed, or one of them
-- alone, as a line feed. The flag tells that a carriage return is right before the text.
unfoldable pub with_line_feeds : Bool → List ℕ → List ℕ
with_line_feeds after_cr [] = []
with_line_feeds after_cr (ch ∷ s) =
    let behind = with_line_feeds true s in
    let skipped = with_line_feeds false s in
    if ch == 13 then 10 ∷ behind else if after_cr && (ch == 10) then skipped else ch ∷ skipped

-- Joining puts a line feed behind the first of several lines.
join-line :
    (line : List ℕ) (lines : List (List ℕ))
    → lines ≢ []
    → join_lines (codes "\n") (line ∷ lines) ≡ line ++ (10 ∷ join_lines (codes "\n") lines)
unfolding join_lines
join-line line [] some_line = absurd (some_line refl)
join-line line (next ∷ lines) some_line = refl

split_loop-filled : (after_cr : Bool) (line s : List ℕ) → split_loop after_cr line s ≢ []
unfolding split_loop
split_loop-filled after_cr line [] = λ e. cc
split_loop-filled after_cr line (ch ∷ s) = elim (Bool-cases (after_cr && (ch == 10))) [
  | inl skipped ↦ rw skipped (split_loop-filled false line s)
  | inr taken ↦ elim (Bool-cases (is_line_break ch)) [
    | inl ends ↦ rw (taken, ends) (λ e. cc)
    | inr inner ↦ rw (taken, inner) (split_loop-filled false (line ++ ch ∷ []) s)
  ]
]

-- The four kinds of bytes, in the loop and in the text with line feeds.
step_return :
    (after_cr : Bool) (line s : List ℕ)
    → (split_loop after_cr line (13 ∷ s) ≡ line ∷ split_loop true [] s)
      × (with_line_feeds after_cr (13 ∷ s) ≡ 10 ∷ with_line_feeds true s)
unfolding split_loop with_line_feeds is_line_break
step_return after_cr line s = (ground arith, refl)

step_skipped :
    (line s : List ℕ)
    → (split_loop true line (10 ∷ s) ≡ split_loop false line s)
      × (with_line_feeds true (10 ∷ s) ≡ with_line_feeds false s)
unfolding split_loop with_line_feeds
step_skipped line s = (refl, refl)

step_feed :
    (line s : List ℕ)
    → (split_loop false line (10 ∷ s) ≡ line ∷ split_loop false [] s)
      × (with_line_feeds false (10 ∷ s) ≡ 10 ∷ with_line_feeds false s)
unfolding split_loop with_line_feeds is_line_break
step_feed line s = (refl, refl)

step_inner :
    (after_cr : Bool) (line s : List ℕ) (ch : ℕ)
    → is_line_break ch ≡ false
    → (split_loop after_cr line (ch ∷ s) ≡ split_loop false (line ++ ch ∷ []) s)
      × (with_line_feeds after_cr (ch ∷ s) ≡ ch ∷ with_line_feeds false s)
unfolding split_loop with_line_feeds is_line_break
step_inner after_cr line s ch inner = (ground arith, ground arith)

join_lines-split_loop :
    (after_cr : Bool) (line s : List ℕ)
    → join_lines (codes "\n") (split_loop after_cr line s) ≡ line ++ with_line_feeds after_cr s
join_lines-split_loop after_cr line [] =
    unfold split_loop join_lines with_line_feeds in sym (append-nil line)
join_lines-split_loop after_cr line (ch ∷ s) = elim (Bool-cases (ch == 13)) [
  | inl return ↦
      let same : ch ≡ 13 = ground arith in
      let (split, text) = step_return after_cr line s in
      rw (same, split, text)
        (join-line line (split_loop true [] s) (split_loop-filled true [] s)
          ∙ rw (join_lines-split_loop true [] s))
  | inr other ↦ elim (Bool-cases (ch == 10)) [
    | inl feed ↦
        let same : ch ≡ 10 = ground arith in
        elim (Bool-cases after_cr) [
          | inl skipped ↦
              let (split, text) = step_skipped line s in
              rw (same, skipped, split, text) (join_lines-split_loop false line s)
          | inr broken ↦
              let (split, text) = step_feed line s in
              rw (same, broken, split, text)
                (join-line line (split_loop false [] s) (split_loop-filled false [] s)
                  ∙ rw (join_lines-split_loop false [] s))
        ]
    | inr inner ↦
        let plain : is_line_break ch ≡ false = unfold is_line_break in ground arith in
        let (split, text) = step_inner after_cr line s ch plain in
        rw (split, text)
          (join_lines-split_loop false (line ++ ch ∷ []) s
            ∙ append_assoc line (ch ∷ []) (with_line_feeds false s))
  ]
]

-- Any text splits into at least one line, the lines have no line breaks, and joined with line feeds
-- they are the text with each of its line breaks replaced by a line feed.
pub split_lines-AreLines :
    (s : List ℕ)
    → AreLines (split_lines s) × (join_lines (codes "\n") (split_lines s) ≡ with_line_feeds false s)
unfolding split_lines
split_lines-AreLines s = (split_loop-AreLines false [] s refl, join_lines-split_loop false [] s)
