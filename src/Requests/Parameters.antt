-- ===== src/Requests/Parameters.antt =====
-- The loop over the parameters of a request (src/requests.c) cuts the text at each separator.
use xprc_server_plugin_c.Common.{
  ℕ, zero, suc, ◌+◌, ◌-◌, ◌≤◌, ◌<◌, ◌≡◌, refl, ◌∙◌, ap, ap₂, sym, subst, Bool, true, false, ◌⊎◌,
  inl, inr, List, [], ◌∷◌, ◌++◌, arith, ◌==◌, if◌then◌else◌, length, length_bytes-append, take,
  drop, map, ◌||◌, take-append, drop-append, append-nil, append_assoc, Bool-cases,
}
use xprc_server_plugin_c.Requests.{separator, c_string, copy_substring, parameters_loop}

pub ruleset lengths = (arith, length_bytes-append)

-- The independent description: the text cut at each separator, never empty.
unfoldable pub split : List ℕ → List ℕ → List (List ℕ)
split current [] = current ∷ []
split current (ch ∷ rest) =
    if ch == separator then current ∷ split [] rest else split (current ++ ch ∷ []) rest

-- The bytes between two offsets.
pub copy_substring-middle :
    (line before current after : List ℕ) (start offset : ℕ)
    → line ≡ before ++ (current ++ after)
    → start ≡ length before
    → offset ≡ start + length current
    → copy_substring line start (offset - start) ≡ c_string current
unfolding copy_substring
copy_substring-middle line before current after start offset e s o =
    let count : offset - start ≡ length current = omega arith in
    rw (count, e, s, drop-append, take-append)

-- The text around the next byte.
pub regroup_end :
    (before current rest : List ℕ) (ch : ℕ)
    → before ++ (current ++ ch ∷ rest) ≡ (before ++ (current ++ ch ∷ [])) ++ ([] ++ rest)
regroup_end before current rest ch = simp append_assoc

pub regroup_more :
    (before current rest : List ℕ) (ch : ℕ)
    → before ++ (current ++ ch ∷ rest) ≡ before ++ ((current ++ ch ∷ []) ++ rest)
regroup_more before current rest ch = simp append_assoc

module _ (line : List ℕ) where
  -- The loop at an offset, in a parameter `current` that begins behind `before`.
  parameters_loop-split :
      (rest before current : List ℕ) (start offset : ℕ)
      → line ≡ before ++ (current ++ rest)
      → 0 < length before
      → offset ≡ length before + length current
      → (if start == 0 then offset else start) ≡ length before
      → parameters_loop line start offset rest ≡ map c_string (split current rest)
  unfolding parameters_loop split
  parameters_loop-split [] before current start offset e p o h =
      rw h (rw (copy_substring-middle line before current [] (length before) offset e refl o))
  parameters_loop-split (ch ∷ rest) before current start offset e p o h =
      elim (Bool-cases (ch == separator)) [
        | inl ends ↦
            rw (ends, h)
              (ap₂ ◌∷◌
                (copy_substring-middle line before current (ch ∷ rest) (length before) offset e refl
                  o)
                (parameters_loop-split rest (before ++ (current ++ ch ∷ [])) [] 0 (offset + 1)
                  (e ∙ regroup_end before current rest ch) (omega lengths) (omega lengths)
                  (omega lengths)))
        | inr inside ↦
            rw (inside, h)
              (parameters_loop-split rest before (current ++ ch ∷ []) (length before) (offset + 1)
                (e ∙ regroup_more before current rest ch) p (omega lengths) (ground arith))
      ]

  -- From an offset behind `before`, which is not empty, the parameters are the pieces of the rest.
  pub parameters_loop-pieces :
      (before rest : List ℕ) (offset : ℕ)
      → line ≡ before ++ rest
      → 0 < length before
      → offset ≡ length before
      → parameters_loop line 0 offset rest ≡ map c_string (split [] rest)
  parameters_loop-pieces before rest offset e p o =
      parameters_loop-split rest before [] 0 offset e p (omega arith) o

-- Text in which no byte is a separator.
unfoldable pub join : List ℕ → List (List ℕ) → List ℕ
join p [] = p
join p (q ∷ ps) = p ++ separator ∷ join q ps

abbrev pub HasNone : (ℕ → Bool) → List ℕ → Type 0
HasNone stops [] = Unit {0}
HasNone stops (c ∷ s) = (stops c ≡ false) × HasNone stops s

abbrev pub AllHaveNone : (ℕ → Bool) → List (List ℕ) → Type 0
AllHaveNone stops [] = Unit {0}
AllHaveNone stops (p ∷ ps) = HasNone stops p × AllHaveNone stops ps

-- What cannot stand in a parameter.
abbrev pub is_parameter_stop : ℕ → Bool
is_parameter_stop c = c == separator || c == 0

split-append :
    (current p rest : List ℕ)
    → HasNone is_parameter_stop p
    → split current (p ++ separator ∷ rest) ≡ (current ++ p) ∷ split [] rest
unfolding split
split-append current [] rest h = simp append-nil
split-append current (c ∷ p) rest (plain, h) =
    let inner : (c == separator) ≡ false = ground arith in
    rw inner (split-append (current ++ c ∷ []) p rest h ∙ simp append_assoc)

split-plain :
    (current p : List ℕ) → HasNone is_parameter_stop p → split current p ≡ (current ++ p) ∷ []
unfolding split
split-plain current [] h = simp append-nil
split-plain current (c ∷ p) (plain, h) =
    let inner : (c == separator) ≡ false = ground arith in
    rw inner (split-plain (current ++ c ∷ []) p h ∙ simp append_assoc)

-- Text without a zero byte is a C string.
pub c_string-plain :
    (stops : ℕ → Bool) (s : List ℕ)
    → ((c : ℕ) → stops c ≡ false → (c == 0) ≡ false)
    → HasNone stops s
    → c_string s ≡ s
unfolding c_string
c_string-plain stops [] only h = refl
c_string-plain stops (c ∷ s) only (plain, h) = rw (only c plain, c_string-plain stops s only h)

c_strings-plain : (ps : List (List ℕ)) → AllHaveNone is_parameter_stop ps → map c_string ps ≡ ps
c_strings-plain [] h = refl
c_strings-plain (p ∷ ps) (h, hs) =
    rw (c_string-plain is_parameter_stop p (λ c plain. ground arith) h, c_strings-plain ps hs)

-- Cutting undoes joining.
split-join :
    (p : List ℕ) (ps : List (List ℕ))
    → HasNone is_parameter_stop p
    → AllHaveNone is_parameter_stop ps
    → split [] (join p ps) ≡ p ∷ ps
unfolding join
split-join p [] h hs = split-plain [] p h
split-join p (q ∷ ps) h (hq, hs) =
    split-append [] p (join q ps) h ∙ ap (◌∷◌ p) (split-join q ps hq hs)

-- The C strings of the pieces of joined parameters are the parameters.
pub c_strings-join :
    (p : List ℕ) (ps : List (List ℕ))
    → HasNone is_parameter_stop p
    → AllHaveNone is_parameter_stop ps
    → map c_string (split [] (join p ps)) ≡ p ∷ ps
c_strings-join p ps h hs = rw (split-join p ps h hs) (c_strings-plain (p ∷ ps) (h, hs))
