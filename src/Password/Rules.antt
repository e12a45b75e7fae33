-- ===== src/Password/Rules.antt =====
-- `validate_password` and `generate_password` of src/password.c against the rules as counts.
use xprc_server_plugin_c.Common.{
  ℕ, ◌+◌, ◌≤◌, ◌<◌, ◌≡◌, refl, ◌↔◌, Bool, true, false, ◌&&◌, ◌||◌, not, Option, none, some, List,
  [], ◌∷◌, ◌++◌, arith, ltb, leb, if◌then◌else◌, length, Bool-cases, inl, inr,
}
use xprc_server_plugin_c.Password.{
  min_password_length, max_password_length, is_lower, is_upper, is_number, is_line_break, Counts,
  count_loop, enough, validate_password, generated, from_random, generate_loop, generate_password,
}

-- How many bytes pass a test.
unfoldable pub count : (ℕ → Bool) → List ℕ → ℕ
count p [] = 0
count p (ch ∷ s) = (if p ch then 1 else 0) + count p s

abbrev pub is_special : ℕ → Bool
is_special ch = not (is_lower ch || is_upper ch || is_number ch || is_line_break ch)

-- The rules.
pub record IsPassword (s : List ℕ) : Type 0 where
  pub long : min_password_length ≤ length s
  pub short : length s ≤ max_password_length
  pub one_line : count is_line_break s ≡ 0
  pub lower_case : 3 ≤ count is_lower s
  pub upper_case : 3 ≤ count is_upper s
  pub numbers : 2 ≤ count is_number s
  pub special : 1 ≤ count is_special s

count_loop-some :
    (c : Counts) (s : List ℕ)
    → count is_line_break s ≡ 0
    → count_loop c s
      ≡ some (record {
        lower_case = c.lower_case + count is_lower s;
        upper_case = c.upper_case + count is_upper s;
        numbers = c.numbers + count is_number s;
        special = c.special + count is_special s;
      })
unfolding count_loop count
count_loop-some c [] h = ground arith
count_loop-some c (ch ∷ s) h = ground (
  arith,
  count_loop-some (record c { lower_case = c.lower_case + 1 }) s,
  count_loop-some (record c { upper_case = c.upper_case + 1 }) s,
  count_loop-some (record c { numbers = c.numbers + 1 }) s,
  count_loop-some (record c { special = c.special + 1 }) s,
)

count_loop-none : (c : Counts) (s : List ℕ) → 0 < count is_line_break s → count_loop c s ≡ none
unfolding count_loop count
count_loop-none c [] h = absurd (omega arith)
count_loop-none c (ch ∷ s) h = ground (
  arith,
  count_loop-none (record c { lower_case = c.lower_case + 1 }) s,
  count_loop-none (record c { upper_case = c.upper_case + 1 }) s,
  count_loop-none (record c { numbers = c.numbers + 1 }) s,
  count_loop-none (record c { special = c.special + 1 }) s,
)

abbrev zeros : Counts
zeros = record { lower_case = 0; upper_case = 0; numbers = 0; special = 0 }

validate_password_lem :
    (s : List ℕ)
    → validate_password s ≡ (
        if ltb (length s) min_password_length || ltb max_password_length (length s)
        then false
        else enough (count_loop zeros s))
unfolding validate_password
validate_password_lem s = refl

validate-broken : (s : List ℕ) → 0 < count is_line_break s → validate_password s ≡ false
unfolding enough
validate-broken s h = ground (arith, validate_password_lem s, count_loop-none zeros s h)

validate-whole :
    (s : List ℕ)
    → count is_line_break s ≡ 0
    → validate_password s ≡ (
        leb min_password_length (length s)
        && leb (length s) max_password_length
        && leb 3 (count is_lower s)
        && leb 3 (count is_upper s)
        && leb 2 (count is_number s)
        && leb 1 (count is_special s))
unfolding enough
validate-whole s h = ground (arith, validate_password_lem s, count_loop-some zeros s h)

-- A password is accepted exactly if it obeys the rules on its length, line breaks and kinds of
-- characters.
pub validate_password-IsPassword : (s : List ℕ) → (validate_password s ≡ true) ↔ IsPassword s
validate_password-IsPassword s = (
  λ h. elim (Bool-cases (ltb 0 (count is_line_break s))) [
    | inl broken ↦ let no_good = validate-broken s (ground arith) in absurd (ground arith)
    | inr whole ↦
        let none_left : count is_line_break s ≡ 0 = ground arith in
        let run = validate-whole s none_left in ground arith
  ],
  λ v. ground (arith, validate-whole s v.one_line),
)

-- A loop that returns a password has checked it.
generate_loop-generated :
    (out : List ℕ) (calls : List (Option (List ℕ))) (p : List ℕ)
    → generate_loop out calls ≡ generated p
    → validate_password p ≡ true
unfolding generate_loop
generate_loop-generated out [] p h = ground arith
generate_loop-generated out (none ∷ calls) p h = ground arith
generate_loop-generated out (some r ∷ calls) p h =
    ground (arith, generate_loop-generated (from_random r) calls p)

abbrev pub AllAnswered : List (Option (List ℕ)) → Type 0
AllAnswered [] = Unit {0}
AllAnswered (none ∷ calls) = ⊥
AllAnswered (some r ∷ calls) = AllAnswered calls

generate_loop-valid :
    (out : List ℕ) (calls : List (Option (List ℕ)))
    → validate_password out ≡ true
    → generate_loop out calls ≡ generated out
unfolding generate_loop
generate_loop-valid out [] h = rw h
generate_loop-valid out (none ∷ calls) h = rw h
generate_loop-valid out (some r ∷ calls) h = rw h

generate_loop-ends :
    (out : List ℕ) (calls rest : List (Option (List ℕ))) (r : List ℕ)
    → AllAnswered calls
    → validate_password (from_random r) ≡ true
    → (p : List ℕ) × (generate_loop out (calls ++ some r ∷ rest) ≡ generated p)
unfolding generate_loop
generate_loop-ends out [] rest r h v = elim (Bool-cases (validate_password out)) [
  | inl good ↦ (out, rw good)
  | inr bad ↦ (from_random r, rw bad (generate_loop-valid (from_random r) rest v))
]
generate_loop-ends out (none ∷ calls) rest r h v = absurd h
generate_loop-ends out (some q ∷ calls) rest r h v = elim (Bool-cases (validate_password out)) [
  | inl good ↦ (out, rw good)
  | inr bad ↦ let (p, run) = generate_loop-ends (from_random q) calls rest r h v in (p, rw bad run)
]

-- Whatever the random numbers are, a password that the generation returns obeys the rules.
pub generate_password_sound :
    (calls : List (Option (List ℕ))) (p : List ℕ)
    → generate_password calls ≡ generated p
    → IsPassword p
generate_password_sound calls p run =
    (validate_password-IsPassword p).0
      (generate_loop-generated [] calls p (unfold generate_password in run))

-- The generation ends with a password that obeys the rules as soon as the random numbers, none of
-- which failed to come, give one.
pub generate_password-IsPassword :
    (calls rest : List (Option (List ℕ))) (r : List ℕ)
    → AllAnswered calls
    → IsPassword (from_random r)
    → (p : List ℕ) × (generate_password (calls ++ some r ∷ rest) ≡ generated p) × IsPassword p
generate_password-IsPassword calls rest r answered good =
    let (p, run) =
      generate_loop-ends [] calls rest r answered
        ((validate_password-IsPassword (from_random r)).1 good) in
    let returned : generate_password (calls ++ some r ∷ rest) ≡ generated p =
      unfold generate_password in run in
    (p, returned, generate_password_sound (calls ++ some r ∷ rest) p returned)
