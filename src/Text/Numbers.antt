-- ===== src/Text/Numbers.antt =====
-- Decimal numbers: `parse_int` and its kin, and `num_digits` of src/utils.c.
use xprc_server_plugin_c.Common.{
  ℕ, ◌≤◌, Bool, all, zero, suc, ◌+◌, ◌-◌, ◌*◌, ◌/◌, ◌%◌, ◌<◌, ◌≡◌, refl, ◌∙◌, ◌↔◌, ap, true, none,
  some, List, [], ◌∷◌, arith, ltb, if◌then◌else◌, length, str_eq, str_eq_refl, str_eq_sound,
  Bool-cases, inl, inr,
}
use xprc_server_plugin_c.Common.Int.{ℤ, pos, negsuc}
use xprc_server_plugin_c.Common.Run.{ok, fault}
use xprc_server_plugin_c.Text.{
  count_digits, num_digits_loop, decimal, decimal_loop, ato, digits_value, is_digit_char, negated,
  fits, parse_integer,
}

digit_step :
    (a d : ℕ) (rest : List ℕ)
    → d < 10
    → digits_value a ((b'0' + d) ∷ rest) ≡ digits_value (a * 10 + d) rest
unfolding digits_value is_digit_char
digit_step a d rest h = let value : b'0' + d - b'0' ≡ d = omega arith in rw value (ground arith)

-- What is printed is read back, in front of any rest that follows.
digits_value-decimal_loop :
    (f n : ℕ) (rest : List ℕ) → n < f → digits_value 0 (decimal_loop f n rest) ≡ digits_value n rest
unfolding decimal_loop
digits_value-decimal_loop zero n rest h = absurd (omega arith)
digits_value-decimal_loop (suc f) n rest h = elim (Bool-cases (ltb n 10)) [
  | inl small ↦
      rw small (digit_step 0 n rest (ground arith) ∙ ap (λ m. digits_value m rest) (omega arith))
  | inr large ↦ rw large (
      digits_value-decimal_loop f (n / 10) ((b'0' + n % 10) ∷ rest) (ground arith)
      ∙ digit_step (n / 10) (n % 10) rest (omega arith)
      ∙ ap (λ m. digits_value m rest) (omega arith))
]

-- A list that begins with a digit.
abbrev StartsWithDigit : List ℕ → Type 0
StartsWithDigit [] = ⊥
StartsWithDigit (c ∷ t) = is_digit_char c ≡ true

decimal_loop-StartsWithDigit :
    (f n : ℕ) (rest : List ℕ) → StartsWithDigit rest → StartsWithDigit (decimal_loop f n rest)
unfolding decimal_loop
decimal_loop-StartsWithDigit zero n rest h = h
decimal_loop-StartsWithDigit (suc f) n rest h = elim (Bool-cases (ltb n 10)) [
  | inl small ↦ rw small (unfold is_digit_char in ground arith)
  | inr large ↦ rw large (
      decimal_loop-StartsWithDigit f (n / 10) ((b'0' + n % 10) ∷ rest)
        (unfold is_digit_char in ground arith))
]

decimal_first : (f n : ℕ) → n < f → StartsWithDigit (decimal_loop f n [])
unfolding decimal_loop
decimal_first zero n h = absurd (omega arith)
decimal_first (suc f) n h = elim (Bool-cases (ltb n 10)) [
  | inl small ↦ rw small (unfold is_digit_char in ground arith)
  | inr large ↦ rw large (
      decimal_loop-StartsWithDigit f (n / 10) ((b'0' + n % 10) ∷ [])
        (unfold is_digit_char in ground arith))
]

ato_digits : (s : List ℕ) → StartsWithDigit s → ato s ≡ pos (digits_value 0 s)
ato_digits [] h = absurd h
ato_digits (c ∷ t) h = unfold ato is_digit_char in ground arith

ato_minus : (s : List ℕ) → ato (b'-' ∷ s) ≡ negated (digits_value 0 s)
unfolding ato
ato_minus s = refl

-- The C library reads back the number that it prints.
ato-decimal : (v : ℤ) → ato (decimal v) ≡ v
ato-decimal (pos n) =
    unfold decimal in
    (ato_digits (decimal_loop (suc n) n []) (decimal_first (suc n) n (omega arith))
      ∙ ap pos
          (digits_value-decimal_loop (suc n) n [] (omega arith) ∙ (unfold digits_value in refl)))
ato-decimal (negsuc n) =
    unfold decimal in
    (ato_minus (decimal_loop (suc (suc n)) (suc n) [])
      ∙ ap negated (digits_value-decimal_loop (suc (suc n)) (suc n) [] (omega arith))
      ∙ (unfold digits_value negated in refl))

parse_integer_lem :
    (w : ℕ) (s : List ℕ)
    → parse_integer w s ≡ (
        if fits w (ato s)
        then ok (if str_eq s (decimal (ato s)) then some (ato s) else none)
        else fault)
unfolding parse_integer
parse_integer_lem w s = refl

-- At a width of `w` bits, a string yields a number exactly if it is the decimal form of a number
-- that the type can hold.
pub parse_integer-decimal :
    (w : ℕ) (s : List ℕ) (v : ℤ)
    → (parse_integer w s ≡ ok (some v)) ↔ ((s ≡ decimal v) × (fits w v ≡ true))
parse_integer-decimal w s v = (
  λ h.
      let run = parse_integer_lem w s in
      elim (Bool-cases (fits w (ato s))) [
        | inr large ↦ cc
        | inl small ↦ elim (Bool-cases (str_eq s (decimal (ato s)))) [
          | inr other ↦ let q : parse_integer w s ≡ ok none = run ∙ rw (small, other) in cc
          | inl same ↦
              let q : parse_integer w s ≡ ok (some (ato s)) = run ∙ rw (small, same) in
              let value : ato s ≡ v = cc in
              (str_eq_sound s (decimal (ato s)) same ∙ ap decimal value, rw (← value) small)
        ]
      ],
  λ (e, f). rw e (parse_integer_lem w (decimal v) ∙ rw (ato-decimal v, f, str_eq_refl (decimal v))),
)

-- `count_digits` is the number of bytes that `%d` prints for the value without its sign.
num_digits_loop-decimal_loop :
    (f n k : ℕ) (rest : List ℕ)
    → n < f
    → 0 < n
    → num_digits_loop (suc f) n k + length rest ≡ length (decimal_loop f n rest) + k
unfolding num_digits_loop decimal_loop
num_digits_loop-decimal_loop zero n k rest h p = absurd (omega arith)
num_digits_loop-decimal_loop (suc f) n k rest h p = elim (Bool-cases (ltb n 10)) [
  | inl small ↦ rw small (ground arith)
  | inr large ↦
      rw large
        (ground (arith, num_digits_loop-decimal_loop f (n / 10) (k + 1) ((b'0' + n % 10) ∷ rest)))
]

pub count_digits-decimal : (n : ℕ) → count_digits (pos n) ≡ length (decimal (pos n))
unfolding count_digits decimal
count_digits-decimal zero = refl
count_digits-decimal (suc n) =
    ground
      (arith, num_digits_loop-decimal_loop (suc (suc n)) (suc n) 0 [] (omega arith) (omega arith))

-- What holds of the digits holds of each byte of a decimal number, if it holds of the sign.
decimal_loop-all :
    (p : ℕ → Bool)
    → ((c : ℕ) → b'0' ≤ c → c ≤ b'9' → p c ≡ true)
    → (f n : ℕ) (rest : List ℕ) → all p rest ≡ true
    → all p (decimal_loop f n rest) ≡ true
unfolding decimal_loop
decimal_loop-all p digits zero n rest h = h
decimal_loop-all p digits (suc f) n rest h = elim (Bool-cases (ltb n 10)) [
  | inl small ↦ rw (small, digits (b'0' + n) (omega arith) (ground arith)) h
  | inr large ↦
      let more : all p ((b'0' + n % 10) ∷ rest) ≡ true =
        rw (digits (b'0' + n % 10) (omega arith) (omega arith)) h in
      rw large (decimal_loop-all p digits f (n / 10) ((b'0' + n % 10) ∷ rest) more)
]

pub decimal-all :
    (p : ℕ → Bool) (v : ℤ)
    → ((c : ℕ) → b'0' ≤ c → c ≤ b'9' → p c ≡ true)
    → p b'-' ≡ true
    → all p (decimal v) ≡ true
unfolding decimal
decimal-all p (pos n) digits sign = decimal_loop-all p digits (suc n) n [] refl
decimal-all p (negsuc n) digits sign =
    rw sign (decimal_loop-all p digits (suc (suc n)) (suc n) [] refl)
