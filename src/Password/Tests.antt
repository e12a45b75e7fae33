-- ===== src/Password/Tests.antt =====
-- Runs of src/password.c and uses of its theorems at concrete passwords.
use xprc_server_plugin_c.Common.{ℕ, ◌≡◌, refl, true, false, List, [], ◌∷◌, ◌++◌, some, codes, ◌↔◌}
use xprc_server_plugin_c.Password.Rules.{
  IsPassword, validate_password-IsPassword, generate_password-IsPassword,
}
use xprc_server_plugin_c.Password.{validate_password, generate_password, generated, from_random}

abbrev good : List ℕ
good = codes "abcDEF12-xyzXYZ89:ghi"

good_accepted : validate_password good ≡ true
unfolding validate_password
good_accepted = refl

digits_refused : validate_password (codes "12345678901234567890") ≡ false
unfolding validate_password
digits_refused = refl

validate_password-IsPassword_example : (validate_password good ≡ true) ↔ IsPassword good
validate_password-IsPassword_example = validate_password-IsPassword good

-- Random numbers that give "abcABC01-": enough of each kind, with letters up to the length.
abbrev numbers : List ℕ
numbers =
    0 ∷ 1 ∷ 2 ∷ 26 ∷ 27 ∷ 28 ∷ 52 ∷ 53 ∷ 62 ∷ 3 ∷ 4 ∷ 5 ∷ 6 ∷ 7 ∷ 8 ∷ 9 ∷ 10 ∷ 11 ∷ 12 ∷ 13 ∷ 14
    ∷ []

numbers_accepted : validate_password (from_random numbers) ≡ true
unfolding validate_password
numbers_accepted = refl

numbers-IsPassword : IsPassword (from_random numbers)
numbers-IsPassword = (validate_password-IsPassword (from_random numbers)).0 numbers_accepted

generate_password-IsPassword_example :
    (p : List ℕ) × (generate_password ((some (0 ∷ []) ∷ []) ++ some numbers ∷ []) ≡ generated p)
    × IsPassword p
generate_password-IsPassword_example =
    generate_password-IsPassword (some (0 ∷ []) ∷ []) [] numbers tt numbers-IsPassword

returned : generate_password (some (0 ∷ []) ∷ some numbers ∷ []) ≡ generated (from_random numbers)
unfolding generate_password
returned = refl
