-- ===== src/Common/Bits.antt =====
-- C's `|` and `&` on values whose bits do not meet, as arithmetic. The native operations are given
-- by a recursion on binary digits with fuel; the equations for one digit carry the rest.
use Prim.Native.Nat.{
  ℕ, zero, suc, ◌+◌, ◌*◌, ◌/◌, ◌%◌, ◌^◌, ◌≤◌, ◌<◌, ◌-◌, min, max, digits, bit_and, bit_or,
  bit_and-bitwise, bit_or-bitwise,
}
use mathlib.Core.Path.{◌≡◌, refl, ap}
use native.Mathlib.Nat.{pow-suc, one-le-pow}
use native.Mathlib.Omega.{arith}

module _ (rest : ℕ → ℕ) (join : ℕ → ℕ → ℕ) where
  -- Any fuel that covers the first number gives the same digits.
  digits_enough :
      (fuel spare x y : ℕ)
      → x ≤ fuel
      → x ≤ spare
      → digits rest join fuel x y ≡ digits rest join spare x y
  digits_enough zero zero x y p q = refl
  digits_enough zero (suc spare) zero y p q = refl
  digits_enough (suc fuel) zero zero y p q = refl
  digits_enough (suc fuel) (suc spare) zero y p q = refl
  digits_enough zero (suc spare) (suc x) y p q = absurd (ground (arith, p))
  digits_enough (suc fuel) zero (suc x) y p q = absurd (ground (arith, q))
  digits_enough (suc fuel) (suc spare) (suc x) y p q =
      let half = suc x / 2 in
      let same = digits_enough fuel spare half (y / 2) (omega arith) (omega arith) in rw same

module _ (x y : ℕ) where
  abbrev or_of_halves : ℕ
  or_of_halves = bit_or (x / 2) (y / 2)

  abbrev and_of_halves : ℕ
  and_of_halves = bit_and (x / 2) (y / 2)

bit_or_digit : (x y : ℕ) → bit_or x y ≡ or_of_halves x y * 2 + max (x % 2) (y % 2)
bit_or_digit zero y = simp bit_or-bitwise (omega arith)
bit_or_digit (suc k) y =
    let half = suc k / 2 in
    let enough = digits_enough (λ d. d) max k half half (y / 2) (omega arith) (omega arith) in
    omega (arith, bit_or-bitwise (suc k) y, bit_or-bitwise half (y / 2), enough)

bit_and_digit : (x y : ℕ) → bit_and x y ≡ and_of_halves x y * 2 + min (x % 2) (y % 2)
bit_and_digit zero y = simp bit_and-bitwise (omega arith)
bit_and_digit (suc k) y =
    let half = suc k / 2 in
    let enough = digits_enough (λ d. 0) min k half half (y / 2) (omega arith) (omega arith) in
    omega (arith, bit_and-bitwise (suc k) y, bit_and-bitwise half (y / 2), enough)

bit_or-zero_below : (n a : ℕ) → a ≤ n → bit_or a 0 ≡ a
bit_or-zero_below n zero h = refl
bit_or-zero_below zero (suc a) h = absurd (omega arith)
bit_or-zero_below (suc n) (suc a) h =
    omega (arith, bit_or_digit (suc a) 0, bit_or-zero_below n (suc a / 2) (omega arith))

bit_and-zero_below : (fuel x : ℕ) → x ≤ fuel → bit_and x 0 ≡ 0
bit_and-zero_below n zero h = refl
bit_and-zero_below zero (suc a) h = absurd (omega arith)
bit_and-zero_below (suc n) (suc a) h =
    omega (arith, bit_and_digit (suc a) 0, bit_and-zero_below n (suc a / 2) (omega arith))

-- `(q << k) | r` for an `r` of k bits.
pub bit_or-shifted : (k q r : ℕ) → r < 2 ^ k → bit_or (q * 2 ^ k) r ≡ q * 2 ^ k + r
bit_or-shifted zero q r h = ground (arith, bit_or-zero_below q q (omega arith))
bit_or-shifted (suc k) q r h = ground (
  arith,
  bit_or_digit (q * 2 ^ suc k) r,
  ap (λ (t : ℕ). q * t) (pow-suc 2 k),
  pow-suc 2 k,
  bit_or-shifted k q (r / 2) (omega arith),
)

-- `x & (2^k - 1)`
pub bit_and-ones : (k q r : ℕ) → r < 2 ^ k → bit_and (q * 2 ^ k + r) (2 ^ k - 1) ≡ r
bit_and-ones zero q r h = ground (arith, bit_and-zero_below (q + r) (q + r) (omega arith))
bit_and-ones (suc k) q r h = ground (
  arith,
  bit_and_digit (q * 2 ^ suc k + r) (2 ^ suc k - 1),
  ap (λ (t : ℕ). q * t) (pow-suc 2 k),
  pow-suc 2 k,
  one-le-pow k 2,
  bit_and-ones k q (r / 2) (omega arith),
)

pub bit_or-six : (q r : ℕ) → r < 64 → bit_or (q * 64) r ≡ q * 64 + r
bit_or-six q r h = bit_or-shifted 6 q r h

pub bit_and-six : (a : ℕ) → bit_and a 63 ≡ a % 64
bit_and-six a = ground (arith, bit_and-ones 6 (a / 64) (a % 64))
