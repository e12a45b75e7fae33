-- ===== src/Text/Search.antt =====
-- `strpos` and `strpos_unescaped` of src/utils.c: the first occurrence at or after an offset.
use xprc_server_plugin_c.Common.{
  ℕ, zero, suc, ◌+◌, ◌-◌, ◌≤◌, ◌<◌, ◌≡◌, refl, sym, ◌%◌, if◌then◌else◌, Bool, true, false, not,
  ◌&&◌, Option, none, some, List, [], ◌∷◌, arith, ◌==◌, ltb, leb, length, drop, ap, ◌++◌, all,
  length_bytes-append, drop-append, Bool-cases, inl, inr, subst, ==_iff,
}
use xprc_server_plugin_c.Common.Int.{pos}
use xprc_server_plugin_c.Text.{
  strn_eq, is_escaped, is_escaped_loop, strpos_loop, strpos_internal, strpos,
}

-- The number of backslashes that end the first `i` bytes of a text, of which `n` precede it.
trailing : ℕ → ℕ → List ℕ → ℕ
trailing n zero s = n
trailing n (suc i) [] = n
trailing n (suc i) (ch ∷ s) = if ch == b'\\' then trailing (n + 1) i s else trailing 0 i s

-- An escape is open at offset `i` if an odd number of backslashes stands right before it.
unfoldable pub is_open : List ℕ → ℕ → Bool
unfolding trailing
is_open s i = trailing 0 i s % 2 == 1

is_escaped_loop-trailing :
    (escaped : Bool) (n i : ℕ) (s : List ℕ)
    → escaped ≡ (n % 2 == 1)
    → is_escaped_loop escaped i s ≡ (trailing n i s % 2 == 1)
unfolding is_escaped_loop trailing
is_escaped_loop-trailing escaped n zero s same = same
is_escaped_loop-trailing escaped n (suc i) [] same = same
is_escaped_loop-trailing escaped n (suc i) (ch ∷ s) same = elim (Bool-cases (ch == b'\\')) [
  | inl slash ↦
      rw slash (is_escaped_loop-trailing (not escaped && true) (n + 1) i s (ground (arith, same)))
  | inr other ↦ rw other (is_escaped_loop-trailing (not escaped && false) 0 i s (ground arith))
]

-- `is_escaped` tells whether an escape is open.
is_escaped-is_open : (s : List ℕ) (i : ℕ) → is_escaped s i ≡ is_open s i
unfolding is_escaped is_open
is_escaped-is_open s zero = refl
is_escaped-is_open s (suc i) =
    let positive : ltb (suc i) 1 ≡ false = ground arith in
    rw positive (is_escaped_loop-trailing false 0 (suc i) s refl)

-- The needle stands at offset `i`, and not behind an open escape where these are skipped.
unfoldable pub hits : List ℕ → List ℕ → Bool → ℕ → Bool
unfolding is_open
hits haystack needle skip i =
    strn_eq (length needle) (drop i haystack) needle && not (skip && is_open haystack i)

-- The first hit from `start` on, or none at all below the bound.
abbrev pub FirstHit : (ℕ → Bool) → ℕ → ℕ → Option ℕ → Type 0
FirstHit hit start bound none = (j : ℕ) → start ≤ j → j < bound → hit j ≡ false
FirstHit hit start bound (some i) =
    (start ≤ i) × (i < bound) × (hit i ≡ true) × ((j : ℕ) → start ≤ j → j < i → hit j ≡ false)

module _ (haystack needle : List ℕ) (skip : Bool) where
  FirstHit-suc :
      (i bound : ℕ) (r : Option ℕ)
      → hits haystack needle skip i ≡ false
      → FirstHit (hits haystack needle skip) (i + 1) bound r
      → FirstHit (hits haystack needle skip) i bound r
  FirstHit-suc i bound none miss h = λ j low high. elim (Bool-cases (i == j)) [
    | inl same ↦ subst (λ k. hits haystack needle skip k ≡ false) ((==_iff i j).0 same) miss
    | inr other ↦ h j (ground arith) high
  ]
  FirstHit-suc i bound (some k) miss (low, high, hit, before) = (
    omega arith,
    high,
    hit,
    λ j low' high'. elim (Bool-cases (i == j)) [
      | inl same ↦ subst (λ k. hits haystack needle skip k ≡ false) ((==_iff i j).0 same) miss
      | inr other ↦ before j (ground arith) high'
    ],
  )

  strpos_loop-FirstHit :
      (n i bound : ℕ)
      → n ≡ bound - i
      → FirstHit (hits haystack needle skip) i bound (strpos_loop haystack needle skip n i)
  unfolding strpos_loop
  strpos_loop-FirstHit zero i bound e = λ j low high. absurd (omega arith)
  strpos_loop-FirstHit (suc n) i bound e =
      let rest = strpos_loop-FirstHit n (i + 1) bound (omega arith) in
      elim (Bool-cases (strn_eq (length needle) (drop i haystack) needle)) [
        | inr other ↦ rw other (FirstHit-suc i bound _ (unfold hits in rw other) rest)
        | inl here ↦ elim (Bool-cases (skip && is_escaped haystack i)) [
          | inl escaped ↦
              rw (here, escaped)
                (FirstHit-suc i bound _
                  (unfold hits in rw (here, sym (is_escaped-is_open haystack i), escaped)) rest)
          | inr plain ↦
              rw (here, plain)
                (
                  omega arith,
                  omega arith,
                  (unfold hits in rw (here, sym (is_escaped-is_open haystack i), plain)),
                  λ j low high. absurd (omega arith),
                )
        ]
      ]

  -- From an offset inside a string that has room for the needle, the search gives the first offset
  -- at which the needle fits, with no odd number of backslashes right before it if escapes are
  -- skipped, and -1 only if there is none.
  pub strpos_internal-FirstHit :
      (start : ℕ)
      → start < length haystack
      → length needle ≤ length haystack
      → FirstHit
          (hits haystack needle skip)
          start
          (length haystack - length needle + 1)
          (strpos_internal haystack needle (pos start) skip)
  strpos_internal-FirstHit start inside room =
      let roomy : ltb (length haystack) (length needle) ≡ false = ground arith in
      let starts : leb (length haystack) start ≡ false = ground arith in
      unfold strpos_internal in
      rw (roomy, starts)
        (strpos_loop-FirstHit (length haystack - length needle + 1 - start) start
          (length haystack - length needle + 1) refl)

-- A first hit is the only one that there can be.
pub FirstHit-unique :
    (hit : ℕ → Bool) (start bound k : ℕ) (r : Option ℕ)
    → start ≤ k
    → k < bound
    → hit k ≡ true
    → ((j : ℕ) → start ≤ j → j < k → hit j ≡ false)
    → FirstHit hit start bound r
    → r ≡ some k
FirstHit-unique hit start bound k none low high here before h = let miss = h k low high in cc
FirstHit-unique hit start bound k (some i) low high here before (li, hi, found, first) =
    elim (Bool-cases (ltb i k)) [
      | inl less ↦ let miss = before i li (ground arith) in cc
      | inr more ↦ elim (Bool-cases (ltb k i)) [
        | inl later ↦ let miss = first k low (ground arith) in cc
        | inr same ↦ ap some (ground arith)
      ]
    ]

-- The first occurrence of a character behind a text that does not have it.
module _ (ch : ℕ) (rest : List ℕ) where
  miss_before :
      (s : List ℕ) (j : ℕ)
      → all (λ c. not (c == ch)) s ≡ true
      → j < length s
      → strn_eq 1 (drop j (s ++ ch ∷ rest)) (ch ∷ []) ≡ false
  unfolding strn_eq
  miss_before [] j h k = absurd (omega arith)
  miss_before (c ∷ s) zero h k = ground arith
  miss_before (c ∷ s) (suc j) h k = miss_before s j (ground arith) (omega arith)

  pub strpos-append :
      (s : List ℕ)
      → all (λ c. not (c == ch)) s ≡ true
      → strpos (s ++ ch ∷ rest) (ch ∷ []) (pos 0) ≡ some (length s)
  strpos-append s h =
      unfold strpos in
      FirstHit-unique (hits (s ++ ch ∷ rest) (ch ∷ []) false) 0 (length (s ++ ch ∷ rest) - 1 + 1)
        (length s) _ (omega arith) (omega (arith, length_bytes-append s (ch ∷ rest)))
        (unfold hits in rw (drop-append s (ch ∷ rest)) (unfold strn_eq in ground arith))
        (λ j low high. unfold hits in rw (miss_before s j h high))
        (strpos_internal-FirstHit (s ++ ch ∷ rest) (ch ∷ []) false 0
          (omega (arith, length_bytes-append s (ch ∷ rest)))
          (omega (arith, length_bytes-append s (ch ∷ rest))))
