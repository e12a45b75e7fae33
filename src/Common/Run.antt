-- ===== src/Common/Run.antt =====
-- Code that may run into undefined behaviour: `fault` stands for an access outside an object.

pub data Run {ℓ} (A : Type ℓ) : Type ℓ where
  fault : Run A
  ok : A → Run A

-- The second part runs where the first gave a value.
infixl 5 ◌>>=◌
abbrev pub ◌>>=◌ {ℓ} : {A B : Type ℓ} → Run A → (A → Run B) → Run B
fault >>= next = fault
ok value >>= next = next value
