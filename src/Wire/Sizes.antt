-- ===== src/Wire/Sizes.antt =====
-- Readers of integers on bytes that are long enough.
use gdp.Base.{
  ℕ, suc, ◌+◌, ◌≤◌, ◌≡◌, refl, arith, some, List, [], ◌∷◌, length, Option-cases, inl, inr,
}
use gdp.Wire.{get8, get16, get32}
use gdp.Wire.RoundTrip.{get32_size, get32_short}

pub get8_long :
    (xs : List ℕ) (n : ℕ)
    → suc n ≤ length xs
    → (v : ℕ) × (r : List ℕ) × (get8 xs ≡ some (v, r)) × (n ≤ length r)
unfolding get8
get8_long [] n h = absurd (omega (arith, h))
get8_long (x ∷ xs) n h = (x, xs, refl, omega (arith, h))

pub get16_long :
    (xs : List ℕ) (n : ℕ)
    → 2 + n ≤ length xs
    → (v : ℕ) × (r : List ℕ) × (get16 xs ≡ some (v, r)) × (n ≤ length r)
unfolding get16
get16_long [] n h = absurd (omega (arith, h))
get16_long (x ∷ []) n h = absurd (omega (arith, h))
get16_long (x ∷ y ∷ xs) n h = (_, xs, refl, omega (arith, h))

pub get32_long :
    (xs : List ℕ) (n : ℕ)
    → 4 + n ≤ length xs
    → (v : ℕ) × (r : List ℕ) × (get32 xs ≡ some (v, r)) × (n ≤ length r)
get32_long xs n h = elim (Option-cases (get32 xs)) [
  | inl e ↦ absurd (omega (arith, h, get32_short xs e))
  | inr (p, e) ↦ (p.0, p.1, e, omega (arith, h, get32_size xs (p.0) (p.1) e))
]

pub get8_cons : (a : ℕ) (r : List ℕ) → get8 (a ∷ r) ≡ some (a, r)
unfolding get8
get8_cons a r = refl
