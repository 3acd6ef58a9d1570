-- ===== src/Wire/Unique.antt =====
-- What is written in front of other bytes is known from the bytes.
use gdp.Base.{ℕ, ◌/◌, ◌%◌, ◌^◌, ◌<◌, ◌≡◌, sym, ap, ◌∙◌, arith, List, ◌∷◌, ◌++◌}
use gdp.Wire.{put32, put64}
use gdp.Wire.RoundTrip.{put32_bytes}

pub put64_halves : (v : ℕ) → put64 v ≡ put32 (v / 2 ^ 32) ++ put32 v
unfolding put64 put32
put64_halves v = ground arith

tails :
    (a b c d a' b' c' d' : ℕ) (x y : List ℕ)
    → (a ∷ b ∷ c ∷ d ∷ x) ≡ (a' ∷ b' ∷ c' ∷ d' ∷ y)
    → (a ≡ a') × (b ≡ b') × (c ≡ c') × (d ≡ d') × (x ≡ y)
tails a b c d a' b' c' d' x y e = (cc e, cc e, cc e, cc e, cc e)

pub put32_injective :
    (a b : ℕ) (x y : List ℕ) → put32 a ++ x ≡ put32 b ++ y → (a % 2 ^ 32 ≡ b % 2 ^ 32) × (x ≡ y)
put32_injective a b x y e =
    let e' : (a / 16777216 % 256 ∷ a / 65536 % 256 ∷ a / 256 % 256 ∷ a % 256 ∷ x)
        ≡ (b / 16777216 % 256 ∷ b / 65536 % 256 ∷ b / 256 % 256 ∷ b % 256 ∷ y) =
      sym (ap (λ (l : List ℕ). l ++ x) (put32_bytes a))
      ∙ e
      ∙ ap (λ (l : List ℕ). l ++ y) (put32_bytes b) in
    let (h, i, j, k, t) = tails _ _ _ _ _ _ _ _ x y e' in (omega (arith, h, i, j, k), t)

pub put64_injective :
    (a b : ℕ) (x y : List ℕ)
    → a < 2 ^ 64
    → b < 2 ^ 64
    → put64 a ++ x ≡ put64 b ++ y
    → (a ≡ b) × (x ≡ y)
unfolding put32
put64_injective a b x y ha hb e =
    let e' : put32 (a / 2 ^ 32) ++ (put32 a ++ x) ≡ put32 (b / 2 ^ 32) ++ (put32 b ++ y) =
      sym (ap (λ (l : List ℕ). l ++ x) (put64_halves a))
      ∙ e
      ∙ ap (λ (l : List ℕ). l ++ y) (put64_halves b) in
    let (high, rest) = put32_injective _ _ _ _ e' in
    let (low, t) = put32_injective _ _ _ _ rest in (omega (arith, high, low, ha, hb), t)
