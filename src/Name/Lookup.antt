-- ===== src/Name/Lookup.antt =====
-- The order in which names are looked up, and when a name is valid.
use gdp.Base.{
  ℕ, zero, suc, ◌+◌, ◌*◌, ◌≡◌, refl, arith, ap, ◌↔◌, true, false, some, List, [], ◌∷◌, ◌++◌, ◌==◌,
  ==_iff, length, replicate, Bool-cases, inl, inr,
}
use gdp.Stat.{stat_ok, stat_is_ok}
use gdp.Name.{some_word, name_is_valid, Directory, name_resolve, has_dot, try_root, name_parse}

four_zero :
    (a b c d : ℕ)
    → a + 256 * (b + 256 * (c + 256 * d)) ≡ 0
    → (up : List ℕ) → (a ∷ b ∷ c ∷ d ∷ up) ≡ (0 ∷ 0 ∷ 0 ∷ 0 ∷ up)
four_zero a b c d h up =
    let za : a ≡ 0 = omega (arith, h) in
    let zb : b ≡ 0 = omega (arith, h) in
    let zc : c ≡ 0 = omega (arith, h) in
    let zd : d ≡ 0 = omega (arith, h) in rw (za, zb, zc, zd) refl

tail_four : (a b c d : ℕ) (up r : List ℕ) → (a ∷ b ∷ c ∷ d ∷ up) ≡ (0 ∷ 0 ∷ 0 ∷ 0 ∷ r) → up ≡ r
tail_four a b c d up r e = cc

front_four :
    (a b c d : ℕ) (up r : List ℕ)
    → (a ∷ b ∷ c ∷ d ∷ up) ≡ (0 ∷ 0 ∷ 0 ∷ 0 ∷ r)
    → (a + 256 * (b + 256 * (c + 256 * d)) == 0) ≡ true
front_four a b c d up r e =
    let za : a ≡ 0 = cc in
    let zb : b ≡ 0 = cc in let zc : c ≡ 0 = cc in let zd : d ≡ 0 = cc in rw (za, zb, zc, zd) refl

no_word :
    (n : ℕ) (name : List ℕ)
    → length name ≡ n * 4
    → (some_word n name ≡ false) ↔ (name ≡ replicate (n * 4) 0)
unfolding some_word
no_word zero [] h = (λ e. refl, λ e. refl)
no_word zero (a ∷ name) h = absurd (omega (arith, h))
no_word (suc n) [] h = absurd (omega (arith, h))
no_word (suc n) (a ∷ []) h = absurd (omega (arith, h))
no_word (suc n) (a ∷ b ∷ []) h = absurd (omega (arith, h))
no_word (suc n) (a ∷ b ∷ c ∷ []) h = absurd (omega (arith, h))
no_word (suc n) (a ∷ b ∷ c ∷ d ∷ up) h =
    let size : suc n * 4 ≡ suc (suc (suc (suc (n * 4)))) = omega arith in
    let (to, from) = no_word n up (omega (arith, h)) in
    let w = a + 256 * (b + 256 * (c + 256 * d)) in
    elim (Bool-cases (w == 0)) [
      | inl z ↦
          let zero_word : w ≡ 0 = (==_iff w 0).0 z in
          rw (size, z)
            (
              λ e.
                  rw (four_zero a b c d zero_word up)
                    (ap (λ (t : List ℕ). 0 ∷ 0 ∷ 0 ∷ 0 ∷ t) (to e)),
              λ e. from (tail_four a b c d up (replicate (n * 4) 0) e),
            )
      | inr z ↦
          rw (size, z)
            (λ e. cc, λ e. absurd (cc (z, front_four a b c d up (replicate (n * 4) 0) e)))
    ]

-- A name of 32 bytes is valid unless all its bytes are 0.
pub name_is_valid_iff :
    (name : List ℕ) → length name ≡ 32 → (name_is_valid name ≡ false) ↔ (name ≡ replicate 32 0)
unfolding name_is_valid
name_is_valid_iff name h = no_word 8 name h

-- With a name root, and a name without a dot and not of 43 characters: when looking up the
-- extended name fails and the plain name is found, the plain name's bytes are given together with
-- the extended name as the name that was used.
pub name_parse_unextended :
    (dir : Directory) (hname root gname : List ℕ)
    → dir.root ≡ some root
    → has_dot hname ≡ false
    → (length hname == 43) ≡ false
    → stat_is_ok ((name_resolve dir (root ++ (b'.' ∷ hname))).0) ≡ false
    → name_resolve dir hname ≡ (stat_ok, some gname)
    → name_parse dir hname
      ≡ record { stat = stat_ok; gname = some gname; xname = some (root ++ (b'.' ∷ hname)) }
unfolding name_parse
name_parse_unextended dir hname root gname set plain short miss hit =
    simp (short, plain, set, try_root, miss, hit)
