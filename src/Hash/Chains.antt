-- ===== src/Hash/Chains.antt =====
-- One chain of a hash table, as a map from keys to values.
use gdp.Base.{
  ℕ, ◌≡◌, refl, arith, ap, sym, ◌∙◌, Bool, true, false, ◌&&◌, Option, none, some, List, [], ◌∷◌,
  ◌++◌, if◌then◌else◌, ◌==◌, ==_iff, get_elem?, set, Bool-cases, inl, inr, Option-cases,
}
use gdp.Hash.{Node, same_key, find_pos}

pub same_key_self : (a : List ℕ) → same_key a a ≡ true
unfolding same_key
same_key_self [] = refl
same_key_self (x ∷ xs) = ground (arith, same_key_self xs)

and_parts : (a b : Bool) → (a && b) ≡ true → (a ≡ true) × (b ≡ true)
and_parts a b h = (ground arith, ground arith)

pub same_key→eq : (a b : List ℕ) → same_key a b ≡ true → a ≡ b
unfolding same_key
same_key→eq [] [] h = refl
same_key→eq [] (y ∷ ys) h = cc
same_key→eq (x ∷ xs) [] h = cc
same_key→eq (x ∷ xs) (y ∷ ys) h =
    let (p, q) = and_parts (x == y) (same_key xs ys) h in
    rw ((==_iff x y).0 p, same_key→eq xs ys q) refl

-- Of two keys that differ, at most one is a given one.
other_key :
    (key other k : List ℕ)
    → same_key key k ≡ false
    → same_key other k ≡ true
    → same_key other key ≡ false
other_key key other k h e = elim (Bool-cases (same_key other key)) [
  | inr q ↦ q
  | inl q ↦
      let same : key ≡ k = sym (same_key→eq other key q) ∙ same_key→eq other k e in
      let equal : same_key key k ≡ true = rw same (same_key_self k) in absurd (cc (h, equal))
]

module _ {ℓ} {V : Type ℓ} where
  abbrev pub val_of : Option (Node V) → Option V
  val_of none = none
  val_of (some n) = n.val

  -- The value at a key of a chain.
  unfoldable pub chain_val : List (Node V) → List ℕ → Option V
  chain_val ns key = val_of (get_elem? ns (find_pos ns key))

  -- What `ep_hash_insert` makes of a chain.
  unfoldable pub chain_put : List (Node V) → List ℕ → Option V → List (Node V)
  chain_put ns key v = elim (get_elem? ns (find_pos ns key)) [
    | some n ↦ set ns (find_pos ns key) (record n { val = v })
    | none ↦ ns ++ (record { key = key; val = v } ∷ [])
  ]

  chain_val_cons :
      (n : Node V) (ns : List (Node V)) (key : List ℕ)
      → chain_val (n ∷ ns) key ≡ (if same_key key n.key then n.val else chain_val ns key)
  unfolding chain_val find_pos
  chain_val_cons n ns key = elim (Bool-cases (same_key key n.key)) [
    | inl p ↦ rw p refl
    | inr p ↦ rw p refl
  ]

  pub chain_put_cons :
      (n : Node V) (ns : List (Node V)) (key : List ℕ) (v : Option V)
      → chain_put (n ∷ ns) key v
        ≡ (if same_key key n.key then record n { val = v } ∷ ns else n ∷ chain_put ns key v)
  unfolding chain_put find_pos
  chain_put_cons n ns key v = elim (Bool-cases (same_key key n.key)) [
    | inl p ↦ rw (p, chain_put, p) refl
    | inr p ↦ elim (Option-cases (get_elem? ns (find_pos ns key))) [
      | inl e ↦ rw (chain_put, p, e) refl
      | inr (m, e) ↦ rw (chain_put, p, e) (rw p refl)
    ]
  ]

  chain_val_one :
      (key other : List ℕ) (v : Option V)
      → chain_val (chain_put [] key v) other
        ≡ (if same_key other key then v else chain_val [] other)
  unfolding chain_put chain_val find_pos
  chain_val_one key other v = chain_val_cons (record { key = key; val = v }) [] other

  -- An insertion changes the value at its key and no other.
  pub chain_val-chain_put :
      (ns : List (Node V)) (key other : List ℕ) (v : Option V)
      → chain_val (chain_put ns key v) other
        ≡ (if same_key other key then v else chain_val ns other)
  chain_val-chain_put [] key other v = chain_val_one key other v
  chain_val-chain_put (n ∷ ns) key other v = elim (Bool-cases (same_key key n.key)) [
    | inl p ↦
        let same : n.key ≡ key = sym (same_key→eq key n.key p) in
        let before = chain_val_cons n ns other in
        let after = chain_val_cons (record n { val = v }) ns other in
        let put : chain_put (n ∷ ns) key v ≡ record n { val = v } ∷ ns =
          chain_put_cons n ns key v ∙ rw p refl in
        ap (λ (t : List (Node V)). chain_val t other) put
        ∙ (after ∙ elim (Bool-cases (same_key other n.key)) [
          | inl q ↦ let this : same_key other key ≡ true = rw (sym same) q in rw (q, this) refl
          | inr q ↦
              let this : same_key other key ≡ false = rw (sym same) q in
              rw (q, this) (sym (before ∙ rw q refl))
        ])
    | inr p ↦
        let before = chain_val_cons n ns other in
        let after = chain_val_cons n (chain_put ns key v) other in
        let put : chain_put (n ∷ ns) key v ≡ n ∷ chain_put ns key v =
          chain_put_cons n ns key v ∙ rw p refl in
        let ih = chain_val-chain_put ns key other v in
        ap (λ (t : List (Node V)). chain_val t other) put
        ∙ (after ∙ elim (Bool-cases (same_key other n.key)) [
          | inl q ↦ rw (q, other_key key other n.key p q) (sym (before ∙ rw q refl))
          | inr q ↦ rw q (
              ih ∙ elim (Bool-cases (same_key other key)) [
                | inl r ↦ rw r refl
                | inr r ↦ rw r (sym (before ∙ rw q refl))
              ])
        ])
  ]
