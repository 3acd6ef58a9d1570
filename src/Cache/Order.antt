-- ===== src/Cache/Order.antt =====
-- The list that `rebuild_lru_list` makes.
use gdp.Base.{
  ℕ, ◌+◌, ◌≤◌, ◌≡◌, refl, arith, Bool, true, false, Option, none, some, List, [], ◌∷◌, ◌++◌, All,
  if◌then◌else◌, ltb, bitset, Bool-cases, inl, inr,
}
use gdp.Hash.{Node, forall_chain, forall_tab}
use gdp.Cache.{Store, gobf_dropping, insert_after, insert_live, sorted_insert}

-- Most recently used first.
abbrev pub IsSorted : Store → List ℕ → Type 0
IsSorted st [] = Unit
IsSorted st (g ∷ gs) = All (λ (h : ℕ). (st h).utime ≤ (st g).utime) gs × IsSorted st gs

-- How many objects pass a test.
abbrev pub count : (ℕ → Bool) → List ℕ → ℕ
count p [] = 0
count p (g ∷ gs) = (if p g then 1 else 0) + count p gs

-- The values of a table, in the order in which `ep_hash_forall` meets them.
abbrev pub chain_vals : List (Node ℕ) → List (Option ℕ)
chain_vals [] = []
chain_vals (n ∷ ns) = n.val ∷ chain_vals ns

abbrev pub tab_vals : List (List (Node ℕ)) → List (Option ℕ)
tab_vals [] = []
tab_vals (c ∷ tab) = chain_vals c ++ tab_vals tab

-- Those that are objects not being dropped, and whether one is NULL.
abbrev pub live : Store → List (Option ℕ) → List ℕ
live st [] = []
live st (none ∷ vs) = live st vs
live st (some g ∷ vs) = if bitset gobf_dropping (st g).flags then live st vs else g ∷ live st vs

abbrev pub has_null : List (Option ℕ) → Bool
has_null [] = false
has_null (none ∷ vs) = true
has_null (some g ∷ vs) = has_null vs

All-insert_after :
    (st : Store) (P : ℕ → Type 0) (gob g2 : ℕ) (gs : List ℕ)
    → P gob
    → All P (g2 ∷ gs)
    → All P (insert_after st gob g2 gs)
unfolding insert_after
All-insert_after st P gob g2 [] h (a, u) = (a, (h, tt))
All-insert_after st P gob g2 (g3 ∷ gs) h (a, (b, u)) =
    elim (Bool-cases (ltb (st g3).utime (st gob).utime)) [
      | inl q ↦ rw q (a, (h, (b, u)))
      | inr q ↦ rw q (a, All-insert_after st P gob g3 gs h (b, u))
    ]

weaken :
    (st : Store) (a b : ℕ) (gs : List ℕ)
    → a ≤ b
    → All (λ (h : ℕ). (st h).utime ≤ a) gs
    → All (λ (h : ℕ). (st h).utime ≤ b) gs
weaken st a b [] l u = tt
weaken st a b (g ∷ gs) l (h, u) = (omega (arith, h, l), weaken st a b gs l u)

insert_after-IsSorted :
    (st : Store) (gob g2 : ℕ) (gs : List ℕ)
    → (st gob).utime ≤ (st g2).utime
    → IsSorted st (g2 ∷ gs)
    → IsSorted st (insert_after st gob g2 gs)
unfolding insert_after
insert_after-IsSorted st gob g2 [] l (a, s) = ((l, tt), (tt, tt))
insert_after-IsSorted st gob g2 (g3 ∷ gs) l ((a, b), (c, s)) =
    elim (Bool-cases (ltb (st g3).utime (st gob).utime)) [
      | inl q ↦
          let young : (st g3).utime ≤ (st gob).utime = ground (arith, q) in
          rw q ((l, (a, b)), ((young, weaken st (st g3).utime (st gob).utime gs young c), (c, s)))
      | inr q ↦
          let old : (st gob).utime ≤ (st g3).utime = ground (arith, q) in
          rw q (
            All-insert_after st (λ (h : ℕ). (st h).utime ≤ (st g2).utime) gob g3 gs l (a, b),
            insert_after-IsSorted st gob g3 gs old (c, s),
          )
    ]

pub insert_live-IsSorted :
    (st : Store) (gob : ℕ) (gs : List ℕ) → IsSorted st gs → IsSorted st (insert_live st gob gs)
unfolding insert_live
insert_live-IsSorted st gob [] s = (tt, tt)
insert_live-IsSorted st gob (g2 ∷ gs) (a, s) =
    elim (Bool-cases (ltb (st g2).utime (st gob).utime)) [
      | inl q ↦
          let young : (st g2).utime ≤ (st gob).utime = ground (arith, q) in
          rw q ((young, weaken st (st g2).utime (st gob).utime gs young a), (a, s))
      | inr q ↦
          let old : (st gob).utime ≤ (st g2).utime = ground (arith, q) in
          rw q (insert_after-IsSorted st gob g2 gs old (a, s))
    ]

count-insert_after :
    (st : Store) (p : ℕ → Bool) (gob g2 : ℕ) (gs : List ℕ)
    → count p (insert_after st gob g2 gs) ≡ count p (gob ∷ g2 ∷ gs)
unfolding insert_after
count-insert_after st p gob g2 [] = omega arith
count-insert_after st p gob g2 (g3 ∷ gs) = elim (Bool-cases (ltb (st g3).utime (st gob).utime)) [
  | inl q ↦ rw q (omega arith)
  | inr q ↦ rw q (omega (arith, count-insert_after st p gob g3 gs))
]

pub count-insert_live :
    (st : Store) (p : ℕ → Bool) (gob : ℕ) (gs : List ℕ)
    → count p (insert_live st gob gs) ≡ count p (gob ∷ gs)
unfolding insert_live
count-insert_live st p gob [] = refl
count-insert_live st p gob (g2 ∷ gs) = elim (Bool-cases (ltb (st g2).utime (st gob).utime)) [
  | inl q ↦ rw q refl
  | inr q ↦ rw q (count-insert_after st p gob g2 gs)
]

-- The insertions one after the other.
unfoldable pub inserts : Store → Option (List ℕ) → List (Option ℕ) → Option (List ℕ)
inserts st s [] = s
inserts st s (v ∷ vs) = inserts st (sorted_insert st s [] v) vs

inserts-append :
    (st : Store) (s : Option (List ℕ)) (vs ws : List (Option ℕ))
    → inserts st s (vs ++ ws) ≡ inserts st (inserts st s vs) ws
unfolding inserts
inserts-append st s [] ws = refl
inserts-append st s (v ∷ vs) ws = inserts-append st (sorted_insert st s [] v) vs ws

any_key :
    (st : Store) (s : Option (List ℕ)) (key : List ℕ) (v : Option ℕ)
    → sorted_insert st s key v ≡ sorted_insert st s [] v
unfolding sorted_insert
any_key st none key v = refl
any_key st (some l) key none = refl
any_key st (some l) key (some g) = refl

forall_chain-inserts :
    (st : Store) (s : Option (List ℕ)) (ns : List (Node ℕ))
    → forall_chain (sorted_insert st) s ns ≡ inserts st s (chain_vals ns)
unfolding forall_chain inserts
forall_chain-inserts st s [] = refl
forall_chain-inserts st s (n ∷ ns) =
    rw (any_key st s n.key n.val) (forall_chain-inserts st (sorted_insert st s [] n.val) ns)

pub forall_tab-inserts :
    (st : Store) (s : Option (List ℕ)) (tab : List (List (Node ℕ)))
    → forall_tab (sorted_insert st) s tab ≡ inserts st s (tab_vals tab)
unfolding forall_tab inserts
forall_tab-inserts st s [] = refl
forall_tab-inserts st s (c ∷ tab) =
    rw (forall_chain-inserts st s c, inserts-append st s (chain_vals c) (tab_vals tab))
      (forall_tab-inserts st (inserts st s (chain_vals c)) tab)
