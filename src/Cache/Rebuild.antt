-- ===== src/Cache/Rebuild.antt =====
-- `rebuild_lru_list` on any table: what it makes, and when it fails.
use gdp.Base.{
  ==_self, ◌==◌, ◌≤◌, ℕ, zero, suc, ◌+◌, ◌<◌, ◌≡◌, refl, arith, ◌∙◌, Bool, true, false, Option,
  none, some, List, [], ◌∷◌, ◌++◌, bitset, length, get_or, set, Bool-cases, Option-cases, inl, inr,
}
use mathlib.Core.Path.{subst}
use gdp.Hash.{
  Node, Table, same_key, chain_of, set_chain, find_node_ptr, ep_hash_search, ep_hash_delete,
}
use gdp.Hash.Chains.{chain_put, chain_put_cons}
use gdp.Hash.Laws.{IsTable, get_or-set, insert_chain, delete_found, search_missing}
use gdp.Cache.{Store, gobf_dropping, in_list, insert_live, sorted_insert, rebuild_lru_list}
use gdp.Cache.Order.{
  IsSorted, count, chain_vals, tab_vals, live, has_null, inserts, forall_tab-inserts,
  insert_live-IsSorted, count-insert_live,
}

-- An object that is counted 0 times is not in the list.
in_list-count : (g : ℕ) (gs : List ℕ) → count (λ x. x == g) gs ≡ 0 → in_list g gs ≡ false
unfolding in_list
in_list-count g [] h = refl
in_list-count g (x ∷ xs) h = elim (Bool-cases (x == g)) [
  | inl p ↦
      let one : suc (count (λ y. y == g) xs) ≡ 0 = ground (arith, h, p) in
      absurd (omega (arith, one))
  | inr p ↦ rw p (in_list-count g xs (ground (arith, h, p)))
]

-- No object twice in the two lists.
abbrev IsOnce : List ℕ → List ℕ → Type 0
IsOnce xs ys = (g : ℕ) → count (λ x. x == g) xs + count (λ x. x == g) ys ≤ 1

inserts_good :
    (st : Store) (lru : List ℕ) (vs : List (Option ℕ))
    → IsSorted st lru
    → has_null vs ≡ false
    → IsOnce lru (live st vs)
    → (l : List ℕ) × (inserts st (some lru) vs ≡ some l)
      × IsSorted st l
      × ((p : ℕ → Bool) → count p l ≡ count p lru + count p (live st vs))
unfolding inserts sorted_insert
inserts_good st lru [] s h o = (lru, refl, s, λ p. omega arith)
inserts_good st lru (none ∷ vs) s h o = cc
inserts_good st lru (some g ∷ vs) s h o = elim (Bool-cases (bitset gobf_dropping (st g).flags)) [
  | inl d ↦
      let kept : live st (some g ∷ vs) ≡ live st vs = rw d refl in
      let (l, e, t, c) = inserts_good st lru vs s h (subst (IsOnce lru) kept o) in
      (l, rw d e, t, λ p. rw d (c p))
  | inr d ↦
      let kept : live st (some g ∷ vs) ≡ g ∷ live st vs = rw d refl in
      let once : IsOnce lru (g ∷ live st vs) = subst (IsOnce lru) kept o in
      let own : count (λ x. x == g) (g ∷ live st vs) ≡ suc (count (λ x. x == g) (live st vs)) =
        rw (==_self g) (omega arith) in
      let away : in_list g lru ≡ false = in_list-count g lru (omega (arith, once g, own)) in
      let once1 : IsOnce (insert_live st g lru) (live st vs) =
        λ x. omega (arith, once x, count-insert_live st (λ y. y == x) g lru) in
      let (l, e, t, c) =
        inserts_good st (insert_live st g lru) vs (insert_live-IsSorted st g lru s) h once1 in
      (l, rw (d, away) e, t, λ p. rw d (omega (arith, c p, count-insert_live st p g lru)))
]

null_stays : (st : Store) (vs : List (Option ℕ)) → inserts st none vs ≡ none
unfolding inserts sorted_insert
null_stays st [] = refl
null_stays st (v ∷ vs) = null_stays st vs

inserts_null :
    (st : Store) (lru : List ℕ) (vs : List (Option ℕ))
    → has_null vs ≡ true
    → inserts st (some lru) vs ≡ none
unfolding inserts sorted_insert
inserts_null st lru [] h = cc
inserts_null st lru (none ∷ vs) h = null_stays st vs
inserts_null st lru (some g ∷ vs) h = elim (Bool-cases (bitset gobf_dropping (st g).flags)) [
  | inl d ↦ rw d (inserts_null st lru vs h)
  | inr d ↦ elim (Bool-cases (in_list g lru)) [
    | inl i ↦ rw (d, i) (null_stays st vs)
    | inr i ↦ rw (d, i) (inserts_null st (insert_live st g lru) vs h)
  ]
]

-- When no value of the table is NULL, and it holds no object that is not being dropped twice, the list is
-- made: it is sorted, most recently used first, and holds each object of the table that is not being
-- dropped once, and no other.
pub rebuild_lru_list-IsSorted :
    (st : Store) (hp : Table ℕ)
    → has_null (tab_vals hp.tab) ≡ false
    → ((g : ℕ) → count (λ x. x == g) (live st (tab_vals hp.tab)) ≤ 1)
    → (l : List ℕ) × (rebuild_lru_list st hp ≡ some l)
      × IsSorted st l
      × ((p : ℕ → Bool) → count p l ≡ count p (live st (tab_vals hp.tab)))
unfolding rebuild_lru_list
rebuild_lru_list-IsSorted st hp h once =
    let (l, e, s, c) = inserts_good st [] (tab_vals hp.tab) tt h (λ g. omega (arith, once g)) in
    (l, forall_tab-inserts st (some []) hp.tab ∙ e, s, λ p. omega (arith, c p))

has_null_left : (vs ws : List (Option ℕ)) → has_null vs ≡ true → has_null (vs ++ ws) ≡ true
has_null_left [] ws h = cc
has_null_left (none ∷ vs) ws h = refl
has_null_left (some g ∷ vs) ws h = has_null_left vs ws h

has_null_right : (vs ws : List (Option ℕ)) → has_null ws ≡ true → has_null (vs ++ ws) ≡ true
has_null_right [] ws h = h
has_null_right (none ∷ vs) ws h = refl
has_null_right (some g ∷ vs) ws h = has_null_right vs ws h

has_null_at :
    (tab : List (List (Node ℕ))) (i : ℕ)
    → has_null (chain_vals (get_or tab i [])) ≡ true
    → has_null (tab_vals tab) ≡ true
has_null_at [] i h = cc
has_null_at (c ∷ tab) zero h = has_null_left (chain_vals c) (tab_vals tab) h
has_null_at (c ∷ tab) (suc i) h = has_null_right (chain_vals c) (tab_vals tab) (has_null_at tab i h)

has_null_cons :
    (n : Node ℕ) (ns : List (Node ℕ))
    → has_null (chain_vals ns) ≡ true
    → has_null (chain_vals (n ∷ ns)) ≡ true
has_null_cons n ns h = elim (Option-cases n.val) [ inl e ↦ rw e refl | inr (g, e) ↦ rw e h ]

put_nil : (key : List ℕ) → has_null (chain_vals (chain_put [] key none)) ≡ true
unfolding chain_put
put_nil key = refl

-- A chain in which a key has been given NULL.
has_null-chain_put :
    (ns : List (Node ℕ)) (key : List ℕ) → has_null (chain_vals (chain_put ns key none)) ≡ true
has_null-chain_put [] key = put_nil key
has_null-chain_put (n ∷ ns) key = elim (Bool-cases (same_key key n.key)) [
  | inl p ↦ rw (chain_put_cons n ns key none, p) refl
  | inr p ↦ rw (chain_put_cons n ns key none, p) (has_null_cons n _ (has_null-chain_put ns key))
]

-- After the deletion of an object that is in a well-formed table, the list cannot be rebuilt: the
-- walk comes to the NULL value that the deletion left, and reads through it.
pub rebuild_lru_list_deleted :
    (st : Store) (hp : Table ℕ) (key : List ℕ) (gob : ℕ)
    → IsTable hp
    → ep_hash_search hp key ≡ some gob
    → rebuild_lru_list st (ep_hash_delete hp key).1 ≡ none
unfolding rebuild_lru_list
rebuild_lru_list_deleted st hp key gob ok here = elim (Option-cases (find_node_ptr hp key)) [
  | inl e ↦ absurd (cc (here, search_missing hp key e))
  | inr (n, e) ↦
      let i = hp.hfunc hp.tabsize key in
      let chain = chain_put (chain_of hp key) key none in
      let inside : i < length hp.tab = rw ok.chains (ok.indexed key) in
      let same : (ep_hash_delete hp key).1 ≡ set_chain hp key chain =
        rw (delete_found hp key n e, insert_chain hp key none) refl in
      let null : has_null (tab_vals (set hp.tab i chain)) ≡ true =
        has_null_at (set hp.tab i chain) i
          (rw (get_or-set hp.tab i chain [] inside) (has_null-chain_put (chain_of hp key) key)) in
      rw same (
        forall_tab-inserts st (some []) (set hp.tab i chain)
        ∙ inserts_null st [] (tab_vals (set hp.tab i chain)) null)
]
