-- ===== src/Hash/Laws.antt =====
-- A hash table as a map: what the operations do to the value at every key.
use Prim.Native.Nat.{bit_xor}
use gdp.Base.{
  ℕ, zero, suc, ◌*◌, ◌%◌, ◌<◌, ◌≡◌, refl, arith, ap, sym, ◌∙◌, true, false, Option, none, some,
  List, [], ◌∷◌, if◌then◌else◌, ◌==◌, ==_iff, ==_self, bit_and, length, get_elem?, get_or, set,
  Bool-cases, Option-cases, inl, inr,
}
use gdp.Hash.{
  Node, Table, hash_step, def_hfunc, same_key, find_pos, chain_of, find_node_ptr, set_chain,
  ep_hash_search, ep_hash_insert, ep_hash_delete,
}
use gdp.Hash.Chains.{same_key→eq, chain_val, chain_put, chain_val-chain_put}

hash_step_bound :
    (tabsize : ℕ) (key : List ℕ) (h : ℕ) → h < tabsize → hash_step tabsize key h < tabsize
unfolding hash_step
hash_step_bound n [] h l = l
hash_step_bound n (b ∷ key) h l =
    hash_step_bound n key (bit_xor (h * 2) (bit_and b 0xff) % n) (omega (arith, l))

-- The default hash function gives an index of the table, for every key and every size but 0.
pub def_hfunc_bound : (tabsize : ℕ) (key : List ℕ) → 0 < tabsize → def_hfunc tabsize key < tabsize
unfolding def_hfunc
def_hfunc_bound n key l = hash_step_bound n key 0 l

module _ {ℓ} {A : Type ℓ} where
  pub get_or-set : (xs : List A) (i : ℕ) (v d : A) → i < length xs → get_or (set xs i v) i d ≡ v
  get_or-set [] i v d h = absurd (omega (arith, h))
  get_or-set (x ∷ xs) zero v d h = refl
  get_or-set (x ∷ xs) (suc i) v d h = get_or-set xs i v d (omega (arith, h))

  get_or-set_other :
      (xs : List A) (i j : ℕ) (v d : A) → (i == j) ≡ false → get_or (set xs i v) j d ≡ get_or xs j d
  get_or-set_other [] i j v d h = refl
  get_or-set_other (x ∷ xs) zero zero v d h = absurd (ground (arith, h))
  get_or-set_other (x ∷ xs) zero (suc j) v d h = refl
  get_or-set_other (x ∷ xs) (suc i) zero v d h = refl
  get_or-set_other (x ∷ xs) (suc i) (suc j) v d h = get_or-set_other xs i j v d (ground (arith, h))

  length-set : (xs : List A) (i : ℕ) (v : A) → length (set xs i v) ≡ length xs
  length-set [] i v = refl
  length-set (x ∷ xs) zero v = refl
  length-set (x ∷ xs) (suc i) v = ap suc (length-set xs i v)

module _ {ℓ} {V : Type ℓ} where
  -- The table has a chain for each index that the hash function gives.
  pub record IsTable (hp : Table V) : Type ℓ where
    pub chains : length hp.tab ≡ hp.tabsize
    pub indexed : (key : List ℕ) → hp.hfunc hp.tabsize key < hp.tabsize

  search_chain :
      (hp : Table V) (key : List ℕ) → ep_hash_search hp key ≡ chain_val (chain_of hp key) key
  unfolding ep_hash_search find_node_ptr chain_val
  search_chain hp key =
      elim (Option-cases (get_elem? (chain_of hp key) (find_pos (chain_of hp key) key))) [
        | inl e ↦ rw (ep_hash_search, e) refl
        | inr (n, e) ↦ rw (ep_hash_search, e) refl
      ]

  pub insert_chain :
      (hp : Table V) (key : List ℕ) (v : Option V)
      → ep_hash_insert hp key v
        ≡ (ep_hash_search hp key, set_chain hp key (chain_put (chain_of hp key) key v))
  unfolding ep_hash_insert ep_hash_search find_node_ptr chain_put
  insert_chain hp key v =
      elim (Option-cases (get_elem? (chain_of hp key) (find_pos (chain_of hp key) key))) [
        | inl e ↦ rw (ep_hash_insert, ep_hash_search, chain_put, e) refl
        | inr (n, e) ↦ rw (ep_hash_insert, ep_hash_search, chain_put, e) refl
      ]

  apart :
      (hp : Table V) (key other : List ℕ)
      → (hp.hfunc hp.tabsize key == hp.hfunc hp.tabsize other) ≡ false
      → same_key other key ≡ false
  apart hp key other p = elim (Bool-cases (same_key other key)) [
    | inr q ↦ q
    | inl q ↦
        let same : (hp.hfunc hp.tabsize key == hp.hfunc hp.tabsize other) ≡ true =
          rw (same_key→eq other key q) (==_self (hp.hfunc hp.tabsize key)) in
        absurd (cc (p, same))
  ]

  set_chain-IsTable :
      (hp : Table V) (key : List ℕ) (chain : List (Node V))
      → IsTable hp
      → IsTable (set_chain hp key chain)
  set_chain-IsTable hp key chain ok = record {
    chains = length-set hp.tab (hp.hfunc hp.tabsize key) chain ∙ ok.chains;
    indexed = ok.indexed;
  }

  -- The chain of a key after the chain of another one is replaced.
  search-set_chain :
      (hp : Table V) (key other : List ℕ) (v : Option V)
      → IsTable hp
      → ep_hash_search (set_chain hp key (chain_put (chain_of hp key) key v)) other
        ≡ (if same_key other key then v else ep_hash_search hp other)
  search-set_chain hp key other v ok =
      let i = hp.hfunc hp.tabsize key in
      let j = hp.hfunc hp.tabsize other in
      let chain = chain_put (chain_of hp key) key v in
      let there = search_chain (set_chain hp key chain) other in
      let inside : i < length hp.tab = rw ok.chains (ok.indexed key) in
      there ∙ elim (Bool-cases (i == j)) [
        | inl p ↦
            let same : i ≡ j = (==_iff i j).0 p in
            let here : get_or (set hp.tab i chain) j [] ≡ chain =
              rw (sym same) (get_or-set hp.tab i chain [] inside) in
            let mine : chain_of hp key ≡ chain_of hp other =
              ap (λ (t : ℕ). get_or hp.tab t []) same in
            let put = chain_val-chain_put (chain_of hp key) key other v in
            ap (λ (c : List (Node V)). chain_val c other) here
            ∙ (put
                ∙ ap (λ (c : List (Node V)). if same_key other key then v else chain_val c other)
                    mine
                ∙ ap (λ (x : Option V). if same_key other key then v else x)
                    (sym (search_chain hp other)))
        | inr p ↦
            let differ : same_key other key ≡ false = apart hp key other p in
            ap (λ (c : List (Node V)). chain_val c other) (get_or-set_other hp.tab i j chain [] p)
            ∙ (sym (search_chain hp other) ∙ rw differ refl)
      ]

  -- On a well-formed table, `ep_hash_insert` returns the value before, and then a search gives
  -- the new value at its key and at every other key what it gave before; the table stays well
  -- formed.
  pub search-insert :
      (hp : Table V) (key other : List ℕ) (v : Option V)
      → IsTable hp
      → ((ep_hash_insert hp key v).0 ≡ ep_hash_search hp key)
        × (ep_hash_search ((ep_hash_insert hp key v).1) other
            ≡ (if same_key other key then v else ep_hash_search hp other))
        × IsTable ((ep_hash_insert hp key v).1)
  search-insert hp key other v ok =
      let chain = chain_put (chain_of hp key) key v in
      rw (insert_chain hp key v)
        (refl, search-set_chain hp key other v ok, set_chain-IsTable hp key chain ok)

  pub search_missing :
      (hp : Table V) (key : List ℕ) → find_node_ptr hp key ≡ none → ep_hash_search hp key ≡ none
  unfolding ep_hash_search
  search_missing hp key e = rw (ep_hash_search, e) refl

  delete_missing :
      (hp : Table V) (key : List ℕ)
      → find_node_ptr hp key ≡ none
      → ep_hash_delete hp key ≡ (none, hp)
  unfolding ep_hash_delete
  delete_missing hp key e = rw (ep_hash_delete, e) refl

  -- A key that is there is deleted by giving it no value.
  pub delete_found :
      (hp : Table V) (key : List ℕ) (n : Node V)
      → find_node_ptr hp key ≡ some n
      → ep_hash_delete hp key ≡ ep_hash_insert hp key none
  unfolding ep_hash_delete ep_hash_insert
  delete_found hp key n e = rw (ep_hash_delete, ep_hash_insert, e) refl

  -- On a well-formed table, `ep_hash_delete` returns the value before, and then a search finds
  -- nothing at its key and at every other key what it found before; the table stays well formed.
  pub search-delete :
      (hp : Table V) (key other : List ℕ)
      → IsTable hp
      → ((ep_hash_delete hp key).0 ≡ ep_hash_search hp key)
        × (ep_hash_search ((ep_hash_delete hp key).1) other
            ≡ (if same_key other key then none else ep_hash_search hp other))
        × IsTable ((ep_hash_delete hp key).1)
  search-delete hp key other ok = elim (Option-cases (find_node_ptr hp key)) [
    | inl e ↦
        let gone = search_missing hp key e in
        let unchanged : ep_hash_search hp other
            ≡ (if same_key other key then none else ep_hash_search hp other) =
          elim (Bool-cases (same_key other key)) [
            | inl q ↦ rw q (ap (ep_hash_search hp) (same_key→eq other key q) ∙ gone)
            | inr q ↦ rw q refl
          ] in
        rw (delete_missing hp key e) (sym gone, unchanged, ok)
    | inr (n, e) ↦ rw (delete_found hp key n e) (search-insert hp key other none ok)
  ]
