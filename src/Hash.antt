-- ===== src/Hash.antt =====
-- Hash tables (ep/ep_hash.c): an array of chains. A key is its bytes; a value that is NULL is `none`.
pub mod Chains
pub mod Laws
pub mod New
use Prim.Native.Nat.{bit_xor}
use gdp.Base.{
  ℕ, zero, suc, ◌*◌, ◌%◌, Bool, true, false, ◌&&◌, Option, none, some, List, [], ◌∷◌, ◌++◌,
  if◌then◌else◌, ◌==◌, bit_and, get_elem?, get_or, set, replicate,
}

-- `struct node`; the next one is the rest of the chain.
pub record Node {ℓ} (V : Type ℓ) : Type ℓ where
  pub key : List ℕ
  pub val : Option V

-- `struct EP_HASH`, less its pool and its lock.
pub record Table {ℓ} (V : Type ℓ) : Type ℓ where
  pub hfunc : ℕ → List ℕ → ℕ
  pub tabsize : ℕ
  pub tab : List (List (Node V))

hash_step : ℕ → List ℕ → ℕ → ℕ
hash_step tabsize [] h = h
hash_step tabsize (b ∷ key) h = hash_step tabsize key (bit_xor (h * 2) (bit_and b 0xff) % tabsize)

-- `def_hfunc`, where the table is small enough that a shift does not leave an `int`.
unfoldable pub def_hfunc : ℕ → List ℕ → ℕ
unfolding hash_step
def_hfunc tabsize key = hash_step tabsize key 0

-- The bytes and the length of two keys are the same.
unfoldable pub same_key : List ℕ → List ℕ → Bool
same_key [] [] = true
same_key [] (y ∷ ys) = false
same_key (x ∷ xs) [] = false
same_key (x ∷ xs) (y ∷ ys) = (x == y) && same_key xs ys

module _ {ℓ} {V : Type ℓ} where
  -- `ep_hash_new`; `def_size` is the configured size, for a size of 0.
  unfoldable pub hash_new : Option (ℕ → List ℕ → ℕ) → (tabsize def_size : ℕ) → Table V
  hash_new hfunc tabsize def_size =
      let size = if tabsize == 0 then def_size else tabsize in
      record {
        hfunc = elim hfunc [ none ↦ def_hfunc | some f ↦ f ];
        tabsize = size;
        tab = replicate size [];
      }

  -- `find_node_ptr`: the chain, and the place in it of the key, or its end.
  unfoldable pub find_pos : List (Node V) → List ℕ → ℕ
  find_pos [] key = 0
  find_pos (n ∷ ns) key = if same_key key n.key then 0 else suc (find_pos ns key)

  abbrev pub chain_of : Table V → List ℕ → List (Node V)
  chain_of hp key = get_or hp.tab (hp.hfunc hp.tabsize key) []

  unfoldable pub find_node_ptr : Table V → List ℕ → Option (Node V)
  find_node_ptr hp key = let chain = chain_of hp key in get_elem? chain (find_pos chain key)

  abbrev pub set_chain : Table V → List ℕ → List (Node V) → Table V
  set_chain hp key chain = record hp { tab = set hp.tab (hp.hfunc hp.tabsize key) chain }

  unfoldable pub ep_hash_search : Table V → List ℕ → Option V
  ep_hash_search hp key = elim (find_node_ptr hp key) [ none ↦ none | some n ↦ n.val ]

  -- The value before, and the table after.
  unfoldable pub ep_hash_insert : Table V → List ℕ → Option V → Option V × Table V
  ep_hash_insert hp key val =
      let chain = chain_of hp key in
      elim (find_node_ptr hp key) [
        | some n ↦
            (n.val, set_chain hp key (set chain (find_pos chain key) (record n { val = val })))
        | none ↦ (none, set_chain hp key (chain ++ (record { key = key; val = val } ∷ [])))
      ]

  unfoldable pub ep_hash_delete : Table V → List ℕ → Option V × Table V
  ep_hash_delete hp key =
      let chain = chain_of hp key in
      elim (find_node_ptr hp key) [
        | some n ↦
            (n.val, set_chain hp key (set chain (find_pos chain key) (record n { val = none })))
        | none ↦ (none, hp)
      ]

  -- `ep_hash_forall`: the calls of `func`, which keeps a state, in their order.
  unfoldable pub forall_chain {κ} :
      {S : Type κ} → (S → List ℕ → Option V → S) → S → List (Node V) → S
  forall_chain func s [] = s
  forall_chain func s (n ∷ next) = forall_chain func (func s n.key n.val) next

  unfoldable pub forall_tab {κ} :
      {S : Type κ} → (S → List ℕ → Option V → S) → S → List (List (Node V)) → S
  forall_tab func s [] = s
  forall_tab func s (chain ∷ tab) = forall_tab func (forall_chain func s chain) tab

  abbrev pub ep_hash_forall {κ} : {S : Type κ} → Table V → (S → List ℕ → Option V → S) → S → S
  ep_hash_forall hp func s = forall_tab func s hp.tab
