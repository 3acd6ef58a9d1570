-- ===== src/Hash/New.antt =====
-- New hash tables.
use gdp.Base.{
  ℕ, zero, suc, ◌<◌, ◌≡◌, refl, none, List, [], get_or, replicate, length-replicate, if◌then◌else◌,
  ◌==◌,
}
use gdp.Hash.{Node, def_hfunc, hash_new, find_pos, find_node_ptr, ep_hash_search}
use gdp.Hash.Laws.{IsTable, def_hfunc_bound}

module _ {ℓ} {V : Type ℓ} where
  get_or-replicate : (n i : ℕ) → get_or {A = List (Node V)} (replicate n []) i [] ≡ []
  get_or-replicate zero i = refl
  get_or-replicate (suc n) zero = refl
  get_or-replicate (suc n) (suc i) = get_or-replicate n i

  -- A table that is made with the default hash function, for a size that is given or for the configured
  -- one when 0 is given, is well formed, and nothing is found in it.
  pub hash_new-IsTable :
      (tabsize def_size : ℕ)
      → 0 < (if tabsize == 0 then def_size else tabsize)
      → IsTable (hash_new {V = V} none tabsize def_size)
        × ((key : List ℕ) → ep_hash_search (hash_new {V = V} none tabsize def_size) key ≡ none)
  unfolding hash_new ep_hash_search find_node_ptr find_pos
  hash_new-IsTable tabsize def_size h =
      let n = if tabsize == 0 then def_size else tabsize in
      (
        record { chains = length-replicate n []; indexed = λ key. def_hfunc_bound n key h },
        λ key. rw (ep_hash_search, get_or-replicate n (def_hfunc n key)) refl,
      )
