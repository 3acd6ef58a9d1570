-- ===== src/Tests/Tables.antt =====
-- A table of three chains with one entry.
use gdp.Base.{ℕ, ◌≡◌, refl, arith, none, some, [], ◌∷◌, if◌then◌else◌}
use gdp.Hash.{Table, def_hfunc, same_key, ep_hash_search, ep_hash_insert, ep_hash_delete}
use gdp.Hash.Laws.{IsTable, def_hfunc_bound, search-insert, search-delete}

abbrev three : Table ℕ
three = record {
  hfunc = def_hfunc;
  tabsize = 3;
  tab = [] ∷ (record { key = 1 ∷ []; val = some 8 } ∷ []) ∷ [] ∷ [];
}

three-IsTable : IsTable three
three-IsTable = record { chains = refl; indexed = λ key. def_hfunc_bound 3 key (omega arith) }

search-insert_example :
    ((ep_hash_insert three (1 ∷ []) (some 9)).0 ≡ ep_hash_search three (1 ∷ []))
    × (ep_hash_search (ep_hash_insert three (1 ∷ []) (some 9)).1 (4 ∷ [])
        ≡ (if same_key (4 ∷ []) (1 ∷ []) then some 9 else ep_hash_search three (4 ∷ [])))
    × IsTable (ep_hash_insert three (1 ∷ []) (some 9)).1
search-insert_example = search-insert three (1 ∷ []) (4 ∷ []) (some 9) three-IsTable

search-delete_example :
    ((ep_hash_delete three (1 ∷ [])).0 ≡ ep_hash_search three (1 ∷ []))
    × (ep_hash_search (ep_hash_delete three (1 ∷ [])).1 (1 ∷ [])
        ≡ (if same_key (1 ∷ []) (1 ∷ []) then none else ep_hash_search three (1 ∷ [])))
    × IsTable (ep_hash_delete three (1 ∷ [])).1
search-delete_example = search-delete three (1 ∷ []) (1 ∷ []) three-IsTable
