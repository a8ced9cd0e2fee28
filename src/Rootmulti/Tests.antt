-- ===== src/Rootmulti/Tests.antt =====
-- A multistore with one adapter, over the session in memory with two blocks.
use mantlemint.Prelude.{
  ℕ, pos, ◌≡◌, refl, ◌⊎◌, inl, false, none, some, List, [], ◌∷◌, ◌++◌, ok, err, Error, not_found,
  In, arith,
}
use mantlemint.Bytes.{Bytes}
use mantlemint.Tmdb.{Op, last_op}
use mantlemint.Tmdb.Memory.{memory, memory_reliable}
use mantlemint.Heleveldb.Keys.{desc}
use mantlemint.Heleveldb.History.{History, IsDescending, IsApart, no_clash, read_spec}
use mantlemint.Heleveldb.Commit.{commit_all}
use mantlemint.Heleveldb.Stored.{Stores, commit_all-Stores}
use mantlemint.Hld
use mantlemint.Hld.{apply_height_limited}
use mantlemint.Rootmulti.{
  StoreKinds, Store, iavl, adapter, Multistore, CommitDbStoreAdapter, IsPrefixed, read,
  store_prefix, cache_multi_store_with_version,
}
use mantlemint.Rootmulti.Versions.{cache_multi_store_reads}

-- no store but the adapters: a tree that has no version, and nothing else
abbrev kinds : StoreKinds
kinds = record {
  Iavl = Unit;
  Other = Unit;
  get_immutable = λ _ _. err not_found;
  get_iavl = λ _ _. ok none;
  get_other = λ _ _. ok none;
  adapt = λ get prefix key. get (prefix ++ key);
}

kinds-IsPrefixed : IsPrefixed kinds
kinds-IsPrefixed get prefix b key v e = e

-- "a", and the key "k" of the store of that name
abbrev name_a : Bytes
name_a = 97 ∷ []

abbrev full_key : Bytes
full_key = (115 ∷ 47 ∷ 107 ∷ 58 ∷ []) ++ name_a ++ (47 ∷ []) ++ (107 ∷ [])

abbrev two_blocks : History
two_blocks =
    (5, record { key = full_key; value = none } ∷ [])
    ∷ (3, record { key = full_key; value = some (1 ∷ []) } ∷ [])
    ∷ []

two_blocks-IsDescending : IsDescending two_blocks
two_blocks-IsDescending =
    (omega arith, omega arith, (omega arith, tt), (omega arith, omega arith, tt, tt))

two_blocks-IsApart : IsApart two_blocks full_key
unfolding no_clash
two_blocks-IsApart = ((refl, tt), ((refl, tt), tt))

abbrev held : List Op
held = (commit_all memory two_blocks []).1

held-Stores : Stores memory memory_reliable held two_blocks
unfolding last_op
held-Stores =
    (commit_all-Stores memory memory_reliable [] two_blocks (λ k. refl) two_blocks-IsDescending).1

abbrev live_a : CommitDbStoreAdapter
live_a = record {
  db = Hld.get memory desc held apply_height_limited;
  prefix = store_prefix false name_a;
}

abbrev one_store : Multistore kinds
one_store = record {
  hldb = apply_height_limited;
  stores = (name_a, adapter live_a) ∷ [];
  last_version = pos 5;
}

abbrev Reads : ℕ → Type 0
Reads v =
    ((e : Error) × (cache_multi_store_with_version kinds memory desc held one_store (pos v) ≡ err e)
      × ((refused : Bytes) × (tree : Unit {0}) × In {A = Bytes × Store kinds} (refused, iavl tree)
            one_store.stores
          × (kinds.get_immutable tree (pos v) ≡ err e)))
    ⊎ ((cached : List (Bytes × Store kinds)) × (store : Store kinds)
        × (cache_multi_store_with_version kinds memory desc held one_store (pos v) ≡ ok cached)
        × In (name_a, store) cached
        × (read kinds store (107 ∷ []) ≡ ok (read_spec two_blocks v (live_a.prefix ++ (107 ∷ [])))))

cache_multi_store_reads_example : Reads 4
unfolding store_prefix
cache_multi_store_reads_example =
    cache_multi_store_reads kinds memory memory_reliable held two_blocks held-Stores
      two_blocks-IsDescending kinds-IsPrefixed one_store 4 (omega arith) (omega arith) name_a 107 []
      live_a (inl refl) two_blocks-IsApart (λ key. refl) (λ e. ground arith)
