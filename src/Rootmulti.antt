-- ===== src/Rootmulti.antt =====
-- store/rootmulti: the parts of the multistore that read past versions through the height-limited
-- database, dbadapter.go and CacheMultiStoreWithVersion of store.go. IAVL trees, the other kinds of
-- stores and the adapter of a database to a store are parameters.
pub mod Versions
mod Tests
use mantlemint.Prelude.{
  ℤ, eq_ℤ, pos, negsuc, ◌≡◌, Option, none, some, Bool, true, false, List, [], ◌∷◌, ◌++◌, Result, ok,
  err, bind, if◌then◌else◌,
}
use mantlemint.Bytes.{Bytes}
use mantlemint.Tmdb.Session.{Session}
use mantlemint.Heleveldb.Keys.{Mode}
use mantlemint.Hld
use mantlemint.Hld.{Hld, branch}

-- A store of cosmos-sdk, as far as the multistore and its readers use it. `adapt get prefix` is the
-- `Get` of `dbadapter.Store{DB: dbm.NewPrefixDB(db, prefix)}`, where `get` is that of `db`.
pub record StoreKinds : Type 1 where
  pub Iavl : Type 0
  pub Other : Type 0
  pub get_immutable : Iavl → ℤ → Result Iavl
  pub get_iavl : Iavl → Bytes → Result (Option Bytes)
  pub get_other : Other → Bytes → Result (Option Bytes)
  pub adapt : (Bytes → Result (Option Bytes)) → Bytes → Bytes → Result (Option Bytes)

-- A prefixed database holds a key, which has a byte, under the prefix followed by the key, and the
-- adapter passes on what it reads without an error.
abbrev pub IsPrefixed : StoreKinds → Type 0
IsPrefixed c =
    (get : Bytes → Result (Option Bytes)) (prefix : Bytes) (b : _) (key : Bytes) (v : Option Bytes)
    → get (prefix ++ (b ∷ key)) ≡ ok v
    → c.adapt get prefix (b ∷ key) ≡ ok v

-- commitDBStoreAdapter: the database that it reads, and its prefix
pub record CommitDbStoreAdapter : Type 0 where
  pub db : Bytes → Result (Option Bytes)
  pub prefix : Bytes

pub record CommitId : Type 0 where
  pub version : ℤ
  pub hash : Bytes

-- "FAKE_HASH"
abbrev commit_hash : Bytes
commit_hash = 70 ∷ 65 ∷ 75 ∷ 69 ∷ 95 ∷ 72 ∷ 65 ∷ 83 ∷ 72 ∷ []

-- Commit and LastCommitID
abbrev pub commit_id : CommitDbStoreAdapter → CommitId
commit_id a = record { version = negsuc 0; hash = commit_hash }

-- BranchStoreWithHeightLimitedDB
unfoldable pub branch_store :
    CommitDbStoreAdapter → (Bytes → Result (Option Bytes)) → CommitDbStoreAdapter
branch_store a hldb = record { db = hldb; prefix = a.prefix }

-- The prefix of loadCommitStoreFromParams: "s/_/" where the store has a database of its own, else
-- "s/k:" ++ name ++ "/".
unfoldable pub store_prefix : Bool → Bytes → Bytes
store_prefix true name = 115 ∷ 47 ∷ 95 ∷ 47 ∷ []
store_prefix false name = (115 ∷ 47 ∷ 107 ∷ 58 ∷ []) ++ name ++ (47 ∷ [])

module _ (c : StoreKinds) where
  -- GetStoreType: IAVL, DB, and any other
  pub data Store : Type 0 where
    iavl : c.Iavl → Store
    adapter : CommitDbStoreAdapter → Store
    other : c.Other → Store

  -- `Get` of a store
  unfoldable pub read : Store → Bytes → Result (Option Bytes)
  read (iavl tree) key = c.get_iavl tree key
  read (adapter a) key = c.adapt a.db a.prefix key
  read (other o) key = c.get_other o key

  -- the stores by the name of their key, and the version of `lastCommitInfo`
  pub record Multistore : Type 0 where
    pub hldb : Hld
    pub stores : List (Bytes × Store)
    pub last_version : ℤ

  module _ (x : Session) (mode : Mode) (s : x.State) where
    -- the store that CacheMultiStoreWithVersion puts in the place of one
    unfoldable pub at_version : ℤ → Hld → ℤ → Store → Result Store
    unfolding branch_store
    at_version last_version hldb version (iavl tree) =
        bind (c.get_immutable tree version) λ old. ok (iavl old)
    at_version last_version hldb version (adapter a) = ok (
        if eq_ℤ version last_version
        then adapter a
        else adapter (branch_store a (Hld.get x mode s hldb)))
    at_version last_version hldb version (other o) = ok (other o)

    cache_stores : ℤ → Hld → ℤ → List (Bytes × Store) → Result (List (Bytes × Store))
    unfolding at_version
    cache_stores last_version hldb version [] = ok []
    cache_stores last_version hldb version ((key, store) ∷ stores) =
        bind (at_version last_version hldb version store) λ cached.
          bind (cache_stores last_version hldb version stores) λ rest. ok ((key, cached) ∷ rest)

    -- CacheMultiStoreWithVersion, which takes the stores in the order of the list
    unfoldable pub cache_multi_store_with_version : Multistore → ℤ → Result (List (Bytes × Store))
    unfolding cache_stores
    cache_multi_store_with_version rs version =
        cache_stores rs.last_version (branch rs.hldb version) version rs.stores
