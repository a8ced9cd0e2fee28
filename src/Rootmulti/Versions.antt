-- ===== src/Rootmulti/Versions.antt =====
-- Reading a store of the multistore at a version is reading the history of the committed blocks.
use mantlemint.Prelude.{
  ℕ, ℤ, pos, eq_ℤ, ◌≤◌, ◌<◌, ◌^◌, ◌≡◌, refl, ap, ◌∙◌, ◌⊎◌, inl, inr, List, [], ◌∷◌, ◌++◌, Result,
  ok, err, Error, In, All, arith, Bool-cases, Result-cases,
}
use mantlemint.Bytes.{Bytes}
use mantlemint.Tmdb.Session.{Session, IsReliable}
use mantlemint.Heleveldb.Keys.{desc}
use mantlemint.Heleveldb.History.{History, newest, read_spec, IsDescending, IsApart}
use mantlemint.Heleveldb.Stored.{Stores, flat}
use mantlemint.Heleveldb.Reads.{get-Stores, get-Stores_latest}
use mantlemint.Hld
use mantlemint.Hld.{Hld, branch, set_read_height, apply_height_limited}
use mantlemint.Rootmulti.{
  StoreKinds, Store, iavl, adapter, other, Multistore, CommitDbStoreAdapter, IsPrefixed, read,
  at_version, branch_store, cache_stores, cache_multi_store_with_version,
}

-- Where every block of a history is at a height up to `h`, its newest writes are those up to `h`.
newest-read_spec :
    (hist : History) (h : ℕ) (key : Bytes)
    → All (λ b. b.0 ≤ h) hist
    → flat (newest hist key) ≡ read_spec hist h key
unfolding newest read_spec
newest-read_spec [] h key a = refl
newest-read_spec ((height, ops) ∷ older) h key a =
    ground (arith, a.0, newest-read_spec older h key a.1)

-- A store of the multistore reads the current data of the session, under its prefix.
abbrev pub IsLive : (x : Session) → x.State → CommitDbStoreAdapter → Type 0
IsLive x s a = (key : Bytes) → a.db key ≡ Hld.get x desc s apply_height_limited key

module _ (c : StoreKinds) (x : Session) (s : x.State) (last : ℤ) (hldb : Hld) (version : ℤ) where
  abbrev stored : List (Bytes × Store c) → Result (List (Bytes × Store c))
  unfolding cache_stores
  stored stores = cache_stores c x desc s last hldb version stores

  abbrev RefusesOne : List (Bytes × Store c) → Error → Type 0
  RefusesOne stores e =
      (name : Bytes) × (tree : c.Iavl) × In (name, iavl tree) stores
      × (c.get_immutable tree version ≡ err e)

  refused_at :
      (name : Bytes) (store : Store c) (e : Error)
      → at_version c x desc s last hldb version store ≡ err e
      → RefusesOne ((name, store) ∷ []) e
  unfolding at_version
  refused_at name (iavl tree) e h = (name, tree, inl refl, ground arith)
  refused_at name (adapter a) e h = cc
  refused_at name (other o) e h = cc

  -- the stores are read, unless an IAVL tree refuses the version
  stored_or_refused :
      (stores : List (Bytes × Store c))
      → ((e : Error) × (stored stores ≡ err e) × RefusesOne stores e)
        ⊎ ((cached : List (Bytes × Store c)) × (stored stores ≡ ok cached))
  unfolding cache_stores
  stored_or_refused [] = inr ([], refl)
  stored_or_refused ((name, store) ∷ stores) =
      elim (Result-cases (at_version c x desc s last hldb version store)) [
        | inr (e, h) ↦
            let (name', tree, i, q) = refused_at name store e h in
            inl (e, rw h refl, (name', tree, ground (arith, i), q))
        | inl (cached, h) ↦ elim (stored_or_refused stores) [
          | inl (e, f, (name', tree, i, q)) ↦ inl (e, rw (h, f) refl, (name', tree, inr i, q))
          | inr (rest, f) ↦ inr ((name, cached) ∷ rest, rw (h, f) refl)
        ]
      ]

  In-stored :
      (stores cached : List (Bytes × Store c)) (name : Bytes) (store store' : Store c)
      → stored stores ≡ ok cached
      → In (name, store) stores
      → at_version c x desc s last hldb version store ≡ ok store'
      → In (name, store') cached
  unfolding cache_stores
  In-stored [] cached name store store' h i q = elim i [ ]
  In-stored ((n, t) ∷ stores) cached name store store' h i q =
      elim (Result-cases (at_version c x desc s last hldb version t)) [
        | inr (e, f) ↦ ground (arith, f)
        | inl (u, f) ↦ elim (Result-cases (stored stores)) [
          | inr (e, g) ↦ ground (arith, f, g)
          | inl (rest, g) ↦ ground (arith, f, g, In-stored stores rest name store store' g)
        ]
      ]

module _ (c : StoreKinds) (x : Session) (r : IsReliable x) (s : x.State) (hist : History)
    (st : Stores x r s hist) (d : IsDescending hist) where
  module _ (law : IsPrefixed c) (rs : Multistore c) (v : ℕ) (p : 0 < v) (l : v < 2 ^ 56) where
    branched_read :
        (hldb : Hld) (a : CommitDbStoreAdapter) (b : ℕ) (key : Bytes)
        → hldb.read_height ≡ pos v
        → IsApart hist (a.prefix ++ (b ∷ key))
        → read c (adapter (branch_store a (Hld.get x desc s hldb))) (b ∷ key)
          ≡ ok (read_spec hist v (a.prefix ++ (b ∷ key)))
    unfolding read branch_store Hld.get
    branched_read hldb a b key e apart =
        law _ a.prefix b key _
          (rw e (get-Stores x r s hist (a.prefix ++ (b ∷ key)) v st d apart l p))

    live_read :
        (a : CommitDbStoreAdapter) (b : ℕ) (key : Bytes)
        → IsLive x s a
        → All (λ block. block.0 ≤ v) hist
        → read c (adapter a) (b ∷ key) ≡ ok (read_spec hist v (a.prefix ++ (b ∷ key)))
    unfolding read apply_height_limited Hld.get
    live_read a b key live up = law a.db a.prefix b key _ (
        live (a.prefix ++ (b ∷ key))
        ∙ get-Stores_latest x r s hist (a.prefix ++ (b ∷ key)) st
        ∙ ap ok (newest-read_spec hist v (a.prefix ++ (b ∷ key)) up))

    here_read :
        (a : CommitDbStoreAdapter) (b : ℕ) (key : Bytes)
        → IsApart hist (a.prefix ++ (b ∷ key))
        → IsLive x s a
        → (rs.last_version ≡ pos v → All (λ block. block.0 ≤ v) hist)
        → (store : Store c) × (at_version c x desc s rs.last_version
              (branch rs.hldb (pos v))
              (pos v)
              (adapter a)
            ≡ ok store)
          × (read c store (b ∷ key) ≡ ok (read_spec hist v (a.prefix ++ (b ∷ key))))
    unfolding at_version branch set_read_height
    here_read a b key apart live up = elim (Bool-cases (eq_ℤ (pos v) rs.last_version)) [
      | inl e ↦ (adapter a, rw e refl, live_read a b key live (up (ground arith)))
      | inr e ↦ (
        adapter (branch_store a (Hld.get x desc s (branch rs.hldb (pos v)))),
        rw e refl,
        branched_read (branch rs.hldb (pos v)) a b key refl apart,
      )
    ]

    -- The session does not fail and stores a history of blocks, the heights of which do not rise from
    -- the newest block on and lie below 2 ^ 56, and the adapter of a database reads a key that has a byte
    -- under its prefix. Then the multistore at a version from 1 to 2 ^ 56 - 1 is refused with the error of
    -- an IAVL tree that refuses the version, or it has, under the name of each store of the kind DB, a
    -- store that reads a key that has a byte as what the history held, right after the block of that
    -- version, under the store's prefix and the key. It is a condition that no key that the history
    -- writes clashes with it, that the live store reads the session's current data, and that the
    -- history has no block above the version where the version is the last one.
    pub cache_multi_store_reads :
        (name : Bytes) (b : ℕ) (key : Bytes) (a : CommitDbStoreAdapter)
        → In (name, adapter a) rs.stores
        → IsApart hist (a.prefix ++ (b ∷ key))
        → IsLive x s a
        → (rs.last_version ≡ pos v → All (λ block. block.0 ≤ v) hist)
        → ((e : Error) × (cache_multi_store_with_version c x desc s rs (pos v) ≡ err e)
            × ((refused : Bytes) × (tree : c.Iavl) × In (refused, iavl tree) rs.stores
                × (c.get_immutable tree (pos v) ≡ err e)))
          ⊎ ((cached : List (Bytes × Store c)) × (store : Store c) × (cache_multi_store_with_version
                  c x desc s rs
                  (pos v)
                ≡ ok cached)
              × In (name, store) cached
              × (read c store (b ∷ key) ≡ ok (read_spec hist v (a.prefix ++ (b ∷ key)))))
    unfolding cache_multi_store_with_version
    cache_multi_store_reads name b key a i apart live up =
        let (store, at, held) = here_read a b key apart live up in
        elim (stored_or_refused c x s rs.last_version (branch rs.hldb (pos v)) (pos v) rs.stores) [
          | inl refused ↦ inl refused
          | inr (cached, h) ↦ inr (
            cached,
            store,
            h,
            In-stored c x s rs.last_version (branch rs.hldb (pos v)) (pos v) rs.stores cached name
                (adapter a) store h i at,
            held,
          )
        ]
