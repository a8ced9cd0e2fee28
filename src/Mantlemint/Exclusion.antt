-- ===== src/Mantlemint/Exclusion.antt =====
-- Calls of the clients of one creator, which share a mutex, in any interleaving: which methods of
-- the application can run at a time.
use mantlemint.Prelude.{
  ◌⊎◌, inl, inr, sym, ◌∙◌, ℕ, ◌+◌, ◌-◌, ◌<◌, ◌≡◌, refl, ◌≢◌, Bool, true, false, set_at, sum_below,
  sum-set_at, sum-constant, sum-term, if◌then◌else◌, ◌==◌, arith,
}
use mantlemint.Mantlemint.Client.{
  Method, Call, Guard, unguarded, reading, writing, guard_of, guard_of_method, later, now, info,
  set_option, deliver_tx, check_tx, query, commit, init_chain, begin_block, end_block,
  list_snapshots, offer_snapshot, load_snapshot_chunk, apply_snapshot_chunk,
}

-- A call of the client that runs a method of the application.
abbrev pub Runs : Method → Call → Type 0
Runs m call = (call ≡ later m) ⊎ (call ≡ now m)

writing_method : (m : Method) → m ≢ query → m ≢ info → guard_of_method m ≡ writing
unfolding guard_of_method
writing_method info q i = absurd (i refl)
writing_method set_option q i = refl
writing_method deliver_tx q i = refl
writing_method check_tx q i = refl
writing_method query q i = absurd (q refl)
writing_method commit q i = refl
writing_method init_chain q i = refl
writing_method begin_block q i = refl
writing_method end_block q i = refl
writing_method list_snapshots q i = refl
writing_method offer_snapshot q i = refl
writing_method load_snapshot_chunk q i = refl
writing_method apply_snapshot_chunk q i = refl

unguarded_method : (m : Method) → guard_of_method m ≡ unguarded → m ≡ query
unfolding guard_of_method
unguarded_method info e = cc
unguarded_method set_option e = cc
unguarded_method deliver_tx e = cc
unguarded_method check_tx e = cc
unguarded_method query e = refl
unguarded_method commit e = cc
unguarded_method init_chain e = cc
unguarded_method begin_block e = cc
unguarded_method end_block e = cc
unguarded_method list_snapshots e = cc
unguarded_method offer_snapshot e = cc
unguarded_method load_snapshot_chunk e = cc
unguarded_method apply_snapshot_chunk e = cc

guard_of-Runs : (m : Method) (call : Call) → Runs m call → guard_of call ≡ guard_of_method m
unfolding guard_of
guard_of-Runs m call (inl e) = rw e refl
guard_of-Runs m call (inr e) = rw e refl

-- Where a goroutine is: between calls, in a call that waits for its lock, in the body of one.
pub data Phase : Type 0 where
  outside : Phase
  entering : Call → Phase
  inside : Call → Phase

-- sync.RWMutex: whether a writer holds it, and how many readers do
pub record RwMutex : Type 0 where
  pub writer : Bool
  pub readers : ℕ

-- Lock, RLock or neither, which wait unless they are allowed, and the unlock that is deferred
abbrev pub may_enter : Guard → RwMutex → Bool
may_enter unguarded m = true
may_enter reading m = if m.writer then false else true
may_enter writing m = if m.writer then false else m.readers == 0

abbrev pub acquire : Guard → RwMutex → RwMutex
acquire unguarded m = m
acquire reading m = record m { readers = m.readers + 1 }
acquire writing m = record m { writer = true }

abbrev pub release : Guard → RwMutex → RwMutex
release unguarded m = m
release reading m = record m { readers = m.readers - 1 }
release writing m = record m { writer = false }

pub record Shared : Type 0 where
  pub mtx : RwMutex
  pub phase : ℕ → Phase

abbrev pub at_rest : Shared
at_rest = record { mtx = record { writer = false; readers = 0 }; phase = λ _. outside }

module _ (n : ℕ) where
  -- `leave` also ends a call whose body panics, since the unlock is deferred.
  pub data Step (s : Shared) : Shared → Type 0 where
    start :
        (i : ℕ) (call : Call)
        → i < n
        → s.phase i ≡ outside
        → Step s (record s { phase = set_at s.phase i (entering call) })
    enter :
        (i : ℕ) (call : Call)
        → i < n
        → s.phase i ≡ entering call
        → may_enter (guard_of call) s.mtx ≡ true
        → Step s (record s {
          mtx = acquire (guard_of call) s.mtx;
          phase = set_at s.phase i (inside call);
        })
    leave :
        (i : ℕ) (call : Call)
        → i < n
        → s.phase i ≡ inside call
        → Step s
            (record s { mtx = release (guard_of call) s.mtx; phase = set_at s.phase i outside })

  pub data Reach : Shared → Type 0 where
    here : Reach at_rest
    next : {s t : Shared} → Reach s → Step s t → Reach t

  abbrev reads : Phase → ℕ
  reads (inside call) = elim (guard_of call) [ reading ↦ 1 | _ ↦ 0 ]
  reads _ = 0

  abbrev writes : Phase → ℕ
  writes (inside call) = elim (guard_of call) [ writing ↦ 1 | _ ↦ 0 ]
  writes _ = 0

  -- the mutex counts the calls that hold it
  record Counts (s : Shared) : Type 0 where
    by_readers : sum_below reads n s.phase ≡ s.mtx.readers
    by_writer : sum_below writes n s.phase ≡ (if s.mtx.writer then 1 else 0)
    apart : s.mtx.writer ≡ true → s.mtx.readers ≡ 0

  Step-Counts : {s t : Shared} → Counts s → Step s t → Counts t
  Step-Counts {s} h (start i call l e) =
      let r = sum-set_at reads n s.phase i (entering call) l in
      let w = sum-set_at writes n s.phase i (entering call) l in
      record {
        by_readers = ground (arith, h.by_readers);
        by_writer = ground (arith, h.by_writer);
        apart = h.apart;
      }
  Step-Counts {s} h (enter i call l e f) =
      let r = sum-set_at reads n s.phase i (inside call) l in
      let w = sum-set_at writes n s.phase i (inside call) l in
      record {
        by_readers = ground (arith, h.by_readers);
        by_writer = ground (arith, h.by_writer);
        apart = ground (arith, h.apart);
      }
  Step-Counts {s} h (leave i call l e) =
      let r = sum-set_at reads n s.phase i outside l in
      let w = sum-set_at writes n s.phase i outside l in
      record {
        by_readers = ground (arith, h.by_readers);
        by_writer = ground (arith, h.by_writer);
        apart = ground (arith, h.apart, h.by_readers, h.by_writer);
      }

  Reach-Counts : {s : Shared} → Reach s → Counts s
  Reach-Counts here = record {
    by_readers = ground (arith, sum-constant reads n outside);
    by_writer = ground (arith, sum-constant writes n outside);
    apart = λ e. refl;
  }
  Reach-Counts (next r st) = Step-Counts (Reach-Counts r) st

  -- while a call that holds the lock for writing is in its body, no other one holds it
  guard_of_exclusive :
      (s : Shared) (i j : ℕ) (call other : Call)
      → Reach s
      → i < n
      → j < n
      → i ≢ j
      → s.phase i ≡ inside call
      → s.phase j ≡ inside other
      → guard_of call ≡ writing
      → guard_of other ≡ unguarded
  guard_of_exclusive s i j call other run li lj d p q w =
      let h = Reach-Counts run in
      ground (
        arith,
        h.by_readers,
        h.by_writer,
        h.apart,
        sum-set_at writes n s.phase i outside li,
        sum-term writes n (set_at s.phase i outside) j lj,
        sum-term reads n s.phase j lj,
        sum-term writes n s.phase i li,
      )

  -- Goroutines call the clients that share a mutex, in any interleaving. While one of them is in the
  -- body of a call that runs a method of the application other than Query and Info, such as Commit,
  -- DeliverTx or CheckTx, the only method of the application that any other of them can be running is
  -- Query.
  pub application_exclusive :
      (s : Shared) (i j : ℕ) (call other : Call) (m m' : Method)
      → Reach s
      → i < n
      → j < n
      → i ≢ j
      → s.phase i ≡ inside call
      → Runs m call
      → m ≢ query
      → m ≢ info
      → s.phase j ≡ inside other
      → Runs m' other
      → m' ≡ query
  application_exclusive s i j call other m m' run li lj d p c not_query not_info q c' =
      unguarded_method m' (
        sym (guard_of-Runs m' other c')
        ∙ guard_of_exclusive s i j call other run li lj d p q
            (guard_of-Runs m call c ∙ writing_method m not_query not_info))
