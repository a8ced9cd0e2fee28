-- ===== src/Export/Workers.antt =====
-- The flag of ExportAllAccounts and the goroutines that it starts: a request tests the flag, and then sets
-- it and starts a worker; a worker clears the flag at its end. The flag has no lock.
use mantlemint.Prelude.{ℕ, zero, suc, ◌+◌, ◌≤◌, ◌==◌, ◌≡◌, refl, Bool, true, false, arith, subst}

-- `running` is IsAccountExportWorkerRunning; `passed` counts the requests between the test and the
-- assignment, and `workers` the goroutines that have not ended
pub record Exports : Type 0 where
  pub running : Bool
  pub passed : ℕ
  pub workers : ℕ

abbrev pub idle : Exports
idle = record { running = false; passed = 0; workers = 0 }

-- the assignment and the `go`, and the end of a worker
unfoldable pub start_worker : Exports → Exports
start_worker s = record s { running = true; workers = suc s.workers }

unfoldable pub end_worker : ℕ → Exports → Exports
end_worker n s = record s { running = false; workers = n }

-- The steps of requests and workers, in any order.
pub data Step (s : Exports) : Exports → Type 0 where
  refuse : s.running ≡ true → Step s s
  pass : s.running ≡ false → Step s (record s { passed = suc s.passed })
  start : (n : ℕ) → s.passed ≡ suc n → Step s (start_worker (record s { passed = n }))
  finish : (n : ℕ) → s.workers ≡ suc n → Step s (end_worker n s)

pub data Reaches (s : Exports) : Exports → Type 0 where
  here : Reaches s s
  more : {a b : Exports} → Reaches s a → Step a b → Reaches s b

-- Requests that are handled one after the other: no step of another request comes between the test of
-- the flag and its assignment, while workers go on.
pub data InTurn (s : Exports) : Exports → Type 0 where
  refused : s.running ≡ true → InTurn s s
  accepted : s.running ≡ false → InTurn s (start_worker s)
  finished : (n : ℕ) → s.workers ≡ suc n → InTurn s (end_worker n s)

pub data ReachesInTurn (s : Exports) : Exports → Type 0 where
  at_rest : ReachesInTurn s s
  next : {a b : Exports} → ReachesInTurn s a → InTurn a b → ReachesInTurn s b

-- handled in turn, they make the same steps
InTurn-Reaches : {s a b : Exports} → Reaches s a → InTurn a b → Reaches s b
InTurn-Reaches r (refused h) = more r (refuse h)
InTurn-Reaches {a = a} r (accepted h) = more (more r (pass h)) (start a.passed refl)
InTurn-Reaches r (finished n h) = more r (finish n h)

abbrev pub IsAlone : Exports → Type 0
IsAlone s = (s.workers ≤ 1) × (s.running ≡ (s.workers == 1))

InTurn-IsAlone : {a b : Exports} → InTurn a b → IsAlone a → IsAlone b
unfolding start_worker end_worker
InTurn-IsAlone (refused h) alone = alone
InTurn-IsAlone (accepted h) alone = ground arith
InTurn-IsAlone (finished n h) alone = ground arith

-- Where requests are handled one after the other, from the start on, at most one worker runs, and the
-- flag is set just while one does.
pub one_worker :
    (s : Exports) → ReachesInTurn idle s → (s.workers ≤ 1) × (s.running ≡ (s.workers == 1))
one_worker s at_rest = (omega arith, refl)
one_worker s (next r step) = InTurn-IsAlone step (one_worker _ r)

pass_all : (n : ℕ) → Reaches idle (record idle { passed = n })
pass_all zero = here
pass_all (suc n) = more (pass_all n) (pass refl)

start_all :
    (n m : ℕ) (b : Bool)
    → Reaches idle (record { running = b; passed = n; workers = m })
    → (r : Bool) × Reaches idle (record { running = r; passed = 0; workers = n + m })
unfolding start_worker
start_all zero m b r =
    (b, subst (λ w. Reaches idle (record { running = b; passed = 0; workers = w })) (omega arith) r)
start_all (suc n) m b r =
    let (b', r') = start_all n (suc m) true (more r (start n refl)) in
    (
      b',
      subst (λ w. Reaches idle (record { running = b'; passed = 0; workers = w })) (omega arith) r',
    )

-- Where requests come in any order, any number of workers can run at once, and the flag can be clear
-- while they run: requests can all test it before the first sets it, and the first worker that ends
-- clears it.
pub exports_overlap : (n : ℕ) → Reaches idle (record { running = false; passed = 0; workers = n })
unfolding end_worker
exports_overlap n =
    let (b, r) = start_all (suc n) 0 false (pass_all (suc n)) in
    more
      (subst (λ w. Reaches idle (record { running = b; passed = 0; workers = w })) (omega arith) r)
      (finish n refl)
