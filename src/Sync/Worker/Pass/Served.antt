-- ===== src/Sync/Worker/Pass/Served.antt =====
-- A trigger of workerLoop.ts that asks for a sweep gets one.
use pontis.Base.{ℕ, ◌<◌, ◌≤◌, ◌≡◌, ◌⊎◌, inl, inr, Bool, true, false, arith}
use pontis.Sync.Worker.Pass.{PassState, run_sync, sweep_done}

-- What may happen to the worker: a trigger, or the end of the sweep that runs.
pub data Step : PassState → PassState → Type 0 where
  trigger : (rerun_on_join : Bool) (p : PassState) → Step p (run_sync rerun_on_join p)
  finish : (p : PassState) → p.running ≡ true → Step p (sweep_done p)

pub data Reach (s : PassState) : PassState → Type 0 where
  here : Reach s s
  next : {t u : PassState} → Reach s t → Step t u → Reach s u

-- After `n` sweeps: another has begun, or the running pass will begin one.
abbrev Owed : ℕ → PassState → Type 0
Owed n q = (n < q.sweeps) ⊎ ((n ≤ q.sweeps) × (q.running ≡ true) × (q.rerun ≡ true))

asked-Owed : (p : PassState) → Owed p.sweeps (run_sync true p)
unfolding run_sync
asked-Owed p = ground arith

Step-Owed : (n : ℕ) {q r : PassState} → Step q r → Owed n q → Owed n r
unfolding run_sync sweep_done
Step-Owed n (Step.trigger b q) h = ground arith
Step-Owed n (Step.finish q e) h = ground arith

Reach-Owed : (n : ℕ) {q r : PassState} → Reach q r → Owed n q → Owed n r
Reach-Owed n Reach.here h = h
Reach-Owed n (Reach.next p s) h = Step-Owed n s (Reach-Owed n p h)

-- After a trigger that asks for a rerun, whether it starts a pass or joins one, and whatever
-- happens next, the worker is not idle again before a sweep has begun that the trigger came before.
pub run_sync-served :
    (p q : PassState) → Reach (run_sync true p) q → q.running ≡ false → p.sweeps < q.sweeps
run_sync-served p q way idle = done (Reach-Owed p.sweeps way (asked-Owed p))
  where
    done : Owed p.sweeps q → p.sweeps < q.sweeps
    done (inl h) = h
    done (inr h) = cc
