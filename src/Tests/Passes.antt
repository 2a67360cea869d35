-- ===== src/Tests/Passes.antt =====
-- A trigger that joins a running pass.
use pontis.Base.{◌<◌, refl, true, false}
use pontis.Sync.Worker.Pass.{PassState, run_sync, sweep_done}
use pontis.Sync.Worker.Pass.Served.{Step, Reach, run_sync-served}

-- The first sweep runs.
abbrev busy : PassState
busy = record { running = true; rerun = false; sweeps = 1 }

abbrev idle : PassState
idle = record { running = false; rerun = false; sweeps = 2 }

two_ends : Reach (run_sync true busy) idle
unfolding run_sync sweep_done
two_ends =
    Reach.next (Reach.next Reach.here (Step.finish (record busy { rerun = true }) refl))
      (Step.finish (record busy { sweeps = 2 }) refl)

run_sync-served_example : busy.sweeps < idle.sweeps
run_sync-served_example = run_sync-served busy idle two_ends refl
