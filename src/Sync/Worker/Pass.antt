-- ===== src/Sync/Worker/Pass.antt =====
-- `runSync` and `passes` of extension/src/core/sync/workerLoop.ts: triggers that join a running pass.
-- A trigger comes between two tasks of the event loop, and so never between the test of `rerun` and
-- the clearing of `pass`.
pub mod Served
use pontis.Base.{ℕ, ◌+◌, Bool, true, false, if◌then◌else◌}

-- `this.pass` is set, `this.rerun`, and how many sweeps (`runPass`) have begun.
pub record PassState : Type 0 where
  pub running : Bool
  pub rerun : Bool
  pub sweeps : ℕ

-- A trigger, with its `rerunOnJoin`.
unfoldable pub run_sync : Bool → PassState → PassState
run_sync rerun_on_join p =
    if p.running
    then record p { rerun = if rerun_on_join then true else p.rerun }
    else record { running = true; rerun = false; sweeps = p.sweeps + 1 }

-- A sweep is over: `while (this.rerun)` begins another, or the pass is cleared.
unfoldable pub sweep_done : PassState → PassState
sweep_done p =
    if p.rerun
    then record p { rerun = false; sweeps = p.sweeps + 1 }
    else record p { running = false }
