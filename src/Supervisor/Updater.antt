-- ===== src/Supervisor/Updater.antt =====
-- control-plane-agent/updater/apply-bundle.mjs and rollback.mjs, and the health gate of
-- worker-manager/health.mjs: an update of the worker. The updater acts on the `Host` of the worker
-- manager. An `Attempt` holds what its calls of the platform answer in turn, `true` for a call that
-- returns, and what happens to the worker in the sleep after each poll of the health
-- gate, where the start of a restart timer runs to its end before the next event. The bytes of the bundle and
-- the version directories are not modelled.
pub mod Trial
pub mod Gated
pub mod Stranded
mod Tests
use web_inspector.Prelude.{
  Bool, List, Option, Result, String, [], false, if◌then◌else◌, not, some, throw, true, truthy,
  value, ℕ, ◌&&◌, ◌∷◌,
}
use web_inspector.Supervisor.Worker.Manager.{Happening, happen}
use web_inspector.Supervisor.Worker.{
  Host, set_draining, set_version, start, stop, WorkerError, on_timer,
}

-- What is handled while the health gate sleeps: something that happens to the worker, or a restart timer
-- that fires, whose `startProcess` answers `proc`.
pub data GateEvent : Type 0 where
  worker_event : Happening → GateEvent
  fires : (proc : Option ℕ) → GateEvent

unfoldable pub gate_step : Host → GateEvent → Host
gate_step h (worker_event e) = happen h e
gate_step h (fires proc) = on_timer h proc

unfoldable pub gate_steps : Host → List GateEvent → Host
gate_steps h [] = h
gate_steps h (e ∷ es) = gate_steps (gate_step h e) es

pub record Attempt : Type 0 where
  pub downloads : Bool
  pub keys_configured : Bool
  pub signature_ok : Bool
  pub extracts : Bool
  pub swaps : Bool
  pub proc : Option ℕ
  pub polls : List (List GateEvent)
  pub swaps_back : Bool
  pub proc_back : Option ℕ

pub data UpdateError : Type 0 where
  download_failed bad_signature extract_failed swap_failed worker_failed : UpdateError
  no_previous_version : UpdateError
  rolled_back : Option String → UpdateError

-- `platform.swapCurrent(currentLink, versionDir)`
unfoldable pub swap_current : Host → Option String → Bool → Host × Result UpdateError (Unit {0})
swap_current h version ok =
    if ok then (record h { active = version }, value tt) else (h, throw swap_failed)

-- What follows `start` in a switch.
abbrev pub resume : Host × Result WorkerError (Unit {0}) → Host × Result UpdateError (Unit {0})
resume (h, throw _) = (h, throw worker_failed)
resume (h, value _) = (set_draining h false, value tt)

-- The steps that `applyBundle` and `rollbackTo` share: drain, stop, swap, start.
unfoldable pub switch_to :
    Host → Option String → Bool → Option ℕ → Host × Result UpdateError (Unit {0})
unfolding swap_current
switch_to h version swap_ok proc =
    let (swapped, done) = swap_current (stop (set_draining h true)) version swap_ok in
    elim done [
      | throw e ↦ (swapped, throw e)
      | value _ ↦ resume (start (set_version swapped version) version proc)
    ]

-- `rollbackTo({ component: "agent", toVersion })`
unfoldable pub rollback_to :
    Host → Option String → Bool → Option ℕ → Host × Result UpdateError (Unit {0})
rollback_to h version swap_ok proc =
    if truthy version then switch_to h version swap_ok proc else (h, throw no_previous_version)

-- `waitForHealthy(…)`, over the polls before the deadline: whether one of them found the worker ready, and
-- the host that it leaves
unfoldable pub wait_for_healthy : Host → List (List GateEvent) → Host × Bool
unfolding gate_steps
wait_for_healthy h [] = (h, false)
wait_for_healthy h (slept ∷ polls) =
    let more = wait_for_healthy (gate_steps h slept) polls in
    if h.worker.ready then (h, true) else more

-- The throw of `applyBundle` after a rollback.
abbrev pub report_rollback :
    Option String → Host × Result UpdateError (Unit {0}) → Host × Result UpdateError (Unit {0})
report_rollback previous (h, value _) = (h, throw (rolled_back previous))
report_rollback previous (h, throw e) = (h, throw e)

-- What follows the health gate: an unhealthy worker is rolled back.
abbrev pub gate_result :
    Attempt → Option String → Host × Bool → Host × Result UpdateError (Unit {0})
gate_result a previous (h, true) = (h, value tt)
gate_result a previous (h, false) =
    report_rollback previous (rollback_to h previous a.swaps_back a.proc_back)

-- The health gate of `applyBundle`, and what follows it.
unfoldable pub health_gate : Attempt → Host → Option String → Host × Result UpdateError (Unit {0})
health_gate a h previous = gate_result a previous (wait_for_healthy h a.polls)

-- What follows the switch to the new version.
abbrev pub after_switch :
    Attempt
    → Option String
    → Host × Result UpdateError (Unit {0})
    → Host × Result UpdateError (Unit {0})
after_switch a previous (h, value _) = health_gate a h previous
after_switch a previous (h, throw e) = (h, throw e)

-- `applyBundle({ component: "agent", version, bundle })`; `readInstalledVersion` reads the version
-- that `current` leads to.
unfoldable pub apply_bundle : Attempt → Host → String → Host × Result UpdateError (Unit {0})
apply_bundle a h version =
    let previous = h.active in
    if not a.downloads
    then (h, throw download_failed)
    else if a.keys_configured && not a.signature_ok
    then (h, throw bad_signature)
    else if not a.extracts
    then (h, throw extract_failed)
    else after_switch a previous (switch_to h (some version) a.swaps a.proc)
