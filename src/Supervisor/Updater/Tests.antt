-- ===== src/Supervisor/Updater/Tests.antt =====
-- Updates of a worker, and instances of their theorems.
use web_inspector.Supervisor.Worker.Alone.{fresh_host}
use web_inspector.Prelude.{[], false, refl, some, true, value, ◌∷◌, ◌≡◌, ◌≢◌}
use web_inspector.Supervisor.Worker.Manager.{crash_event, happen, ready_event}
use web_inspector.Supervisor.Worker.{
  Host, idle, start, started, stop, without_pid, crash, on_exit, on_ready, on_timer,
}
use web_inspector.Supervisor.Updater.{
  Attempt, apply_bundle, health_gate, rollback_to, switch_to, fires, gate_step, gate_steps,
  wait_for_healthy, worker_event,
}
use web_inspector.Supervisor.Updater.Gated.{Gated, refused_untouched}

abbrev serving : Host
serving = record (fresh_host (some "3.0.0")) {
  worker = record idle { pid = some 7; version = some "3.0.0"; running = true; has_stdin = true };
  alive = (7, some "3.0.0") ∷ [];
}

abbrev never_ready : Attempt
never_ready = record {
  downloads = true;
  keys_configured = true;
  signature_ok = true;
  extracts = true;
  swaps = true;
  proc = some 8;
  polls = [] ∷ [] ∷ [];
  swaps_back = true;
  proc_back = some 9;
}

unhealthy_update : (apply_bundle never_ready serving "3.1.0").0.alive ≡ (9, some "3.0.0") ∷ []
unfolding apply_bundle switch_to health_gate wait_for_healthy gate_steps rollback_to start started
    stop without_pid
unhealthy_update = refl

-- The new worker crashes, its timer starts it again, and it becomes ready.
abbrev ready_at_last : Attempt
ready_at_last = record never_ready {
  polls =
      (worker_event (crash_event 8) ∷ [])
      ∷ (fires (some 11) ∷ worker_event ready_event ∷ [])
      ∷ []
      ∷ [];
}

crashed_update : (apply_bundle ready_at_last serving "3.1.0").0.alive ≡ (11, some "3.1.0") ∷ []
unfolding apply_bundle switch_to health_gate wait_for_healthy gate_steps gate_step happen crash
    on_exit on_timer on_ready rollback_to start started stop without_pid
crashed_update = refl

abbrev unsigned : Attempt
unsigned = record never_ready { signature_ok = false }

refused_untouched_example :
    ((apply_bundle unsigned serving "3.1.0").0 ≡ serving)
    × ((apply_bundle unsigned serving "3.1.0").1 ≢ value tt)
refused_untouched_example = refused_untouched unsigned serving "3.1.0" refl

abbrev link_in_use : Attempt
link_in_use = record never_ready { swaps = false }
