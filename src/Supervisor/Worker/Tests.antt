-- ===== src/Supervisor/Worker/Tests.antt =====
-- Runs of the worker manager, and instances of its theorems.
use web_inspector.Supervisor.Worker.Alone.{IsSingle, fresh_host}
use web_inspector.Prelude.{List, [], none, refl, some, ◌∷◌, ◌≡◌}
use web_inspector.Supervisor.Worker.Manager.{
  Event, answer_event, begin_restart, begin_start, crash_event, exit_event, happen, happens,
  job_event, ready_event, restart_event, start_event, step, steps, timer_event,
}
use web_inspector.Supervisor.Worker.{
  Host, crash, on_exit, on_ready, on_timer, restart, run_job, start, started, without_pid,
  stop_answers,
}
use web_inspector.Supervisor.Worker.Single.{one_worker, fresh_manager}
use web_inspector.Supervisor.Worker.Orphans.{late_exit_orphans}

abbrev ordinary_day : List Event
ordinary_day =
    start_event (some "3.0.0")
    ∷ answer_event (some 7)
    ∷ happens ready_event
    ∷ happens (job_event (some "job-1"))
    ∷ happens (crash_event 7)
    ∷ timer_event
    ∷ answer_event (some 8)
    ∷ restart_event none
    ∷ happens (crash_event 8)
    ∷ answer_event none
    ∷ happens exit_event
    ∷ answer_event (some 9)
    ∷ []

the_last_one :
    (steps (fresh_manager (some "3.0.0")) ordinary_day).host.alive ≡ (9, some "3.0.0") ∷ []
unfolding step steps happen begin_start begin_restart started on_ready run_job crash on_exit
    stop_answers without_pid
the_last_one = refl

one_worker_example : IsSingle (steps (fresh_manager (some "3.0.0")) ordinary_day).host
unfolding step steps happen begin_start begin_restart started on_ready run_job crash on_exit
    stop_answers without_pid
one_worker_example =
    one_worker (some "3.0.0") ordinary_day
      (refl, (tt, (tt, (tt, (refl, (refl, (tt, (refl, (refl, (tt, (refl, (tt, tt))))))))))))

abbrev busy_host : Host
busy_host = (start (fresh_host (some "3.0.0")) (some "3.0.0") (some 7)).0

-- A second `restart` begins while the first one waits for `stopProcess`.
abbrev overlapping : List Event
overlapping =
    restart_event none
    ∷ restart_event none
    ∷ answer_event none
    ∷ answer_event none
    ∷ answer_event (some 8)
    ∷ answer_event (some 9)
    ∷ []

-- Two restarts that overlap leave two workers, of which the state names one.
overlapping_restarts :
    (steps (record { host = busy_host; waiting = [] }) overlapping).host.alive
    ≡ (9, some "3.0.0") ∷ (8, some "3.0.0") ∷ []
unfolding step steps start begin_start begin_restart started stop_answers without_pid
overlapping_restarts = refl

late_exit_orphans_example :
    let after = on_timer (on_exit (restart busy_host none (some 8)).0) (some 9) in
    (after.alive ≡ (9, some "3.0.0") ∷ (8, some "3.0.0") ∷ []) × (after.worker.pid ≡ some 9)
unfolding start started
late_exit_orphans_example = late_exit_orphans busy_host 7 8 9 (some "3.0.0") refl refl refl
