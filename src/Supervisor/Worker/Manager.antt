-- ===== src/Supervisor/Worker/Manager.antt =====
-- lifecycle.mjs: the worker manager with its calls under way. `start` awaits `startProcess`, and `stop`
-- awaits `stopProcess`; until the platform answers, other calls begin, and events are handled. Of the
-- calls that wait, the oldest is answered first.
use web_inspector.Prelude.{
  Bool, Bool-cases, List, Option, String, [], if◌then◌else◌, inl, inr, none, not, refl, some, suc,
  zero, ℕ, ◌++◌, ◌∷◌, ◌≡◌,
}
use web_inspector.Supervisor.Worker.{
  Host, crash, end_job, on_exit, on_ready, or_version, run_job, set_draining, start, start_answers,
  starting, stop_answers, stopping_now,
}

-- What a call waits for: `startProcess`, or `stopProcess` for the handle of a process, and with what
-- version `restart` then starts.
pub data Wait : Type 0 where
  start_wait : (version : Option String) → Wait
  stop_wait : (pid : Option ℕ) (next : Option (Option String)) → Wait

pub record Manager : Type 0 where
  pub host : Host
  pub waiting : List Wait

-- What happens to a worker, and the calls that end at once.
pub data Happening : Type 0 where
  crash_event : (pid : ℕ) → Happening
  exit_event ready_event : Happening
  job_event end_event : Option String → Happening
  drain_event : Bool → Happening

unfoldable pub happen : Host → Happening → Host
happen h (crash_event pid) = crash h pid
happen h exit_event = on_exit h
happen h ready_event = on_ready h
happen h (job_event job) = (run_job h job).0
happen h (end_event job) = end_job h job
happen h (drain_event b) = set_draining h b

-- `start(version)` up to its `await`; so are `ensureRunning(version)` and a restart timer.
unfoldable pub begin_start : Manager → Option String → Manager
begin_start m version =
    if m.host.worker.running
    then m
    else record m { host = starting m.host; waiting = m.waiting ++ (start_wait version ∷ []) }

-- `stop()` up to its `await`
unfoldable pub begin_stop : Manager → Manager
begin_stop m = if not m.host.worker.running then m else record m {
  host = stopping_now m.host;
  waiting = m.waiting ++ (stop_wait m.host.worker.pid none ∷ []);
}

-- `start(version || state.version)`
abbrev pub begin_next : Manager → Option String → Manager
begin_next m version = begin_start m (or_version version m.host.worker.version)

-- `restart(version)` up to its first `await`
unfoldable pub begin_restart : Manager → Option String → Manager
begin_restart m version = if not m.host.worker.running then begin_next m version else record m {
  host = stopping_now m.host;
  waiting = m.waiting ++ (stop_wait m.host.worker.pid (some version) ∷ []);
}

-- A restart timer fires.
abbrev pub begin_timer : Manager → ℕ → Manager
begin_timer m zero = m
begin_timer m (suc n) =
    begin_start (record m { host = record (m.host) { timers = n } }) m.host.worker.version

-- The platform answers the oldest call that waits; `proc` is for `startProcess`.
abbrev pub answer_with : Host → Option ℕ → List Wait → Manager
answer_with h proc [] = record { host = h; waiting = [] }
answer_with h proc (start_wait version ∷ rest) = record {
  host = (start_answers h version proc).0;
  waiting = rest;
}
answer_with h proc (stop_wait pid none ∷ rest) = record {
  host = stop_answers h pid;
  waiting = rest;
}
answer_with h proc (stop_wait pid (some version) ∷ rest) =
    begin_next (record { host = stop_answers h pid; waiting = rest }) version

-- What the manager does, and what happens to it.
pub data Event : Type 0 where
  happens : Happening → Event
  start_event restart_event ensure_event : Option String → Event
  stop_event timer_event : Event
  answer_event : (proc : Option ℕ) → Event

unfoldable pub step : Manager → Event → Manager
step m (happens e) = record m { host = happen m.host e }
step m (start_event version) = begin_start m version
step m (restart_event version) = begin_restart m version
step m (ensure_event version) = begin_start m version
step m stop_event = begin_stop m
step m timer_event = begin_timer m m.host.timers
step m (answer_event proc) = answer_with m.host proc m.waiting

unfoldable pub steps : Manager → List Event → Manager
steps m [] = m
steps m (e ∷ es) = steps (step m e) es

-- A call of `start` on which nothing else waits, and its answer, are a whole run of it.
start_whole :
    (h : Host) (version : Option String) (proc : Option ℕ)
    → (let m = begin_start (record { host = h; waiting = [] }) version in
        answer_with m.host proc m.waiting)
      ≡ record { host = (start h version proc).0; waiting = [] }
unfolding begin_start start
start_whole h version proc = elim (Bool-cases h.worker.running) [
  | inl busy ↦ rw (busy) refl
  | inr idle_now ↦ rw (idle_now) refl
]
