-- ===== src/Supervisor/Worker.antt =====
-- control-plane-agent/worker-manager/lifecycle.mjs: the worker process of a node. A `Host` is the
-- manager's `state` with what it acts on: the version that the link `current` leads to, the
-- processes that are alive, each with the version that it was started from, and the number of
-- restart timers that are set. `startProcess` is the caller's: it answers a process id, or throws.
-- A started process has an open stdin; `delivered` are the jobs that were written to one. `start`,
-- `stop` and `restart` are whole runs of the calls, in which nothing else happens; what happens
-- between their two halves is in `Worker.Manager`.
pub mod Manager
pub mod Alone
pub mod Single
pub mod Orphans
mod Tests
use web_inspector.Prelude.{
  Bool, List, Option, Result, String, eqb, false, filter_by, if◌then◌else◌, none, not, some, suc,
  throw, true, truthy, value, zero, ℕ, ◌==◌, ◌||◌, ◌∷◌, string_eq, option_eq,
}

pub record Worker : Type 0 where
  pub pid : Option ℕ
  pub version : Option String
  pub running : Bool
  pub ready : Bool
  pub draining : Bool
  pub stopping : Bool
  pub has_stdin : Bool
  pub restarts : ℕ
  pub current_job : Option String

pub record Host : Type 0 where
  pub worker : Worker
  pub active : Option String
  pub alive : List (ℕ × Option String)
  pub timers : ℕ
  pub delivered : List (Option String)

abbrev pub idle : Worker
idle = record {
  pid = none;
  version = none;
  running = false;
  ready = false;
  draining = false;
  stopping = false;
  has_stdin = false;
  restarts = 0;
  current_job = none;
}

-- `version || state.version`
abbrev pub or_version : Option String → Option String → Option String
or_version v w = if truthy v then v else w

pub data WorkerError : Type 0 where
  start_failed : WorkerError

-- `start(version)` up to the answer of `startProcess`.
abbrev pub starting : Host → Host
starting h = record h { worker = record (h.worker) { stopping = false; ready = false } }

-- `start(version)` after `startProcess` has answered.
unfoldable pub started : Host → Option String → ℕ → Host
started h version pid = record h {
  worker = record (h.worker) {
    stopping = false;
    ready = false;
    pid = some pid;
    version = or_version version h.worker.version;
    running = true;
    has_stdin = true;
  };
  alive = (pid, h.active) ∷ h.alive;
}

-- `start(version)` when `startProcess` has answered
abbrev pub start_answers : Host → Option String → Option ℕ → Host × Result WorkerError (Unit {0})
start_answers h version none = (h, throw start_failed)
start_answers h version (some pid) = (started h version pid, value tt)

-- `start(version)`, when nothing happens before `startProcess` answers
unfoldable pub start : Host → Option String → Option ℕ → Host × Result WorkerError (Unit {0})
start h version proc =
    if h.worker.running then (h, value tt) else start_answers (starting h) version proc

-- `onExit(code)`
unfoldable pub on_exit : Host → Host
on_exit h =
    let w = h.worker in
    let gone = record w { running = false; ready = false; has_stdin = false; pid = none } in
    if w.stopping
    then record h { worker = gone }
    else record h { worker = record gone { restarts = suc w.restarts }; timers = suc h.timers }

-- The processes that are left when the one with the id `pid` is gone.
unfoldable pub without_pid : Option ℕ → List (ℕ × Option String) → List (ℕ × Option String)
without_pid none ps = ps
without_pid (some pid) ps = filter_by (λ p. not (eqb p.0 pid)) ps

-- `stop()` up to the answer of `stopProcess`
abbrev pub stopping_now : Host → Host
stopping_now h = record h { worker = record (h.worker) { stopping = true } }

-- `stop()` when `stopProcess` has answered, for the process of the handle that it took
unfoldable pub stop_answers : Host → Option ℕ → Host
stop_answers h pid = record h {
  worker = record (h.worker) { running = false; ready = false; has_stdin = false; pid = none };
  alive = without_pid pid h.alive;
}

-- `stop()`, when nothing happens before `stopProcess` answers
unfoldable pub stop : Host → Host
unfolding stop_answers
stop h = if not h.worker.running then h else stop_answers (stopping_now h) h.worker.pid

-- `ensureRunning(version)`
unfoldable pub ensure_running :
    Host → Option String → Option ℕ → Host × Result WorkerError (Unit {0})
ensure_running h version proc = if h.worker.running then (h, value tt) else start h version proc

-- `restart(version)`
unfoldable pub restart : Host → Option String → Option ℕ → Host × Result WorkerError (Unit {0})
restart h version proc = start (stop h) (or_version version h.worker.version) proc

abbrev pub set_version : Host → Option String → Host
set_version h v = record h { worker = record (h.worker) { version = v } }

abbrev pub set_draining : Host → Bool → Host
set_draining h b = record h { worker = record (h.worker) { draining = b } }

pub data JobAnswer : Type 0 where
  not_running draining_now accepted : JobAnswer

-- `runJob(job)`, over the id of the job
unfoldable pub run_job : Host → Option String → Host × JobAnswer
run_job h job =
    if not h.worker.running || not h.worker.has_stdin
    then (h, not_running)
    else if h.worker.draining
    then (h, draining_now)
    else (
      record h {
        worker = record (h.worker) { current_job = if truthy job then job else none };
        delivered = job ∷ h.delivered;
      },
      accepted,
    )

-- `cancelJob(jobId)`, and what a `result` line does to the state.
unfoldable pub end_job : Host → Option String → Host
end_job h job =
    if h.worker.current_job == job
    then record h { worker = record (h.worker) { current_job = none } }
    else h

-- A `ready` line of the worker.
unfoldable pub on_ready : Host → Host
on_ready h = record h { worker = record (h.worker) { ready = true } }

-- A restart timer fires: `start(state.version)`, whose error is only logged.
unfoldable pub on_timer : Host → Option ℕ → Host
on_timer h proc = elim h.timers [
  | zero ↦ h
  | suc n ↦ (start (record h { timers = n }) h.worker.version proc).0
]

-- The process `pid` dies by itself, and its `exit` event is handled.
unfoldable pub crash : Host → ℕ → Host
crash h pid = on_exit (record h { alive = without_pid (some pid) h.alive })
