-- ===== src/Supervisor/Worker/Alone.antt =====
-- lifecycle.mjs: that what the manager holds is the one worker, over its whole calls and over what happens.
use web_inspector.Prelude.{
  List, Option, String, [], ap, false, none, refl, some, true, ℕ, ◌∷◌, ◌≡◌, Result, arith, if_cases,
  not, option_cases, suc, zero, ◌==◌, ◌||◌, ◌∙◌, string_eq, option_eq,
}
use web_inspector.Supervisor.Worker.Manager.{
  Happening, crash_event, drain_event, end_event, exit_event, happen, job_event, ready_event,
}
use web_inspector.Supervisor.Worker.{
  Host, crash, end_job, on_exit, on_ready, on_timer, run_job, set_draining, start, started, stop,
  without_pid, JobAnswer, WorkerError, idle, start_answers, stop_answers,
}

-- The one process is the one that the state names, or there is none.
pub data IsSingle (h : Host) : Type 0 where
  resting : h.worker.pid ≡ none → h.worker.running ≡ false → h.alive ≡ [] → IsSingle h
  working :
      (pid : ℕ) (version : Option String)
      → h.worker.pid ≡ some pid
      → h.worker.running ≡ true
      → h.alive ≡ (pid, version) ∷ []
      → IsSingle h

-- Which process a happening is about: a crash is one of the worker that the state names, and the `exit`
-- event of a worker that was stopped is handled before another one is started.
abbrev pub IsOwn : Host → Happening → Type 0
IsOwn h (crash_event pid) = h.worker.pid ≡ some pid
IsOwn h exit_event = h.worker.running ≡ false
IsOwn h _ = Unit

-- What a call leaves, whatever it answers.
abbrev Leaves : Host × Result WorkerError (Unit {0}) → Type 0
Leaves r = IsSingle r.0

pub at_rest :
    (h : Host) → IsSingle h → h.worker.running ≡ false → (h.worker.pid ≡ none) × (h.alive ≡ [])
at_rest h (resting e r a) idle_now = (e, a)
at_rest h (working pid v e r a) idle_now = absurd (ground arith)

pub at_work :
    (h : Host)
    → IsSingle h
    → h.worker.running ≡ true
    → (pid : ℕ) × (v : Option String) × (h.worker.pid ≡ some pid) × (h.alive ≡ (pid, v) ∷ [])
at_work h (resting e r a) busy_now = absurd (ground arith)
at_work h (working pid v e r a) busy_now = (pid, v, e, a)

pub start_answers-IsSingle :
    (h : Host) (version : Option String) (proc : Option ℕ)
    → h.worker.running ≡ false
    → IsSingle h
    → IsSingle (start_answers h version proc).0
unfolding started
start_answers-IsSingle h version none r s = s
start_answers-IsSingle h version (some pid) r s =
    working pid h.active refl refl (ap (λ ps. (pid, h.active) ∷ ps) (at_rest h s r).1)

pub without_pid-nil : (pid : ℕ) → without_pid (some pid) [] ≡ []
unfolding without_pid
without_pid-nil pid = refl

pub start-IsSingle :
    (h : Host) (version : Option String) (proc : Option ℕ)
    → IsSingle h
    → IsSingle (start h version proc).0
unfolding start started
start-IsSingle h version proc s =
    if_cases Leaves h.worker.running (λ _. s)
      (λ idle_now.
        let rest = at_rest h s idle_now in
        option_cases Leaves proc (λ _. resting rest.0 idle_now rest.1)
          (λ pid _. working pid h.active refl refl (ap (λ ps. (pid, h.active) ∷ ps) rest.1)))

pub without_pid_self :
    (pid : ℕ) (v : Option String) (ps : List (ℕ × Option String))
    → ps ≡ (pid, v) ∷ []
    → without_pid (some pid) ps ≡ []
unfolding without_pid
without_pid_self pid v ps e = ap (without_pid (some pid)) e ∙ alone
  where
    alone : without_pid (some pid) ((pid, v) ∷ []) ≡ []
    alone = ground arith

pub stop-IsSingle : (h : Host) → IsSingle h → IsSingle (stop h)
unfolding stop stop_answers
stop-IsSingle h s =
    if_cases IsSingle (not h.worker.running) (λ _. s)
      (λ busy_now.
        let (pid, v, e, a) = at_work h s (ground arith) in
        resting refl refl (ap (λ p. without_pid p h.alive) e ∙ without_pid_self pid v h.alive a))

stop_not_running : (h : Host) → (stop h).worker.running ≡ false
unfolding stop stop_answers
stop_not_running h =
    if_cases (λ (g : Host). g.worker.running ≡ false) (not h.worker.running)
      (λ idle_now. ground arith) (λ _. refl)

-- After `stop` nothing runs.
pub stop_at_rest :
    (h : Host) → IsSingle h → ((stop h).worker.running ≡ false) × ((stop h).alive ≡ [])
stop_at_rest h s =
    (stop_not_running h, (at_rest (stop h) (stop-IsSingle h s) (stop_not_running h)).1)

-- An exit that the state is told of when no process is alive.
on_exit-IsSingle : (h : Host) → h.alive ≡ [] → IsSingle (on_exit h)
unfolding on_exit
on_exit-IsSingle h a =
    if_cases IsSingle h.worker.stopping (λ _. resting refl refl a) (λ _. resting refl refl a)

-- A change of what the invariant does not read.
pub same-IsSingle :
    (h h' : Host)
    → h'.worker.pid ≡ h.worker.pid
    → h'.worker.running ≡ h.worker.running
    → h'.alive ≡ h.alive
    → IsSingle h
    → IsSingle h'
same-IsSingle h h' p r a (resting e i n) = resting (p ∙ e) (r ∙ i) (a ∙ n)
same-IsSingle h h' p r a (working pid v e i n) = working pid v (p ∙ e) (r ∙ i) (a ∙ n)

crash-IsSingle :
    (h : Host) (pid : ℕ) → h.worker.pid ≡ some pid → IsSingle h → IsSingle (crash h pid)
unfolding crash
crash-IsSingle h pid e (resting e' r a) = absurd (ground arith)
crash-IsSingle h pid e (working p v e' r a) =
    on_exit-IsSingle (record h { alive = without_pid (some pid) h.alive })
      (without_pid_self pid v h.alive (a ∙ ap (λ q. (q, v) ∷ []) (ground arith)))

pub on_timer-IsSingle : (h : Host) (proc : Option ℕ) → IsSingle h → IsSingle (on_timer h proc)
unfolding on_timer
on_timer-IsSingle h proc s = fires h.timers
  where
    fires :
        (n : ℕ)
        → IsSingle (elim n [
          | zero ↦ h
          | suc m ↦ (start (record h { timers = m }) h.worker.version proc).0
        ])
    fires zero = s
    fires (suc m) =
        start-IsSingle (record h { timers = m }) h.worker.version proc
          (same-IsSingle h (record h { timers = m }) refl refl refl s)

run_job-IsSingle : (h : Host) (job : Option String) → IsSingle h → IsSingle (run_job h job).0
unfolding run_job
run_job-IsSingle h job s =
    if_cases (λ (r : Host × JobAnswer). IsSingle r.0)
      (not h.worker.running || not h.worker.has_stdin) (λ _. s)
      (λ _.
        if_cases (λ (r : Host × JobAnswer). IsSingle r.0) h.worker.draining (λ _. s)
          (λ _. same-IsSingle h _ refl refl refl s))

pub happen-IsSingle : (h : Host) (e : Happening) → IsOwn h e → IsSingle h → IsSingle (happen h e)
unfolding happen end_job on_ready
happen-IsSingle h (crash_event pid) own s = crash-IsSingle h pid own s
happen-IsSingle h exit_event own s = on_exit-IsSingle h (at_rest h s own).1
happen-IsSingle h ready_event own s = same-IsSingle h (on_ready h) refl refl refl s
happen-IsSingle h (job_event job) own s = run_job-IsSingle h job s
happen-IsSingle h (end_event job) own s =
    if_cases IsSingle (h.worker.current_job == job) (λ _. same-IsSingle h _ refl refl refl s)
      (λ _. s)
happen-IsSingle h (drain_event b) own s = same-IsSingle h (set_draining h b) refl refl refl s

pub draining-stop : (h : Host) → (stop h).worker.draining ≡ h.worker.draining
unfolding stop
draining-stop h =
    if_cases (λ (g : Host). g.worker.draining ≡ h.worker.draining) (not h.worker.running)
      (λ _. refl) (λ _. refl)

pub active-stop : (h : Host) → (stop h).active ≡ h.active
unfolding stop
active-stop h =
    if_cases (λ (g : Host). g.active ≡ h.active) (not h.worker.running) (λ _. refl) (λ _. refl)

-- A host on which no worker was ever started.
abbrev pub fresh_host : Option String → Host
fresh_host active = record {
  worker = idle;
  active = active;
  alive = [];
  timers = 0;
  delivered = [];
}
