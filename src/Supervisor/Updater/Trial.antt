-- ===== src/Supervisor/Updater/Trial.antt =====
-- apply-bundle.mjs: a new worker on trial, while the health gate polls.
use web_inspector.Supervisor.Worker.Alone.{IsOwn, IsSingle, happen-IsSingle, on_timer-IsSingle}
use web_inspector.Prelude.{
  All, Bool, List, Option, Result, String, [], eqb, false, if_cases, none, not, refl, some, subst,
  suc, sym, true, zero, ℕ, ◌==◌, ◌||◌, ◌∙◌, ◌∷◌, ◌≡◌, string_eq, option_eq,
}
use web_inspector.Supervisor.Worker.{
  Host, JobAnswer, WorkerError, crash, end_job, on_exit, on_ready, on_timer, run_job, start,
  start_answers, started, starting, without_pid,
}
use web_inspector.Supervisor.Worker.Manager.{
  Happening, crash_event, drain_event, end_event, exit_event, happen, job_event, ready_event,
}
use web_inspector.Supervisor.Updater.{
  GateEvent, fires, gate_step, gate_steps, wait_for_healthy, worker_event,
}

-- What may happen while a worker is on trial: it crashes, an exit is handled while no worker runs, a
-- running worker is ready, jobs come and end, and restart timers fire. No other call drains the node.
abbrev pub IsTrialEvent : Host → GateEvent → Type 0
IsTrialEvent h (worker_event ready_event) = h.worker.running ≡ true
IsTrialEvent h (worker_event (drain_event b)) = b ≡ false
IsTrialEvent h (worker_event e) = IsOwn h e
IsTrialEvent h (fires proc) = Unit

abbrev pub AreTrialEvents : Host → List GateEvent → Type 0
AreTrialEvents h [] = Unit
AreTrialEvents h (e ∷ es) = IsTrialEvent h e × AreTrialEvents (gate_step h e) es

-- So it is in every sleep of the health gate.
abbrev pub IsTrial : Host → List (List GateEvent) → Type 0
IsTrial h [] = Unit
IsTrial h (slept ∷ polls) = AreTrialEvents h slept × IsTrial (gate_steps h slept) polls

module _ (v : Option String) where
  -- Every worker that is alive is of the version that `current` leads to, takes jobs, and only a running
  -- one is ready.
  pub record IsTried (h : Host) : Type 0 where
    pub active_version : h.active ≡ v
    pub takes_jobs : h.worker.draining ≡ false
    pub of_version : All (λ (p : ℕ × Option String). p.1 ≡ v) h.alive
    pub ready_runs : (not h.worker.ready || h.worker.running) ≡ true

  same-IsTried :
      (h h' : Host)
      → h'.active ≡ h.active
      → h'.worker.draining ≡ h.worker.draining
      → h'.alive ≡ h.alive
      → (not h'.worker.ready || h'.worker.running) ≡ true
      → IsTried h
      → IsTried h'
  same-IsTried h h' a d l r t = record {
    active_version = a ∙ t.active_version;
    takes_jobs = d ∙ t.takes_jobs;
    of_version = subst (All (λ (p : ℕ × Option String). p.1 ≡ v)) (sym l) t.of_version;
    ready_runs = r;
  }

  on_exit-IsTried : (h : Host) → IsTried h → IsTried (on_exit h)
  unfolding on_exit
  on_exit-IsTried h t =
      if_cases IsTried h.worker.stopping (λ _. same-IsTried h _ refl refl refl refl t)
        (λ _. same-IsTried h _ refl refl refl refl t)

  All-without_pid :
      (P : ℕ × Option String → Type 0) (pid : ℕ) (ps : List (ℕ × Option String))
      → All P ps
      → All P (without_pid (some pid) ps)
  unfolding without_pid
  All-without_pid P pid [] all = tt
  All-without_pid P pid (p ∷ ps) all =
      if_cases (All P) (not (eqb p.0 pid)) (λ _. (all.0, All-without_pid P pid ps all.1))
        (λ _. All-without_pid P pid ps all.1)

  happen-IsTried :
      (h : Host) (e : Happening)
      → IsTrialEvent h (worker_event e)
      → IsTried h
      → IsTried (happen h e)
  unfolding happen crash run_job end_job on_ready
  happen-IsTried h (crash_event pid) own t =
      on_exit-IsTried (record h { alive = without_pid (some pid) h.alive })
        (record {
          active_version = t.active_version;
          takes_jobs = t.takes_jobs;
          of_version = All-without_pid _ pid h.alive t.of_version;
          ready_runs = t.ready_runs;
        })
  happen-IsTried h exit_event own t = on_exit-IsTried h t
  happen-IsTried h ready_event own t = same-IsTried h _ refl refl refl own t
  happen-IsTried h (job_event job) own t =
      let P : Host × JobAnswer → Type 0 = λ r. IsTried r.0 in
      if_cases P (not h.worker.running || not h.worker.has_stdin) (λ _. t)
        (λ _.
          if_cases P h.worker.draining (λ _. t)
            (λ _. same-IsTried h _ refl refl refl t.ready_runs t))
  happen-IsTried h (end_event job) own t =
      if_cases IsTried (h.worker.current_job == job)
        (λ _. same-IsTried h _ refl refl refl t.ready_runs t) (λ _. t)
  happen-IsTried h (drain_event b) own t = record {
    active_version = t.active_version;
    takes_jobs = own;
    of_version = t.of_version;
    ready_runs = t.ready_runs;
  }

  started-IsTried :
      (h : Host) (version : Option String) (pid : ℕ) → IsTried h → IsTried (started h version pid)
  unfolding started
  started-IsTried h version pid t = record {
    active_version = t.active_version;
    takes_jobs = t.takes_jobs;
    of_version = (t.active_version, t.of_version);
    ready_runs = refl;
  }

  start-IsTried :
      (h : Host) (version : Option String) (proc : Option ℕ)
      → IsTried h
      → IsTried (start h version proc).0
  unfolding start
  start-IsTried h version proc t =
      if_cases (λ (r : Host × Result WorkerError (Unit {0})). IsTried r.0) h.worker.running (λ _. t)
        (λ _. answered proc)
    where
      answered : (o : Option ℕ) → IsTried (start_answers (starting h) version o).0
      answered none = same-IsTried h _ refl refl refl refl t
      answered (some pid) =
          started-IsTried (starting h) version pid (same-IsTried h _ refl refl refl refl t)

  on_timer-IsTried : (h : Host) (proc : Option ℕ) → IsTried h → IsTried (on_timer h proc)
  unfolding on_timer
  on_timer-IsTried h proc t = fire h.timers
    where
      fire :
          (n : ℕ)
          → IsTried (elim n [
            | zero ↦ h
            | suc m ↦ (start (record h { timers = m }) h.worker.version proc).0
          ])
      fire zero = t
      fire (suc m) =
          start-IsTried (record h { timers = m }) h.worker.version proc
            (same-IsTried h _ refl refl refl t.ready_runs t)

  gate_step-keeps :
      (h : Host) (e : GateEvent)
      → IsTrialEvent h e
      → IsSingle h × IsTried h
      → IsSingle (gate_step h e) × IsTried (gate_step h e)
  unfolding gate_step
  gate_step-keeps h (fires proc) own (s, t) =
      (on_timer-IsSingle h proc s, on_timer-IsTried h proc t)
  gate_step-keeps h (worker_event e) own (s, t) =
      (happen-IsSingle h e (is_own e own) s, happen-IsTried h e own t)
    where
      is_own : (e : Happening) → IsTrialEvent h (worker_event e) → IsOwn h e
      is_own (crash_event pid) o = o
      is_own exit_event o = o
      is_own ready_event o = tt
      is_own (job_event job) o = tt
      is_own (end_event job) o = tt
      is_own (drain_event b) o = tt

  gate_steps-keeps :
      (h : Host) (es : List GateEvent)
      → AreTrialEvents h es
      → IsSingle h × IsTried h
      → IsSingle (gate_steps h es) × IsTried (gate_steps h es)
  unfolding gate_steps
  gate_steps-keeps h [] own k = k
  gate_steps-keeps h (e ∷ es) own k =
      gate_steps-keeps (gate_step h e) es own.1 (gate_step-keeps h e own.0 k)

  -- What the health gate leaves of a worker on trial, and that a success saw it ready.
  abbrev pub Waited : Host × Bool → Type 0
  Waited (h, healthy) = IsSingle h × IsTried h × ((not healthy || h.worker.ready) ≡ true)

  pub wait_for_healthy-Waited :
      (h : Host) (polls : List (List GateEvent))
      → IsTrial h polls
      → IsSingle h × IsTried h
      → Waited (wait_for_healthy h polls)
  unfolding wait_for_healthy
  wait_for_healthy-Waited h [] trial (s, t) = (s, t, refl)
  wait_for_healthy-Waited h (slept ∷ polls) trial k =
      if_cases Waited h.worker.ready (λ ready. (k.0, k.1, ready))
        (λ _.
          wait_for_healthy-Waited (gate_steps h slept) polls trial.1
            (gate_steps-keeps h slept trial.0 k))
