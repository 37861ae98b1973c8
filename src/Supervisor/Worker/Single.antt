-- ===== src/Supervisor/Worker/Single.antt =====
-- lifecycle.mjs: how many workers there are.
use web_inspector.Supervisor.Worker.Alone.{
  IsOwn, IsSingle, fresh_host, happen-IsSingle, resting, same-IsSingle, start_answers-IsSingle,
  without_pid-nil, without_pid_self, working,
}
use web_inspector.Prelude.{
  List, Option, String, [], ap, false, none, refl, some, ℕ, ◌∷◌, ◌≡◌, arith, if_cases, not, suc,
  zero, ◌==◌, ◌||◌, ◌∙◌, inl, inr, subst, sym, ◌++◌, ◌⊎◌, string_eq, option_eq,
}
use web_inspector.Supervisor.Worker.Manager.{
  Event, Happening, Manager, answer_event, answer_with, begin_restart, begin_start, begin_stop,
  begin_timer, crash_event, drain_event, end_event, ensure_event, exit_event, happen, happens,
  job_event, ready_event, restart_event, start_event, start_wait, step, steps, stop_event,
  stop_wait, timer_event,
}
use web_inspector.Supervisor.Worker.{
  Host, crash, end_job, on_exit, on_ready, run_job, without_pid, JobAnswer, stop_answers,
}

-- Calls that wait do not overlap: one begins, also that of a restart timer, when no other waits.
abbrev pub IsPrompt : Manager → Event → Type 0
IsPrompt m (happens e) = IsOwn m.host e
IsPrompt m (answer_event proc) = Unit
IsPrompt m _ = m.waiting ≡ []

abbrev pub ArePrompt : Manager → List Event → Type 0
ArePrompt m [] = Unit
ArePrompt m (e ∷ es) = IsPrompt m e × ArePrompt (step m e) es

-- A happening starts no worker: it leaves the one that runs, or none.
abbrev Keeps : Host → Host → Type 0
Keeps h h' =
    ((h'.worker.pid ≡ h.worker.pid) × (h'.worker.running ≡ h.worker.running))
    ⊎ (h'.worker.running ≡ false)

on_exit-Keeps : (h g : Host) → Keeps h (on_exit g)
unfolding on_exit
on_exit-Keeps h g = if_cases (Keeps h) g.worker.stopping (λ _. inr refl) (λ _. inr refl)

happen-Keeps : (h : Host) (e : Happening) → Keeps h (happen h e)
unfolding happen crash run_job end_job on_ready
happen-Keeps h (crash_event pid) = on_exit-Keeps h _
happen-Keeps h exit_event = on_exit-Keeps h h
happen-Keeps h ready_event = inl (refl, refl)
happen-Keeps h (job_event job) =
    let P : Host × JobAnswer → Type 0 = λ r. Keeps h r.0 in
    if_cases P (not h.worker.running || not h.worker.has_stdin) (λ _. inl (refl, refl))
      (λ _. if_cases P h.worker.draining (λ _. inl (refl, refl)) (λ _. inl (refl, refl)))
happen-Keeps h (end_event job) =
    if_cases (Keeps h) (h.worker.current_job == job) (λ _. inl (refl, refl)) (λ _. inl (refl, refl))
happen-Keeps h (drain_event b) = inl (refl, refl)

-- The process that a `stop` took is the worker, or there is none any more.
abbrev IsTaken : Option ℕ → Host → Type 0
IsTaken pid h = (h.worker.pid ≡ pid) ⊎ (h.worker.running ≡ false)

-- At most one call waits, and it still finds what it saw.
data IsOrderly (m : Manager) : Type 0 where
  at_ease : m.waiting ≡ [] → IsSingle m.host → IsOrderly m
  to_start :
      (version : Option String)
      → m.waiting ≡ start_wait version ∷ []
      → m.host.worker.running ≡ false
      → IsSingle m.host
      → IsOrderly m
  to_stop :
      (pid : Option ℕ) (next : Option (Option String))
      → m.waiting ≡ stop_wait pid next ∷ []
      → IsTaken pid m.host
      → IsSingle m.host
      → IsOrderly m

orderly-IsSingle : (m : Manager) → IsOrderly m → IsSingle m.host
orderly-IsSingle m (at_ease e s) = s
orderly-IsSingle m (to_start version e r s) = s
orderly-IsSingle m (to_stop pid next e t s) = s

begin_start-IsOrderly :
    (m : Manager) (version : Option String)
    → m.waiting ≡ []
    → IsSingle m.host
    → IsOrderly (begin_start m version)
unfolding begin_start
begin_start-IsOrderly m version e s =
    if_cases IsOrderly m.host.worker.running (λ _. at_ease e s)
      (λ idle_now.
        to_start version (ap (λ w. w ++ (start_wait version ∷ [])) e) idle_now
          (same-IsSingle m.host _ refl refl refl s))

begin_stop-IsOrderly : (m : Manager) → m.waiting ≡ [] → IsSingle m.host → IsOrderly (begin_stop m)
unfolding begin_stop
begin_stop-IsOrderly m e s =
    let pid = m.host.worker.pid in
    if_cases IsOrderly (not m.host.worker.running) (λ _. at_ease e s)
      (λ _.
        to_stop pid none (ap (λ w. w ++ (stop_wait pid none ∷ [])) e) (inl refl)
          (same-IsSingle m.host _ refl refl refl s))

begin_restart-IsOrderly :
    (m : Manager) (version : Option String)
    → m.waiting ≡ []
    → IsSingle m.host
    → IsOrderly (begin_restart m version)
unfolding begin_restart
begin_restart-IsOrderly m version e s =
    let pid = m.host.worker.pid in
    if_cases IsOrderly (not m.host.worker.running) (λ _. begin_start-IsOrderly m _ e s)
      (λ _.
        to_stop pid (some version) (ap (λ w. w ++ (stop_wait pid (some version) ∷ [])) e) (inl refl)
          (same-IsSingle m.host _ refl refl refl s))

begin_timer-IsOrderly :
    (m : Manager) (n : ℕ) → m.waiting ≡ [] → IsSingle m.host → IsOrderly (begin_timer m n)
begin_timer-IsOrderly m zero e s = at_ease e s
begin_timer-IsOrderly m (suc n) e s =
    begin_start-IsOrderly _ _ e (same-IsSingle m.host _ refl refl refl s)

stop_answers-IsSingle :
    (h : Host) (pid : Option ℕ) → IsTaken pid h → IsSingle h → IsSingle (stop_answers h pid)
unfolding stop_answers without_pid
stop_answers-IsSingle h pid taken s = resting refl refl (gone s taken)
  where
    none_left : (q : Option ℕ) (ps : List (ℕ × Option String)) → ps ≡ [] → without_pid q ps ≡ []
    none_left none ps a = a
    none_left (some q) ps a = ap (without_pid (some q)) a ∙ without_pid-nil q

    gone : IsSingle h → IsTaken pid h → without_pid pid h.alive ≡ []
    gone (resting e r a) t = none_left pid h.alive a
    gone (working q v e r a) (inl same) =
        ap (λ o. without_pid o h.alive) (sym same ∙ e) ∙ without_pid_self q v h.alive a
    gone (working q v e r a) (inr idle_now) = absurd (ground (arith, r, idle_now))

answer-IsOrderly :
    (m : Manager) (proc : Option ℕ) → IsOrderly m → IsOrderly (answer_with m.host proc m.waiting)
answer-IsOrderly m proc (at_ease e s) =
    subst (λ w. IsOrderly (answer_with m.host proc w)) (sym e) (at_ease refl s)
answer-IsOrderly m proc (to_start version e r s) =
    subst (λ w. IsOrderly (answer_with m.host proc w)) (sym e)
      (at_ease refl (start_answers-IsSingle m.host version proc r s))
answer-IsOrderly m proc (to_stop pid none e t s) =
    subst (λ w. IsOrderly (answer_with m.host proc w)) (sym e)
      (at_ease refl (stop_answers-IsSingle m.host pid t s))
answer-IsOrderly m proc (to_stop pid (some version) e t s) =
    subst (λ w. IsOrderly (answer_with m.host proc w)) (sym e)
      (begin_start-IsOrderly _ _ refl (stop_answers-IsSingle m.host pid t s))

happens-IsOrderly :
    (m : Manager) (e : Happening)
    → IsOwn m.host e
    → IsOrderly m
    → IsOrderly (record m { host = happen m.host e })
happens-IsOrderly m e own (at_ease w s) = at_ease w (happen-IsSingle m.host e own s)
happens-IsOrderly m e own (to_start version w r s) =
    to_start version w (still (happen-Keeps m.host e)) (happen-IsSingle m.host e own s)
  where
    still : Keeps m.host (happen m.host e) → (happen m.host e).worker.running ≡ false
    still (inl k) = k.1 ∙ r
    still (inr idle_now) = idle_now
happens-IsOrderly m e own (to_stop pid next w t s) =
    to_stop pid next w (still (happen-Keeps m.host e) t) (happen-IsSingle m.host e own s)
  where
    still : Keeps m.host (happen m.host e) → IsTaken pid m.host → IsTaken pid (happen m.host e)
    still (inr idle_now) t' = inr idle_now
    still (inl k) (inl same) = inl (k.0 ∙ same)
    still (inl k) (inr idle_now) = inr (k.1 ∙ idle_now)

step-IsOrderly : (m : Manager) (e : Event) → IsPrompt m e → IsOrderly m → IsOrderly (step m e)
unfolding step
step-IsOrderly m (happens e) prompt o = happens-IsOrderly m e prompt o
step-IsOrderly m (start_event version) prompt o =
    begin_start-IsOrderly m version prompt (orderly-IsSingle m o)
step-IsOrderly m (restart_event version) prompt o =
    begin_restart-IsOrderly m version prompt (orderly-IsSingle m o)
step-IsOrderly m (ensure_event version) prompt o =
    begin_start-IsOrderly m version prompt (orderly-IsSingle m o)
step-IsOrderly m stop_event prompt o = begin_stop-IsOrderly m prompt (orderly-IsSingle m o)
step-IsOrderly m timer_event prompt o =
    begin_timer-IsOrderly m m.host.timers prompt (orderly-IsSingle m o)
step-IsOrderly m (answer_event proc) prompt o = answer-IsOrderly m proc o

steps-IsOrderly :
    (m : Manager) (es : List Event) → ArePrompt m es → IsOrderly m → IsOrderly (steps m es)
unfolding steps
steps-IsOrderly m [] prompt o = o
steps-IsOrderly m (e ∷ es) prompt o =
    steps-IsOrderly (step m e) es prompt.1 (step-IsOrderly m e prompt.0 o)

abbrev pub fresh_manager : Option String → Manager
fresh_manager active = record { host = fresh_host active; waiting = [] }

-- As long as no start, stop or restart, that of a restart timer included, begins while another one waits
-- for the platform, and each exit is handled before the next worker is started, there is at most one
-- worker process: the one whose id the state holds. Crashes, lines of the worker, jobs and exits may come
-- between the halves of a call.
pub one_worker :
    (active : Option String) (es : List Event)
    → ArePrompt (fresh_manager active) es
    → IsSingle (steps (fresh_manager active) es).host
one_worker active es prompt =
    orderly-IsSingle _
      (steps-IsOrderly (fresh_manager active) es prompt (at_ease refl (resting refl refl refl)))
