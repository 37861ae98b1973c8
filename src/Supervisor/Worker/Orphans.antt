-- ===== src/Supervisor/Worker/Orphans.antt =====
-- lifecycle.mjs: `onExit` does not say which process has exited.
use web_inspector.Supervisor.Worker.Alone.{without_pid_self}
use web_inspector.Prelude.{
  Option, String, [], none, some, true, ℕ, ◌∷◌, ◌≡◌, false, refl, ap, arith, if_cases, not, ◌∙◌,
}
use web_inspector.Supervisor.Worker.{
  Host, on_exit, on_timer, restart, start, started, stop, without_pid,
}

-- What `stop` leaves of a running worker.
stopped : Host → Host
stopped h = record h {
  worker = record (h.worker) {
    stopping = true;
    running = false;
    ready = false;
    has_stdin = false;
    pid = none;
  };
  alive = [];
}

stop_running :
    (h : Host) (old : ℕ) (v : Option String)
    → h.worker.running ≡ true
    → h.worker.pid ≡ some old
    → h.alive ≡ (old, v) ∷ []
    → stop h ≡ stopped h
unfolding stop stopped without_pid
stop_running h old v busy p a =
    if_cases (λ g. g ≡ stopped h) (not h.worker.running) (λ idle_now. absurd (ground arith))
      (λ _.
        ap (λ ps. record (stopped h) { alive = ps })
          (ap (λ q. without_pid q h.alive) p ∙ without_pid_self old v h.alive a))

-- A running worker is restarted, and the `exit` event of the old process is handled after the start
-- of the new one: then the new process is forgotten, and the restart timer starts another beside it.
pub late_exit_orphans :
    (h : Host) (old new third : ℕ) (v : Option String)
    → h.worker.running ≡ true
    → h.worker.pid ≡ some old
    → h.alive ≡ (old, v) ∷ []
    → let after = on_timer (on_exit (restart h none (some new)).0) (some third) in
      (after.alive ≡ (third, h.active) ∷ (new, h.active) ∷ []) × (after.worker.pid ≡ some third)
unfolding on_timer on_exit restart start started stopped
late_exit_orphans h old new third v busy p a = rw (stop_running h old v busy p a) (refl, refl)
