-- ===== src/Supervisor/Updater/Gated.antt =====
-- apply-bundle.mjs: which worker runs after an update.
use web_inspector.Supervisor.Worker.Alone.{IsSingle, same-IsSingle, stop_at_rest}
use web_inspector.Prelude.{
  Option, String, [], false, some, true, value, ℕ, ◌∷◌, ◌≡◌, Result, ap, arith, if_cases, not, refl,
  throw, ◌&&◌, ◌≢◌, Bool,
}
use web_inspector.Supervisor.Worker.{
  Host, start, started, stop, WorkerError, set_draining, set_version,
}
use web_inspector.Supervisor.Updater.{
  switch_to, Attempt, UpdateError, apply_bundle, rolled_back, resume,
}

-- The one worker runs a version, from the link that leads to it, and takes jobs.
pub record Serves (h : Host) (version : Option String) (pid : ℕ) : Type 0 where
  pub active_version : h.active ≡ version
  pub only_worker : h.alive ≡ (pid, version) ∷ []
  pub named : h.worker.pid ≡ some pid
  pub is_running : h.worker.running ≡ true
  pub takes_jobs : h.worker.draining ≡ false

-- What `switch_to` starts from.
abbrev emptied : Host → Option String → Host
emptied h version = set_version (record (stop (set_draining h true)) { active = version }) version

emptied_at_rest :
    (h : Host) (version : Option String)
    → IsSingle h
    → ((emptied h version).worker.running ≡ false) × ((emptied h version).alive ≡ [])
emptied_at_rest h version s =
    let drained = set_draining h true in
    stop_at_rest drained (same-IsSingle h drained refl refl refl s)

start_at_rest :
    (h : Host) (version : Option String) (pid : ℕ)
    → h.worker.running ≡ false
    → start h version (some pid) ≡ (started h version pid, value tt)
unfolding start started
start_at_rest h version pid e =
    if_cases (λ (r : Host × Result WorkerError (Unit {0})). r ≡ (started h version pid, value tt))
      h.worker.running (λ busy_now. absurd (ground arith)) (λ _. refl)

-- The host after a switch of a host at rest.
unfoldable pub switched : Host → Option String → ℕ → Host
switched h version pid = set_draining (started (emptied h version) version pid) false

pub switch_to-eq :
    (h : Host) (version : Option String) (pid : ℕ)
    → IsSingle h
    → switch_to h version true (some pid) ≡ (switched h version pid, value tt)
unfolding switch_to switched
switch_to-eq h version pid s =
    ap resume (start_at_rest (emptied h version) version pid (emptied_at_rest h version s).0)

pub switched-Serves :
    (h : Host) (version : Option String) (pid : ℕ)
    → IsSingle h
    → Serves (switched h version pid) version pid
unfolding switched started
switched-Serves h version pid s = record {
  active_version = refl;
  only_worker = ap (λ ps. (pid, version) ∷ ps) (emptied_at_rest h version s).1;
  named = refl;
  is_running = refl;
  takes_jobs = refl;
}

-- What an update leaves whose health gate answered `healthy`: the new version, served by a worker that is
-- ready, or the previous one.
abbrev pub Gated : Bool → Option String → String → ℕ → Host × Result UpdateError (Unit {0}) → Type 0
Gated healthy previous version back_pid (h, value _) =
    (healthy ≡ true) × (h.worker.ready ≡ true) × ((pid : ℕ) × Serves h (some version) pid)
Gated healthy previous version back_pid (h, throw e) =
    (healthy ≡ false) × (e ≡ rolled_back previous) × Serves h previous back_pid

-- What a refusal leaves of a host.
abbrev Refuses : Host → Host × Result UpdateError (Unit {0}) → Type 0
Refuses h r = (r.0 ≡ h) × (r.1 ≢ value tt)

-- An update that is refused before the switch, because the download fails, because keys are
-- configured and the signature is not by one of them, or because the extraction fails, throws and
-- does not touch the worker.
pub refused_untouched :
    (a : Attempt) (h : Host) (version : String)
    → (a.downloads && not (a.keys_configured && not a.signature_ok) && a.extracts) ≡ false
    → ((apply_bundle a h version).0 ≡ h) × ((apply_bundle a h version).1 ≢ value tt)
unfolding apply_bundle
refused_untouched a h version e =
    if_cases (Refuses h) (not a.downloads) (λ _. (refl, λ q. cc))
      (λ d.
        if_cases (Refuses h) (a.keys_configured && not a.signature_ok) (λ _. (refl, λ q. cc))
          (λ g.
            if_cases (Refuses h) (not a.extracts) (λ _. (refl, λ q. cc))
              (λ x. absurd (ground arith))))
