-- ===== src/Scheduler/Orchestrator/Histories.antt =====
-- What holds of an orchestrator after any history of calls and settled dispatches.
use web_inspector.Scheduler.Orchestrator.Results.{
  on_result, settle_dispatch, dispatch_failed, settle_first,
}
use web_inspector.Prelude.{
  Bool, List, Option, String, [], arith, if_cases, if◌then◌else◌, none, refl, true, ◌++◌, ◌∷◌, ◌≡◌,
  All, Result, false, length, option_cases, some, ◌<◌, ◌==◌, every-All, result_cases, string_eq,
}
use web_inspector.Prelude.Dict.{insert, lookup}
use web_inspector.Scheduler.Orchestrator.{
  enqueue, queue_url, Error, Event, create_event, create_run, queue_event, queue_urls, result_event,
  settle_event, step,
}
use web_inspector.Scheduler.Orchestrator.State.{
  Orchestrator, Run, Selection, Url, add_url, dispatch_stage, initial_test, new_url, put_url,
  reopen, running, Job, completed_run, empty, is_completed_run, put_run, url_is_terminal, all_done,
}
use web_inspector.Scheduler.Orchestrator.Settling.{
  Grows-insert, Inv, Inv-of_same, dispatch_stage-Inv, maybe_complete_run-Inv, put_run-Inv,
  put_url-Inv, record_result-Inv,
}

abbrev Kept : {A : Type 0} → Orchestrator × A → Type 0
Kept r = Inv r.0

module _ (normalize : String → Option String) where
  -- The id of each URL that an event makes is in no use at the time.
  abbrev pub FreshUrls : Orchestrator → String → List (String × String × Selection) → Type 0
  FreshUrls s run_id [] = Unit
  FreshUrls s run_id ((raw, url_id, sel) ∷ rest) =
      (lookup url_id s.urls ≡ none)
      × FreshUrls (queue_url normalize s run_id raw url_id sel true).0 run_id rest

  add_url-Inv :
      (s : Orchestrator) (run : Run) (url : Url)
      → run.status ≡ running
      → lookup url.id s.urls ≡ none
      → Inv s
      → Inv (add_url s run url)
  unfolding add_url
  add_url-Inv s run url open_run fresh inv =
      let wider =
        put_url-Inv s url (Grows-insert s.urls url (λ old e. absurd (ground (arith, e, fresh))))
          inv in
      let grown : Run = record run { url_ids = run.url_ids ++ url.id ∷ [] } in
      Inv-of_same (record (put_url s url) { runs = insert run.id grown s.runs }) (add_url s run url)
        refl refl
        (put_run-Inv (put_url s url) run.id grown (refl, λ c. absurd (ground arith)) wider)

  enqueue-Inv :
      (s : Orchestrator) (run : Run) (url url_id : String) (sel : Selection) (defer : Bool)
      → run.status ≡ running
      → lookup url_id s.urls ≡ none
      → Inv s
      → Inv (enqueue normalize s run url url_id sel defer).0
  unfolding enqueue
  enqueue-Inv s run url url_id sel defer open_run fresh inv =
      let rec = new_url run url url_id sel in
      let added = add_url s run rec in
      let added_ok : Inv added = add_url-Inv s run rec open_run (unfold new_url in fresh) inv in
      let sent = if sel.can_dispatch then dispatch_stage added rec initial_test else added in
      let sent_ok : Inv sent =
        if_cases Inv sel.can_dispatch (λ _. dispatch_stage-Inv added rec initial_test added_ok)
          (λ _. added_ok) in
      if_cases Inv defer (λ _. sent_ok) (λ _. maybe_complete_run-Inv sent run.id sent_ok)

  queue_url-Inv :
      (s : Orchestrator) (run_id raw url_id : String) (sel : Selection) (defer : Bool)
      → lookup url_id s.urls ≡ none
      → Inv s
      → Inv (queue_url normalize s run_id raw url_id sel defer).0
  unfolding queue_url
  queue_url-Inv s run_id raw url_id sel defer fresh inv =
      option_cases (Kept {A = Result Error Url}) (lookup run_id s.runs) (λ _. inv)
        (λ run _.
          let s' = if is_completed_run run.status then put_run s (reopen run) else s in
          let reopened : Inv s' =
            if_cases Inv (is_completed_run run.status)
              (λ _.
                put_run-Inv s (reopen run).id (reopen run) (refl, λ c. absurd (ground arith)) inv)
              (λ _. inv) in
          let still_fresh : lookup url_id s'.urls ≡ none = ground arith in
          option_cases (Kept {A = Result Error Url}) (normalize raw) (λ _. reopened)
            (λ url _.
              enqueue-Inv s' (reopen run) url url_id sel defer (ground arith) still_fresh reopened))

  queue_urls-Inv :
      (s : Orchestrator) (run_id : String) (urls : List (String × String × Selection))
      → FreshUrls s run_id urls
      → Inv s
      → Inv (queue_urls normalize s run_id urls).0
  unfolding queue_urls
  queue_urls-Inv s run_id [] fresh inv = inv
  queue_urls-Inv s run_id ((raw, url_id, sel) ∷ rest) fresh inv =
      let (s', r) = queue_url normalize s run_id raw url_id sel true in
      let inv' = queue_url-Inv s run_id raw url_id sel true fresh.0 inv in
      result_cases (Kept {A = Result Error (Unit {0})}) r
        (λ _ _. queue_urls-Inv s' run_id rest fresh.1 inv') (λ _ _. inv')

  -- What makes the ids of an event fresh.
  abbrev pub IsFresh : Orchestrator → Event → Type 0
  IsFresh s (create_event run_id urls) =
      FreshUrls (put_run s (record { id = run_id; status = running; url_ids = [] })) run_id urls
  IsFresh s (queue_event run_id raw url_id sel) = lookup url_id s.urls ≡ none
  IsFresh s (result_event summary) = Unit
  IsFresh s (settle_event sent) = Unit

  create_run-Inv :
      (s : Orchestrator) (run_id : String) (urls : List (String × String × Selection))
      → IsFresh s (create_event run_id urls)
      → Inv s
      → Inv (create_run normalize s run_id urls).0
  unfolding create_run
  create_run-Inv s run_id urls fresh inv =
      let made = put_run s (record { id = run_id; status = running; url_ids = [] }) in
      let made_ok : Inv made =
        put_run-Inv s run_id (record { id = run_id; status = running; url_ids = [] })
          (refl, λ c. absurd (ground arith)) inv in
      let (s', r) = queue_urls normalize made run_id urls in
      let made_ok' : Inv s' = queue_urls-Inv made run_id urls fresh made_ok in
      result_cases (Kept {A = Result Error (Unit {0})}) r
        (λ _ _. maybe_complete_run-Inv s' run_id made_ok') (λ _ _. made_ok')

  settle_first-Inv :
      (s : Orchestrator) (jobs : List Job) (sent : Bool) → Inv s → Inv (settle_first s jobs sent)
  unfolding settle_first
  settle_first-Inv s [] sent inv = inv
  settle_first-Inv s (job ∷ rest) sent inv =
      let settled : Orchestrator = record s { dispatching = rest } in
      let settled_ok : Inv settled = Inv-of_same s settled refl refl inv in
      if_cases Inv sent (λ _. settled_ok)
        (λ _. record_result-Inv settled (dispatch_failed job) settled_ok)

  pub step-Inv : (s : Orchestrator) (e : Event) → IsFresh s e → Inv s → Inv (step normalize s e)
  unfolding step on_result settle_dispatch
  step-Inv s (create_event run_id urls) fresh inv = create_run-Inv s run_id urls fresh inv
  step-Inv s (queue_event run_id raw url_id sel) fresh inv =
      queue_url-Inv s run_id raw url_id sel false fresh inv
  step-Inv s (result_event summary) fresh inv =
      if_cases Inv (summary.job_id == "") (λ _. inv) (λ _. record_result-Inv s summary inv)
  step-Inv s (settle_event sent) fresh inv = settle_first-Inv s s.dispatching sent inv

  -- The orchestrators that a history of events leads to.
  pub data Reach : Orchestrator → Type 0 where
    at_start : Reach empty
    after : {s : Orchestrator} → Reach s → (e : Event) → IsFresh s e → Reach (step normalize s e)

  Reach-Inv : {s : Orchestrator} → Reach s → Inv s
  unfolding lookup
  Reach-Inv at_start = record { own_id = λ key url h. cc; settled = λ key run h. cc }
  Reach-Inv (after {s} r e fresh) = step-Inv s e fresh (Reach-Inv r)

  -- In every reachable orchestrator, a completed run has at least one URL, and each of its URLs is
  -- completed, failed or blocked.
  pub completed_run_settled :
      {s : Orchestrator} (run_id : String) (run : Run)
      → Reach s
      → lookup run_id s.runs ≡ some run
      → run.status ≡ completed_run
      → (0 < length run.url_ids) × All (λ id. url_is_terminal s.urls id ≡ true) run.url_ids
  unfolding all_done
  completed_run_settled {s} run_id run r e c =
      let done = ((Reach-Inv r).settled run_id run e).1 c in
      (ground arith, every-All (url_is_terminal s.urls) run.url_ids (ground arith))
