-- ===== src/Scheduler/Orchestrator/Settling.antt =====
-- A run is completed only when each of its URLs has reached a terminal state.
use web_inspector.Comparison.{classify}
use web_inspector.Scheduler.Orchestrator.Results.{
  advance, any_not_ok, arms_of, bucket_of, finalize, is_finished, is_initial, is_validating,
  job_for, record_result, stage_done, start_validation, store_result,
}
use web_inspector.Prelude.{
  List, String, [], arith, every, refl, some, true, ◌∷◌, ◌≡◌, if_cases, not, option_cases,
  Option-cases, eq_iff, false, inl, inr, ◌&&◌, ◌++◌, subst, sym, string_eq,
}
use web_inspector.Prelude.Dict.{Dict, insert, lookup, lookup-insert_cases, lookup-insert}
use web_inspector.Scheduler.Orchestrator.State.{
  Orchestrator, Run, Url, all_done, completed_run, maybe_complete_run, put_url, url_is_terminal,
  is_completed_run, Selected, Stage, Summary, browser_validation, browser_validation_running,
  completed, dispatch_nodes, dispatch_stage, initial_test, is_terminal, job_for_node,
}

-- No URL that is terminal in `u` is not so in `v`.
abbrev pub Grows : Dict String Url → Dict String Url → Type 0
Grows u v = (id : String) → url_is_terminal u id ≡ true → url_is_terminal v id ≡ true

abbrev pub RunOk : Dict String Url → String → Run → Type 0
RunOk urls key run = (run.id ≡ key) × (run.status ≡ completed_run → all_done urls run ≡ true)

pub record Inv (s : Orchestrator) : Type 0 where
  pub own_id : (key : String) (url : Url) → lookup key s.urls ≡ some url → url.id ≡ key
  pub settled : (key : String) (run : Run) → lookup key s.runs ≡ some run → RunOk s.urls key run

every-Grows :
    (u v : Dict String Url)
    → Grows u v
    → (ids : List String) → every (url_is_terminal u) ids ≡ true
    → every (url_is_terminal v) ids ≡ true
every-Grows u v g [] h = refl
every-Grows u v g (id ∷ ids) h = ground (arith, g id, every-Grows u v g ids)

all_done-Grows :
    (u v : Dict String Url) (run : Run) → Grows u v → all_done u run ≡ true → all_done v run ≡ true
unfolding all_done
all_done-Grows u v run g h = ground (arith, every-Grows u v g run.url_ids)

-- To write a run that is in order.
pub put_run-Inv :
    (s : Orchestrator) (key : String) (run : Run)
    → RunOk s.urls key run
    → Inv s
    → Inv (record s { runs = insert key run s.runs })
put_run-Inv s key run good inv = record {
  own_id = inv.own_id;
  settled = λ other r h.
      ground (arith, lookup-insert_cases key other run r s.runs h, inv.settled other r);
}

-- To write a URL, if that takes no URL out of a terminal state.
pub put_url-Inv :
    (s : Orchestrator) (url : Url)
    → Grows s.urls (insert url.id url s.urls)
    → Inv s
    → Inv (put_url s url)
put_url-Inv s url g inv = record {
  own_id =
      λ key u h. ground (arith, lookup-insert_cases url.id key url u s.urls h, inv.own_id key u);
  settled = λ key run h.
      ((inv.settled key run h).0, λ c. all_done-Grows s.urls _ run g ((inv.settled key run h).1 c));
}

pub maybe_complete_run-Inv :
    (s : Orchestrator) (run_id : String) → Inv s → Inv (maybe_complete_run s run_id)
unfolding maybe_complete_run
maybe_complete_run-Inv s run_id inv =
    option_cases Inv (lookup run_id s.runs) (λ _. inv)
      (λ run e.
        if_cases Inv (is_completed_run run.status) (λ _. inv)
          (λ _.
            if_cases Inv (not (all_done s.urls run)) (λ _. inv)
              (λ done.
                put_run-Inv s run_id (record run { status = completed_run })
                  ((inv.settled run_id run e).0, λ _. unfold all_done in ground arith) inv)))

pub Inv-of_same : (s t : Orchestrator) → t.runs ≡ s.runs → t.urls ≡ s.urls → Inv s → Inv t
Inv-of_same s t er eu inv = record {
  own_id = λ key url h. inv.own_id key url (rw (← eu) h);
  settled = λ key run h. rw eu (inv.settled key run (rw (← er) h));
}

-- A dispatch writes no run, no URL and no result.
pub dispatch_nodes_same :
    (s : Orchestrator) (url : Url) (stage : Stage) (nodes : List Selected)
    → let t = dispatch_nodes s url stage nodes in
      (t.runs ≡ s.runs)
      × (t.urls ≡ s.urls)
      × (t.results ≡ s.results)
      × (t.comparisons ≡ s.comparisons)
unfolding dispatch_nodes
dispatch_nodes_same s url stage [] = (refl, refl, refl, refl)
dispatch_nodes_same s url stage (node ∷ nodes) =
    let job = job_for_node url stage node in
    let sent : Orchestrator = record s {
      jobs = insert job.id job s.jobs;
      dispatching = s.dispatching ++ job ∷ [];
    } in
    dispatch_nodes_same sent url stage nodes

pub dispatch_stage-Inv :
    (s : Orchestrator) (url : Url) (stage : Stage) → Inv s → Inv (dispatch_stage s url stage)
unfolding dispatch_stage
dispatch_stage-Inv s url stage inv =
    let same = dispatch_nodes_same s url stage url.selected_nodes in
    Inv-of_same s (dispatch_nodes s url stage url.selected_nodes) same.0 same.1 inv

pub Grows-insert :
    (urls : Dict String Url) (url : Url)
    → ((old : Url)
        → lookup url.id urls ≡ some old
        → is_terminal old.status ≡ true
        → is_terminal url.status ≡ true)
    → Grows urls (insert url.id url urls)
unfolding url_is_terminal
Grows-insert urls url keeps id h = elim (Option-cases (lookup url.id urls)) [
  | inl absent ↦ ground (arith, lookup-insert url.id id url urls, eq_iff url.id id)
  | inr (old, e) ↦ ground (arith, lookup-insert url.id id url urls, eq_iff url.id id, keeps old e)
]

finalize-Inv : (s : Orchestrator) (url : Url) → Inv s → Inv (finalize s url)
unfolding finalize
finalize-Inv s url inv =
    let verdict = classify (arms_of (bucket_of s url.id) url.selected_nodes) in
    let compared : Orchestrator = record s { comparisons = insert url.id verdict s.comparisons } in
    let done : Url = record url { status = completed; classification = verdict.classification } in
    maybe_complete_run-Inv (put_url compared done) url.run_id (
      put_url-Inv compared done (Grows-insert s.urls done (λ old e h. refl))
        (Inv-of_same s compared refl refl inv))

start_validation-Inv :
    (s : Orchestrator) (url : Url)
    → lookup url.id s.urls ≡ some url
    → is_terminal url.status ≡ false
    → Inv s
    → Inv (start_validation s url)
unfolding start_validation
start_validation-Inv s url e open_url inv =
    let validating : Url = record url { status = browser_validation_running } in
    dispatch_stage-Inv (put_url s validating) validating browser_validation
      (put_url-Inv s validating (Grows-insert s.urls validating (λ old e' h. ground arith)) inv)

pub advance-Inv :
    (s : Orchestrator) (url : Url) → lookup url.id s.urls ≡ some url → Inv s → Inv (advance s url)
unfolding advance
advance-Inv s url e inv =
    let bucket = bucket_of s url.id in
    if_cases Inv (is_finished url.status) (λ _. inv)
      (λ _.
        if_cases Inv (not (stage_done url bucket initial_test)) (λ _. inv)
          (λ _.
            if_cases Inv (any_not_ok url bucket && is_initial url.status)
              (λ h. start_validation-Inv s url e (ground arith) inv)
              (λ _.
                if_cases Inv
                  (is_validating url.status && not (stage_done url bucket browser_validation))
                  (λ _. inv) (λ _. finalize-Inv s url inv))))

pub record_result-Inv :
    (s : Orchestrator) (summary : Summary) → Inv s → Inv (record_result s summary)
unfolding record_result store_result
record_result-Inv s summary inv =
    option_cases Inv (job_for s summary.job_id) (λ _. inv)
      (λ job _.
        option_cases Inv (lookup job.url_id s.urls) (λ _. inv)
          (λ url e.
            advance-Inv (store_result s url job summary) url
              (subst (λ k. lookup k s.urls ≡ some url) (sym (inv.own_id job.url_id url e)) e)
              (Inv-of_same s (store_result s url job summary) refl refl inv)))
