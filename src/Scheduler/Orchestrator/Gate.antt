-- ===== src/Scheduler/Orchestrator/Gate.antt =====
-- The completion gate of a URL: which results it waits for, and what its classification rests on.
use web_inspector.Prelude.{
  All, All-every, Bool, List, String, [], arith, every-All, exists, false, if_cases, not,
  option_cases, refl, some, true, ◌↔◌, ◌∷◌, ◌≡◌, ◌≢◌, ◌&&◌, string_eq,
}
use web_inspector.Prelude.Dict.{Dict, has, lookup, lookup-insert_self}
use web_inspector.Comparison.{Verdict, classify, is_false}
use web_inspector.Scheduler.Orchestrator.State.{
  Orchestrator, Rec, Selected, Stage, Url, all_done, browser_validation, browser_validation_running,
  completed, dispatch_stage, initial_test, initial_tests_running, is_completed_run, is_terminal,
  maybe_complete_run, put_url, result_key,
}
use web_inspector.Scheduler.Orchestrator.Results.{
  advance, any_not_ok, arms_of, bucket_of, finalize, ok_of, stage_done, start_validation,
  is_finished, is_initial, is_validating,
}
use web_inspector.Scheduler.Orchestrator.Settling.{dispatch_nodes_same}

-- Every node has a result for the stage.
abbrev pub Answered : Dict String Rec → Stage → List Selected → Type 0
Answered bucket stage nodes =
    All (λ (n : Selected). has (result_key n.node_name stage) bucket ≡ true) nodes

-- No node's initial test has `ok === false`.
abbrev pub NoneFailed : Dict String Rec → List Selected → Type 0
NoneFailed bucket nodes =
    All
      (λ (n : Selected).
        is_false (ok_of (lookup (result_key n.node_name initial_test) bucket)) ≡ false)
      nodes

abbrev pub IsCompleted : Orchestrator → String → Type 0
IsCompleted s id = (u : Url) × (lookup id s.urls ≡ some u) × (u.status ≡ completed)

stage_done_iff :
    (url : Url) (bucket : Dict String Rec) (stage : Stage)
    → (stage_done url bucket stage ≡ true) ↔ Answered bucket stage url.selected_nodes
unfolding stage_done
stage_done_iff url bucket stage = (every-All _ url.selected_nodes, All-every _ url.selected_nodes)

exists_false_iff {ℓ} :
    {A : Type ℓ} (p : A → Bool) (xs : List A) → (exists p xs ≡ false) ↔ All (λ x. p x ≡ false) xs
exists_false_iff p [] = ((λ _. tt), λ _. refl)
exists_false_iff p (x ∷ xs) =
    let rest = exists_false_iff p xs in
    ((λ h. (ground arith, rest.0 (ground arith))), λ h. ground (arith, h.0, rest.1 h.1))

any_not_ok_iff :
    (url : Url) (bucket : Dict String Rec)
    → (any_not_ok url bucket ≡ false) ↔ NoneFailed bucket url.selected_nodes
unfolding any_not_ok
any_not_ok_iff url bucket = exists_false_iff _ url.selected_nodes

urls-maybe_complete_run : (s : Orchestrator) (id : String) → (maybe_complete_run s id).urls ≡ s.urls
unfolding maybe_complete_run
urls-maybe_complete_run s id =
    let P : Orchestrator → Type 0 = λ t. t.urls ≡ s.urls in
    option_cases P (lookup id s.runs) (λ _. refl)
      (λ run _.
        if_cases P (is_completed_run run.status) (λ _. refl)
          (λ _. if_cases P (not (all_done s.urls run)) (λ _. refl) (λ _. refl)))

abbrev pub verdict_of : Orchestrator → Url → Verdict
verdict_of s url = classify (arms_of (bucket_of s url.id) url.selected_nodes)

pub lookup-finalize :
    (s : Orchestrator) (url : Url)
    → lookup url.id (finalize s url).urls
      ≡ some (record url { status = completed; classification = (verdict_of s url).classification })
unfolding finalize
lookup-finalize s url =
    rw (urls-maybe_complete_run _ url.run_id) (lookup-insert_self url.id _ s.urls)

pub lookup-start_validation :
    (s : Orchestrator) (url : Url)
    → lookup url.id (start_validation s url).urls
      ≡ some (record url { status = browser_validation_running })
unfolding start_validation dispatch_stage
lookup-start_validation s url =
    let validating : Url = record url { status = browser_validation_running } in
    rw
      ((dispatch_nodes_same (put_url s validating) validating browser_validation
        url.selected_nodes).1)
      (lookup-insert_self url.id validating s.urls)

pub not_completed :
    (s : Orchestrator) (id : String) (url : Url)
    → lookup id s.urls ≡ some url
    → url.status ≢ completed
    → ¬ IsCompleted s id
not_completed s id url e h (u, e', c) = h (ground arith)

-- The results that a URL in a running state still has to wait for.
abbrev pub Ready : Url → Dict String Rec → Type 0
Ready url bucket =
    Answered bucket initial_test url.selected_nodes
    × (url.status ≡ initial_tests_running → NoneFailed bucket url.selected_nodes)
    × (url.status ≡ browser_validation_running
        → Answered bucket browser_validation url.selected_nodes)

-- A running URL is completed by `advance` exactly when every selected node has answered the
-- initial test and, in the initial stage, none of the answers is `ok === false`, or, in the
-- browser stage, every selected node has answered the browser validation too.
pub advance_completes :
    (s : Orchestrator) (url : Url)
    → lookup url.id s.urls ≡ some url
    → is_terminal url.status ≡ false
    → IsCompleted (advance s url) url.id ↔ Ready url (bucket_of s url.id)
unfolding advance
advance_completes s url e open_url =
    let b = bucket_of s url.id in
    let P : Orchestrator → Type 0 = λ t. IsCompleted t url.id ↔ Ready url b in
    let initial = stage_done_iff url b initial_test in
    let validated = stage_done_iff url b browser_validation in
    let fine = any_not_ok_iff url b in
    let waits : ¬ IsCompleted s url.id = not_completed s url.id url e (λ c. ground arith) in
    let validating : Url = record url { status = browser_validation_running } in
    if_cases P (is_finished url.status) (λ h. absurd (ground arith))
      (λ _.
        if_cases P (not (stage_done url b initial_test))
          (λ h. (λ c. absurd (waits c), λ r. absurd (ground (arith, initial.1 r.0))))
          (λ i.
            if_cases P (any_not_ok url b && is_initial url.status)
              (λ h. (
                λ c. absurd (
                    not_completed (start_validation s url) url.id validating
                      (lookup-start_validation s url) (λ d. cc) c),
                λ r. absurd (ground (arith, fine.1 (r.1 (ground arith)))),
              ))
              (λ not_failing.
                if_cases P (is_validating url.status && not (stage_done url b browser_validation))
                  (λ h. (
                    λ c. absurd (waits c),
                    λ r. absurd (ground (arith, validated.1 (r.2 (ground arith)))),
                  ))
                  (λ not_waiting. (
                    λ c. (
                      initial.0 (ground arith),
                      λ q. fine.0 (ground arith),
                      λ q. validated.0 (ground arith),
                    ),
                    λ r. (_, lookup-finalize s url, refl),
                  )))))
