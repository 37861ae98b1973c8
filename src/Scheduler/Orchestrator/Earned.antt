-- ===== src/Scheduler/Orchestrator/Earned.antt =====
-- What the classification of a completed URL says of the results that its nodes have reported.
use web_inspector.Prelude.{
  List, String, [], ap, arith, eqb, false, filter_by, if_cases, if◌then◌else◌, length, map, not,
  refl, some, subst, sym, ◌&&◌, ◌++◌, ◌∙◌, ◌∷◌, ◌≡◌, string_eq,
}
use web_inspector.Prelude.Dict.{Dict, lookup}
use web_inspector.Comparison.{OkField, arm_status, classify, ok, unavailable, combine_gsa, healthy}
use web_inspector.Comparison.Pooling.{Means, arm_status-Means, combine_gsa-arm_status}
use web_inspector.Comparison.Blame.{Justified, classify-Justified}
use web_inspector.Contracts.Nodes.{NodeType, azure_direct, gsa_client, gsa_remotenet}
use web_inspector.Scheduler.Orchestrator.State.{
  Orchestrator, Rec, Selected, Url, browser_validation, browser_validation_running, completed,
  initial_test, is_terminal,
}
use web_inspector.Scheduler.Orchestrator.Results.{
  advance, any_not_ok, arm_of, arms_of, bucket_of, effective_ok, is_finished, is_initial,
  is_validating, same_type, stage_done, start_validation,
}
use web_inspector.Scheduler.Orchestrator.Gate.{
  lookup-finalize, lookup-start_validation, not_completed, verdict_of,
}

-- The `ok` fields that count for the nodes of a type.
pub reports : Dict String Rec → List Selected → NodeType → List OkField
reports bucket nodes type =
    map (effective_ok bucket) (filter_by (λ (n : Selected). same_type n.node_type type) nodes)

arm_of_nodes :
    (bucket : Dict String Rec) (nodes : List Selected) (f : Selected → OkField)
    → (if eqb (length nodes) 0 then unavailable else arm_status (map f nodes))
      ≡ arm_status (map f nodes)
unfolding arm_status
arm_of_nodes bucket [] f = refl
arm_of_nodes bucket (n ∷ nodes) f = ground arith

-- An arm without nodes has the status of no reports.
arm_of-reports :
    (bucket : Dict String Rec) (nodes : List Selected) (type : NodeType)
    → arm_of bucket nodes type ≡ some (arm_status (reports bucket nodes type))
unfolding arm_of reports
arm_of-reports bucket nodes type = ap some (
    arm_of_nodes bucket (filter_by (λ (n : Selected). same_type n.node_type type) nodes)
      (effective_ok bucket))

-- The GSA nodes of both kinds.
pub gsa_reports : Dict String Rec → List Selected → List OkField
gsa_reports bucket nodes = reports bucket nodes gsa_remotenet ++ reports bucket nodes gsa_client

evidence_azure :
    (bucket : Dict String Rec) (nodes : List Selected)
    → (classify (arms_of bucket nodes)).arms.azure ≡ arm_status (reports bucket nodes azure_direct)
unfolding classify arms_of
evidence_azure bucket nodes = ground (arith, arm_of-reports bucket nodes azure_direct)

evidence_gsa_arms :
    (bucket : Dict String Rec) (nodes : List Selected)
    → (classify (arms_of bucket nodes)).arms.gsa
      ≡ combine_gsa (arm_of bucket nodes gsa_remotenet) (arm_of bucket nodes gsa_client)
unfolding classify arms_of
evidence_gsa_arms bucket nodes = refl

combine_gsa-arms :
    (bucket : Dict String Rec) (nodes : List Selected)
    → combine_gsa (arm_of bucket nodes gsa_remotenet) (arm_of bucket nodes gsa_client)
      ≡ arm_status (gsa_reports bucket nodes)
unfolding gsa_reports
combine_gsa-arms bucket nodes =
    rw (arm_of-reports bucket nodes gsa_remotenet, arm_of-reports bucket nodes gsa_client)
      (combine_gsa-arm_status (reports bucket nodes gsa_remotenet)
        (reports bucket nodes gsa_client))

evidence_gsa :
    (bucket : Dict String Rec) (nodes : List Selected)
    → (classify (arms_of bucket nodes)).arms.gsa ≡ arm_status (gsa_reports bucket nodes)
evidence_gsa bucket nodes = evidence_gsa_arms bucket nodes ∙ combine_gsa-arms bucket nodes

-- A URL that `advance` completes carries the classification of its reports.
advance_classifies :
    (s : Orchestrator) (url : Url) (u : Url)
    → lookup url.id s.urls ≡ some url
    → is_terminal url.status ≡ false
    → lookup url.id (advance s url).urls ≡ some u
    → u.status ≡ completed
    → u.classification ≡ (verdict_of s url).classification
unfolding advance
advance_classifies s url u e open_url =
    let b = bucket_of s url.id in
    let P : Orchestrator → Type 0 = λ t.
      lookup url.id t.urls ≡ some u
      → u.status ≡ completed
      → u.classification ≡ (verdict_of s url).classification in
    let waits : P s = λ l c. absurd (not_completed s url.id url e (λ d. ground arith) (u, l, c)) in
    let validating : Url = record url { status = browser_validation_running } in
    if_cases P (is_finished url.status) (λ _. waits)
      (λ _.
        if_cases P (not (stage_done url b initial_test)) (λ _. waits)
          (λ _.
            if_cases P (any_not_ok url b && is_initial url.status)
              (λ _ l c. absurd (
                not_completed (start_validation s url) url.id validating
                  (lookup-start_validation s url) (λ d. cc) (u, l, c)))
              (λ _.
                if_cases P (is_validating url.status && not (stage_done url b browser_validation))
                  (λ _. waits) (λ _ l c. ground (arith, lookup-finalize s url)))))

-- If `advance` completes a running URL as `healthy`, the Azure-direct nodes have reported at least
-- one result and only `ok` ones, and so have the GSA nodes of both kinds taken together, where the
-- browser validation of a node counts in place of its initial test.
pub healthy_earned :
    (s : Orchestrator) (url : Url) (u : Url)
    → lookup url.id s.urls ≡ some url
    → is_terminal url.status ≡ false
    → lookup url.id (advance s url).urls ≡ some u
    → u.status ≡ completed
    → u.classification ≡ healthy
    → Means ok (reports (bucket_of s url.id) url.selected_nodes azure_direct)
      × Means ok (gsa_reports (bucket_of s url.id) url.selected_nodes)
healthy_earned s url u e open_url l c h =
    let b = bucket_of s url.id in
    let arms = arms_of b url.selected_nodes in
    let just : Justified healthy (classify arms).arms =
      (classify-Justified arms healthy).0 (sym (advance_classifies s url u e open_url l c) ∙ h) in
    let azure_ok = sym (evidence_azure b url.selected_nodes) ∙ just.0 in
    let gsa_ok = sym (evidence_gsa b url.selected_nodes) ∙ just.1 in
    (
      subst (λ a. Means a (reports b url.selected_nodes azure_direct)) azure_ok
          (arm_status-Means (reports b url.selected_nodes azure_direct)),
      subst (λ a. Means a (gsa_reports b url.selected_nodes)) gsa_ok
          (arm_status-Means (gsa_reports b url.selected_nodes)),
    )
