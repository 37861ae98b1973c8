-- ===== src/Scheduler/Orchestrator/Results.antt =====
-- The results of run-orchestrator.mjs: `recordResult`, `advance`, `finalize` and `onResult`.
use web_inspector.Prelude.{
  Bool, List, Option, String, [], eqb, every, exists, false, filter_by, find, get_or, if◌then◌else◌,
  length, map, none, not, some, true, ◌&&◌, ◌==◌, ◌∷◌, string_eq,
}
use web_inspector.Prelude.Dict.{Dict, has, insert, lookup}
use web_inspector.Comparison.{
  ArmStatus, Arms, OkField, arm_status, classify, given, is_false, unavailable, undefined,
}
use web_inspector.Contracts.Nodes.{
  NodeType, azure_direct, cloudflare_client, external_direct, gsa_client, gsa_remotenet,
}
use web_inspector.Scheduler.Orchestrator.State.{
  Job, Orchestrator, Rec, Selected, Stage, Summary, Url, UrlStatus, browser_validation,
  browser_validation_running, completed, dispatch_stage, failed, initial_test,
  initial_tests_running, maybe_complete_run, parse_job_id, put_url, result_key,
}

-- `resultsByUrl.get(url.id)`, which `queueUrl` has set.
unfoldable pub bucket_of : Orchestrator → String → Dict String Rec
bucket_of s url_id = get_or (lookup url_id s.results) []

-- `stageDone(stage)`
unfoldable pub stage_done : Url → Dict String Rec → Stage → Bool
stage_done url bucket stage =
    every (λ n. has (result_key n.node_name stage) bucket) url.selected_nodes

-- The `ok` of `bucket.get(key)?.ok`
abbrev pub ok_of : Option Rec → OkField
ok_of none = undefined
ok_of (some r) = r.ok_field

unfoldable pub any_not_ok : Url → Dict String Rec → Bool
any_not_ok url bucket =
    exists (λ n. is_false (ok_of (lookup (result_key n.node_name initial_test) bucket)))
      url.selected_nodes

-- `(effective(n) || {}).ok`: the browser validation's result, else the initial test's.
unfoldable pub effective_ok : Dict String Rec → Selected → OkField
effective_ok bucket n = elim (lookup (result_key n.node_name browser_validation) bucket) [
  | some r ↦ r.ok_field
  | none ↦ ok_of (lookup (result_key n.node_name initial_test) bucket)
]

-- Two of the five types that stand for an arm.
pub same_type : NodeType → NodeType → Bool
same_type azure_direct azure_direct = true
same_type gsa_remotenet gsa_remotenet = true
same_type gsa_client gsa_client = true
same_type cloudflare_client cloudflare_client = true
same_type external_direct external_direct = true
same_type _ _ = false

-- `byType[type] ? armStatus(byType[type]) : "unavailable"`
unfoldable pub arm_of : Dict String Rec → List Selected → NodeType → Option ArmStatus
unfolding same_type effective_ok
arm_of bucket nodes type =
    let of_type = filter_by (λ (n : Selected). same_type n.node_type type) nodes in
    some (
      if eqb (length of_type) 0
      then unavailable
      else arm_status (map (effective_ok bucket) of_type))

unfoldable pub arms_of : Dict String Rec → List Selected → Arms
unfolding arm_of
arms_of bucket nodes = record {
  azure_direct = arm_of bucket nodes azure_direct;
  gsa_remotenet = arm_of bucket nodes gsa_remotenet;
  gsa_client = arm_of bucket nodes gsa_client;
  cloudflare_client = arm_of bucket nodes cloudflare_client;
  external_direct = arm_of bucket nodes external_direct;
}

-- `finalize(url)`
unfoldable pub finalize : Orchestrator → Url → Orchestrator
unfolding bucket_of arms_of maybe_complete_run
finalize s url =
    let verdict = classify (arms_of (bucket_of s url.id) url.selected_nodes) in
    let compared = record s { comparisons = insert url.id verdict s.comparisons } in
    let done = record url { status = completed; classification = verdict.classification } in
    maybe_complete_run (put_url compared done) url.run_id

abbrev pub is_finished : UrlStatus → Bool
is_finished completed = true
is_finished failed = true
is_finished _ = false

abbrev pub is_initial : UrlStatus → Bool
is_initial initial_tests_running = true
is_initial _ = false

abbrev pub is_validating : UrlStatus → Bool
is_validating browser_validation_running = true
is_validating _ = false

-- The second stage of a URL.
unfoldable pub start_validation : Orchestrator → Url → Orchestrator
start_validation s url =
    let validating = record url { status = browser_validation_running } in
    dispatch_stage (put_url s validating) validating browser_validation

-- `advance(url)`
unfoldable pub advance : Orchestrator → Url → Orchestrator
unfolding bucket_of stage_done any_not_ok
advance s url =
    let bucket = bucket_of s url.id in
    if is_finished url.status
    then s
    else if not (stage_done url bucket initial_test)
    then s
    else if any_not_ok url bucket && is_initial url.status
    then start_validation s url
    else if is_validating url.status && not (stage_done url bucket browser_validation)
    then s
    else finalize s url

-- `jobs.get(summary.jobId) || parseJobId(summary.jobId)`
unfoldable pub job_for : Orchestrator → String → Option Job
job_for s id = elim (lookup id s.jobs) [ some job ↦ some job | none ↦ parse_job_id id ]

abbrev type_of : Option Selected → Option NodeType
type_of none = none
type_of (some n) = some n.node_type

-- `job.nodeType || url.selectedNodes.find(…)?.nodeType || null`
rec_type : Url → Job → Option NodeType
rec_type url job = elim job.node_type [
  | some t ↦ some t
  | none ↦ type_of (find (λ (n : Selected). n.node_name == job.node_name) url.selected_nodes)
]

unfoldable pub store_result : Orchestrator → Url → Job → Summary → Orchestrator
unfolding rec_type bucket_of
store_result s url job summary =
    let rec : Rec = record {
      node_name = job.node_name;
      node_type = rec_type url job;
      stage = job.stage;
      ok_field = summary.ok_field;
    } in
    let bucket = insert (result_key job.node_name job.stage) rec (bucket_of s url.id) in
    record s { results = insert url.id bucket s.results }

-- `recordResult(nodeName, summary)`
unfoldable pub record_result : Orchestrator → Summary → Orchestrator
unfolding job_for store_result
record_result s summary = elim (job_for s summary.job_id) [
  | none ↦ s
  | some job ↦ elim (lookup job.url_id s.urls) [
    | none ↦ s
    | some url ↦ advance (store_result s url job summary) url
  ]
]

-- `onResult(nodeName, summary)`
unfoldable pub on_result : Orchestrator → Summary → Orchestrator
on_result s summary = if summary.job_id == "" then s else record_result s summary

abbrev pub dispatch_failed : Job → Summary
dispatch_failed job = record { job_id = job.id; ok_field = given false }

unfoldable pub settle_first : Orchestrator → List Job → Bool → Orchestrator
settle_first s [] sent = s
settle_first s (job ∷ rest) sent =
    let settled = record s { dispatching = rest } in
    if sent then settled else record_result settled (dispatch_failed job)

-- The oldest `sendCommand` promise settles: resolved, or rejected, which counts as a failed result.
unfoldable pub settle_dispatch : Orchestrator → Bool → Orchestrator
unfolding settle_first
settle_dispatch s sent = settle_first s s.dispatching sent
