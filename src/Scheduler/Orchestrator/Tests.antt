-- ===== src/Scheduler/Orchestrator/Tests.antt =====
-- Runs of the orchestrator, and instances of its theorems.
use web_inspector.Comparison.Pooling.{Means}
use web_inspector.Scheduler.Orchestrator.Histories.{Reach, after, at_start, completed_run_settled}
use web_inspector.Scheduler.Orchestrator.Gate.{IsCompleted, Ready, advance_completes}
use web_inspector.Scheduler.Orchestrator.Earned.{gsa_reports, healthy_earned, reports}
use web_inspector.Scheduler.Orchestrator.Reopening.{invalid_url_reopens}
use web_inspector.Prelude.{
  Bool, Option, String, [], if◌then◌else◌, none, refl, some, true, ◌==◌, ◌∷◌, ◌≡◌, All, false,
  length, throw, ◌<◌, ◌↔◌, string_eq,
}
use web_inspector.Prelude.Dict.{insert, lookup}
use web_inspector.Comparison.{arm_status, classify, given, ok, pending, healthy}
use web_inspector.Contracts.Nodes.{azure_direct, gsa_client}
use web_inspector.Scheduler.Orchestrator.{
  create_event, create_run, queue_url, result_event, step, invalid_url,
}
use web_inspector.Scheduler.Orchestrator.State.{
  Orchestrator, Selection, Summary, add_url, completed, dispatch_stage, empty, initial_test,
  job_key, new_url, parse_job_id, reopen, result_key, Run, Url, completed_run,
  initial_tests_running, running, url_is_terminal,
}
use web_inspector.Scheduler.Orchestrator.Results.{
  advance, effective_ok, finalize, on_result, record_result, start_validation, bucket_of,
}

-- A `normalizeUrl` that refuses the empty text.
abbrev lenient : String → Option String
lenient raw = if raw == "" then none else some raw

abbrev two_nodes : Selection
two_nodes = record {
  selected =
      record { node_name = "vm1"; node_type = azure_direct }
      ∷ record { node_name = "vm2"; node_type = gsa_client }
      ∷ [];
  can_dispatch = true;
}

abbrev report : String → Bool → Summary
report id b = record { job_id = id; ok_field = given b }

-- One URL on two nodes, both fine.
abbrev queued : Orchestrator
queued = step lenient empty (create_event "run-1" (("http://a/", "url-1", two_nodes) ∷ []))

abbrev half : Orchestrator
half = step lenient queued (result_event (report "url-1::vm1::initial_test" true))

abbrev finished : Orchestrator
finished = step lenient half (result_event (report "url-1::vm2::initial_test" true))

parses_job_id :
    parse_job_id "url-1::vm1::initial_test"
    ≡ some (record {
      id = "url-1::vm1::initial_test";
      url_id = "url-1";
      node_name = "vm1";
      node_type = none;
      stage = initial_test;
    })
unfolding parse_job_id
parses_job_id = refl

finished_url :
    lookup "url-1" finished.urls
    ≡ some (record {
      id = "url-1";
      run_id = "run-1";
      url = "http://a/";
      status = completed;
      selected_nodes = two_nodes.selected;
      classification = healthy;
    })
unfolding step create_run queue_url on_result record_result advance dispatch_stage finalize
    start_validation job_key result_key reopen new_url add_url classify arm_status lookup insert
    effective_ok
finished_url = refl

abbrev run_1 : Run
run_1 = record { id = "run-1"; status = completed_run; url_ids = "url-1" ∷ [] }

finished_run : lookup "run-1" finished.runs ≡ some run_1
unfolding step create_run queue_url on_result record_result advance dispatch_stage finalize
    start_validation job_key result_key reopen new_url add_url classify arm_status lookup insert
    effective_ok
finished_run = refl

finished-Reach : Reach lenient finished
unfolding lookup
finished-Reach =
    after
      (after
        (after at_start (create_event "run-1" (("http://a/", "url-1", two_nodes) ∷ [])) (refl, tt))
        (result_event (report "url-1::vm1::initial_test" true)) tt)
      (result_event (report "url-1::vm2::initial_test" true)) tt

completed_run_settled_example :
    (0 < length run_1.url_ids) × All (λ id. url_is_terminal finished.urls id ≡ true) run_1.url_ids
completed_run_settled_example =
    completed_run_settled lenient "run-1" run_1 finished-Reach finished_run refl

abbrev waiting_url : Url
waiting_url = record {
  id = "url-1";
  run_id = "run-1";
  url = "http://a/";
  status = initial_tests_running;
  selected_nodes = two_nodes.selected;
  classification = pending;
}

-- The same URL with both results in, before `advance` has run.
abbrev answered : Orchestrator
answered = record queued {
  results =
      (
        "url-1",
        (
          "vm1:initial_test",
          record {
            node_name = "vm1";
            node_type = some azure_direct;
            stage = initial_test;
            ok_field = given true;
          },
        )
            ∷ (
              "vm2:initial_test",
              record {
                node_name = "vm2";
                node_type = some gsa_client;
                stage = initial_test;
                ok_field = given true;
              },
            )
            ∷ [],
      )
      ∷ [];
}

advance_completes_example :
    IsCompleted (advance answered waiting_url) "url-1"
    ↔ Ready waiting_url (bucket_of answered "url-1")
unfolding step create_run queue_url on_result record_result advance dispatch_stage finalize
    start_validation job_key result_key reopen new_url add_url classify arm_status lookup insert
    effective_ok
advance_completes_example = advance_completes answered waiting_url refl refl

healthy_earned_example :
    Means ok (reports (bucket_of answered "url-1") two_nodes.selected azure_direct)
    × Means ok (gsa_reports (bucket_of answered "url-1") two_nodes.selected)
unfolding step create_run queue_url on_result record_result advance dispatch_stage finalize
    start_validation job_key result_key reopen new_url add_url classify arm_status lookup insert
    effective_ok
healthy_earned_example =
    healthy_earned answered waiting_url
      (record waiting_url { status = completed; classification = healthy }) refl refl refl refl refl

invalid_url_reopens_example :
    let (t, r) = queue_url lenient finished "run-1" "" "url-2" two_nodes false in
    (r ≡ throw invalid_url)
    × (lookup "run-1" t.runs ≡ some (record run_1 { status = running }))
    × (t.urls ≡ finished.urls)
invalid_url_reopens_example =
    invalid_url_reopens lenient finished run_1 "" "url-2" two_nodes false finished_run refl refl
