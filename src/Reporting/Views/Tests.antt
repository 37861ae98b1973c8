-- ===== src/Reporting/Views/Tests.antt =====
-- A report, and instances of the theorems on its views.
use web_inspector.Prelude.Text.{join}
use web_inspector.Prelude.{String, [], false, map, none, refl, some, ◌∷◌, ◌≡◌, string_eq}
use web_inspector.Prelude.Dict.{insert, lookup, merge}
use web_inspector.Comparison.{OkField, arm_status, given}
use web_inspector.Scheduler.Orchestrator.State.{parse_job_id}
use web_inspector.Reporting.Csv.{csv_cell, double_quotes, needs_quotes, render_rows}
use web_inspector.Reporting.Csv.Reader.{at_start, read}
use web_inspector.Reporting.Views.Table.{
  classification_of, csv_header, csv_row, evidence_of, primary_reason, reason_in, render_csv,
}
use web_inspector.Reporting.Views.{
  Model, Row, build_url_views, cell_of, effective_row, index_row, index_rows, keys_of, stages_of,
}
use web_inspector.Reporting.Views.Latest.{read-render_csv}

abbrev row_of : String → OkField → Row
row_of job ok_field = record {
  url_id = none;
  job_id = some job;
  id = none;
  node_name = none;
  stage = none;
  ok_field = ok_field;
  specific_reason = some "HTTP_403, <blocked>";
  reason = none;
  page_classification = none;
  evidence = none;
  probe = none;
  artifact_refs = none;
}

abbrev one_url : Model
one_url = record {
  run_id = some "run-1";
  run_status = some "completed";
  created_at = none;
  nodes = [];
  urls =
      record {
        id = "u1";
        url = "http://a/";
        classification = none;
        selected_nodes =
            record { node_name = "vm1"; node_type = some "azure_direct"; public_ip = none } ∷ [];
      }
      ∷ [];
  results = row_of "u1::vm1::initial_test" (given false) ∷ [];
  comparisons = [];
}

failing_csv :
    render_csv one_url
    ≡ "url,classification,confidence,azure_direct,gsa_remotenet,gsa_client,cloudflare_client,external_direct,primary_reason\nhttp://a/,pending,,fail,unavailable,unavailable,unavailable,unavailable,\"HTTP_403, <blocked>\""
unfolding render_csv render_rows build_url_views cell_of index_rows index_row keys_of stages_of
    effective_row evidence_of classification_of primary_reason reason_in parse_job_id arm_status
    merge lookup insert csv_cell needs_quotes double_quotes join
failing_csv = refl

read-render_csv_example :
    read at_start (render_csv one_url) ≡ csv_header ∷ map csv_row (build_url_views one_url)
read-render_csv_example = read-render_csv one_url
