-- ===== src/Reporting/Views.antt =====
-- The shaping of the model in control-plane/reporting/final-report.mjs: the view of each URL; the
-- inventory of nodes and the table of reasons are children. The rows are those of the store; a field
-- that may be missing is an `Option`, and a number that is only printed is its text.
pub mod Inventory
pub mod Latest
pub mod Table
mod Tests
use web_inspector.Prelude.{
  List, Option, String, [], filter_by, get_or, if◌then◌else◌, map, none, or_text, some, text_or, ℕ,
  ◌==◌, ◌||◌, ◌∷◌, string_eq,
}
use web_inspector.Prelude.Dict.{Dict, insert, lookup, merge}
use web_inspector.Comparison.{ArmStatus, OkField, arm_status, undefined}
use web_inspector.Scheduler.Orchestrator.State.{Job, parse_job_id, stage_text}

pub record Artifact : Type 0 where
  pub url : Option String
  pub id : Option String
  pub kind : Option String
  pub node_name : Option String

-- `result.evidence`, or `result.probe`
pub record Details : Type 0 where
  pub specific_reason : Option String
  pub vendor : Option String
  pub reference_ids : List (String × String)
  pub redirects : ℕ
  pub artifacts : Option (List Artifact)

-- A row of the table `results`.
pub record Row : Type 0 where
  pub url_id : Option String
  pub job_id : Option String
  pub id : Option String
  pub node_name : Option String
  pub stage : Option String
  pub ok_field : OkField
  pub specific_reason : Option String
  pub reason : Option String
  pub page_classification : Option String
  pub evidence : Option Details
  pub probe : Option Details
  pub artifact_refs : Option (List Artifact)

pub record Chosen : Type 0 where
  pub node_name : String
  pub node_type : Option String
  pub public_ip : Option String

pub record ReportUrl : Type 0 where
  pub id : String
  pub url : String
  pub classification : Option String
  pub selected_nodes : List Chosen

pub record ReportComparison : Type 0 where
  pub url_id : String
  pub classification : Option String
  pub confidence : Option String

pub record KnownNode : Type 0 where
  pub node_name : String
  pub node_type : Option String
  pub status : Option String
  pub public_ip : Option String
  pub public_ip_old : Option String
  pub agent_version : Option String
  pub worker_version : Option String

pub record Model : Type 0 where
  pub run_id : Option String
  pub run_status : Option String
  pub created_at : Option String
  pub nodes : List KnownNode
  pub urls : List ReportUrl
  pub results : List Row
  pub comparisons : List ReportComparison

pub record Column : Type 0 where
  pub type : String
  pub key : String
  pub label : String

-- `ARM_COLUMNS`
abbrev pub arm_columns : List Column
arm_columns =
    record { type = "azure_direct"; key = "azureDirect"; label = "Azure Direct" }
    ∷ record { type = "gsa_remotenet"; key = "gsaRemotenet"; label = "GSA_RNet" }
    ∷ record { type = "gsa_client"; key = "gsaClient"; label = "GSA_CLIENT" }
    ∷ record { type = "cloudflare_client"; key = "cloudflareClient"; label = "CloudFlare" }
    ∷ record { type = "external_direct"; key = "externalDirect"; label = "External" }
    ∷ []

-- The results by URL, node and stage.
abbrev pub Index : Type 0
Index = Dict String (Dict String (Dict String Row))

-- The part of `parseJobId` that stands in for a missing field.
abbrev pub job_field : (Job → String) → Option Job → Option String
job_field f none = none
job_field f (some job) = some (f job)

-- The URL, the node and the stage that a row is indexed under, if it has all three.
unfoldable pub keys_of : Row → Option (String × String × String)
keys_of r =
    let job = parse_job_id (text_or (or_text r.job_id r.id) "") in
    let url_id = text_or (or_text r.url_id (job_field (λ j. j.url_id) job)) "" in
    let name = text_or (or_text r.node_name (job_field (λ j. j.node_name) job)) "" in
    let stage = text_or (or_text r.stage (job_field (λ j. stage_text j.stage) job)) "" in
    if url_id == "" || name == "" || stage == "" then none else some (url_id, name, stage)

-- What the index holds of a URL and a node.
unfoldable pub stages_of : Index → String → String → Dict String Row
stages_of index url_id name = get_or (lookup name (get_or (lookup url_id index) [])) []

-- A row under its keys, or the index as it is for a row without them.
abbrev pub index_at : Index → Row → Option (String × String × String) → Index
index_at index r none = index
index_at index r (some (url_id, name, stage)) =
    insert url_id
      (insert name (insert stage r (stages_of index url_id name)) (get_or (lookup url_id index) []))
      index

-- One round of the loop of `buildUrlViews`.
unfoldable pub index_row : Index → Row → Index
index_row index r = index_at index r (keys_of r)

unfoldable pub index_rows : Index → List Row → Index
index_rows index [] = index
index_rows index (r ∷ rs) = index_rows (index_row index r) rs

-- `effectiveFor(nodeName)`
unfoldable pub effective_row : Index → String → String → Option Row
effective_row index url_id name =
    let stages = stages_of index url_id name in
    elim (lookup "browser_validation" stages) [
      | some r ↦ some r
      | none ↦ lookup "initial_test" stages
    ]

pub record Cell : Type 0 where
  pub node_results : List (String × Option Row)
  pub status : ArmStatus

pub record View : Type 0 where
  pub url : ReportUrl
  pub comparison : Option ReportComparison
  pub cells : List (Column × Cell)

-- The `ok` of `nr.result || {}`
abbrev pub row_ok : Option Row → OkField
row_ok none = undefined
row_ok (some r) = r.ok_field

unfoldable pub cell_of : Index → ReportUrl → Column → Cell
cell_of index url col =
    let of_type =
      filter_by (λ (n : Chosen). get_or n.node_type "" == col.type) url.selected_nodes in
    let node_results =
      map (λ (n : Chosen). (n.node_name, effective_row index url.id n.node_name)) of_type in
    record {
      node_results = node_results;
      status = arm_status (map (λ nr. row_ok nr.1) node_results);
    }

-- `buildUrlViews(model)`
unfoldable pub build_url_views : Model → List View
build_url_views model =
    let by_url = merge [] (map (λ (c : ReportComparison). (c.url_id, c)) model.comparisons) in
    let index = index_rows [] model.results in
    map
      (λ (url : ReportUrl). record {
        url = url;
        comparison = lookup url.id by_url;
        cells = map (λ col. (col, cell_of index url col)) arm_columns;
      })
      model.urls
