-- ===== src/Reporting/Views/Table.antt =====
-- final-report.mjs: the evidence of a row, the reasons and the CSV.
use web_inspector.Prelude.{
  Bool, List, Option, String, [], false, find, get_or, map, none, or_text, some, text_or, ℕ, ◌++◌,
  ◌∷◌,
}
use web_inspector.Comparison.{ArmStatus, fail, is_false, mixed, ok, unavailable}
use web_inspector.Reporting.Csv.{render_rows}
use web_inspector.Reporting.Views.{
  Artifact, Cell, Column, Details, Model, Row, View, arm_columns, build_url_views,
}

pub record Evidence : Type 0 where
  pub reason : String
  pub page_classification : String
  pub vendor : String
  pub reference_ids : List (String × String)
  pub redirects : ℕ
  pub artifacts : List Artifact

abbrev pub no_details : Details
no_details = record {
  specific_reason = none;
  vendor = none;
  reference_ids = [];
  redirects = 0;
  artifacts = none;
}

-- `evidenceOf(result)` of a result that is there
unfoldable pub evidence_of : Row → Evidence
evidence_of r =
    let ev = get_or r.evidence (get_or r.probe no_details) in
    record {
      reason = text_or (or_text r.specific_reason (or_text r.reason ev.specific_reason)) "";
      page_classification = text_or r.page_classification "";
      vendor = text_or ev.vendor "";
      reference_ids = ev.reference_ids;
      redirects = ev.redirects;
      artifacts = get_or r.artifact_refs (get_or ev.artifacts []);
    }

-- `classificationOf(v)`
unfoldable pub classification_of : View → String
classification_of v =
    let compared : Option String = elim v.comparison [ none ↦ none | some c ↦ c.classification ] in
    text_or (or_text compared v.url.classification) "pending"

-- `nr.result && nr.result.ok === false`
abbrev pub is_failing : String × Option Row → Bool
is_failing (name, none) = false
is_failing (name, some r) = is_false r.ok_field

unfoldable pub reason_in : List (Column × Cell) → String
reason_in [] = ""
reason_in ((col, cell) ∷ cells) =
    let later = reason_in cells in
    elim (find is_failing cell.node_results) [
      | some (name, some r) ↦ (evidence_of r).reason
      | some (name, none) ↦ later
      | none ↦ later
    ]

-- `primaryReason(v)`
unfoldable pub primary_reason : View → String
primary_reason v = reason_in v.cells

abbrev pub arm_text : ArmStatus → String
arm_text ok = "ok"
arm_text fail = "fail"
arm_text mixed = "mixed"
arm_text unavailable = "unavailable"

abbrev pub confidence_of : View → String
confidence_of v = elim v.comparison [ none ↦ "" | some c ↦ get_or c.confidence "" ]

-- A row of `renderCsvFromModel`, before it is written.
abbrev pub csv_row : View → List String
csv_row v =
    v.url.url
    ∷ classification_of v
    ∷ confidence_of v
    ∷ (map (λ (c : Column × Cell). arm_text c.1.status) v.cells ++ (primary_reason v ∷ []))

abbrev pub csv_header : List String
csv_header =
    "url"
    ∷ "classification"
    ∷ "confidence"
    ∷ (map (λ (c : Column). c.type) arm_columns ++ ("primary_reason" ∷ []))

-- `renderCsvFromModel(model)`
unfoldable pub render_csv : Model → String
render_csv model = render_rows (csv_header ∷ map csv_row (build_url_views model))
