-- ===== src/Reporting/Html/Page.antt =====
-- final-report.mjs: the evidence of the failures, and the whole page.
use Prim.Native.String.{◌++◌ as ◌++ₛ◌}
use web_inspector.Prelude.{
  Bool, List, Option, String, [], eqb, filter_by, get_or, if◌then◌else◌, length, map, none, not,
  some, text_or, truthy, ℕ, ◌&&◌, ◌++◌, ◌==◌, ◌||◌, ◌∷◌, string_eq,
}
use web_inspector.Prelude.Text.{join}
use web_inspector.Reporting.Views.{Artifact, Cell, Column, Model, Row, View, build_url_views}
use web_inspector.Reporting.Views.Inventory.{build_node_inventory}
use web_inspector.Reporting.Views.Table.{classification_of, evidence_of, is_failing}
use web_inspector.Reporting.Html.{
  concat, escape_attr, escape_html, render_inventory, render_matrix, render_summary,
}

-- `artifactLinks(refs)`
abbrev pub has_link : Artifact → Bool
has_link r = truthy r.url || truthy r.id

abbrev pub artifact_link : Artifact → String
artifact_link r = concat (
    "<a href=\""
    ∷ escape_attr (text_or r.url ("/artifacts/" ++ₛ get_or r.id "undefined"))
    ∷ "\">"
    ∷ escape_html (text_or r.kind "artifact")
    ∷ "</a>"
    ∷ [])

unfoldable pub artifact_links : List Artifact → String
artifact_links refs = join " · " (map artifact_link (filter_by has_link refs))

-- `refIdsStr(ids)`
unfoldable pub ref_ids_str : List (String × String) → String
ref_ids_str ids = join " " (map (λ (e : String × String). e.0 ++ₛ ("=" ++ₛ e.1)) ids)

module _ (show : ℕ → String) where
  -- The rows of one column in `renderEvidence`
  unfoldable pub evidence_rows : Column → List (String × Option Row) → List String
  evidence_rows col [] = []
  evidence_rows col ((name, none) ∷ nrs) = evidence_rows col nrs
  evidence_rows col ((name, some r) ∷ nrs) =
      let ev = evidence_of r in
      let row = concat (
        "<tr><td>"
        ∷ escape_html col.label
        ∷ "</td><td>"
        ∷ escape_html name
        ∷ "</td><td>"
        ∷ escape_html ev.reason
        ∷ "</td><td>"
        ∷ escape_html ev.page_classification
        ∷ "</td><td>"
        ∷ escape_html ev.vendor
        ∷ "</td><td>"
        ∷ escape_html (ref_ids_str ev.reference_ids)
        ∷ "</td><td>"
        ∷ escape_html (show ev.redirects)
        ∷ "</td><td>"
        ∷ artifact_links ev.artifacts
        ∷ "</td></tr>"
        ∷ []) in
      let rest = evidence_rows col nrs in if is_failing (name, some r) then row ∷ rest else rest

  unfoldable pub view_rows : List (Column × Cell) → List String
  view_rows [] = []
  view_rows ((col, cell) ∷ cells) = evidence_rows col cell.node_results ++ view_rows cells

  -- A block of `renderEvidence`, if it has a row
  unfoldable pub evidence_block : View → String
  evidence_block v =
      let rows = concat (view_rows v.cells) in
      if rows == ""
      then ""
      else concat (
          "<details open><summary>"
          ∷ escape_html v.url.url
          ∷ " — "
          ∷ escape_html (classification_of v)
          ∷ "</summary><table class=\"ev\"><thead><tr><th>Arm</th><th>Node</th><th>Reason</th><th>Page</th><th>Vendor</th><th>Reference IDs</th><th>Redirects</th><th>Artifacts</th></tr></thead><tbody>"
          ∷ rows
          ∷ "</tbody></table></details>"
          ∷ [])

  -- `renderEvidence(views)`
  unfoldable pub render_evidence : List View → String
  render_evidence views =
      let failing =
        filter_by
          (λ v. not (classification_of v == "healthy") && not (classification_of v == "pending"))
          views in
      let blocks = filter_by (λ s. not (s == "")) (map evidence_block failing) in
      if eqb (length blocks) 0 then "" else "<h2>Failure evidence</h2>" ++ₛ join "\n" blocks

  -- `renderHtmlFromModel(model)`; `style` is the constant `STYLE`.
  unfoldable pub render_html : String → String → Model → String
  render_html style now model =
      let views = build_url_views model in
      let run_id = escape_html (text_or model.run_id "(unknown run)") in
      join "\n" (
        "<!doctype html><html><head><meta charset=\"utf-8\">"
        ∷ concat (
            "<title>WebInspector run " ∷ run_id ∷ "</title><style>" ∷ style
            ∷ "</style></head><body>" ∷ [])
        ∷ concat ("<h1>WebInspector — run " ∷ run_id ∷ "</h1>" ∷ [])
        ∷ concat (
            "<p class=\"meta\">status: "
            ∷ escape_html (text_or model.run_status "?")
            ∷ " · created: "
            ∷ escape_html (text_or model.created_at "?")
            ∷ " · generated: "
            ∷ escape_html now
            ∷ " · URLs: "
            ∷ show (length views)
            ∷ "</p>"
            ∷ [])
        ∷ render_summary show views
        ∷ render_inventory (build_node_inventory model views)
        ∷ render_matrix views
        ∷ render_evidence views
        ∷ "</body></html>"
        ∷ [])
