-- ===== src/Reporting/Html.antt =====
-- The HTML writer of control-plane/reporting/final-report.mjs. The time of the report is an argument.
pub mod Escaped
pub mod Page
mod Tests
use Prim.Native.String.{◌++◌ as ◌++ₛ◌, ◌∷◌ as ◌∷ₛ◌}
use Prim.Native.Char.{Char, code}
use web_inspector.Prelude.{
  List, Option, String, [], eqb, filter_by, get_or, if◌then◌else◌, leb, map, none, not, some, suc,
  ℕ, ◌==◌, ◌∷◌, string_eq,
}
use web_inspector.Prelude.Text.{join}
use web_inspector.Prelude.Dict.{Dict, insert, lookup}
use web_inspector.Reporting.Views.Inventory.{Entry}
use web_inspector.Reporting.Views.Table.{
  arm_text, classification_of, confidence_of, evidence_of, is_failing,
}
use web_inspector.Reporting.Views.{Cell, Column, Row, View, arm_columns}

-- The map of `escapeHtml`, and of `escapeAttr`
abbrev pub html_char : Char → String → String
html_char c rest =
    if eqb (code c) 38
    then "&amp;" ++ₛ rest
    else if eqb (code c) 60
    then "&lt;" ++ₛ rest
    else if eqb (code c) 62
    then "&gt;" ++ₛ rest
    else c ∷ₛ rest

abbrev pub attr_char : Char → String → String
attr_char c rest =
    if eqb (code c) 34
    then "&quot;" ++ₛ rest
    else if eqb (code c) 39
    then "&#39;" ++ₛ rest
    else html_char c rest

unfoldable pub escape_html : String → String
escape_html String.[] = ""
escape_html (String.◌∷◌ c s) = html_char c (escape_html s)

unfoldable pub escape_attr : String → String
escape_attr String.[] = ""
escape_attr (String.◌∷◌ c s) = attr_char c (escape_attr s)

abbrev pub concat : List String → String
concat [] = ""
concat (s ∷ ss) = s ++ₛ concat ss

-- The list items of `renderSummary`: the counts, the largest first, equal ones in their order.
unfoldable pub count_of : Dict String ℕ → List View → Dict String ℕ
count_of counts [] = counts
count_of counts (v ∷ vs) =
    let c = classification_of v in count_of (insert c (suc (get_or (lookup c counts) 0)) counts) vs

unfoldable pub insert_sorted : String × ℕ → List (String × ℕ) → List (String × ℕ)
insert_sorted e [] = e ∷ []
insert_sorted e (f ∷ fs) =
    let rest = insert_sorted e fs in if leb f.1 e.1 then e ∷ f ∷ fs else f ∷ rest

unfoldable pub sort_counts : List (String × ℕ) → List (String × ℕ)
sort_counts [] = []
sort_counts (e ∷ es) = insert_sorted e (sort_counts es)

-- `${n}` and `String(n)` of a number are a parameter.
module _ (show : ℕ → String) where
  abbrev pub summary_item : String × ℕ → String
  summary_item (c, n) = concat (
      "<li><span class=\"badge cls-"
      ∷ escape_attr c
      ∷ "\">"
      ∷ escape_html c
      ∷ "</span> "
      ∷ show n
      ∷ "</li>"
      ∷ [])

  -- `renderSummary(views)`
  unfoldable pub render_summary : List View → String
  render_summary views =
      let items = concat (map summary_item (sort_counts (count_of [] views))) in
      concat (
        "<h2>Summary</h2><ul class=\"summary\">"
        ∷ (if items == "" then "<li>no URLs</li>" else items)
        ∷ "</ul>"
        ∷ [])

-- A row of `renderInventory`
abbrev pub inventory_row : Entry → String
inventory_row n = concat (
    "<tr><td>"
    ∷ escape_html n.node_name
    ∷ "</td><td>"
    ∷ escape_html n.node_type
    ∷ "</td><td>"
    ∷ escape_html n.status
    ∷ "</td><td>"
    ∷ escape_html n.public_ip
    ∷ "</td><td>"
    ∷ escape_html n.version
    ∷ "</td></tr>"
    ∷ [])

-- `renderInventory(inventory)`
unfoldable pub render_inventory : List Entry → String
render_inventory [] = ""
render_inventory (n ∷ ns) = concat (
    "<h2>Nodes</h2><table class=\"inv\"><thead><tr><th>Node</th><th>Type</th><th>Status</th><th>Public IP</th><th>Version</th></tr></thead><tbody>"
    ∷ concat (map inventory_row (n ∷ ns))
    ∷ "</tbody></table>"
    ∷ [])

-- A node of `armCell` whose result failed.
unfoldable pub failing_detail : String × Option Row → String
failing_detail (name, none) = ""
failing_detail (name, some r) =
    let ev = evidence_of r in
    let bits = join " · " (filter_by (λ s. not (s == "")) (ev.reason ∷ ev.vendor ∷ [])) in
    concat (
      "<div class=\"nd\">"
      ∷ escape_html name
      ∷ (if bits == "" then "" else ": " ++ₛ escape_html bits)
      ∷ "</div>"
      ∷ [])

-- `armCell(cell)`
unfoldable pub arm_cell : Cell → String
arm_cell cell = concat (
    "<td class=\"st-"
    ∷ escape_attr (arm_text cell.status)
    ∷ "\"><span class=\"badge\">"
    ∷ escape_html (arm_text cell.status)
    ∷ "</span>"
    ∷ concat (map failing_detail (filter_by is_failing cell.node_results))
    ∷ "</td>"
    ∷ [])

-- A row of `renderMatrix`
unfoldable pub matrix_row : View → String
matrix_row v =
    let cls = classification_of v in
    concat (
      "<tr><td class=\"url\">"
      ∷ escape_html v.url.url
      ∷ "</td><td><span class=\"badge cls-"
      ∷ escape_attr cls
      ∷ "\">"
      ∷ escape_html cls
      ∷ "</span></td><td>"
      ∷ escape_html (confidence_of v)
      ∷ "</td>"
      ∷ concat (map (λ (c : Column × Cell). arm_cell c.1) v.cells)
      ∷ "</tr>"
      ∷ [])

-- `renderMatrix(views)`
unfoldable pub render_matrix : List View → String
render_matrix views = concat (
    "<h2>Results</h2><table class=\"matrix\"><thead><tr><th>URL</th><th>Classification</th><th>Conf.</th>"
    ∷ concat
        (map (λ (c : Column). concat ("<th>" ∷ escape_html c.label ∷ "</th>" ∷ [])) arm_columns)
    ∷ "</tr></thead><tbody>"
    ∷ concat (map matrix_row views)
    ∷ "</tbody></table>"
    ∷ [])
