-- ===== src/Reporting/Html/Escaped.antt =====
-- final-report.mjs: texts of the sites and nodes do not become markup.
use text.Mathlib.TextLemmas.{nil-append, cons-append}
use Prim.Native.String.{◌++◌ as ◌++ₛ◌}
use Prim.Native.Char.{Char, code}
use web_inspector.Prelude.Text.{join}
use web_inspector.Reporting.Views.Inventory.{Entry}
use web_inspector.Reporting.Views.Table.{
  arm_text, classification_of, confidence_of, evidence_of, is_failing,
}
use web_inspector.Reporting.Views.{Cell, Column, Row, View, arm_columns}
use web_inspector.Prelude.{
  String, ap, arith, eqb, if◌then◌else◌, refl, suc, ℕ, ◌+◌, ◌∙◌, ◌≡◌, List, [], map, ◌∷◌, Option,
  filter_by, if_cases, length, none, not, some, true, ◌*◌, ◌==◌, string_eq,
}
use web_inspector.Reporting.Html.{
  escape_attr, escape_html, html_char, attr_char, concat, inventory_row, arm_cell, failing_detail,
  matrix_row, render_matrix,
}

-- How many tags a text opens or closes.
unfoldable pub tags : String → ℕ
tags String.[] = 0
tags (String.◌∷◌ c s) = let rest = tags s in if eqb (code c) 60 then suc rest else rest

tags-append : (s t : String) → tags (s ++ₛ t) ≡ tags s + tags t
unfolding tags
tags-append String.[] t = omega (arith, ap tags (nil-append t))
tags-append (String.◌∷◌ c s) t = ap tags (cons-append c s t) ∙ ground (arith, tags-append s t)

tags-html_char : (c : Char) (s : String) → tags (html_char c s) ≡ tags s
unfolding tags
tags-html_char c s =
    ground (arith, tags-append "&amp;" s, tags-append "&lt;" s, tags-append "&gt;" s)

tags-escape_html : (s : String) → tags (escape_html s) ≡ 0
unfolding escape_html tags
tags-escape_html String.[] = refl
tags-escape_html (String.◌∷◌ c s) = tags-html_char c (escape_html s) ∙ tags-escape_html s

tags-attr_char : (c : Char) (s : String) → tags (attr_char c s) ≡ tags s
unfolding tags
tags-attr_char c s =
    ground (arith, tags-append "&quot;" s, tags-append "&#39;" s, tags-html_char c s)

tags-escape_attr : (s : String) → tags (escape_attr s) ≡ 0
unfolding escape_attr tags
tags-escape_attr String.[] = refl
tags-escape_attr (String.◌∷◌ c s) = tags-attr_char c (escape_attr s) ∙ tags-escape_attr s

abbrev total : List String → ℕ
total [] = 0
total (s ∷ ss) = tags s + total ss

tags-concat : (ss : List String) → tags (concat ss) ≡ total ss
unfolding tags
tags-concat [] = refl
tags-concat (s ∷ ss) = tags-append s (concat ss) ∙ ap (λ n. tags s + n) (tags-concat ss)

-- The tags of a list of pieces that each have a known number of them.
unfoldable pub sum_by {ℓ} : {A : Type ℓ} → (A → ℕ) → List A → ℕ
sum_by f [] = 0
sum_by f (x ∷ xs) = f x + sum_by f xs

total-map {ℓ} :
    {A : Type ℓ} (render : A → String) (f : A → ℕ) (xs : List A)
    → ((x : A) → tags (render x) ≡ f x)
    → total (map render xs) ≡ sum_by f xs
unfolding sum_by
total-map render f [] h = refl
total-map render f (x ∷ xs) h = omega (arith, h x, total-map render f xs h)

tags-inventory_row : (n : Entry) → tags (inventory_row n) ≡ 12
unfolding tags
tags-inventory_row n =
    tags-concat (
      "<tr><td>"
      ∷ escape_html n.node_name
      ∷ "</td><td>"
      ∷ escape_html n.node_type
      ∷ "</td><td>"
      ∷ escape_html n.status
      ∷ "</td><td>"
      ∷ escape_html n.public_ip
      ∷ "</td><td>"
      ∷ escape_html n.version
      ∷ "</td></tr>"
      ∷ [])
    ∙ omega (
      arith,
      tags-escape_html n.node_name,
      tags-escape_html n.node_type,
      tags-escape_html n.status,
      tags-escape_html n.public_ip,
      tags-escape_html n.version,
    )

-- The tags of an arm's cell: its own four, and two for each node that failed.
abbrev pub cell_tags : Column × Cell → ℕ
cell_tags (col, cell) = 4 + 2 * length (filter_by is_failing cell.node_results)

tags-failing_detail :
    (nr : String × Option Row) → is_failing nr ≡ true → tags (failing_detail nr) ≡ 2
unfolding failing_detail tags
tags-failing_detail (name, none) h = absurd (ground arith)
tags-failing_detail (name, some r) h =
    let ev = evidence_of r in
    let bits = join " · " (filter_by (λ s. not (s == "")) (ev.reason ∷ ev.vendor ∷ [])) in
    let shown = if bits == "" then "" else ": " ++ₛ escape_html bits in
    let silent : tags shown ≡ 0 =
      if_cases (λ (u : String). tags u ≡ 0) (bits == "") (λ _. refl)
        (λ _. tags-append ": " (escape_html bits) ∙ omega (arith, tags-escape_html bits)) in
    tags-concat ("<div class=\"nd\">" ∷ escape_html name ∷ shown ∷ "</div>" ∷ [])
    ∙ omega (arith, tags-escape_html name, silent)

total-failing :
    (nrs : List (String × Option Row))
    → total (map failing_detail (filter_by is_failing nrs)) ≡ 2 * length (filter_by is_failing nrs)
total-failing [] = omega arith
total-failing (nr ∷ nrs) =
    if_cases (λ (l : List (String × Option Row)). total (map failing_detail l) ≡ 2 * length l)
      (is_failing nr) (λ failing. omega (arith, tags-failing_detail nr failing, total-failing nrs))
      (λ _. total-failing nrs)

tags-arm_cell : (c : Column × Cell) → tags (arm_cell c.1) ≡ cell_tags c
unfolding arm_cell tags
tags-arm_cell (col, cell) =
    let status = arm_text cell.status in
    let details = map failing_detail (filter_by is_failing cell.node_results) in
    tags-concat (
      "<td class=\"st-"
      ∷ escape_attr status
      ∷ "\"><span class=\"badge\">"
      ∷ escape_html status
      ∷ "</span>"
      ∷ concat details
      ∷ "</td>"
      ∷ [])
    ∙ omega (
      arith,
      tags-escape_attr status,
      tags-escape_html status,
      tags-concat details,
      total-failing cell.node_results,
    )

-- The tags of a row of the table.
abbrev pub row_tags : View → ℕ
row_tags v = 10 + sum_by cell_tags v.cells

tags-matrix_row : (v : View) → tags (matrix_row v) ≡ row_tags v
unfolding matrix_row tags
tags-matrix_row v =
    let cls = classification_of v in
    let cells = map (λ (c : Column × Cell). arm_cell c.1) v.cells in
    tags-concat (
      "<tr><td class=\"url\">"
      ∷ escape_html v.url.url
      ∷ "</td><td><span class=\"badge cls-"
      ∷ escape_attr cls
      ∷ "\">"
      ∷ escape_html cls
      ∷ "</span></td><td>"
      ∷ escape_html (confidence_of v)
      ∷ "</td>"
      ∷ concat cells
      ∷ "</tr>"
      ∷ [])
    ∙ omega (
      arith,
      tags-escape_html v.url.url,
      tags-escape_attr cls,
      tags-escape_html cls,
      tags-escape_html (confidence_of v),
      tags-concat cells,
      total-map (λ (c : Column × Cell). arm_cell c.1) cell_tags v.cells tags-arm_cell,
    )

-- The table of results has the tags of its shape and no others: the 26 of its frame, and for each URL
-- 10, 4 for each arm and 2 for each node that failed, whatever texts the URLs, the classifications,
-- the nodes and the reasons are.
pub tags-render_matrix : (vs : List View) → tags (render_matrix vs) ≡ 26 + sum_by row_tags vs
unfolding render_matrix tags sum_by
tags-render_matrix vs =
    let heads =
      map (λ (c : Column). concat ("<th>" ∷ escape_html c.label ∷ "</th>" ∷ [])) arm_columns in
    tags-concat (
      "<h2>Results</h2><table class=\"matrix\"><thead><tr><th>URL</th><th>Classification</th><th>Conf.</th>"
      ∷ concat heads
      ∷ "</tr></thead><tbody>"
      ∷ concat (map matrix_row vs)
      ∷ "</tbody></table>"
      ∷ [])
    ∙ omega (
      arith,
      tags_of_heads,
      tags-concat (map matrix_row vs),
      total-map matrix_row row_tags vs tags-matrix_row,
    )
  where
    tags_of_heads :
        tags (
          concat (
            map (λ (c : Column). concat ("<th>" ∷ escape_html c.label ∷ "</th>" ∷ [])) arm_columns))
        ≡ 10
    tags_of_heads =
        tags-concat
          (map (λ (c : Column). concat ("<th>" ∷ escape_html c.label ∷ "</th>" ∷ [])) arm_columns)
        ∙ total-map (λ (c : Column). concat ("<th>" ∷ escape_html c.label ∷ "</th>" ∷ [])) (λ _. 2)
            arm_columns
            (λ c.
              tags-concat ("<th>" ∷ escape_html c.label ∷ "</th>" ∷ [])
              ∙ omega (arith, tags-escape_html c.label))
