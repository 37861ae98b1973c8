-- ===== src/Reporting/Views/Latest.antt =====
-- final-report.mjs: which result of a node the report shows, and that its CSV can be read back.
use web_inspector.Prelude.{
  All, List, String, [], get_or, if◌then◌else◌, map, some, ◌&&◌, ◌==◌, ◌∷◌, ◌≡◌, arith, ap,
  if_cases, ◌∙◌, eq_iff, true, string_eq,
}
use web_inspector.Prelude.Dict.{Dict, insert, lookup, lookup-insert}
use web_inspector.Reporting.Csv.Reader.{HasCell, at_start, read, read-render_rows}
use web_inspector.Reporting.Views.Table.{csv_header, csv_row, render_csv}
use web_inspector.Reporting.Views.{
  Index, Model, Row, View, build_url_views, index_row, keys_of, stages_of, index_at,
}

-- Where a dictionary that may be missing was written to.
lookup-get_or :
    {V : Type 0} (k j : String) (v d : V) (m : Dict String V)
    → get_or (lookup j (insert k v m)) d ≡ (if k == j then v else get_or (lookup j m) d)
lookup-get_or k j v d m = ground (arith, lookup-insert k j v m)

-- The stages of a node after a URL's nodes were replaced.
stages_after :
    (index : Index) (url_id name other_url other_name : String) (s : Dict String Row)
    → stages_of
        (insert url_id (insert name s (get_or (lookup url_id index) [])) index)
        other_url
        other_name
      ≡ (if url_id == other_url && name == other_name
          then s
          else stages_of index other_url other_name)
unfolding stages_of
stages_after index url_id name other_url other_name s =
    let nodes = insert name s (get_or (lookup url_id index) []) in
    ap (λ (m : Dict String (Dict String Row)). get_or (lookup other_name m) [])
      (lookup-get_or url_id other_url nodes [] index)
    ∙ if_cases
        (λ (m : Dict String (Dict String Row)). get_or (lookup other_name m) [] ≡ (
          if url_id == other_url && name == other_name
          then s
          else stages_of index other_url other_name))
        (url_id == other_url)
        (λ same.
          lookup-get_or name other_name s [] (get_or (lookup url_id index) [])
          ∙ ground (
            arith,
            same,
            ap (λ u. stages_of index u other_name) ((eq_iff url_id other_url).0 same),
          ))
        (λ differs. ground (arith, differs))

-- After a row of the store is indexed, the index holds it under its URL, node and stage, and holds
-- everything else as before: the latest of two rows for the same job wins.
pub stages_of-index_row :
    (index : Index) (r : Row) (url_id name stage other_url other_name other_stage : String)
    → keys_of r ≡ some (url_id, name, stage)
    → lookup other_stage (stages_of (index_row index r) other_url other_name) ≡ (
        if url_id == other_url && name == other_name && stage == other_stage
        then some r
        else lookup other_stage (stages_of index other_url other_name))
unfolding index_row
stages_of-index_row index r url_id name stage other_url other_name other_stage e =
    let held = stages_of index url_id name in
    ap (λ o. lookup other_stage (stages_of (index_at index r o) other_url other_name)) e
    ∙ ap (λ m. lookup other_stage m)
        (stages_after index url_id name other_url other_name (insert stage r held))
    ∙ if_cases
        (λ (m : Dict String Row). lookup other_stage m ≡ (
          if url_id == other_url && name == other_name && stage == other_stage
          then some r
          else lookup other_stage (stages_of index other_url other_name)))
        (url_id == other_url && name == other_name)
        (λ same.
          let same_url : (url_id == other_url) ≡ true = ground arith in
          let same_name : (name == other_name) ≡ true = ground arith in
          lookup-insert stage other_stage r held
          ∙ ground (
            arith,
            same_url,
            same_name,
            ap (λ u. lookup other_stage (stages_of index u name))
                ((eq_iff url_id other_url).0 same_url),
            ap (λ n. lookup other_stage (stages_of index other_url n))
                ((eq_iff name other_name).0 same_name),
          ))
        (λ differs. ground (arith, differs))

csv_rows-HasCell : (vs : List View) → All HasCell (map csv_row vs)
csv_rows-HasCell [] = tt
csv_rows-HasCell (v ∷ vs) = ((λ e. cc), csv_rows-HasCell vs)

-- The CSV of a report, read back, is its header and one row for each URL, whatever texts the URLs
-- and reasons are.
pub read-render_csv :
    (model : Model)
    → read at_start (render_csv model) ≡ csv_header ∷ map csv_row (build_url_views model)
unfolding render_csv
read-render_csv model =
    read-render_rows csv_header (map csv_row (build_url_views model))
      ((λ e. cc), csv_rows-HasCell (build_url_views model))
