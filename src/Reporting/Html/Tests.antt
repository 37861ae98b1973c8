-- ===== src/Reporting/Html/Tests.antt =====
-- A table of results, and an instance of its theorem.
use web_inspector.Prelude.{[], none, refl, some, ◌∷◌, ◌≡◌}
use web_inspector.Reporting.Views.{View}
use web_inspector.Reporting.Html.{escape_attr, render_matrix}
use web_inspector.Reporting.Html.Escaped.{sum_by, tags, tags-render_matrix}

abbrev hostile : View
hostile = record {
  url = record {
    id = "u1";
    url = "http://a/<script>";
    classification = some "healthy";
    selected_nodes = [];
  };
  comparison = none;
  cells = [];
}

escaped : escape_attr "<a href=\"x\">&" ≡ "&lt;a href=&quot;x&quot;&gt;&amp;"
unfolding escape_attr
escaped = refl

tags-render_matrix_example : tags (render_matrix (hostile ∷ [])) ≡ 36
unfolding sum_by
tags-render_matrix_example = tags-render_matrix (hostile ∷ [])
