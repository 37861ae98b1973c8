-- ===== src/Reporting/Csv.antt =====
-- The CSV writer of control-plane/reporting/final-report.mjs, and a reader that is independent of it.
pub mod Reader
mod Tests
use Prim.Native.String.{◌++◌ as ◌++ₛ◌, ◌∷◌ as ◌∷ₛ◌}
use Prim.Native.Char.{Char, code}
use web_inspector.Prelude.{Bool, List, String, eqb, false, if◌then◌else◌, map, ◌||◌}
use web_inspector.Prelude.Text.{join}

-- `"`, `,` and the line feed
abbrev pub is_quote : Char → Bool
is_quote c = eqb (code c) 34

abbrev pub is_comma : Char → Bool
is_comma c = eqb (code c) 44

abbrev pub is_line_end : Char → Bool
is_line_end c = eqb (code c) 10

-- `/[",\n]/.test(s)`
unfoldable pub needs_quotes : String → Bool
needs_quotes String.[] = false
needs_quotes (String.◌∷◌ c s) = is_quote c || is_comma c || is_line_end c || needs_quotes s

-- `s.replace(/"/g, '""')`
unfoldable pub double_quotes : String → String
double_quotes String.[] = ""
double_quotes (String.◌∷◌ c s) =
    let rest = double_quotes s in if is_quote c then c ∷ₛ (c ∷ₛ rest) else c ∷ₛ rest

-- `csvCell(v)` of a text
unfoldable pub csv_cell : String → String
unfolding needs_quotes double_quotes
csv_cell s = if needs_quotes s then "\"" ++ₛ (double_quotes s ++ₛ "\"") else s

-- `rows.map((r) => r.map(csvCell).join(",")).join("\n")`
unfoldable pub render_rows : List (List String) → String
unfolding csv_cell
render_rows rows = join "\n" (map (λ r. join "," (map csv_cell r)) rows)
