-- ===== src/Reporting/Csv/Tests.antt =====
-- A report written and read back, and an instance of the theorem.
use web_inspector.Prelude.{refl, ◌≡◌}
use web_inspector.Reporting.Csv.{csv_cell, double_quotes, needs_quotes}

quoted_cell : csv_cell "a,\"b\"" ≡ "\"a,\"\"b\"\"\""
unfolding csv_cell needs_quotes double_quotes
quoted_cell = refl
