-- ===== src/Reporting/Csv/Reader.antt =====
-- A reader of CSV, character by character: a cell in quotes ends at a quote that is not doubled.
use text.Mathlib.TextLemmas.{append_assoc, append-nil, nil-append, cons-append}
use Prim.Native.String.{◌++◌ as ◌++ₛ◌, ◌∷◌ as ◌∷ₛ◌}
use Prim.Native.Char.{Char}
use web_inspector.Prelude.Text.{join}
use web_inspector.Prelude.{
  List, String, [], false, if◌then◌else◌, refl, ◌∷◌, ◌≡◌, arith, if_cases, ap, ◌∙◌, All, map, ◌≢◌,
  sym,
}
use web_inspector.Reporting.Csv.{
  double_quotes, is_comma, is_line_end, is_quote, needs_quotes, csv_cell, render_rows,
}

-- Where the reader stands: before a cell, in a plain one, in a quoted one, behind a quote in that.
pub data Mode : Type 0 where
  at_start in_plain in_quotes behind_quote : Mode

-- What was read, with a character, a cell or a row put before it.
abbrev pub put_char : Char → List (List String) → List (List String)
put_char c [] = ((c ∷ₛ "") ∷ []) ∷ []
put_char c ([] ∷ rows) = ((c ∷ₛ "") ∷ []) ∷ rows
put_char c ((cell ∷ cells) ∷ rows) = ((c ∷ₛ cell) ∷ cells) ∷ rows

abbrev pub put_cell : List (List String) → List (List String)
put_cell [] = ("" ∷ []) ∷ []
put_cell (row ∷ rows) = ("" ∷ row) ∷ rows

abbrev pub put_row : List (List String) → List (List String)
put_row rows = ("" ∷ []) ∷ rows

unfoldable pub read : Mode → String → List (List String)
read mode String.[] = ("" ∷ []) ∷ []
read in_quotes (String.◌∷◌ c s) =
    let ended = read behind_quote s in
    let longer = put_char c (read in_quotes s) in if is_quote c then ended else longer
read at_start (String.◌∷◌ c s) =
    let quoted = read in_quotes s in
    let next_cell = put_cell (read at_start s) in
    let next_row = put_row (read at_start s) in
    let longer = put_char c (read in_plain s) in
    if is_quote c
    then quoted
    else if is_comma c
    then next_cell
    else if is_line_end c
    then next_row
    else longer
read in_plain (String.◌∷◌ c s) =
    let next_cell = put_cell (read at_start s) in
    let next_row = put_row (read at_start s) in
    let longer = put_char c (read in_plain s) in
    if is_comma c then next_cell else if is_line_end c then next_row else longer
read behind_quote (String.◌∷◌ c s) =
    let doubled = put_char c (read in_quotes s) in
    let next_cell = put_cell (read at_start s) in
    let next_row = put_row (read at_start s) in
    let longer = put_char c (read in_plain s) in
    if is_quote c
    then doubled
    else if is_comma c
    then next_cell
    else if is_line_end c
    then next_row
    else longer

abbrev put_text : String → List (List String) → List (List String)
put_text String.[] rows = rows
put_text (String.◌∷◌ c s) rows = put_char c (put_text s rows)

read_plain :
    (s t : String) → needs_quotes s ≡ false → read in_plain (s ++ₛ t) ≡ put_text s (read in_plain t)
unfolding read needs_quotes
read_plain String.[] t h = ap (read in_plain) (nil-append t)
read_plain (String.◌∷◌ c s) t h =
    ap (read in_plain) (cons-append c s t) ∙ ground (arith, h, read_plain s t)

quote_then : (t : String) → "\"" ++ₛ t ≡ "\"" ∷ₛ t
quote_then t = cons-append "\"" "" t ∙ ap (λ u. "\"" ∷ₛ u) (nil-append t)

comma_then : (t : String) → "," ++ₛ t ≡ "," ∷ₛ t
comma_then t = cons-append "," "" t ∙ ap (λ u. "," ∷ₛ u) (nil-append t)

line_end_then : (t : String) → "\n" ++ₛ t ≡ "\n" ∷ₛ t
line_end_then t = cons-append "\n" "" t ∙ ap (λ u. "\n" ∷ₛ u) (nil-append t)

-- A quote before a cell opens it.
opened : (t : String) → read at_start ("\"" ∷ₛ t) ≡ read in_quotes t
unfolding read
opened t = refl

read_quoted :
    (s t : String)
    → read in_quotes (double_quotes s ++ₛ ("\"" ++ₛ t)) ≡ put_text s (read behind_quote t)
unfolding read double_quotes
read_quoted String.[] t = ap (read in_quotes) (nil-append ("\"" ++ₛ t) ∙ quote_then t)
read_quoted (String.◌∷◌ c s) t =
    let rest = double_quotes s in
    let end = "\"" ++ₛ t in
    if_cases (λ (u : String). read in_quotes (u ++ₛ end) ≡ put_text (c ∷ₛ s) (read behind_quote t))
      (is_quote c)
      (λ quote.
        ap (read in_quotes)
          (cons-append c (c ∷ₛ rest) end ∙ ap (λ u. c ∷ₛ u) (cons-append c rest end))
        ∙ ground (arith, quote, read_quoted s t))
      (λ plain.
        ap (read in_quotes) (cons-append c rest end) ∙ ground (arith, plain, read_quoted s t))

-- What may stand behind a cell.
pub data IsBoundary : String → Type 0 where
  at_end : IsBoundary ""
  at_comma : (t : String) → IsBoundary ("," ∷ₛ t)
  at_line_end : (t : String) → IsBoundary ("\n" ∷ₛ t)

-- Behind a cell it does not matter how the cell was written.
read-boundary :
    (t : String)
    → IsBoundary t
    → (read behind_quote t ≡ read in_plain t) × (read at_start t ≡ read in_plain t)
unfolding read
read-boundary t at_end = (refl, refl)
read-boundary t (at_comma u) = (refl, refl)
read-boundary t (at_line_end u) = (refl, refl)

read_start :
    (s t : String)
    → needs_quotes s ≡ false
    → IsBoundary t
    → read at_start (s ++ₛ t) ≡ put_text s (read in_plain t)
unfolding read needs_quotes
read_start String.[] t h b = ap (read at_start) (nil-append t) ∙ (read-boundary t b).1
read_start (String.◌∷◌ c s) t h b =
    ap (read at_start) (cons-append c s t) ∙ ground (arith, h, read_plain s t)

read_cell :
    (s t : String) → IsBoundary t → read at_start (csv_cell s ++ₛ t) ≡ put_text s (read in_plain t)
unfolding csv_cell
read_cell s t b =
    if_cases (λ (u : String). read at_start (u ++ₛ t) ≡ put_text s (read in_plain t))
      (needs_quotes s)
      (λ _.
        ap (read at_start) (
          append_assoc "\"" (double_quotes s ++ₛ "\"") t
          ∙ ap (λ u. "\"" ++ₛ u) (append_assoc (double_quotes s) "\"" t)
          ∙ quote_then (double_quotes s ++ₛ ("\"" ++ₛ t)))
        ∙ opened (double_quotes s ++ₛ ("\"" ++ₛ t))
        ∙ read_quoted s t
        ∙ ap (put_text s) (read-boundary t b).0)
      (λ plain. read_start s t plain b)

put_text_row :
    (s : String) (cells : List String) (rows : List (List String))
    → put_text s (("" ∷ cells) ∷ rows) ≡ (s ∷ cells) ∷ rows
put_text_row String.[] cells rows = refl
put_text_row (String.◌∷◌ c s) cells rows = ap (put_char c) (put_text_row s cells rows)

-- A row, and what stands behind it.
read_row :
    (s : String) (cells : List String) (t : String) (rows : List (List String))
    → IsBoundary t
    → read in_plain t ≡ ("" ∷ []) ∷ rows
    → read at_start (join "," (map csv_cell (s ∷ cells)) ++ₛ t) ≡ (s ∷ cells) ∷ rows
unfolding join read
read_row s [] t rows b e = read_cell s t b ∙ ap (put_text s) e ∙ put_text_row s [] rows
read_row s (s' ∷ cells) t rows b e =
    let others = join "," (map csv_cell (s' ∷ cells)) in
    ap (read at_start) (
      append_assoc (csv_cell s) ("," ++ₛ others) t
      ∙ ap (λ u. csv_cell s ++ₛ u) (append_assoc "," others t ∙ comma_then (others ++ₛ t)))
    ∙ read_cell s ("," ∷ₛ (others ++ₛ t)) (at_comma (others ++ₛ t))
    ∙ ap (λ r. put_text s (put_cell r)) (read_row s' cells t rows b e)
    ∙ put_text_row s (s' ∷ cells) rows

abbrev pub HasCell : List String → Type 0
HasCell row = row ≢ []

-- Reading back what was written gives the rows, if there is a row and each has a cell: quotes,
-- commas and line ends in a cell do not break it.
pub read-render_rows :
    (row : List String) (rows : List (List String))
    → All HasCell (row ∷ rows)
    → read at_start (render_rows (row ∷ rows)) ≡ row ∷ rows
unfolding render_rows join read
read-render_rows [] rows h = absurd (h.0 refl)
read-render_rows (s ∷ cells) [] h =
    let line = join "," (map csv_cell (s ∷ cells)) in
    ap (read at_start) (sym (append-nil line)) ∙ read_row s cells "" [] at_end refl
read-render_rows (s ∷ cells) (row ∷ rows) h =
    let line = join "," (map csv_cell (s ∷ cells)) in
    let others = render_rows (row ∷ rows) in
    ap (read at_start) (ap (λ u. line ++ₛ u) (line_end_then others))
    ∙ read_row s cells ("\n" ∷ₛ others) (row ∷ rows) (at_line_end others)
        (ap put_row (read-render_rows row rows h.1))
