-- ===== src/CsvParser/File.antt =====
-- What the loop over the lines of a file accounts for.
use astra_exchange.Base.{
  ℕ, ◌+◌, ◌-◌, ◌≡◌, inl, inr, String, true, false, Option, some, List, [], ◌∷◌, arith, length,
  length-append, add64, refl, ap, sum_by, str_eq, if◌then◌else◌, Bool-cases, Option-cases,
}
use astra_exchange.Base.Int.{ℤ}
use astra_exchange.CsvParser.Defs.{ParseResult, Scan, parse_line, scan_line, scan_lines, parse_file}

-- The lines that are not empty.
abbrev pub full_lines : List String → ℕ
full_lines lines = sum_by (λ l. if str_eq l "" then 0 else 1) lines

abbrev pub answers : ParseResult → ℕ
answers r = length r.orders + length r.errors

module _ (stoull : String → Option ℕ) (fixed_price : String → Option ℤ) where
  scan_line-answers :
      (line : String) (s : Scan)
      → s.header_skipped ≡ true
      → (answers (scan_line stoull fixed_price line s).result
          ≡ answers s.result + (if str_eq line "" then 0 else 1))
        × ((scan_line stoull fixed_price line s).header_skipped ≡ true)
  unfolding scan_line
  scan_line-answers line s h = elim (Bool-cases (str_eq line "")) [
    | inl y ↦ rw y (omega arith, h)
    | inr n ↦ elim (Option-cases (parse_line stoull fixed_price line)) [
      | inl z ↦ rw (n, h, z) (omega (arith, length-append s.result.errors (_ ∷ [])), refl)
      | inr (o, z) ↦ rw (n, h, z) (omega (arith, length-append s.result.orders (o ∷ [])), refl)
    ]
  ]

  scan_lines-answers :
      (lines : List String) (s : Scan)
      → s.header_skipped ≡ true
      → answers (scan_lines stoull fixed_price lines s).result ≡ answers s.result + full_lines lines
  unfolding scan_lines
  scan_lines-answers [] s h = omega arith
  scan_lines-answers (line ∷ lines) s h =
      let (e, k) = scan_line-answers line s h in
      omega (arith, e, scan_lines-answers lines (scan_line stoull fixed_price line s) k)

  header-answers :
      (lines : List String) (s : Scan)
      → s.header_skipped ≡ false
      → answers (scan_lines stoull fixed_price lines s).result
        ≡ answers s.result + (full_lines lines - 1)
  unfolding scan_lines scan_line
  header-answers [] s h = omega arith
  header-answers (line ∷ lines) s h =
      let after : Scan = scan_line stoull fixed_price line s in
      elim (Bool-cases (str_eq line "")) [
        | inl y ↦
            let k : full_lines (line ∷ []) ≡ 0 = rw y (omega arith) in
            let t : Scan = record s { line_num = add64 s.line_num 1 } in
            let g : after ≡ t = rw (scan_line, y) refl in
            let e = header-answers lines t h in
            omega (arith, k, e, ap (λ u. answers (scan_lines stoull fixed_price lines u).result) g)
        | inr n ↦
            let k : full_lines (line ∷ []) ≡ 1 = rw n (omega arith) in
            let t : Scan = record s { line_num = add64 s.line_num 1; header_skipped = true } in
            let g : after ≡ t = rw (scan_line, n, h) refl in
            let e = scan_lines-answers lines t refl in
            omega (arith, k, e, ap (λ u. answers (scan_lines stoull fixed_price lines u).result) g)
      ]

  -- `parseFile` answers each line that is not empty, but the first of them, with an order or with an
  -- error.
  pub parse_file-answers :
      (path : String) (lines : List String)
      → answers (parse_file stoull fixed_price path (some lines)) ≡ full_lines lines - 1
  unfolding parse_file
  parse_file-answers path lines =
      let start : Scan = record {
        result = record { orders = []; errors = [] };
        line_num = 0;
        header_skipped = false;
      } in
      omega (arith, header-answers lines start refl)
