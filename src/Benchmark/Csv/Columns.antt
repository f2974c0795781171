-- ===== src/Benchmark/Csv/Columns.antt =====
-- What a file of results reads back as.
use Prim.Native.Char.{Char, code}
use Prim.Native.String.append
use Prim.Native.String.{◌++◌ as str_append}
use text.Mathlib.TextLemmas.{append_assoc, append-nil}
use astra_exchange.Base.{
  ℕ, ◌≡◌, ◌≢◌, refl, ap, ◌∙◌, ◌==◌, String, Bool, true, false, none, some, List, [], ◌∷◌, ◌++◌, map,
  All, sym, Bool-cases, inl, inr, if◌then◌else◌, length,
}
use astra_exchange.CsvParser.Defs.{split}
use astra_exchange.CsvParser.Lines.{Free, join, split-field, split-join}
use astra_exchange.Benchmark.Defs.{
  BenchmarkConfig, BenchmarkResult, BenchmarkMode, baseline, pool, pipeline,
}
use astra_exchange.LatencyTimer.Defs.{Stats}
use astra_exchange.Benchmark.Csv.Defs.{
  mode_name, csv_header, passed_text, csv_cells, save_csv, save_all,
}

abbrev pub csv_names : List String
csv_names =
    "mode" ∷ "orders_submitted" ∷ "orders_accepted" ∷ "orders_rejected" ∷ "cancels_processed"
    ∷ "trades_generated" ∷ "symbols" ∷ "throughput_ops_per_sec" ∷ "p50_ns" ∷ "p95_ns" ∷ "p99_ns"
    ∷ "max_ns" ∷ "memory_kb" ∷ "invariants_passed" ∷ []

-- The lines, each with its end.
abbrev pub unlines : List String → String
unlines [] = ""
unlines (l ∷ ls) = str_append l (String.◌∷◌ "\n" (unlines ls))

Free-append : (d : Char) (f g : String) → Free d f → Free d g → Free d (str_append f g)
Free-append d String.[] g hf hg = rw (append.nil g) hg
Free-append d (String.◌∷◌ c f) g hf hg = rw (append.cons c f g) (hf.0, Free-append d f g hf.1 hg)

Free-join :
    (e d : Char) (fs : List String)
    → (code d == code e) ≡ false
    → All (λ f. Free e f) fs
    → Free e (join d fs)
Free-join e d [] n h = tt
Free-join e d (f ∷ []) n h = h.0
Free-join e d (f ∷ g ∷ fs) n h =
    Free-append e f (String.◌∷◌ d (join d (g ∷ fs))) h.0 (n, Free-join e d (g ∷ fs) n h.1)

split-unlines : (ls : List String) → All (λ l. Free "\n" l) ls → split (unlines ls) "\n" ≡ ls
unfolding split
split-unlines [] h = refl
split-unlines (l ∷ ls) h =
    split-field "\n" l (unlines ls) h.0 ∙ ap (λ t. l ∷ t) (split-unlines ls h.1)

end-line :
    (l rest : String) → str_append (str_append l "\n") rest ≡ str_append l (String.◌∷◌ "\n" rest)
end-line l rest =
    append_assoc l "\n" rest
    ∙ ap (λ t. str_append l t)
        (append.cons "\n" "" rest ∙ ap (λ t. String.◌∷◌ "\n" t) (append.nil rest))

add-line :
    (text l rest : String)
    → str_append (str_append text (str_append "" (str_append l "\n"))) rest
      ≡ str_append text (str_append l (String.◌∷◌ "\n" rest))
add-line text l rest =
    append_assoc text (str_append "" (str_append l "\n")) rest
    ∙ ap (λ t. str_append text t)
        (ap (λ t. str_append t rest) (append.nil (str_append l "\n")) ∙ end-line l rest)

csv_header-names : csv_header ≡ str_append (join "," csv_names) "\n"
csv_header-names = refl

-- What the first save writes, with what comes after.
header-lines :
    (l rest : String)
    → str_append (str_append "" (str_append csv_header (str_append l "\n"))) rest
      ≡ str_append (join "," csv_names) (String.◌∷◌ "\n" (str_append l (String.◌∷◌ "\n" rest)))
header-lines l rest =
    ap (λ t. str_append t rest) (append.nil (str_append csv_header (str_append l "\n")))
    ∙ append_assoc csv_header (str_append l "\n") rest
    ∙ ap (λ t. str_append csv_header t) (end-line l rest)
    ∙ ap (λ t. str_append t (str_append l (String.◌∷◌ "\n" rest))) csv_header-names
    ∙ end-line (join "," csv_names) (str_append l (String.◌∷◌ "\n" rest))

abbrev pub Readable : (ℕ → String) → Type 0
Readable print = (n : ℕ) → Free "," (print n) × Free "\n" (print n)

-- Whether a character does not occur.
abbrev lacks : Char → String → Bool
lacks d String.[] = true
lacks d (String.◌∷◌ c s) = let rest = lacks d s in if code c == code d then false else rest

lacks-Free : (d : Char) (s : String) → lacks d s ≡ true → Free d s
lacks-Free d String.[] h = tt
lacks-Free d (String.◌∷◌ c s) h = elim (Bool-cases (code c == code d)) [
  | inl y ↦ cc (y, h)
  | inr n ↦ (n, lacks-Free d s (ap (λ b. if b then false else lacks d s) (sym n) ∙ h))
]

mode_name-Free : (m : BenchmarkMode) → Free "," (mode_name m) × Free "\n" (mode_name m)
mode_name-Free baseline = (search, search)
mode_name-Free pool = (search, search)
mode_name-Free pipeline = (search, search)

passed_text-Free : (b : Bool) → Free "," (passed_text b) × Free "\n" (passed_text b)
passed_text-Free true = (search, search)
passed_text-Free false = (search, search)

passed_text-ne : (b : Bool) → passed_text b ≢ ""
passed_text-ne true e = cc
passed_text-ne false e = cc

module _ (print : ℕ → String) where
  abbrev pub cells_of : BenchmarkResult Stats × BenchmarkConfig → List String
  cells_of p = csv_cells print p.0 p.1

  prints-Free :
      (d : Char) (last : String) (ns : List ℕ)
      → ((n : ℕ) → Free d (print n))
      → Free d last
      → All (λ f. Free d f) (map print ns ++ last ∷ [])
  prints-Free d last [] hp h = (h, tt)
  prints-Free d last (n ∷ ns) hp h = (hp n, prints-Free d last ns hp h)

  csv_cells-Free :
      (d : Char)
      → ((n : ℕ) → Free d (print n))
      → ((m : BenchmarkMode) → Free d (mode_name m))
      → ((b : Bool) → Free d (passed_text b))
      → (r : BenchmarkResult Stats) (cfg : BenchmarkConfig)
      → All (λ f. Free d f) (csv_cells print r cfg)
  csv_cells-Free d hp hm hb r cfg = (
    hm r.mode,
    prints-Free d (passed_text r.invariants.passed)
        (r.orders_submitted
          ∷ r.orders_accepted
          ∷ r.orders_rejected
          ∷ r.cancels_processed
          ∷ r.trades_generated
          ∷ length cfg.symbols
          ∷ r.latency.throughput_ops_per_sec
          ∷ r.latency.p50
          ∷ r.latency.p95
          ∷ r.latency.p99
          ∷ r.latency.max
          ∷ r.memory_kb
          ∷ [])
        hp (hb r.invariants.passed),
  )

  rows_of : List (BenchmarkResult Stats × BenchmarkConfig) → List String
  rows_of ps = map (λ p. join "," (cells_of p)) ps

  save_all-appends :
      (ps : List (BenchmarkResult Stats × BenchmarkConfig)) (text : String)
      → save_all print ps (some text) ≡ some (str_append text (unlines (rows_of ps)))
  unfolding save_all save_csv rows_of
  save_all-appends [] text = ap some (sym (append-nil text))
  save_all-appends ((r, cfg) ∷ ps) text =
      let l = join "," (csv_cells print r cfg) in
      save_all-appends ps (str_append text (str_append "" (str_append l "\n")))
      ∙ ap some (add-line text l (unlines (rows_of ps)))

  module _ (h : Readable print) where
    rows-Free :
        (ps : List (BenchmarkResult Stats × BenchmarkConfig)) → All (λ l. Free "\n" l) (rows_of ps)
    unfolding rows_of
    rows-Free [] = tt
    rows-Free ((r, cfg) ∷ ps) = (
      Free-join "\n" "," (csv_cells print r cfg) refl (
          csv_cells-Free "\n" (λ n. (h n).1) (λ m. (mode_name-Free m).1)
            (λ b. (passed_text-Free b).1) r cfg),
      rows-Free ps,
    )

    rows-split :
        (ps : List (BenchmarkResult Stats × BenchmarkConfig))
        → map (λ l. split l ",") (rows_of ps) ≡ map cells_of ps
    unfolding rows_of
    rows-split [] = refl
    rows-split ((r, cfg) ∷ ps) =
        rw
          (
            split-join "," (csv_cells print r cfg)
                (csv_cells-Free "," (λ n. (h n).0) (λ m. (mode_name-Free m).0)
                  (λ b. (passed_text-Free b).0) r cfg)
                (passed_text-ne r.invariants.passed),
            rows-split ps,
          )
          refl

    -- A file to which results were saved, that was not there before, splits at the ends of its lines and
    -- at the commas into the names of the columns, once, and a line of cells for each result, in their
    -- order. The text of a number has no comma and no end of a line.
    pub save_all-split :
        (p : BenchmarkResult Stats × BenchmarkConfig)
        (ps : List (BenchmarkResult Stats × BenchmarkConfig))
        → (text : String) × (save_all print (p ∷ ps) none ≡ some text)
          × (map (λ l. split l ",") (split text "\n") ≡ csv_names ∷ map cells_of (p ∷ ps))
    unfolding save_all save_csv rows_of split
    save_all-split (r, cfg) ps =
        let lines = join "," csv_names ∷ rows_of ((r, cfg) ∷ ps) in
        let first =
          str_append ""
            (str_append csv_header (str_append (join "," (csv_cells print r cfg)) "\n")) in
        (
          str_append first (unlines (rows_of ps)),
          save_all-appends ps first,
          ap (λ t. map (λ l. split l ",") (split t "\n"))
                (header-lines (join "," (csv_cells print r cfg)) (unlines (rows_of ps)))
              ∙ ap (λ ls. map (λ l. split l ",") ls)
                  (split-unlines lines
                    (lacks-Free "\n" (join "," csv_names) refl, rows-Free ((r, cfg) ∷ ps)))
              ∙ ap (λ cs. csv_names ∷ cs) (rows-split ((r, cfg) ∷ ps)),
        )
