-- ===== src/Writer/Laws/Clines.antt =====
-- The lines below a row of a table with cells of several rows (`depart_row`).
use pymotw.Prelude.{
  ℕ, zero, suc, ◌+◌, ◌-◌, ◌≡◌, refl, ap, inl, inr, ◌∙◌, Bool, true, false, List, [], ◌∷◌, ◌&&◌,
  ◌||◌, leb, ltb, ◌==◌, arith, Bool-cases, some,
}
use pymotw.Writer.State.{
  Translator, Table, Method, ◌>>◌, ◌>>=◌, gets, update, need, emit, emit_all, pure,
}
use pymotw.Writer.Tables.{cline_ranges, row_lines, get_or_zero, any_value, emit_clines, depart_row}

-- A column that one of the ranges has.
unfoldable covered : ℕ → List (ℕ × ℕ) → Bool
covered c [] = false
covered c ((a, b) ∷ rs) = (leb a c && leb c b) || covered c rs

abbrev single : ℕ → ℕ
single c = 0

module _ (rows : ℕ → ℕ) (rounds col linestart c : ℕ) where
  -- The columns of the range that is not ended yet, and those to come that are free.
  abbrev expected : Bool
  expected = (leb linestart c && ltb c col) || (leb col c && ltb c (col + rounds) && rows c == 0)

free-step :
    (rows : ℕ → ℕ) (rounds col linestart c : ℕ)
    → leb linestart col ≡ true
    → (rows col == 0) ≡ true
    → expected rows rounds (col + 1) linestart c ≡ expected rows (suc rounds) col linestart c
free-step rows rounds col linestart c h e = grind arith

taken-step :
    (rows : ℕ → ℕ) (rounds col linestart c : ℕ)
    → (rows col == 0) ≡ false
    → (linestart == col) ≡ true
    → expected rows rounds (col + 1) (col + 1 + single col) c
      ≡ expected rows (suc rounds) col linestart c
taken-step rows rounds col linestart c e q = grind arith

ended-step :
    (rows : ℕ → ℕ) (rounds col linestart c : ℕ)
    → (rows col == 0) ≡ false
    → leb 1 col ≡ true
    → ((leb linestart c && leb c (col - 1))
        || expected rows rounds (col + 1) (col + 1 + single col) c)
      ≡ expected rows (suc rounds) col linestart c
ended-step rows rounds col linestart c e o = grind arith

covered-from :
    (rows : ℕ → ℕ) (rounds col seen linestart c : ℕ)
    → col ≡ seen + 1
    → leb linestart col ≡ true
    → covered c (cline_ranges rows single rounds col seen linestart)
      ≡ expected rows rounds col linestart c
unfolding covered cline_ranges
covered-from rows zero col seen linestart c j h = ground arith
covered-from rows (suc rounds) col seen linestart c j h = elim (Bool-cases (rows col == 0)) [
  | inl e ↦ rw e (
      covered-from rows rounds (col + 1) col linestart c refl (ground arith)
      ∙ free-step rows rounds col linestart c h e)
  | inr e ↦ elim (Bool-cases (linestart == col)) [
    | inl q ↦ rw e (
        rw q (
          covered-from rows rounds (col + 1) col (col + 1 + single col) c refl (ground arith)
          ∙ taken-step rows rounds col linestart c e q))
    | inr q ↦ rw e (
        rw q (
          ap (λ b. (leb linestart c && leb c (col - 1)) || b)
            (covered-from rows rounds (col + 1) col (col + 1 + single col) c refl (ground arith))
          ∙ ended-step rows rounds col linestart c e (ground arith)))
  ]
]

covered-cline_ranges :
    (rows : ℕ → ℕ) (cols seen c : ℕ)
    → leb 1 cols ≡ true
    → covered c (cline_ranges rows single cols 1 seen 1) ≡ (leb 1 c && leb c cols && rows c == 0)
unfolding covered cline_ranges
covered-cline_ranges rows zero seen c h = ground arith
covered-cline_ranges rows (suc n) seen c h =
    covered-from rows (suc n) 1 0 1 c refl refl ∙ ground arith

covered-row_lines :
    (s : Translator) (t : Table) (c : ℕ)
    → s.remember_multirowcol ≡ []
    → leb 1 t.col ≡ true
    → covered c (row_lines s t) ≡ (leb 1 c && leb c t.col && get_or_zero c s.remember_multirow == 0)
unfolding row_lines get_or_zero
covered-row_lines s t c e h =
    rw e (covered-cline_ranges (λ k. get_or_zero k s.remember_multirow) t.col t.colcount c h)

-- The lines below a row: one below all of it, or one for each range of columns.
data Rule : Type 0 where
  whole : Rule
  ranges : List (ℕ × ℕ) → Rule

unfoldable draw : Rule → Method
draw whole = emit "\\hline\n"
draw (ranges rs) = emit_clines rs

unfoldable has_line : ℕ → ℕ → Rule → Bool
has_line cols c whole = leb 1 c && leb c cols
has_line cols c (ranges rs) = covered c rs

-- The state behind a row.
abbrev counted : Table → Translator → Translator
counted t s = record s { table = some (record t { rowcount = t.rowcount + 1 }) }

-- What the departure of a row draws, and which columns have a line below them.
pub record Ruled (s : Translator) (t : Table) : Type 0 where
  rule : Rule
  drawn : depart_row s ≡ (emit "\\\\" >> (draw rule >> update (counted t))) s
  lines :
      (c : ℕ)
      → has_line t.col c rule ≡ (leb 1 c && leb c t.col && get_or_zero c s.remember_multirow == 0)

any_value-get_or_zero : (d : List (ℕ × ℕ)) (c : ℕ) → any_value d ≡ false → get_or_zero c d ≡ 0
unfolding any_value get_or_zero
any_value-get_or_zero [] c h = refl
any_value-get_or_zero ((k, v) ∷ d) c h = elim (Bool-cases (v == 0)) [
  | inl e ↦ let rest = any_value-get_or_zero d c (ground arith) in ground arith
  | inr e ↦ ground arith
]

-- Behind a row of at least one column of a table, with no cell that spans rows and columns both, the
-- departure writes the end of the row and then lines, \hline or ranges of \cline; it counts the row
-- and does nothing else. A column of the row has a line below it just when no cell of it goes on below.
pub depart_row-Ruled :
    (s : Translator) (t : Table)
    → s.table ≡ some t
    → s.remember_multirowcol ≡ []
    → leb 1 t.col ≡ true
    → Ruled s t
unfolding depart_row draw has_line ◌>>◌ ◌>>=◌ gets update need emit emit_all pure row_lines
depart_row-Ruled s t o e h = elim (Bool-cases (any_value s.remember_multirow)) [
  | inl v ↦ record {
    rule = ranges (row_lines s t);
    drawn = rw o (rw v refl);
    lines = λ c. covered-row_lines s t c e h;
  }
  | inr v ↦ record {
    rule = whole;
    drawn = rw o (rw v refl);
    lines = λ c. let z = any_value-get_or_zero s.remember_multirow c v in ground arith;
  }
]
