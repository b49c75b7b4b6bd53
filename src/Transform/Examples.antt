-- ===== src/Transform/Examples.antt =====
-- The theorem on the numbers where a footnote of the document is called 1.
use pymotw.Prelude.{ℕ, ◌+◌, ◌≡◌, Bool, true, false, some, List, ◌==◌, arith, leb, length}
use pymotw.Transform.{renumber_footnotes}
use pymotw.Transform.Numbers.{Fresh, renumber_footnotes-Fresh}

abbrev is_one : ℕ → Bool
is_one n = n == 1

above : (m : ℕ) → leb 2 m ≡ true → is_one m ≡ false
above m h = ground arith

renumber_footnotes-Fresh_example :
    (ns : List ℕ) × (renumber_footnotes is_one (2 + 1) 3 1 ≡ some ns)
    × (length ns ≡ 3)
    × Fresh is_one 1 ns
renumber_footnotes-Fresh_example = renumber_footnotes-Fresh is_one 2 above 3 1
