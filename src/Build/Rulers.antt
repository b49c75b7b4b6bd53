-- ===== src/Build/Rulers.antt =====
-- The cleanups of pavement.py for lines of the output of programs, taken in the order of their list.
use pymotw.Prelude.{
  text_length, ℕ, zero, suc, Char, ◌≡◌, refl, ap, String, true, none, List, [], ◌∷◌, ltb, leb, ◌&&◌,
  arith, Bool-cases, inl, inr,
}
use pymotw.Build.{
  Env, Cleanup, ruler, is_ruler, truncate_lines, elide_path_prefix, line_cleanups, dash, equals,
  star,
}

abbrev pub clean : List Cleanup → String → String → String
clean [] infile line = line
clean (f ∷ fs) infile line = clean fs infile (f infile line)

-- A line of nothing but c is not longer than 64.
abbrev pub Short : Char → String → Type 0
Short c line = is_ruler c line ≡ true → leb (text_length line) 64 ≡ true

length-ruler : (n : ℕ) (c : Char) → text_length (ruler n c) ≡ n
unfolding text_length ruler
length-ruler zero c = refl
length-ruler (suc n) c = ap suc (length-ruler n c)

Short-ruler : (c d : Char) → Short c (ruler 64 d)
Short-ruler c d h = rw (length-ruler 64 d) refl

truncate-Short :
    (infile : String) (c : Char) (line : String) → Short c (truncate_lines infile c line)
unfolding truncate_lines
truncate-Short infile c line = elim (Bool-cases (is_ruler c line && ltb 64 (text_length line))) [
  | inl e ↦ rw e (Short-ruler c c)
  | inr e ↦ rw e (λ h. ground arith)
]

Short-truncate :
    (infile : String) (c d : Char) (line : String)
    → Short c line
    → Short c (truncate_lines infile d line)
unfolding truncate_lines
Short-truncate infile c d line k =
    elim (Bool-cases (is_ruler d line && ltb 64 (text_length line))) [
      | inl e ↦ rw e (Short-ruler c d)
      | inr e ↦ rw e k
    ]

-- Whatever the line was, behind the cleanups that run_script has where its caller gives none, taken in
-- their order, a line of nothing but dashes, of nothing but equals signs or of nothing but stars has at
-- most 64 characters.
pub clean-Short :
    (env : Env) (infile line : String)
    → Short dash (clean (line_cleanups env none) infile line)
      × Short equals (clean (line_cleanups env none) infile line)
      × Short star (clean (line_cleanups env none) infile line)
unfolding line_cleanups
clean-Short env infile line =
    let first : String = elide_path_prefix env infile line in
    let second : String = truncate_lines infile dash first in
    let third : String = truncate_lines infile equals second in
    (
      Short-truncate infile dash star third
          (Short-truncate infile dash equals second (truncate-Short infile dash first)),
      Short-truncate infile equals star third (truncate-Short infile equals second),
      truncate-Short infile star third,
    )
