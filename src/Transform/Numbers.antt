-- ===== src/Transform/Numbers.antt =====
-- The numbers of the footnotes that links are turned into.
use pymotw.Prelude.{
  ℕ, zero, suc, ◌+◌, ◌≡◌, refl, ◌∙◌, ap, Bool, true, false, some, List, [], ◌∷◌, leb, length,
  Bool-cases, inl, inr, arith,
}
use pymotw.Transform.{next_number, renumber_footnotes}

at_start : (u : ℕ → Bool) (start : ℕ) → u (start + 0) ≡ false → u start ≡ false
at_start u start f = ap (λ m. u m) (plus_zero start) ∙ f
  where
    plus_zero : (m : ℕ) → m ≡ m + 0
    plus_zero m = omega arith

further : (u : ℕ → Bool) (start k : ℕ) → u (start + suc k) ≡ false → u ((start + 1) + k) ≡ false
further u start k f = ap (λ m. u m) (moved start k) ∙ f
  where
    moved : (m k : ℕ) → (m + 1) + k ≡ m + suc k
    moved m k = omega arith

-- A search that reaches a free number within its fuel returns a free number.
no_fuel : (k : ℕ) → leb (k + 1) 0 ≡ true → ⊥
no_fuel k h = ground arith

next-Free :
    (u : ℕ → Bool) (fuel start k : ℕ)
    → u (start + k) ≡ false
    → leb (k + 1) fuel ≡ true
    → (n : ℕ) × (next_number u fuel start ≡ some n) × (u n ≡ false) × (leb start n ≡ true)
unfolding next_number
next-Free u zero start k f h = absurd (no_fuel k h)
next-Free u (suc fuel) start zero f h =
    (start, rw (at_start u start f) refl, at_start u start f, ground arith)
next-Free u (suc fuel) start (suc k) f h = elim (Bool-cases (u start)) [
  | inl e ↦
      let (n, q, r, l) = next-Free u fuel (start + 1) k (further u start k f) (ground arith) in
      (n, rw e q, r, ground arith)
  | inr e ↦ (start, rw e refl, e, ground arith)
]

-- The numbers are free, and each is greater than those before it.
abbrev pub Fresh : (ℕ → Bool) → ℕ → List ℕ → Type 0
Fresh u start [] = Unit
Fresh u start (n ∷ ns) = (leb start n ≡ true) × (u n ≡ false) × Fresh u (n + 1) ns

renumber-step :
    (u : ℕ → Bool) (fuel count start n : ℕ) (ns : List ℕ)
    → next_number u fuel start ≡ some n
    → renumber_footnotes u fuel count (n + 1) ≡ some ns
    → renumber_footnotes u fuel (suc count) start ≡ some (n ∷ ns)
unfolding renumber_footnotes
renumber-step u fuel count start n ns q e = rw (renumber_footnotes, q) (rw e refl)

-- If no number from a bound on is in use, a fuel of the bound plus one is enough for any count of
-- footnotes from any start: the numbers are as many as the footnotes, none of them is in use, and each
-- is greater than the one before and not below the start.
pub renumber_footnotes-Fresh :
    (u : ℕ → Bool) (bound : ℕ)
    → ((m : ℕ) → leb bound m ≡ true → u m ≡ false)
    → (count start : ℕ)
    → (ns : List ℕ) × (renumber_footnotes u (bound + 1) count start ≡ some ns)
      × (length ns ≡ count)
      × Fresh u start ns
unfolding renumber_footnotes
renumber_footnotes-Fresh u bound h zero start = ([], refl, refl, tt)
renumber_footnotes-Fresh u bound h (suc count) start =
    let (n, q, r, l) =
      next-Free u (bound + 1) start bound (h (start + bound) (ground arith)) (ground arith) in
    let (ns, e, c, f) = renumber_footnotes-Fresh u bound h count (n + 1) in
    (n ∷ ns, renumber-step u (bound + 1) count start n ns q e, ap suc c, (l, r, f))
