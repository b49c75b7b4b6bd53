-- ===== src/Prelude/Dict.antt =====
-- Python's dicts with numbers or texts as keys, as association lists.
use Prim.Native.Nat.{ℕ}
use mathlib.Core.Path.{◌≡◌, refl}
use mathlib.Core.Bool.{true, false}
use mathlib.Core.Option.{Option, none, some}
use mathlib.Core.List.{List, [], ◌∷◌}
use native.Mathlib.Omega.{arith}
use pymotw.Prelude.Tests.{◌==◌, if◌then◌else◌}

module _ {A : Type 0} where
  unfoldable pub lookup : ℕ → List (ℕ × A) → Option A
  lookup k [] = none
  lookup k ((j, a) ∷ d) = if k == j then some a else lookup k d

  -- d[k] = a
  unfoldable pub put : ℕ → A → List (ℕ × A) → List (ℕ × A)
  put k a [] = (k, a) ∷ []
  put k a ((j, b) ∷ d) = if k == j then (j, a) ∷ d else (j, b) ∷ put k a d

  -- del d[k], where k is a key
  unfoldable pub remove : ℕ → List (ℕ × A) → List (ℕ × A)
  remove k [] = []
  remove k ((j, b) ∷ d) = let rest = remove k d in if k == j then rest else (j, b) ∷ rest

  pub lookup-empty : (k : ℕ) → lookup k [] ≡ none
  unfolding lookup
  lookup-empty k = refl

  pub lookup-put :
      (j k : ℕ) (a : A) (d : List (ℕ × A))
      → lookup j (put k a d) ≡ (if j == k then some a else lookup j d)
  unfolding lookup put
  lookup-put j k a [] = refl
  lookup-put j k a ((i, b) ∷ d) = let ih = lookup-put j k a d in ground arith

  pub lookup-remove :
      (j k : ℕ) (d : List (ℕ × A)) → lookup j (remove k d) ≡ (if j == k then none else lookup j d)
  unfolding lookup remove
  lookup-remove j k [] = ground arith
  lookup-remove j k ((i, b) ∷ d) = let ih = lookup-remove j k d in ground arith

  pub lookup-put_same : (k : ℕ) (a : A) (d : List (ℕ × A)) → lookup k (put k a d) ≡ some a
  lookup-put_same k a d = let e = lookup-put k k a d in ground arith

  pub lookup-put_other :
      (j k : ℕ) (a : A) (d : List (ℕ × A)) → (j == k) ≡ false → lookup j (put k a d) ≡ lookup j d
  lookup-put_other j k a d h = let e = lookup-put j k a d in ground arith

  pub lookup-remove_same : (k : ℕ) (d : List (ℕ × A)) → lookup k (remove k d) ≡ none
  lookup-remove_same k d = let e = lookup-remove k k d in ground arith

  pub lookup-remove_other :
      (j k : ℕ) (d : List (ℕ × A)) → (j == k) ≡ false → lookup j (remove k d) ≡ lookup j d
  lookup-remove_other j k d h = let e = lookup-remove j k d in ground arith

-- To go from the test of two keys to their equality.
pub eq_of_test : (m n : ℕ) → (m == n) ≡ true → m ≡ n
eq_of_test m n h = ground arith
