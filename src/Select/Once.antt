-- ===== src/Select/Once.antt =====
-- Lists of sockets in which none stands twice.
use pymotw.Prelude.{
  ℕ, ◌≡◌, refl, ap, Bool, true, false, Option, some, none, List, [], ◌∷◌, ◌++◌, if◌then◌else◌, ◌==◌,
  eq_of_test, arith, Bool-cases, inl, inr,
}
use pymotw.Select.Server.{member, remove_first, discard}

-- No socket stands twice in a list.
abbrev pub Once : List ℕ → Type 0
Once [] = Unit
Once (x ∷ xs) = (member x xs ≡ false) × Once xs

pub member-discard : (c s : ℕ) (l : List ℕ) → member c (discard s l) ≡ true → member c l ≡ true
unfolding member discard
member-discard c s [] h = h
member-discard c s (x ∷ xs) h = let ih = member-discard c s xs in ground arith

pub same_member : (c s : ℕ) (l : List ℕ) → c ≡ s → member c l ≡ member s l
same_member c s l e = ap (λ x. member x l) e

pub not_member-discard : (s : ℕ) (l : List ℕ) → Once l → member s (discard s l) ≡ false
unfolding member discard
not_member-discard s [] o = refl
not_member-discard s (x ∷ xs) o = elim (Bool-cases (s == x)) [
  | inl e ↦ let m = same_member s x xs (eq_of_test s x e) in let n = o.0 in ground arith
  | inr e ↦ let ih = not_member-discard s xs o.1 in ground arith
]

pub false_of : (b d : Bool) → (d ≡ true → b ≡ true) → b ≡ false → d ≡ false
false_of b true h e = let p = h refl in cc
false_of b false h e = refl

pub Once-discard : (s : ℕ) (l : List ℕ) → Once l → Once (discard s l)
unfolding discard
Once-discard s [] o = tt
Once-discard s (x ∷ xs) o = elim (Bool-cases (s == x)) [
  | inl e ↦ rw e o.1
  | inr e ↦ rw e (false_of _ _ (member-discard x s xs) o.0, Once-discard s xs o.1)
]

pub member-append :
    (c s : ℕ) (l : List ℕ) → member c (l ++ (s ∷ [])) ≡ (if member c l then true else c == s)
unfolding member
member-append c s [] = ground arith
member-append c s (x ∷ xs) = let ih = member-append c s xs in ground arith

pub Once-append : (s : ℕ) (l : List ℕ) → member s l ≡ false → Once l → Once (l ++ (s ∷ []))
unfolding member
Once-append s [] m o = (refl, tt)
Once-append s (x ∷ xs) m o = (fresh_lem s x xs m o.0, Once-append s xs (below_lem s x xs m) o.1)
  where
    below_lem : (s x : ℕ) (xs : List ℕ) → member s (x ∷ xs) ≡ false → member s xs ≡ false
    below_lem s x xs m = ground arith

    fresh_lem :
        (s x : ℕ) (xs : List ℕ)
        → member s (x ∷ xs) ≡ false
        → member x xs ≡ false
        → member x (xs ++ (s ∷ [])) ≡ false
    fresh_lem s x xs m n = let a = member-append x s xs in ground arith

pub removed_rest :
    (s x : ℕ) (xs r : List ℕ) (o : Option (List ℕ))
    → ((zs : List ℕ) → o ≡ some zs → zs ≡ discard s xs)
    → (s == x) ≡ false
    → remove_first s xs ≡ o
    → remove_first s (x ∷ xs) ≡ some r
    → r ≡ discard s (x ∷ xs)
unfolding remove_first discard
removed_rest s x xs r none h d p e = ground arith
removed_rest s x xs r (some zs) h d p e = let q = h zs refl in ground arith

pub remove_first-is_discard : (s : ℕ) (l r : List ℕ) → remove_first s l ≡ some r → r ≡ discard s l
unfolding remove_first discard
remove_first-is_discard s [] r e = cc
remove_first-is_discard s (x ∷ xs) r e = elim (Bool-cases (s == x)) [
  | inl d ↦ ground arith
  | inr d ↦
      removed_rest s x xs r (remove_first s xs) (λ zs p. remove_first-is_discard s xs zs p) d refl e
]
