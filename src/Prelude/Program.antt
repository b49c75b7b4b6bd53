-- ===== src/Prelude/Program.antt =====
-- Programs that change a state and may end with an exception, and what they keep.

use mathlib.Core.Bool.{Bool, true, false}
use mathlib.Core.Option.{Option, none, some}
use mathlib.Core.List.{List, [], ◌∷◌}
use pymotw.Prelude.Tests.{if◌then◌else◌}

pub data Result (E A : Type 0) : Type 0 where
  ok : A → Result E A
  raised : E → Result E A

abbrev pub Program : Type 0 → Type 0 → Type 0 → Type 0
Program S E A = S → Result E A × S

module _ {S E : Type 0} where
  unfoldable pub pure : {A : Type 0} → A → Program S E A
  pure a s = (ok a, s)

  unfoldable pub raise : {A : Type 0} → E → Program S E A
  raise e s = (raised e, s)

  unfoldable pub continue : {A B : Type 0} → (A → Program S E B) → Result E A → S → Result E B × S
  continue f (ok a) t = f a t
  continue f (raised e) t = (raised e, t)

  infixl 10 ◌>>=◌ ◌>>◌
  unfoldable pub ◌>>=◌ : {A B : Type 0} → Program S E A → (A → Program S E B) → Program S E B
  unfolding continue
  ◌>>=◌ m f s = let (r, t) = m s in continue f r t

  unfoldable pub ◌>>◌ : {B : Type 0} → Program S E (Unit {0}) → Program S E B → Program S E B
  unfolding ◌>>=◌
  m >> k = m >>= λ _. k

  unfoldable pub gets : {A : Type 0} → (S → A) → Program S E A
  gets f s = (ok (f s), s)

  unfoldable pub update : (S → S) → Program S E (Unit {0})
  update f s = (ok tt, f s)

  -- a value that is there, or an exception
  unfoldable pub need : {A : Type 0} → E → Option A → Program S E A
  need e none s = (raised e, s)
  need e (some a) s = (ok a, s)

  -- for x in xs: f(x)
  unfoldable pub each :
      {A : Type 0} → (A → Program S E (Unit {0})) → List A → Program S E (Unit {0})
  unfolding pure ◌>>◌
  each f [] = pure tt
  each f (x ∷ xs) = f x >> each f xs

-- Where the program returns, the state it leaves is as P says.
abbrev pub After : {S E A : Type 0} → (S → Type 0) → Result E A × S → Type 0
After P (ok a, t) = P t
After P (raised e, t) = Unit {0}

-- From a state where P holds to one where Q does.
pub record Leads {S E A : Type 0} (P Q : S → Type 0) (m : Program S E A) : Type 0 where
  pub at : (s : S) → P s → After Q (m s)

abbrev pub Keeps : {S E A : Type 0} → (S → Type 0) → Program S E A → Type 0
Keeps P m = Leads P P m

module _ {S E : Type 0} {P : S → Type 0} where
  pub Keeps-pure : {A : Type 0} (a : A) → Keeps {E = E} P (pure a)
  unfolding pure
  Keeps-pure a = record { at = λ s h. h }

  pub Keeps-gets : {A : Type 0} (f : S → A) → Keeps {E = E} P (gets f)
  unfolding gets
  Keeps-gets f = record { at = λ s h. h }

  pub Keeps-need : {A : Type 0} (e : E) (o : Option A) → Keeps P (need e o)
  unfolding need
  Keeps-need e none = record { at = λ s h. tt }
  Keeps-need e (some a) = record { at = λ s h. h }

module _ {S E : Type 0} {P Q : S → Type 0} where
  pub Leads-raise : {A : Type 0} (e : E) → Leads {A = A} P Q (raise e)
  unfolding raise
  Leads-raise e = record { at = λ s h. tt }

  pub Leads-update : (f : S → S) → ((s : S) → P s → Q (f s)) → Leads {E = E} P Q (update f)
  unfolding update
  Leads-update f k = record { at = k }

  pub Leads-if :
      {A : Type 0} (b : Bool) {m k : Program S E A}
      → Leads P Q m
      → Leads P Q k
      → Leads P Q (if b then m else k)
  Leads-if true g h = g
  Leads-if false g h = h

continue-After :
    {S E A B : Type 0} (P Q : S → Type 0) (f : A → Program S E B) (r : Result E A × S)
    → ((a : A) → Leads P Q (f a))
    → After P r
    → After Q (continue f r.0 r.1)
unfolding continue
continue-After P Q f (ok a, t) g h = (g a).at t h
continue-After P Q f (raised e, t) g h = tt

module _ {S E : Type 0} {P R Q : S → Type 0} where
  pub Leads-bind :
      {A B : Type 0} (m : Program S E A) (f : A → Program S E B)
      → Leads P R m
      → ((a : A) → Leads R Q (f a))
      → Leads P Q (m >>= f)
  unfolding ◌>>=◌
  Leads-bind m f g h = record { at = λ s p. continue-After R Q f (m s) h (g.at s p) }

  pub Leads-then :
      {B : Type 0} (m : Program S E (Unit {0})) (k : Program S E B)
      → Leads P R m
      → Leads R Q k
      → Leads P Q (m >> k)
  unfolding ◌>>◌
  Leads-then m k g h = Leads-bind m (λ _. k) g (λ _. h)

module _ {S E : Type 0} {P : S → Type 0} where
  pub Keeps-bind :
      {A B : Type 0} (m : Program S E A) (f : A → Program S E B)
      → Keeps P m
      → ((a : A) → Keeps P (f a))
      → Keeps P (m >>= f)
  Keeps-bind m f g h = Leads-bind m f g h

  pub Keeps-then :
      {B : Type 0} (m : Program S E (Unit {0})) (k : Program S E B)
      → Keeps P m
      → Keeps P k
      → Keeps P (m >> k)
  Keeps-then m k g h = Leads-then m k g h

  pub Keeps-each :
      {A : Type 0} (f : A → Program S E (Unit {0})) (xs : List A)
      → ((x : A) → Keeps P (f x))
      → Keeps P (each f xs)
  unfolding each
  Keeps-each f [] g = Keeps-pure tt
  Keeps-each f (x ∷ xs) g = Keeps-then _ _ (g x) (Keeps-each f xs g)

pub ruleset keeping =
    (Keeps-pure, Leads-raise, Keeps-gets, Keeps-need, Leads-if, Keeps-bind, Keeps-then)
