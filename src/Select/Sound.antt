-- ===== src/Select/Sound.antt =====
-- Programs of the poll server that raise no KeyError, and what holds when they return.
use mathlib.Core.Path.{subst}
use pymotw.Prelude.{◌≡◌, refl, sym, Bool, true, false, Option, some, none, if◌then◌else◌}
use pymotw.Prelude.Program.{Result, ok, raised, pure, gets, update, need, continue, ◌>>=◌, ◌>>◌}
use pymotw.Select.Server.{Error, os_error, value_error, key_error}
use pymotw.Select.Poll.{Poller, PollHandler}

abbrev pub Fine : {A : Type 0} → (A → Poller → Type 0) → Result Error A × Poller → Type 0
Fine Q (ok a, t) = Q a t
Fine Q (raised key_error, t) = ⊥
Fine Q (raised _, t) = Unit {0}

pub record Sound (P : Poller → Type 0) {A : Type 0} (Q : A → Poller → Type 0) (m : PollHandler A)
    : Type 0 where
  pub at : (st : Poller) → P st → Fine Q (m st)

-- The same holds before and behind it.
abbrev pub Steady : (Poller → Type 0) → {A : Type 0} → PollHandler A → Type 0
Steady P m = Sound P (λ a. P) m

continue-Fine :
    {A B : Type 0} (R : A → Poller → Type 0) (Q : B → Poller → Type 0) (f : A → PollHandler B)
    (r : Result Error A × Poller)
    → ((a : A) → Sound (R a) Q (f a))
    → Fine R r
    → Fine Q (continue f r.0 r.1)
unfolding continue
continue-Fine R Q f (ok a, t) g h = (g a).at t h
continue-Fine R Q f (raised key_error, t) g h = h
continue-Fine R Q f (raised os_error, t) g h = tt
continue-Fine R Q f (raised value_error, t) g h = tt

module _ {P : Poller → Type 0} where
  pub Sound-bind :
      {A B : Type 0} {Q : B → Poller → Type 0} (R : A → Poller → Type 0) (m : PollHandler A)
      (f : A → PollHandler B)
      → Sound P R m
      → ((a : A) → Sound (R a) Q (f a))
      → Sound P Q (m >>= f)
  unfolding ◌>>=◌
  Sound-bind {A} {B} {Q} R m f g h = record { at = λ s p. continue-Fine R Q f (m s) h (g.at s p) }

  pub Sound-then :
      {B : Type 0} {Q : B → Poller → Type 0} (R : Poller → Type 0) (m : PollHandler (Unit {0}))
      (k : PollHandler B)
      → Sound P (λ a. R) m
      → Sound R Q k
      → Sound P Q (m >> k)
  unfolding ◌>>◌
  Sound-then R m k g h = Sound-bind (λ a. R) m (λ _. k) g (λ _. h)

  pub Sound-if :
      {A : Type 0} {Q : A → Poller → Type 0} (b : Bool) {m k : PollHandler A}
      → (b ≡ true → Sound P Q m)
      → (b ≡ false → Sound P Q k)
      → Sound P Q (if b then m else k)
  Sound-if true g h = g refl
  Sound-if false g h = h refl

  -- What holds behind it may be weakened.
  pub Sound-after :
      {A : Type 0} (R Q : A → Poller → Type 0) (m : PollHandler A)
      → ((a : A) (st : Poller) → R a st → Q a st)
      → Sound P R m
      → Sound P Q m
  Sound-after {A} R Q m g h = record { at = λ st p. after_lem (m st) (h.at st p) }
    where
      after_lem : (r : Result Error A × Poller) → Fine R r → Fine Q r
      after_lem (ok a, t) k = g a t k
      after_lem (raised key_error, t) k = k
      after_lem (raised os_error, t) k = tt
      after_lem (raised value_error, t) k = tt

  pub Sound-update :
      (Q : Poller → Type 0) (f : Poller → Poller)
      → ((s : Poller) → P s → Q (f s))
      → Sound P (λ a. Q) (update f)
  unfolding update
  Sound-update Q f k = record { at = k }

  pub Steady-pure : {A : Type 0} (a : A) → Steady P (pure a)
  unfolding pure
  Steady-pure a = record { at = λ s h. h }

  pub Steady-gets : {A : Type 0} (f : Poller → A) → Steady P (gets f)
  unfolding gets
  Steady-gets f = record { at = λ s h. h }

  pub Steady-need : {A : Type 0} (o : Option A) → Steady P (need os_error o)
  unfolding need
  Steady-need none = record { at = λ s h. tt }
  Steady-need (some a) = record { at = λ s h. h }

  -- A key of a dict that is there.
  pub Sound-key :
      {A : Type 0} (f : Poller → Option A)
      → ((st : Poller) → P st → (a : A) × (f st ≡ some a))
      → Sound P (λ a st. P st × (f st ≡ some a)) (gets f >>= need key_error)
  unfolding gets need ◌>>=◌ continue
  Sound-key {A} f g = record { at = λ st h. key_lem st h (g st h).0 (g st h).1 }
    where
      key_lem :
          (st : Poller)
          → P st
          → (a : A) → (f st ≡ some a)
          → Fine (λ a st. P st × (f st ≡ some a)) ((gets f >>= need key_error) st)
      key_lem st h a e =
          subst (λ o. Fine (λ a st. P st × (f st ≡ some a)) (need key_error o st)) (sym e) (h, e)
