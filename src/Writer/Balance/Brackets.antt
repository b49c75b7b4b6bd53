-- ===== src/Writer/Balance/Brackets.antt =====
-- A visit that opens something, good children and a departure that closes it restore the frame.
use mathlib.Core.Path.{subst}
use pymotw.Prelude.{◌≡◌, refl, ◌∙◌, ap, Bool, true, false, List, [], ◌∷◌, if◌then◌else◌}
use pymotw.Writer.Node.{Node, kind, children}
use pymotw.Writer.State.{
  Env, Translator, Action, Method, Signal, ok, raised, skip_node, skip_children,
  pop_from_empty_list, raise, ◌>>=◌, ◌>>◌,
}
use pymotw.Writer.Dispatch.{visit, depart}
use pymotw.Writer.Walk.{walk_children, walk_step, after_visit}
use pymotw.Writer.Balance.Frame.{Frame, frame}
use pymotw.Writer.Balance.Rules.{
  Place, Start, Kept, Kept-refl, Kept-Start, Kept-trans, Settled, Settled-trans, Good, Good-then,
}
use pymotw.Writer.Balance.Moves.{At, At-Start, Moves, Moved, Settled-Moved, bind-Moved}

-- The place of a visit, and that of a departure.
abbrev pub visiting : Bool → Place
visiting held = record { held = held; tabled = false; skips = true }

abbrev pub walking : Bool → Place
walking held = record { held = held; tabled = false; skips = false }

-- What a visit leaves: some `x` with the frame `F x` of the one before, and a side condition.
module _ {X : Type 0} (P : X → Frame → Type 0) (F : X → Frame → Frame) where
  abbrev pub Entered : {A : Type 0} → Translator → Signal A × Translator → Type 0
  Entered s (ok _, t) = (x : X) × P x (frame s) × At (F x (frame s)) t
  Entered s (raised skip_node, t) = Kept s t
  Entered s (raised skip_children, t) = ⊥
  Entered s (raised pop_from_empty_list, t) = ⊥
  Entered s (raised _, t) = Unit

  pub record Enters (held : Bool) (m : Method) : Type 0 where
    pub at : (s : Translator) → Start (visiting held) s → Entered s (m s)

  Entered-trans :
      {A : Type 0} {s t : Translator} (r : Signal A × Translator)
      → Kept s t
      → Entered t r
      → Entered s r
  Entered-trans (ok a, u) k (x, c, h) =
      (x, subst (P x) k.same c, subst (λ f. At (F x f) u) k.same h)
  Entered-trans (raised skip_node, u) k h = Kept-trans k h
  Entered-trans (raised skip_children, u) k h = h
  Entered-trans (raised pop_from_empty_list, u) k h = h
  Entered-trans (raised _, u) k h = tt

  bind-Entered :
      {A : Type 0} {held : Bool} (f : A → Method) {s : Translator} (r : Signal A × Translator)
      → Start (visiting held) s
      → ((a : A) → Enters held (f a))
      → Settled (walking held) s r
      → Entered s (◌>>=◌ (λ t. r) f s)
  unfolding ◌>>=◌
  bind-Entered f (ok a, t) h g k = Entered-trans (f a t) k ((g a).at t (Kept-Start h k))
  bind-Entered f (raised skip_node, t) h g k = cc (k.0)
  bind-Entered f (raised skip_children, t) h g k = cc (k.0)
  bind-Entered f (raised pop_from_empty_list, t) h g k = k
  bind-Entered f (raised _, t) h g k = tt

  walks-Start : {held : Bool} {s : Translator} → Start (visiting held) s → Start (walking held) s
  walks-Start h = record {
    notes = h.notes;
    clear = h.clear;
    open_table = h.open_table;
    unmerged = h.unmerged;
  }

  pub Enters-bind :
      {A : Type 0} {held : Bool} (m : Action A) (f : A → Method)
      → Good (walking held) m
      → ((a : A) → Enters held (f a))
      → Enters held (m >>= f)
  unfolding ◌>>=◌
  Enters-bind m f g h = record { at = λ s st. bind-Entered f (m s) st h (g.at s (walks-Start st)) }

  pub Enters-then :
      {held : Bool} (m k : Method) → Good (walking held) m → Enters held k → Enters held (m >> k)
  unfolding ◌>>◌
  Enters-then m k g h = Enters-bind m (λ _. k) g (λ _. h)

  pub Enters-if :
      {held : Bool} (b : Bool) {m n : Method}
      → Enters held m
      → Enters held n
      → Enters held (if b then m else n)
  Enters-if true g h = g
  Enters-if false g h = h

  pub Enters-skip : {held : Bool} → Enters held (raise skip_node)
  unfolding raise
  Enters-skip = record { at = λ s h. Kept-refl s h.notes }

  pub Moved-Entered :
      (s : Translator) (x : X) (r : Signal (Unit {0}) × Translator)
      → P x (frame s)
      → Moved (F x (frame s)) r
      → Entered s r
  Moved-Entered s x (ok a, t) c h = (x, c, h)
  Moved-Entered s x (raised skip_node, t) c h = absurd h
  Moved-Entered s x (raised skip_children, t) c h = h
  Moved-Entered s x (raised pop_from_empty_list, t) c h = h
  Moved-Entered s x (raised _, t) c h = tt

  pub Enters-Moves :
      {held : Bool} {m : Method} (x : X)
      → ((s : Translator) → Start (visiting held) s → P x (frame s))
      → ((a : Frame) → Moves a (F x a) m)
      → Enters held m
  Enters-Moves {m} x c g = record {
    at = λ s h.
        Moved-Entered s x (m s) (c s h)
          ((g (frame s)).at s (record { same = refl; notes = h.notes; unmerged = h.unmerged }));
  }

module _ {X : Type 0} (P : X → Frame → Type 0) (F : X → Frame → Frame) where
  before-Entered :
      (s : Translator) (k : Method) (r : Signal (Unit {0}) × Translator)
      → Good (walking true) k
      → Entered P F s r
      → Entered P F s (◌>>=◌ (λ t. r) (λ _. k) s)
  unfolding ◌>>=◌
  before-Entered s k (ok o, t) g (x, c, h) =
      Moved-Entered P F s x (k t) c (Settled-Moved (k t) h (g.at t (At-Start h)))
  before-Entered s k (raised skip_node, t) g h = h
  before-Entered s k (raised skip_children, t) g h = h
  before-Entered s k (raised pop_from_empty_list, t) g h = h
  before-Entered s k (raised _, t) g h = tt

  -- What restores the frame may follow.
  pub Enters-before :
      {held : Bool} (m k : Method)
      → Enters P F held m
      → Good (walking true) k
      → Enters P F held (m >> k)
  unfolding ◌>>◌ ◌>>=◌
  Enters-before m k e g = record { at = λ s h. before-Entered s k (m s) g (e.at s h) }

pub Settled-Moved-At :
    (p : Place) {A : Type 0} {b : Frame} {s : Translator} (r : Signal A × Translator)
    → p.skips ≡ false
    → At b s
    → Settled p s r
    → Moved b r
Settled-Moved-At p (ok x, t) w h k = record {
  same = k.same ∙ h.same;
  notes = k.notes;
  unmerged = h.unmerged;
}
Settled-Moved-At p (raised skip_node, t) w h k = cc (w, k.0)
Settled-Moved-At p (raised skip_children, t) w h k = cc (w, k.0)
Settled-Moved-At p (raised pop_from_empty_list, t) w h k = k
Settled-Moved-At p (raised _, t) w h k = tt

-- A node's children stand below it: the context of `b` is empty unless something holds it.
abbrev pub Below : Bool → Frame → Type 0
Below held b = held ≡ false → b.context ≡ []

pub Below-Start :
    {held : Bool} {b : Frame} {s : Translator} → Below held b → At b s → Start (walking held) s
Below-Start w h = record {
  notes = h.notes;
  clear = λ e. ap (λ f. f.context) h.same ∙ w e;
  open_table = λ e. cc;
  unmerged = ap (λ f. f.in_merged_cell) h.same ∙ h.unmerged;
}

pub closed-Settled :
    (p : Place) (s : Translator) (r : Signal (Unit {0}) × Translator)
    → Moved (frame s) r
    → Settled p s r
closed-Settled p s (ok x, t) h = record { same = h.same; notes = h.notes }
closed-Settled p s (raised skip_node, t) h = absurd h
closed-Settled p s (raised skip_children, t) h = absurd h
closed-Settled p s (raised pop_from_empty_list, t) h = h
closed-Settled p s (raised _, t) h = tt

pub may_skip : {held : Bool} {s : Translator} → Start (walking held) s → Start (visiting held) s
may_skip h = record {
  notes = h.notes;
  clear = h.clear;
  open_table = h.open_table;
  unmerged = h.unmerged;
}

-- Below a node that holds no context the places are alike.
Good-lower :
    {A : Type 0} {held below : Bool} {m : Action A}
    → (below ≡ false → held ≡ false)
    → Good (walking below) m
    → Good (walking held) m
Good-lower w g = record {
  at = λ s h. g.at s (record {
    notes = h.notes;
    clear = λ e. h.clear (w e);
    open_table = h.open_table;
    unmerged = h.unmerged;
  });
}

module _ (env : Env) (walk : List Node → Node → Method) (up : List Node) (n : Node) where
  abbrev pub kids : Method
  kids = walk_children env walk (n ∷ up) (children n)

  abbrev pub leave : Method
  leave = depart env (walk []) (kind n) up n

  abbrev pub enter : Method
  enter = visit env (walk []) (kind n) up n

  module _ {X : Type 0} (P : X → Frame → Type 0) (F : X → Frame → Frame) (held below : Bool) where
    Entered-Settled :
        {s : Translator} (r : Signal (Unit {0}) × Translator)
        → Start (walking held) s
        → ((x : X) (a : Frame) → P x a → Moves (F x a) a leave)
        → ((x : X) (a : Frame) → P x a → Below held a → Below below (F x a))
        → Good (walking below) kids
        → Entered P F s r
        → Settled (walking held) s (after_visit env walk up n r)
    unfolding ◌>>◌
    Entered-Settled {s} (ok o, t) h close deep good (x, c, e) = closed-Settled (walking held) s _ (
        bind-Moved (λ _. leave) (kids t) (λ _. close x (frame s) c)
          (Settled-Moved-At (walking below) (kids t) refl e
            (good.at t (Below-Start (deep x (frame s) c h.clear) e))))
    Entered-Settled (raised skip_node, t) h close deep good e = e
    Entered-Settled (raised skip_children, t) h close deep good e = absurd e
    Entered-Settled (raised pop_from_empty_list, t) h close deep good e = e
    Entered-Settled (raised _, t) h close deep good e = tt

    pub bracket :
        Enters P F held enter
        → ((x : X) (a : Frame) → P x a → Moves (F x a) a leave)
        → ((x : X) (a : Frame) → P x a → Below held a → Below below (F x a))
        → Good (walking below) kids
        → Good (walking held) (walk_step env walk up n)
    bracket opens close deep good = record {
      at = λ s h. Entered-Settled (enter s) h close deep good (opens.at s (may_skip h));
    }

  module _ (held below : Bool) where
    visited-Settled :
        {s : Translator} (r : Signal (Unit {0}) × Translator)
        → Start (walking held) s
        → Good (walking held) leave
        → (below ≡ false → held ≡ false)
        → Good (walking below) kids
        → Settled (visiting held) s r
        → Settled (walking held) s (after_visit env walk up n r)
    unfolding ◌>>◌
    visited-Settled {s} (ok o, t) h close deep good k =
        Settled-trans (walking held) ((kids >> leave) t) k
          ((Good-then _ _ (Good-lower deep good) close).at t (Kept-Start h k))
    visited-Settled (raised skip_node, t) h close deep good e = e.1
    visited-Settled (raised skip_children, t) h close deep good e =
        Settled-trans (walking held) (leave t) e.1 (close.at t (Kept-Start h e.1))
    visited-Settled (raised pop_from_empty_list, t) h close deep good e = e
    visited-Settled (raised _, t) h close deep good e = tt

    pub neutral :
        Good (visiting held) enter
        → Good (walking held) leave
        → (below ≡ false → held ≡ false)
        → Good (walking below) kids
        → Good (walking held) (walk_step env walk up n)
    neutral opens close deep good = record {
      at = λ s h. visited-Settled (enter s) h close deep good (opens.at s (may_skip h));
    }

-- What is good anywhere without skipping is good where it may skip.
pub Good-anywhere :
    {A : Type 0} {held : Bool} {m : Action A} → Good (walking true) m → Good (visiting held) m
Good-anywhere {A} {held} {m} g = record {
  at = λ s h. weaken s (m s) (
      g.at s
        (record { notes = h.notes; clear = λ e. cc; open_table = λ e. cc; unmerged = h.unmerged }));
}
  where
    weaken :
        (s : Translator) (r : Signal A × Translator)
        → Settled (walking true) s r
        → Settled (visiting held) s r
    weaken s (ok a, t) k = k
    weaken s (raised skip_node, t) k = (refl, k.1)
    weaken s (raised skip_children, t) k = (refl, k.1)
    weaken s (raised pop_from_empty_list, t) k = k
    weaken s (raised _, t) k = tt

-- What moves every frame to itself restores it.
pub Moves-Good : {A : Type 0} {p : Place} (m : Action A) → ((a : Frame) → Moves a a m) → Good p m
Moves-Good {A} {p} m g = record {
  at = λ s h.
      settle s (m s)
        ((g (frame s)).at s (record { same = refl; notes = h.notes; unmerged = h.unmerged }));
}
  where
    settle : (s : Translator) (r : Signal A × Translator) → Moved (frame s) r → Settled p s r
    settle s (ok x, t) h = record { same = h.same; notes = h.notes }
    settle s (raised skip_node, t) h = absurd h
    settle s (raised skip_children, t) h = absurd h
    settle s (raised pop_from_empty_list, t) h = h
    settle s (raised _, t) h = tt
