-- ===== src/Writer/Balance/Moves.antt =====
-- Actions that change the frame in a known way, and the nodes that they bracket: what a visit opens,
-- the departure closes.

use pymotw.Prelude.{◌≡◌, refl, sym, ◌∙◌, ap, true, false, List, [], ◌∷◌}
use pymotw.Writer.State.{
  Translator, Action, Method, Signal, ok, raised, skip_node, skip_children, Piece,
  pop_from_empty_list, update, push_context, pop_context, take_context, emit_context, ◌>>=◌, ◌>>◌,
}
use pymotw.Writer.Balance.Frame.{Frame, frame, NotesFit, shape, shapes}
use pymotw.Writer.Balance.Rules.{Place, Start, Settled, Good, Good-emit_all}

-- Where the context is held and nothing may be skipped.
abbrev pub inside : Place → Place
inside p = record { held = true; tabled = false; skips = false }

-- The state of a frame, with what every action may assume.
pub record At (a : Frame) (s : Translator) : Type 0 where
  pub same : frame s ≡ a
  pub notes : NotesFit s
  pub unmerged : a.in_merged_cell ≡ false

abbrev pub Moved : {A : Type 0} → Frame → Signal A × Translator → Type 0
Moved b (ok _, t) = At b t
Moved b (raised skip_node, t) = ⊥
Moved b (raised skip_children, t) = ⊥
Moved b (raised pop_from_empty_list, t) = ⊥
Moved b (raised _, t) = Unit

pub record Moves (a b : Frame) {A : Type 0} (m : Action A) : Type 0 where
  pub at : (s : Translator) → At a s → Moved b (m s)

abbrev pub any_place : Place
any_place = record { held = true; tabled = false; skips = false }

pub At-Start : {a : Frame} {s : Translator} → At a s → Start any_place s
At-Start h = record {
  notes = h.notes;
  clear = λ e. cc;
  open_table = λ e. cc;
  unmerged = ap (λ f. f.in_merged_cell) h.same ∙ h.unmerged;
}

pub Settled-Moved :
    {A : Type 0} {a : Frame} {s : Translator} (r : Signal A × Translator)
    → At a s
    → Settled any_place s r
    → Moved a r
Settled-Moved (ok x, t) h k = record {
  same = k.same ∙ h.same;
  notes = k.notes;
  unmerged = h.unmerged;
}
Settled-Moved (raised skip_node, t) h k = cc (k.0)
Settled-Moved (raised skip_children, t) h k = cc (k.0)
Settled-Moved (raised pop_from_empty_list, t) h k = k
Settled-Moved (raised _, t) h k = tt

-- What restores the frame stays at it.
pub Good-Moves : {a : Frame} {A : Type 0} (m : Action A) → Good any_place m → Moves a a m
Good-Moves m g = record { at = λ s h. Settled-Moved (m s) h (g.at s (At-Start h)) }

pub bind-Moved :
    {A B : Type 0} {b c : Frame} (f : A → Action B) (r : Signal A × Translator)
    → ((x : A) → Moves b c (f x))
    → Moved b r
    → Moved c (◌>>=◌ (λ t. r) f (r.1))
unfolding ◌>>=◌
bind-Moved f (ok x, t) g h = (g x).at t h
bind-Moved f (raised skip_node, t) g h = h
bind-Moved f (raised skip_children, t) g h = h
bind-Moved f (raised pop_from_empty_list, t) g h = h
bind-Moved f (raised _, t) g h = tt

pub Moves-bind :
    {A B : Type 0} {a b c : Frame} (m : Action A) (f : A → Action B)
    → Moves a b m
    → ((x : A) → Moves b c (f x))
    → Moves a c (m >>= f)
unfolding ◌>>=◌
Moves-bind m f g h = record { at = λ s k. bind-Moved f (m s) h (g.at s k) }

pub Moves-then :
    {B : Type 0} {a b c : Frame} (m : Method) (k : Action B)
    → Moves a b m
    → Moves b c k
    → Moves a c (m >> k)
unfolding ◌>>◌
Moves-then m k g h = Moves-bind m (λ _. k) g (λ _. h)

pub Moves-update :
    {a : Frame} (b : Frame) (f : Translator → Translator)
    → ((s : Translator) → frame s ≡ a → frame (f s) ≡ b)
    → ((s : Translator) → NotesFit s → NotesFit (f s))
    → b.in_merged_cell ≡ a.in_merged_cell
    → Moves a b (update f)
unfolding update
Moves-update b f e q u = record {
  at = λ s h. record { same = e s h.same; notes = q s h.notes; unmerged = u ∙ h.unmerged };
}

abbrev pub holding : Piece → Frame → Frame
holding x a = record a { context = shape x ∷ a.context }

pub Moves-push : {a : Frame} (x : Piece) → Moves a (holding x a) (push_context x)
unfolding push_context
Moves-push {a} x = record {
  at = λ s h. record { same = ap (holding x) h.same; notes = h.notes; unmerged = h.unmerged };
}

abbrev tail_of : List Piece → List Piece
tail_of [] = []
tail_of (_ ∷ ys) = ys

abbrev without_top : Frame → Frame
without_top f = record f { context = tail_of f.context }

abbrev set_context : Frame → List Piece → Frame
set_context f c = record f { context = c }

take-Moved :
    {a : Frame} (x : Piece) (ps : List Piece) (s : Translator)
    → s.context ≡ ps
    → At (holding x a) s
    → Moved a (take_context ps s)
unfolding take_context
take-Moved x [] s e h = cc (ap shapes e, ap (λ f. f.context) h.same)
take-Moved x (q ∷ ps) s e h = record {
  same = ap (set_context (frame s)) (ap tail_of (sym (ap shapes e))) ∙ ap without_top h.same;
  notes = h.notes;
  unmerged = h.unmerged;
}

pub Moves-pop : {a : Frame} (x : Piece) → Moves (holding x a) a pop_context
unfolding pop_context
Moves-pop x = record { at = λ s h. take-Moved x s.context s refl h }

pub Moves-emit_context : {a : Frame} (x : Piece) → Moves (holding x a) a emit_context
unfolding emit_context
Moves-emit_context x = Moves-bind _ _ (Moves-pop x) (λ q. Good-Moves _ (Good-emit_all _))

-- A change of counters.
pub Moves-count :
    {a : Frame} (g : Frame → Frame) (f : Translator → Translator)
    → ((s : Translator) → frame (f s) ≡ g (frame s))
    → ((s : Translator) → NotesFit s → NotesFit (f s))
    → (g a).in_merged_cell ≡ a.in_merged_cell
    → Moves a (g a) (update f)
Moves-count {a} g f e q u = Moves-update (g a) f (λ s h. e s ∙ ap g h) q u

-- The change that takes another one back.
pub Moves-undo :
    {a : Frame} (g h : Frame → Frame) (f : Translator → Translator)
    → ((s : Translator) → frame (f s) ≡ h (frame s))
    → ((s : Translator) → NotesFit s → NotesFit (f s))
    → h (g a) ≡ a
    → (g a).in_merged_cell ≡ a.in_merged_cell
    → Moves (g a) a (update f)
Moves-undo {a} g h f e q back u = Moves-update a f (λ s k. e s ∙ ap h k ∙ back) q (sym u)
