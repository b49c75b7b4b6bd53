-- ===== src/Writer/Balance/Terms.antt =====
-- Terms: a visit that raises a counter, then writes, then pushes, and never skips.
use pymotw.Prelude.{◌≡◌, refl, Bool, true, inc}
use pymotw.Writer.Node.{Node}
use pymotw.Writer.State.{
  Env, Translator, Action, Method, Signal, Piece, ok, raised, skip_node, skip_children,
  pop_from_empty_list, push_context, ◌>>=◌, ◌>>◌,
}
use pymotw.Writer.Lists.{open_term, visit_term, depart_term}
use pymotw.Writer.Balance.Frame.{Frame, frame, fits, flow}
use pymotw.Writer.Balance.Rules.{Good}
use pymotw.Writer.Balance.Texts.{text_rules, Good-unrestrict_footnote}
use pymotw.Writer.Balance.Blocks.{Good-term_target}
use pymotw.Writer.Balance.Moves.{
  At, Moved, Moves, Good-Moves, Moves-then, Moves-count, Moves-undo, Moves-push, Moves-emit_context,
  holding, any_place,
}
use pymotw.Writer.Balance.Counts.{more_terms, less_terms, less-more_terms}
use pymotw.Writer.Balance.Brackets.{Enters, Entered}
use pymotw.Writer.Balance.Holding.{Always}

abbrev pub Pushed : {A : Type 0} → Frame → Signal A × Translator → Type 0
Pushed a (ok _, t) = (x : Piece) × At (holding x a) t
Pushed a (raised skip_node, t) = ⊥
Pushed a (raised skip_children, t) = ⊥
Pushed a (raised pop_from_empty_list, t) = ⊥
Pushed a (raised _, t) = Unit

pub record Pushes (a : Frame) (m : Method) : Type 0 where
  pub at : (s : Translator) → At a s → Pushed a (m s)

pub Pushed-bind :
    {A : Type 0} {b : Frame} (f : A → Method) (r : Signal A × Translator)
    → ((v : A) → Pushes b (f v))
    → Moved b r
    → Pushed b (◌>>=◌ (λ t. r) f (r.1))
unfolding ◌>>=◌
Pushed-bind f (ok v, t) g h = (g v).at t h
Pushed-bind f (raised skip_node, t) g h = h
Pushed-bind f (raised skip_children, t) g h = h
Pushed-bind f (raised pop_from_empty_list, t) g h = h
Pushed-bind f (raised _, t) g h = tt

pub Pushes-bind :
    {A : Type 0} {a : Frame} (m : Action A) (f : A → Method)
    → Good any_place m
    → ((v : A) → Pushes a (f v))
    → Pushes a (m >>= f)
unfolding ◌>>=◌
Pushes-bind m f g h = record { at = λ s k. Pushed-bind f (m s) h ((Good-Moves m g).at s k) }

pub Pushes-then : {a : Frame} (m k : Method) → Good any_place m → Pushes a k → Pushes a (m >> k)
unfolding ◌>>◌
Pushes-then m k g h = Pushes-bind m (λ _. k) g (λ _. h)

pub Pushes-push : {a : Frame} (x : Piece) → Pushes a (push_context x)
unfolding push_context
Pushes-push x = record { at = λ s h. (x, (Moves-push x).at s h) }

Entered-Pushed :
    (s : Translator) (r : Signal (Unit {0}) × Translator)
    → Pushed (more_terms (frame s)) r
    → Entered Always (λ x b. holding x (more_terms b)) s r
Entered-Pushed s (ok o, t) (x, h) = (x, tt, h)
Entered-Pushed s (raised skip_node, t) h = absurd h
Entered-Pushed s (raised skip_children, t) h = h
Entered-Pushed s (raised pop_from_empty_list, t) h = h
Entered-Pushed s (raised _, t) h = tt

abbrev pub term_frame : Piece → Frame → Frame
term_frame x a = holding x (more_terms a)

Pushes-open_term : {a : Frame} (env : Env) (n : Node) → Pushes a (open_term env n)
unfolding open_term
Pushes-open_term env n =
    Pushes-bind _ _ (search (text_rules, Good-term_target)) (λ t.
      Pushes-then _ _ (search text_rules) (Pushes-then _ _ (search text_rules) (Pushes-push _)))

pub Enters-visit_term :
    {held : Bool} (env : Env) (n : Node) → Enters Always term_frame held (visit_term env n)
unfolding visit_term ◌>>◌ ◌>>=◌
Enters-visit_term env n = record {
  at = λ s h. Entered-Pushed s _ (
      Pushed-bind (λ _. open_term env n) _ (λ u. Pushes-open_term env n)
        ((Moves-count more_terms (λ t. record t { in_term = inc t.in_term }) (λ t. refl) (λ t m. m)
            refl).at
          s (record { same = refl; notes = h.notes; unmerged = h.unmerged })));
}

pub Moves-depart_term :
    {a : Frame} (x : Piece) (walk : Node → Method) (n : Node)
    → ((m : Node) → fits true flow m ≡ true → Good any_place (walk m))
    → Moves (term_frame x a) a (depart_term walk n)
unfolding depart_term
Moves-depart_term x walk n w = Moves-then _ _ (Moves-emit_context x) (
    Moves-then _ _ (Good-Moves _ (Good-unrestrict_footnote walk w n))
      (Moves-undo more_terms less_terms _ (λ s. refl) (λ s m. m) (less-more_terms _) refl))
