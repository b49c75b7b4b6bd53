-- ===== src/Writer/Balance/Tabular.antt =====
-- Tables: below a table the list that is written to moves between the lists of the table, and the
-- departure of the table switches back.
use pymotw.Prelude.{◌≡◌, refl, ◌∙◌, ap, Bool, true, false, if◌then◌else◌}
use pymotw.Writer.State.{
  Translator, Action, Method, Signal, ok, raised, skip_node, skip_children, pop_from_empty_list,
  update, pure, ◌>>◌, ◌>>=◌,
}
use pymotw.Writer.Tables.{visit_thead, visit_tbody}
use pymotw.Writer.Balance.Frame.{Frame, frame, NotesFit}
use pymotw.Writer.Balance.Rules.{Good, rules, Start, Kept, Settled}
use pymotw.Writer.Balance.Brackets.{walking}

-- A frame up to the list that is written to, and up to whether a table is open.
abbrev pub blur : Frame → Frame
blur f = record f { body = 0; in_table = true }

pub record Loosely (s t : Translator) : Type 0 where
  pub same : blur (frame t) ≡ blur (frame s)
  pub notes : NotesFit t

abbrev pub LooselySettled : {A : Type 0} → Translator → Signal A × Translator → Type 0
LooselySettled s (ok a, t) = Loosely s t
LooselySettled s (raised skip_node, t) = ⊥
LooselySettled s (raised skip_children, t) = ⊥
LooselySettled s (raised pop_from_empty_list, t) = ⊥
LooselySettled s (raised _, t) = Unit

-- What keeps the frame so far.
pub record Loose (held : Bool) {A : Type 0} (m : Action A) : Type 0 where
  pub at : (s : Translator) → Start (walking held) s → LooselySettled s (m s)

pub Loosely-Start :
    {held : Bool} {s t : Translator} → Start (walking held) s → Loosely s t → Start (walking held) t
Loosely-Start h k = record {
  notes = k.notes;
  clear = λ e. ap (λ f. f.context) k.same ∙ h.clear e;
  open_table = λ e. cc;
  unmerged = ap (λ f. f.in_merged_cell) k.same ∙ h.unmerged;
}

pub LooselySettled-trans :
    {A : Type 0} {s t : Translator} (r : Signal A × Translator)
    → Loosely s t
    → LooselySettled t r
    → LooselySettled s r
LooselySettled-trans (ok a, u) k h = record { same = h.same ∙ k.same; notes = h.notes }
LooselySettled-trans (raised skip_node, u) k h = h
LooselySettled-trans (raised skip_children, u) k h = h
LooselySettled-trans (raised pop_from_empty_list, u) k h = h
LooselySettled-trans (raised _, u) k h = tt

pub Kept-Loosely : {s t : Translator} → Kept s t → Loosely s t
Kept-Loosely k = record { same = ap blur k.same; notes = k.notes }

pub Settled-Loosely :
    {A : Type 0} (held : Bool) (s : Translator) (r : Signal A × Translator)
    → Settled (walking held) s r
    → LooselySettled s r
Settled-Loosely held s (ok a, t) k = Kept-Loosely k
Settled-Loosely held s (raised skip_node, t) k = cc (k.0)
Settled-Loosely held s (raised skip_children, t) k = cc (k.0)
Settled-Loosely held s (raised pop_from_empty_list, t) k = k
Settled-Loosely held s (raised _, t) k = tt

module _ {held : Bool} where
  pub Loose-Good : {A : Type 0} {m : Action A} → Good (walking held) m → Loose held m
  Loose-Good {A} {m} g = record { at = λ s h. Settled-Loosely held s (m s) (g.at s h) }

  bind-Loosely :
      {A B : Type 0} (f : A → Action B) {s : Translator} (r : Signal A × Translator)
      → Start (walking held) s
      → ((a : A) → Loose held (f a))
      → LooselySettled s r
      → LooselySettled s (◌>>=◌ (λ t. r) f s)
  unfolding ◌>>=◌
  bind-Loosely f (ok a, t) h g k = LooselySettled-trans (f a t) k ((g a).at t (Loosely-Start h k))
  bind-Loosely f (raised skip_node, t) h g k = k
  bind-Loosely f (raised skip_children, t) h g k = k
  bind-Loosely f (raised pop_from_empty_list, t) h g k = k
  bind-Loosely f (raised _, t) h g k = tt

  pub Loose-bind :
      {A B : Type 0} (m : Action A) (f : A → Action B)
      → Loose held m
      → ((a : A) → Loose held (f a))
      → Loose held (m >>= f)
  unfolding ◌>>=◌
  Loose-bind m f g h = record { at = λ s st. bind-Loosely f (m s) st h (g.at s st) }

  pub Loose-then :
      {B : Type 0} (m : Method) (k : Action B) → Loose held m → Loose held k → Loose held (m >> k)
  unfolding ◌>>◌
  Loose-then m k g h = Loose-bind m (λ _. k) g (λ _. h)

  Loose-update :
      (f : Translator → Translator)
      → ((s : Translator) → blur (frame (f s)) ≡ blur (frame s))
      → ((s : Translator) → NotesFit s → NotesFit (f s))
      → Loose held (update f)
  unfolding update
  Loose-update f e q = record { at = λ s h. record { same = e s; notes = q s h.notes } }

  pub Loose-visit_thead : Loose held visit_thead
  unfolding visit_thead
  Loose-visit_thead = Loose-bind _ _ (Loose-Good (search rules)) (λ table.
      Loose-bind _ _ (Loose-Good (search rules)) (λ t.
        Loose-bind _ _ (Loose-Good (search rules)) (λ spec.
          Loose-bind _ _ (Loose-Good (search rules)) (λ headers.
            Loose-bind _ _ (Loose-Good (search rules))
              (λ h. Loose-update _ (λ s. refl) (λ s n. n))))))

  Loose-unless : (b : Bool) (m : Method) → Loose held m → Loose held (if b then pure tt else m)
  Loose-unless true m h = Loose-Good (search rules)
  Loose-unless false m h = h

  pub Loose-visit_tbody : Loose held visit_tbody
  unfolding visit_tbody
  Loose-visit_tbody = Loose-bind _ _ (Loose-Good (search rules)) (λ table.
      Loose-bind _ _ (Loose-Good (search rules)) (λ t.
        Loose-then _ _ (Loose-unless t.had_head visit_thead Loose-visit_thead) (
          Loose-bind _ _ (Loose-Good (search rules)) (λ rows.
            Loose-bind _ _ (Loose-Good (search rules))
              (λ r. Loose-update _ (λ s. refl) (λ s n. n))))))
