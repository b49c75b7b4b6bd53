-- ===== src/Writer/Balance/Groups.antt =====
-- The step at a table, and at the nodes below it that switch the list that is written to.
use pymotw.Prelude.{ℕ, String, ◌≡◌, ap, ◌∙◌, Bool, true, List, []}
use pymotw.Writer.Node.{Node, Nodes, Attrs, Kind, element}
use pymotw.Writer.State.{
  Env, Translator, Method, Signal, ok, raised, skip_node, skip_children, pop_from_empty_list, ◌>>◌,
  ◌>>=◌,
}
use pymotw.Writer.Dispatch.{visit, depart}
use pymotw.Writer.Walk.{walk_step, after_visit}
use pymotw.Writer.Balance.Frame.{frame, fits, flow}
use pymotw.Writer.Balance.Rules.{Good, Start, Settled}
use pymotw.Writer.Balance.Moves.{At, Moved, any_place}
use pymotw.Writer.Balance.Brackets.{
  Entered, walking, kids, enter, leave, Below-Start, may_skip, closed-Settled,
}
use pymotw.Writer.Balance.Tabular.{
  blur, Loose, LooselySettled, LooselySettled-trans, Loosely-Start, Loose-then,
}
use pymotw.Writer.Balance.Closing.{tabled, Untabled, Enters-visit_table, Moves-depart_table}

module _ (env : Env) (walk : List Node → Node → Method) (up : List Node) (n : Node)
    (held : Bool) where
  after-Loosely :
      {s : Translator} (r : Signal (Unit {0}) × Translator)
      → Start (walking held) s
      → Loose held (kids env walk up n)
      → Loose held (leave env walk up n)
      → LooselySettled s r
      → LooselySettled s (after_visit env walk up n r)
  after-Loosely (ok o, t) h below close k =
      LooselySettled-trans ((kids env walk up n >> leave env walk up n) t) k
        ((Loose-then _ _ below close).at t (Loosely-Start h k))
  after-Loosely (raised skip_node, t) h below close k = absurd k
  after-Loosely (raised skip_children, t) h below close k = absurd k
  after-Loosely (raised pop_from_empty_list, t) h below close k = k
  after-Loosely (raised _, t) h below close k = tt

  pub Loose-step :
      Loose held (enter env walk up n)
      → Loose held (kids env walk up n)
      → Loose held (leave env walk up n)
      → Loose held (walk_step env walk up n)
  Loose-step opens below close = record {
    at = λ s h. after-Loosely (enter env walk up n s) h below close (opens.at s h);
  }

module _ (env : Env) (walk : List Node → Node → Method) (up : List Node) (u : ℕ) (a : Attrs)
    (x : String) (c : Nodes) (held : Bool)
    (w : (m : Node) → fits true flow m ≡ true → Good any_place (walk [] m)) where
  abbrev here : Node
  here = element u Kind.table a x c

  left-Moved :
      (s : Translator) (b : ℕ × ℕ) (t : Translator) (r : Signal (Unit {0}) × Translator)
      → Untabled b (frame s)
      → At (tabled b (frame s)) t
      → LooselySettled t r
      → Moved (frame s) (◌>>=◌ (λ v. r) (λ _. leave env walk up here) t)
  unfolding ◌>>=◌ depart
  left-Moved s b t (ok o, v) c h k =
      Moves-depart_table env (walk []) here w b v c (k.same ∙ ap blur h.same) k.notes h.unmerged
  left-Moved s b t (raised skip_node, v) c h k = k
  left-Moved s b t (raised skip_children, v) c h k = k
  left-Moved s b t (raised pop_from_empty_list, v) c h k = k
  left-Moved s b t (raised _, v) c h k = tt

  Entered-table :
      {s : Translator} (r : Signal (Unit {0}) × Translator)
      → Start (walking held) s
      → Loose held (kids env walk up here)
      → Entered Untabled tabled s r
      → Settled (walking held) s (after_visit env walk up here r)
  unfolding ◌>>◌
  Entered-table {s} (ok o, t) h below (b, k, e) =
      closed-Settled (walking held) s _ (
        left-Moved s b t (kids env walk up here t) k e
          (below.at t (Below-Start (λ q. h.clear q) e)))
  Entered-table (raised skip_node, t) h below e = e
  Entered-table (raised skip_children, t) h below e = absurd e
  Entered-table (raised pop_from_empty_list, t) h below e = e
  Entered-table (raised _, t) h below e = tt

  pub table-Good :
      Loose held (kids env walk up here) → Good (walking held) (walk_step env walk up here)
  unfolding visit
  table-Good below = record {
    at = λ s h.
        Entered-table (enter env walk up here s) h below
          ((Enters-visit_table here).at s (may_skip h));
  }
