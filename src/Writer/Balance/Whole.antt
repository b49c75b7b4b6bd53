-- ===== src/Writer/Balance/Whole.antt =====
-- The walk over a whole tree, by induction on the calls that are left.
use mathlib.Core.Path.{subst}
use pymotw.Prelude.{
  ℕ, zero, suc, [], ◌≡◌, refl, Bool, true, false, List, ◌∷◌, some, ◌&&◌, ◌||◌, arith, Bool-cases,
  inl, inr,
}
use pymotw.Writer.Node.{Node, Nodes, Kind, nil, cons, element, kind, children}
use pymotw.Writer.State.{Env, Translator, Method, recursion_error}
use pymotw.Writer.Dispatch.{visit, depart, pass}
use pymotw.Writer.Titles.{is_table}
use pymotw.Writer.Walk.{walk_children, walk_step, IsWalker}
use pymotw.Writer.Balance.Frame.{
  fits, fits_all, allowed, holds_context, Spot, flow, under_table, under_group, spot_below,
  is_under_group,
}
use pymotw.Writer.Balance.Rules.{Good, Good-raise, Good-pure, Good-then, Start, Settled, rules}
use pymotw.Writer.Balance.Parts.{part_rules}
use pymotw.Writer.Balance.Brackets.{walking}
use pymotw.Writer.Balance.Tabular.{
  Loose, Loose-Good, Loose-then, Loose-visit_thead, Loose-visit_tbody,
}
use pymotw.Writer.Balance.Groups.{Loose-step, table-Good}
use pymotw.Writer.Balance.Kinds.{step-Good}

both : (a b : Bool) → (a && b) ≡ true → (a ≡ true) × (b ≡ true)
both a b h = ground arith

-- Where a node may switch the list that is written to.
is_loose : Spot → Kind → Bool
is_loose under_table Kind.tgroup = true
is_loose under_group Kind.thead = true
is_loose under_group Kind.tbody = true
is_loose _ _ = false

-- Every other node may stand anywhere.
fits-flow :
    (held : Bool) (spot : Spot) (n : Node)
    → is_loose spot (kind n) ≡ false
    → fits held spot n ≡ true
    → fits held flow n ≡ true
unfolding fits is_loose allowed spot_below is_under_group holds_context
fits-flow held flow (element u k a s c) e h = h
fits-flow held under_table (element u Kind.tgroup a s c) e h = cc
fits-flow held under_table (element u _ a s c) e h = h
fits-flow held under_group (element u Kind.thead a s c) e h = cc
fits-flow held under_group (element u Kind.tbody a s c) e h = cc
fits-flow held under_group (element u _ a s c) e h = h

fits-below :
    (held : Bool) (n : Node)
    → is_table (some (kind n)) ≡ false
    → fits held flow n ≡ true
    → fits_all (held || holds_context (kind n)) flow (children n) ≡ true
unfolding fits spot_below is_table
fits-below held (element u Kind.table a s c) e h = cc
fits-below held (element u _ a s c) e h = (both _ _ h).1

or_false : (b : Bool) → (b || false) ≡ b
or_false b = ground arith

module _ (env : Env) (walk : List Node → Node → Method) (up : List Node) (held : Bool) where
  pub children-Good :
      ((n : Node) → fits held flow n ≡ true → Good (walking held) (walk up n))
      → (ns : Nodes) → fits_all held flow ns ≡ true
      → Good (walking held) (walk_children env walk up ns)
  unfolding fits walk_children
  children-Good g nil h = Good-pure tt
  children-Good g (cons n ns) h =
      Good-then _ _ (g n (both _ _ h).0) (children-Good g ns (both _ _ h).1)

  children-Loose :
      (spot : Spot)
      → ((n : Node) → fits held spot n ≡ true → Loose held (walk up n))
      → (ns : Nodes) → fits_all held spot ns ≡ true
      → Loose held (walk_children env walk up ns)
  unfolding fits walk_children
  children-Loose spot g nil h = Loose-Good (Good-pure tt)
  children-Loose spot g (cons n ns) h =
      Loose-then _ _ (g n (both _ _ h).0) (children-Loose spot g ns (both _ _ h).1)

module _ (env : Env) (walk : List Node → Node → Method) (up : List Node) (held : Bool)
    (good : (up : List Node) (held : Bool) (n : Node)
      → fits held flow n ≡ true
      → Good (walking held) (walk up n))
    (loose : (up : List Node) (held : Bool) (spot : Spot) (n : Node)
      → fits held spot n ≡ true
      → Loose held (walk up n)) where
  -- The step where the frame is kept exactly.
  flow-step : (n : Node) → fits held flow n ≡ true → Good (walking held) (walk_step env walk up n)
  unfolding fits spot_below holds_context is_table
  flow-step (element u Kind.table a s c) h =
      table-Good env walk up u a s c held (λ m f. good [] true m f)
        (children-Loose env walk (element u Kind.table a s c ∷ up) held under_table
          (λ m f. loose _ held under_table m f) c
          (subst (λ b. fits_all b under_table c ≡ true) (or_false held) (both _ _ h).1))
  flow-step (element u k a s c) h =
      step-Good env walk up held (λ m f. good [] true m f) (element u k a s c) refl h
        (children-Good env walk (element u k a s c ∷ up) (held || holds_context k)
          (λ m f. good _ _ m f) c (fits-below held (element u k a s c) refl h))

  -- The step where it is kept up to the list that is written to.
  Loose-step-of :
      (spot : Spot) (n : Node)
      → is_loose spot (kind n) ≡ true
      → fits held spot n ≡ true
      → Loose held (walk_step env walk up n)
  unfolding is_loose fits spot_below holds_context visit depart pass
  Loose-step-of under_table (element u Kind.tgroup a s c) e h =
      Loose-step env walk up (element u Kind.tgroup a s c) held (Loose-Good (search rules))
        (children-Loose env walk (element u Kind.tgroup a s c ∷ up) held under_group
          (λ m f. loose _ held under_group m f) c
          (subst (λ b. fits_all b under_group c ≡ true) (or_false held) (both _ _ h).1))
        (Loose-Good (search rules))
  Loose-step-of under_group (element u Kind.thead a s c) e h =
      Loose-step env walk up (element u Kind.thead a s c) held Loose-visit_thead
        (Loose-Good (
          children-Good env walk (element u Kind.thead a s c ∷ up) held (λ m f. good _ held m f) c
            (subst (λ b. fits_all b flow c ≡ true) (or_false held) (both _ _ h).1)))
        (Loose-Good (search rules))
  Loose-step-of under_group (element u Kind.tbody a s c) e h =
      Loose-step env walk up (element u Kind.tbody a s c) held Loose-visit_tbody
        (Loose-Good (
          children-Good env walk (element u Kind.tbody a s c ∷ up) held (λ m f. good _ held m f) c
            (subst (λ b. fits_all b flow c ≡ true) (or_false held) (both _ _ h).1)))
        (Loose-Good (search part_rules))
  Loose-step-of flow (element u k a s c) e h = cc
  Loose-step-of under_table (element u _ a s c) e h = cc
  Loose-step-of under_group (element u _ a s c) e h = cc

module _ (env : Env) (walkabout : ℕ → List Node → Node → Method) (w : IsWalker env walkabout) where
  mutual
    pub walkabout-Good :
        (limit : ℕ) (up : List Node) (held : Bool) (n : Node)
        → fits held flow n ≡ true
        → Good (walking held) (walkabout limit up n)
    walkabout-Good zero up held n h = rw (w.at_limit up n) (Good-raise _ recursion_error refl)
    walkabout-Good (suc limit) up held n h =
        rw (w.step limit up n) (
          flow-step env (walkabout limit) up held (walkabout-Good limit) (walkabout-Loose limit) n
            h)

    walkabout-Loose :
        (limit : ℕ) (up : List Node) (held : Bool) (spot : Spot) (n : Node)
        → fits held spot n ≡ true
        → Loose held (walkabout limit up n)
    walkabout-Loose zero up held spot n h =
        rw (w.at_limit up n) (Loose-Good (Good-raise _ recursion_error refl))
    walkabout-Loose (suc limit) up held spot n h = elim (Bool-cases (is_loose spot (kind n))) [
      | inl e ↦ rw (w.step limit up n) (
          Loose-step-of env (walkabout limit) up held (walkabout-Good limit) (walkabout-Loose limit)
            spot n e h)
      | inr e ↦ rw (w.step limit up n) (
          Loose-Good (
            flow-step env (walkabout limit) up held (walkabout-Good limit) (walkabout-Loose limit) n
              (fits-flow held spot n e h)))
    ]

  -- For every function that walks as docutils does, and every tree that fits (`fits`: no document, the
  -- head and the body of a table in its group alone, and no figure below a node that holds context): from
  -- a state whose kept footnotes fit, with no merged cell, and with an empty context if nothing is held, a
  -- walk that returns leaves the frame as it was. The frame is the context up to its numbers, the stacks
  -- of bodies and of files, the current body, the counters (in_footnote, in_caption,
  -- in_container_literal_block, in_term, literal_whitespace, no_contractions and compact_list), whether a
  -- table is open, whether a cell is merged, and the heights of the stacks of footnotes and of
  -- highlighting settings. A walk that does not return raises no SkipNode, no SkipChildren, and no pop
  -- from an empty list.
  pub walkabout-Settled :
      (limit : ℕ) (up : List Node) (held : Bool) (n : Node) (s : Translator)
      → fits held flow n ≡ true
      → Start (walking held) s
      → Settled (walking held) s (walkabout limit up n s)
  walkabout-Settled limit up held n s h start = (walkabout-Good limit up held n h).at s start
