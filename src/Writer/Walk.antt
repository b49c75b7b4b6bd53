-- ===== src/Writer/Walk.antt =====
-- How docutils walks a tree with the translator of source/_exts/pearson/writer.py. `walkabout` is not
-- under this repository: it is a parameter, with what docutils documents of it as `IsWalker`.
use pymotw.Prelude.{ℕ, suc, ◌≡◌, List, [], ◌∷◌}
use pymotw.Writer.Node.{Node, Nodes, nil, cons, kind, children}
use pymotw.Writer.State.{
  Env, Translator, Method, Signal, ok, raised, skip_node, skip_children, recursion_error, pure,
  raise, ◌>>◌,
}
use pymotw.Writer.Dispatch.{visit, depart}

module _ (env : Env) (walk : List Node → Node → Method) where
  unfoldable pub walk_children : List Node → Nodes → Method
  walk_children up nil = pure tt
  walk_children up (cons n ns) = walk up n >> walk_children up ns

  abbrev pub after_visit :
      List Node → Node → Signal (Unit {0}) × Translator → Signal (Unit {0}) × Translator
  after_visit up n (ok a, t) =
      (walk_children (n ∷ up) (children n) >> depart env (walk []) (kind n) up n) t
  after_visit up n (raised skip_node, t) = (ok tt, t)
  after_visit up n (raised skip_children, t) = depart env (walk []) (kind n) up n t
  after_visit up n (raised e, t) = (raised e, t)

  -- The visit, the children and the departure; SkipNode leaves out both of these, SkipChildren the
  -- children.
  abbrev pub walk_step : List Node → Node → Method
  walk_step up n s = after_visit up n (visit env (walk []) (kind n) up n s)

-- `node.walkabout(self)` with the calls that Python's recursion limit leaves.
pub record IsWalker (env : Env) (walkabout : ℕ → List Node → Node → Method) : Type 0 where
  pub at_limit : (up : List Node) (n : Node) → walkabout 0 up n ≡ raise recursion_error
  pub step :
      (limit : ℕ) (up : List Node) (n : Node)
      → walkabout (suc limit) up n ≡ walk_step env (walkabout limit) up n
