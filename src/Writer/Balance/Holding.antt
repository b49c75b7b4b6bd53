-- ===== src/Writer/Balance/Holding.antt =====
-- The nodes that hold a piece of the context for their children.
use pymotw.Prelude.{String, Bool, true, false, List, [], ◌∷◌, Option, none, some}
use pymotw.Writer.Node.{Node, Kind}
use pymotw.Writer.State.{Env, Method, Piece, push_context}
use pymotw.Writer.Inline.{
  external_reference, close_reference, local_reference, document_reference, visit_reference,
  explain, visit_abbreviation, inline_classes, visit_inline,
}
use pymotw.Writer.Titles.{document_title, warn_no_text, visit_subtitle, visit_rubric}
use pymotw.Writer.Tables.{visit_entry, open_entry}
use pymotw.Writer.Desc.{visit_option_group}
use pymotw.Writer.Balance.Frame.{Frame}
use pymotw.Writer.Balance.Rules.{Place, Good}
use pymotw.Writer.Balance.Moves.{holding, Moves-push}
use pymotw.Writer.Balance.Brackets.{
  Enters, Enters-bind, Enters-then, Enters-if, Enters-skip, Enters-Moves, Enters-before, walking,
}
use pymotw.Writer.Balance.Parts.{part_rules}

-- No condition on the frame.
abbrev pub Always : Piece → Frame → Type 0
Always x a = Unit

abbrev pub Holds : Bool → Method → Type 0
Holds held m = Enters Always holding held m

module _ {held : Bool} where
  pub Holds-push : (x : Piece) → Holds held (push_context x)
  Holds-push x = Enters-Moves Always holding x (λ s h. tt) (λ a. Moves-push x)

pub ruleset opening =
    (Enters-bind, Enters-then, Enters-if, Enters-skip, Enters-before, Holds-push, part_rules)

module _ {p : Place} where
  pub Good-warn_no_text : (ns : List Node) → Good p (warn_no_text ns)
  unfolding warn_no_text
  Good-warn_no_text [] = search part_rules
  Good-warn_no_text (c ∷ []) = search part_rules
  Good-warn_no_text (c ∷ d ∷ ds) = search part_rules

  Good-open_entry : (env : Env) (b : Bool) (node : Node) → Good p (open_entry env b node)
  unfolding open_entry
  Good-open_entry env b node = search part_rules depth 30

module _ {held : Bool} where
  pub Holds-external_reference :
      (env : Env) (x : String) (node : Node) → Holds held (external_reference env x node)
  unfolding external_reference
  Holds-external_reference env x node = search (opening) depth 30

  pub Holds-close_reference : (env : Env) (x : String) → Holds held (close_reference env x)
  unfolding close_reference
  Holds-close_reference env x = search (opening) depth 30

  pub Holds-local_reference : (env : Env) (x : String) → Holds held (local_reference env x)
  unfolding local_reference
  Holds-local_reference env x = search (opening, Holds-close_reference) depth 30

  pub Holds-document_reference :
      (env : Env) (x : String) (node : Node) → Holds held (document_reference env x node)
  unfolding document_reference
  Holds-document_reference env x node = search (opening, Holds-close_reference) depth 30

  pub Holds-visit_reference : (env : Env) (node : Node) → Holds held (visit_reference env node)
  unfolding visit_reference
  Holds-visit_reference env node =
      search (opening, Holds-external_reference, Holds-local_reference, Holds-document_reference)
        depth 30

  pub Holds-explain :
      (env : Env) (x : String) (o : Option String) (b : Bool) → Holds held (explain env x o b)
  unfolding explain
  Holds-explain env x none false = search (opening) depth 30
  Holds-explain env x none true = search (opening) depth 30
  Holds-explain env x (some e) true = search (opening) depth 30
  Holds-explain env x (some e) false = search (opening) depth 30

  pub Holds-visit_abbreviation :
      (env : Env) (node : Node) → Holds held (visit_abbreviation env node)
  unfolding visit_abbreviation
  Holds-visit_abbreviation env node = search (opening, Holds-explain) depth 30

  pub Holds-inline_classes : (xs : List String) (b : Bool) → Holds held (inline_classes xs b)
  unfolding inline_classes
  Holds-inline_classes [] b = search (opening) depth 30
  Holds-inline_classes (x ∷ []) b = search (opening) depth 30
  Holds-inline_classes (x ∷ y ∷ xs) b = search (opening) depth 30

  pub Holds-visit_inline : (node : Node) → Holds held (visit_inline node)
  unfolding visit_inline
  Holds-visit_inline node = search (opening, Holds-inline_classes) depth 30

  pub Holds-visit_subtitle :
      (parent : Option Kind) (node : Node) → Holds held (visit_subtitle parent node)
  unfolding visit_subtitle
  Holds-visit_subtitle parent node = search (opening) depth 30

  pub Holds-visit_rubric : (env : Env) (node : Node) → Holds held (visit_rubric env node)
  unfolding visit_rubric
  Holds-visit_rubric env node = search (opening) depth 30

  pub Holds-visit_option_group : (node : Node) → Holds held (visit_option_group node)
  unfolding visit_option_group
  Holds-visit_option_group node = search (opening) depth 30

  pub Holds-visit_entry :
      (env : Env) (up : Option Node) (node : Node) → Holds held (visit_entry env up node)
  unfolding visit_entry
  Holds-visit_entry env up node = search (opening, Good-open_entry) depth 30

  pub Holds-document_title : (env : Env) (node : Node) → Holds held (document_title env node)
  unfolding document_title
  Holds-document_title env node = search (opening, Good-warn_no_text) depth 30
