-- ===== src/Writer/Balance/Opened.antt =====
-- The nodes that open something in their visit and close it in their departure.
use pymotw.Prelude.{
  String, ◌≡◌, refl, sym, ◌∙◌, ap, nonempty, Bool, true, false, List, [], ◌∷◌, Option, none, some,
  if◌then◌else◌,
}
use pymotw.Writer.Node.{Node, kind, Kind, attrs}
use pymotw.Writer.State.{
  Env, Action, Method, Piece, emit_context, gets, pure, push_context, ◌>>◌, ◌>>=◌,
}
use pymotw.Writer.Titles.{depart_rubric}
use pymotw.Writer.Desc.{depart_option_group}
use pymotw.Writer.Tables.{depart_entry, merged_cell}
use pymotw.Writer.Figures.{
  image_target, caption_label, figure_labels, first_target, visit_figure, depart_figure,
  visit_container, depart_container,
}
use pymotw.Writer.Balance.Frame.{Frame, fits, flow}
use pymotw.Writer.Balance.Rules.{Place, Good, rules}
use pymotw.Writer.Balance.Texts.{Good-unrestrict_footnote}
use pymotw.Writer.Balance.Parts.{part_rules}
use pymotw.Writer.Balance.Moves.{
  any_place, Moves, Moves-bind, Moves-then, Good-Moves, Moves-count, Moves-undo, Moves-pop,
  Moves-push, Moves-update, holding, Moves-emit_context,
}
use pymotw.Writer.Balance.Brackets.{Enters, Enters-bind, Enters-then, Enters-Moves}
use pymotw.Writer.Balance.Counts.{more_blocks, less_blocks, less-more_blocks}

pub Moves-depart_rubric :
    {a : Frame} (x : Piece) (n : Node) → Moves (holding x a) a (depart_rubric n)
unfolding depart_rubric
Moves-depart_rubric x n = Moves-then _ _ (Good-Moves _ (search rules)) (Moves-emit_context x)

pub Moves-depart_option_group :
    {a : Frame} (x : Piece) (n : Node) → Moves (holding x a) a (depart_option_group n)
unfolding depart_option_group
Moves-depart_option_group x n = Moves-bind _ _ (Moves-pop x) (λ q. Good-Moves _ (search rules))

Moves-unless :
    {a c : Frame} (b : Bool) (m k : Method)
    → b ≡ false
    → Moves a c k
    → Moves a c ((if b then m else pure tt) >> k)
Moves-unless b m k e h = rw e (Moves-then _ _ (Good-Moves _ (search rules)) h)

-- No cell is merged where the frame says so.
pub Moves-depart_entry : {a : Frame} (x : Piece) → Moves (holding x a) a depart_entry
unfolding depart_entry gets ◌>>=◌
Moves-depart_entry {a} x = record {
  at = λ s h.
      (Moves-unless s.in_merged_cell merged_cell emit_context
          (ap (λ f. f.in_merged_cell) h.same ∙ h.unmerged) (Moves-emit_context x)).at
        s h;
}

pub Moves-visit_container :
    {a : Frame} (env : Env) (n : Node)
    → (attrs n).literal_block ≡ true
    → Moves a (more_blocks a) (visit_container env n)
unfolding visit_container
Moves-visit_container env n e = rw e (
    Moves-then _ _ (Moves-count more_blocks _ (λ s. refl) (λ s m. m) refl)
      (Good-Moves _ (search part_rules depth 30)))

pub Moves-depart_container :
    {a : Frame} (n : Node)
    → (attrs n).literal_block ≡ true
    → Moves (more_blocks a) a (depart_container n)
unfolding depart_container
Moves-depart_container n e = rw e (
    Moves-then _ _
      (Moves-undo more_blocks less_blocks _ (λ s. refl) (λ s m. m) (less-more_blocks _) refl)
      (Good-Moves _ (search rules)))

pub Moves-container :
    {a : Frame} (env : Env) (n : Node)
    → (attrs n).literal_block ≡ false
    → Moves a a (visit_container env n)
unfolding visit_container
Moves-container env n e = rw e (Good-Moves _ (search rules))

pub Moves-plain_container :
    {a : Frame} (n : Node) → (attrs n).literal_block ≡ false → Moves a a (depart_container n)
unfolding depart_container
Moves-plain_container n e = rw e (Good-Moves _ (search rules))

-- What a figure leaves for its children: the piece that closes it, over that of its labels.
abbrev pub figured : Option Piece × Piece → Frame → Frame
figured (none, y) a = holding y a
figured (some x, y) a = holding y (holding x a)

abbrev pub Bare : Option Piece × Piece → Frame → Type 0
Bare p a = a.context ≡ []

abbrev set_context : Frame → List Piece → Frame
set_context a c = record a { context = c }

abbrev cleared : Frame → Frame
cleared a = set_context a []

cleared-figured :
    (a : Frame) (p : Option Piece × Piece) → a.context ≡ [] → cleared (figured p a) ≡ a
cleared-figured a (none, y) c = ap (set_context a) (sym c)
cleared-figured a (some x, y) c = ap (set_context a) (sym c)

figured-merged :
    (a : Frame) (p : Option Piece × Piece) → a.in_merged_cell ≡ (figured p a).in_merged_cell
figured-merged a (none, y) = refl
figured-merged a (some x, y) = refl

pub Moves-depart_figure :
    {a : Frame} (p : Option Piece × Piece) (walk : Node → Method) (n : Node)
    → ((m : Node) → fits true flow m ≡ true → Good any_place (walk m))
    → a.context ≡ []
    → Moves (figured p a) a (depart_figure walk n)
unfolding depart_figure
Moves-depart_figure {a} p walk n w c = Moves-bind _ _ (Good-Moves _ (search rules)) (λ l.
    Moves-then _ _ (Good-Moves _ (search rules)) (
      Moves-then _ _
        (Moves-update a _ (λ s h. ap cleared h ∙ cleared-figured a p c) (λ s m. m)
          (figured-merged a p))
        (Good-Moves _ (Good-unrestrict_footnote walk w n))))

module _ {p : Place} where
  Good-image_target_of :
      (env : Env) (n : Node) (k : Kind)
      → Good p {A = String} (elim k [ Kind.image ↦ first_target env (attrs n).ids | _ ↦ pure "" ])
  Good-image_target_of env n Kind.image = search part_rules
  Good-image_target_of env n _ = search part_rules

  Good-image_target : (env : Env) (ns : List Node) → Good p (image_target env ns)
  unfolding image_target
  Good-image_target env [] = search rules
  Good-image_target env (n ∷ ns) = Good-image_target_of env n (kind n)

  Good-caption_label_of :
      (x : Action String) (m : Action String) (k : Kind)
      → Good p x
      → Good p m
      → Good p {A = String} (elim k [ Kind.caption ↦ x | _ ↦ m ])
  Good-caption_label_of x m Kind.caption g h = g
  Good-caption_label_of x m _ g h = h

  Good-caption_label : (env : Env) (ns : List Node) → Good p (caption_label env ns)
  unfolding caption_label
  Good-caption_label env [] = search rules
  Good-caption_label env (n ∷ ns) =
      Good-caption_label_of _ _ (kind n) (search part_rules) (Good-caption_label env ns)

  Good-figure_labels : (env : Env) (n : Node) → Good p (figure_labels env n)
  unfolding figure_labels
  Good-figure_labels env n = search (part_rules, Good-image_target, Good-caption_label) depth 30

Enters-open_figure :
    {held : Bool} (b : Bool) (x y : Piece)
    → held ≡ false
    → Enters Bare figured held ((if b then push_context x else pure tt) >> push_context y)
Enters-open_figure true x y e =
    Enters-Moves Bare figured (some x, y) (λ s h. h.clear e)
      (λ a. Moves-then _ _ (Moves-push x) (Moves-push y))
Enters-open_figure false x y e =
    Enters-Moves Bare figured (none, y) (λ s h. h.clear e)
      (λ a. Moves-then _ _ (Good-Moves _ (search rules)) (Moves-push y))

pub Enters-visit_figure :
    {held : Bool} (env : Env) (n : Node)
    → held ≡ false
    → Enters Bare figured held (visit_figure env n)
unfolding visit_figure
Enters-visit_figure env n e = Enters-bind _ _ _ _ (Good-figure_labels env n) (λ ids.
    Enters-then _ _ _ _ (search part_rules depth 30)
      (Enters-then _ _ _ _ (search rules) (Enters-open_figure (nonempty ids) _ _ e)))
