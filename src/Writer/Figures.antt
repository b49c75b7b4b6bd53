-- ===== src/Writer/Figures.antt =====
-- Figures and targets of source/_exts/pearson/writer.py, and in its children the images, the index and the code blocks.
mod Images
mod Index
mod Code
unfoldable pub use Images.*
unfoldable pub use Index.*
unfoldable pub use Code.*
use pymotw.Prelude.{
  ◌⊎◌, ℕ, zero, suc, ◌+◌, String, ◌<>◌, Bool, true, false, Option, none, some, List, [], ◌∷◌, ◌++◌,
  map, not, ◌&&◌, ◌||◌, ◌==◌, ◌=ˢ◌, inl, inr, inc, dec, truthy, if◌then◌else◌, or_default, is_some,
  join, nonempty, contains, add_all, sorted, starts_with, has_sub, replace, split, code, reverse,
  get_elem?, head?, first?, leb, ltb,
}
use pymotw.Writer.Node.{Node, Kind, IndexEntry, kind, attrs, uid, children, to_list, index_of}
use pymotw.Writer.State.{
  Env, Method, Action, text, pure, raise, need, gets, update, emit, emit_all, alloc, push_context,
  curfile, warn, contents, Highlight, ◌>>=◌, ◌>>◌, skip_node, attribute_error, key_error,
  unsupported, list_index_out_of_range,
}
use pymotw.Writer.Text.{
  hypertarget, hypertargets, encode, push_hyperlink_ids, pop_hyperlink_ids, restrict_footnote,
  unrestrict_footnote,
}
use pymotw.Writer.Inline.{join_pieces}

unfoldable pub image_target : Env → List Node → Action String
image_target env [] = pure ""
image_target env (n ∷ ns) = elim (kind n) [
  | Kind.image ↦ first_target env (attrs n).ids
  | _ ↦ pure ""
]

unfoldable pub caption_label : Env → List Node → Action String
caption_label env [] = pure ""
caption_label env (n ∷ ns) =
    let rest = caption_label env ns in
    elim (kind n) [
      | Kind.caption ↦ hypertarget env false false ("figure:" <> env.astext n)
      | _ ↦ rest
    ]

-- The labels of a figure, all those that refer to it.
unfoldable pub figure_labels : Env → Node → Action String
figure_labels env node = do
  a ← uri_target env (attrs node).refuri
  ids ← pop_hyperlink_ids "figure"
  b ← hypertargets env (sorted ids)
  c ← first_target env (attrs node).ids
  d ← image_target env (to_list (children node))
  e ← caption_label env (to_list (children node))
  pure (a <> (b <> (c <> (d <> e))))

unfoldable pub visit_figure : Env → Node → Method
visit_figure env node = do
  ids ← figure_labels env node
  restrict_footnote node
  emit "\\begin{figure}[tb]\\begin{center}"
  if nonempty ids then push_context (text ids) else pure tt
  push_context (text "\\end{center}\\end{figure}\n")

-- The whole context goes into the body, in its order, and is cleared.
unfoldable pub depart_figure : (Node → Method) → Node → Method
depart_figure walkabout node = do
  context ← gets (λ s. s.context)
  emit_all (reverse context)
  update (λ s. record s { context = [] })
  unrestrict_footnote walkabout node

unfoldable pub add_target : Env → String → Method
add_target env i =
    if starts_with "index-" i
    then pure tt
    else (do anchor ← gets (λ s. not s.in_title); t ← hypertarget env true anchor i; emit t)

unfoldable pub add_targets : Env → List String → Method
add_targets env [] = pure tt
add_targets env (i ∷ is) = do add_target env i; add_targets env is

-- The node behind a target: in its parent, and else, from the parent's parent, the parent itself.
unfoldable pub next_node : List Node → Node → Option Node
next_node [] node = none
next_node (parent ∷ up) node =
    elim (get_elem? (to_list (children parent)) (index_of (uid node) (children parent) + 1)) [
      | some n ↦ some n
      | none ↦ elim up [
        | [] ↦ none
        | grand ∷ _ ↦ get_elem? (to_list (children grand)) (index_of (uid parent) (children grand))
      ]
    ]

-- What a target's label is postponed to.
pub data Postponed : Type 0 where
  to_section : Postponed
  to_float : String → Postponed
  here : Postponed

unfoldable pub float_kind : Env → Node → Postponed
float_kind env n = elim (env.figtype n) [
  | none ↦ Postponed.here
  | some f ↦ if nonempty f && env.numfig_title n then Postponed.to_float f else Postponed.here
]

unfoldable pub postponed : Env → Option Node → Postponed
postponed env none = Postponed.here
postponed env (some n) = elim (kind n) [
  | Kind.section ↦ Postponed.to_section
  | _ ↦ float_kind env n
]

-- node.get('refid') in front of node['ids']
unfoldable pub target_ids : Node → List String
target_ids node =
    let refid = or_default "" (attrs node).refid in
    if nonempty refid then refid ∷ (attrs node).ids else (attrs node).ids

unfoldable pub place_target : Env → Node → Postponed → Method
place_target env node Postponed.to_section =
    update (λ s. record s { next_section_ids = add_all (target_ids node) s.next_section_ids })
place_target env node (Postponed.to_float figtype) =
    push_hyperlink_ids figtype (add_all (target_ids node) [])
place_target env node Postponed.here =
    let refid = or_default "" (attrs node).refid in
    if is_some (attrs node).refuri then pure tt else (do
      if nonempty refid then add_targets env (refid ∷ []) else pure tt
      add_targets env (sorted (attrs node).ids))

unfoldable pub visit_target : Env → List Node → Node → Method
visit_target env [] node = raise attribute_error
visit_target env (p ∷ up) node = place_target env node (postponed env (next_node (p ∷ up) node))
