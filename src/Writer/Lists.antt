-- ===== src/Writer/Lists.antt =====
-- Lists, terms, paragraphs and quotes of source/_exts/pearson/writer.py.
use pymotw.Prelude.{
  ℕ, ◌-◌, String, ◌<>◌, Bool, true, false, Option, none, some, List, [], ◌∷◌, map, not, ◌&&◌, ◌==◌,
  ltb, inc, dec, if◌then◌else◌, truthy, join, str, get_elem?, nonempty,
}
use pymotw.Writer.Node.{Node, Kind, kind, attrs, children, to_list, index_of, uid}
use pymotw.Writer.State.{
  Env, Method, Action, text, pure, raise, gets, update, emit, push_context, emit_context,
  problematic_table, ◌>>=◌, ◌>>◌, skip_node, attribute_error, list_index_out_of_range,
}
use pymotw.Writer.Text.{hypertarget, restrict_footnote, unrestrict_footnote}
use pymotw.Writer.Structure.{is_footnote}

-- this is a list in the source, but should be rendered as a comma-separated list here
unfoldable pub acks_text : Env → List Node → Action String
acks_text env [] = raise list_index_out_of_range
acks_text env (c ∷ cs) = pure (join ", " (map env.astext (to_list (children c))))

unfoldable pub visit_acks : Env → Node → Method
visit_acks env node = do
  emit "\n\n"
  names ← acks_text env (to_list (children node))
  emit (names <> ".")
  emit "\n\n"
  raise skip_node

unfoldable pub visit_bullet_list : Node → Method
visit_bullet_list node = do
  compact ← gets (λ s. truthy s.compact_list)
  if compact then pure tt else emit "\\begin{itemize}\n"
  problematic_table

unfoldable pub depart_bullet_list : Node → Method
depart_bullet_list node = do
  compact ← gets (λ s. truthy s.compact_list)
  if compact then pure tt else emit "\\end{itemize}\n"

-- '%d' of the start less one
unfoldable pub counter_text : ℕ → String
counter_text n = if n == 0 then "-1" else str (n - 1)

unfoldable pub set_counter : Option ℕ → Method
set_counter none = pure tt
set_counter (some n) = emit ("\\setcounter{enumi}{" <> (counter_text n <> "}\n"))

unfoldable pub visit_enumerated_list : Node → Method
visit_enumerated_list node = do
  emit "\\begin{enumerate}\n"
  set_counter (attrs node).start
  problematic_table

unfoldable pub visit_definition_list : Node → Method
visit_definition_list node = do emit "\\begin{description}\n"; problematic_table

unfoldable pub term_target : Env → List String → Action String
term_target env [] = pure ""
term_target env (i ∷ is) = hypertarget env true true i

unfoldable pub open_term : Env → Node → Method
open_term env node = do
  target ← term_target env (attrs node).ids
  emit "\\item[{"
  restrict_footnote node
  push_context (text ("}] \\leavevmode" <> target))

unfoldable pub visit_term : Env → Node → Method
visit_term env node = do update (λ s. record s { in_term = inc s.in_term }); open_term env node

unfoldable pub depart_term : (Node → Method) → Node → Method
depart_term walkabout node = do
  emit_context
  unrestrict_footnote walkabout node
  update (λ s. record s { in_term = dec s.in_term })

unfoldable pub visit_termsep : Node → Method
visit_termsep node = do emit ", "; raise skip_node

unfoldable pub visit_field_list : Node → Method
visit_field_list node = do emit "\\begin{quote}\\begin{description}\n"; problematic_table

unfoldable pub is_paragraph_or_compound : Option Node → Bool
is_paragraph_or_compound none = false
is_paragraph_or_compound (some n) = elim (kind n) [
  | Kind.paragraph ↦ true
  | Kind.compound ↦ true
  | _ ↦ false
]

unfoldable pub is_compound : Kind → Bool
is_compound Kind.compound = true
is_compound _ = false

-- What stands before a paragraph, by its position in its parent.
unfoldable pub paragraph_break : Node → ℕ → String
paragraph_break parent index =
    if ltb 0 index
      && is_compound (kind parent)
      && not (is_paragraph_or_compound (get_elem? (to_list (children parent)) (index - 1)))
    then "\\noindent\n"
    else if index == 0 && is_footnote (kind parent)
    then ""
    else "\n"

unfoldable pub emit_break : String → Method
emit_break x = if nonempty x then emit x else pure tt

unfoldable pub visit_paragraph : Option Node → Node → Method
visit_paragraph none node = raise attribute_error
visit_paragraph (some parent) node =
    emit_break (paragraph_break parent (index_of (uid node) (children parent)))

unfoldable pub visit_centered : Node → Method
visit_centered node = do emit "\n\\begin{center}"; problematic_table

-- for now, we don't support a more compact list format
-- don't add individual itemize environments, but one for all columns
unfoldable pub visit_hlist : Node → Method
visit_hlist node = do
  update (λ s. record s { compact_list = inc s.compact_list })
  emit "\\begin{itemize}\\setlength{\\itemsep}{0pt}\\setlength{\\parskip}{0pt}\n"
  problematic_table

unfoldable pub depart_hlist : Node → Method
depart_hlist node = do
  update (λ s. record s { compact_list = dec s.compact_list })
  emit "\\end{itemize}\n"

unfoldable pub is_line_block : Option Kind → Bool
is_line_block (some Kind.line_block) = true
is_line_block _ = false

unfoldable pub visit_line_block : Option Kind → Node → Method
visit_line_block parent node = do
  emit (
      if is_line_block parent
      then "\\item[]\n\\begin{DUlineblock}{\\DUlineblockindent}\n"
      else "\n\\begin{DUlineblock}{0em}\n")
  problematic_table

-- If the block quote contains a single object and that object
-- is a list, then generate a list not a block quote.
-- This lets us indent lists.
unfoldable pub quotes_one_list : List Node → Bool
quotes_one_list (c ∷ []) = elim (kind c) [
  | Kind.bullet_list ↦ true
  | Kind.enumerated_list ↦ true
  | _ ↦ false
]
quotes_one_list _ = false

unfoldable pub visit_block_quote : Node → Method
visit_block_quote node =
    if quotes_one_list (to_list (children node))
    then pure tt
    else (do emit "\\begin{quote}\n"; problematic_table)

unfoldable pub depart_block_quote : Node → Method
depart_block_quote node =
    if quotes_one_list (to_list (children node)) then pure tt else emit "\\end{quote}\n"
