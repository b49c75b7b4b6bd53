-- ===== src/Writer/Titles.antt =====
-- Titles, subtitles, rubrics and captions of source/_exts/pearson/writer.py.
use pymotw.Prelude.{
  ℕ, String, ◌<>◌, Bool, true, false, Option, none, some, List, [], ◌∷◌, ◌||◌, ◌&&◌, not, inc, dec,
  truthy, if◌then◌else◌, ◌=ˢ◌, is_some, translate, join, sorted, nonempty, or_default, get_elem?,
  split,
}
use pymotw.Writer.Node.{Node, Kind, kind, children, to_list}
use pymotw.Writer.State.{
  Env, Action, Method, text, num, Piece, pure, raise, need, gets, update, emit, alloc, pushbody,
  popbody, push_context, emit_context, warn_here, ◌>>=◌, ◌>>◌, skip_node, list_index_out_of_range,
  attribute_error, type_error,
}
use pymotw.Writer.Text.{hypertargets, restrict_footnote, unrestrict_footnote}

-- What the title's code asks of its parent, in the order of its tests.
pub data TitleParent : Type 0 where
  of_seealso of_section of_topic of_admonition of_table of_other : TitleParent

unfoldable pub title_parent : Env → Option Kind → TitleParent
title_parent env none = TitleParent.of_other
title_parent env (some Kind.seealso) = TitleParent.of_seealso
title_parent env (some Kind.section) = TitleParent.of_section
title_parent env (some Kind.topic) = TitleParent.of_topic
title_parent env (some Kind.sidebar) = TitleParent.of_topic
title_parent env (some Kind.table) = TitleParent.of_table
title_parent env (some k) =
    if env.is_admonition k then TitleParent.of_admonition else TitleParent.of_other

abbrev sectionnames : List String
sectionnames =
    "part" ∷ "chapter" ∷ "section" ∷ "subsection" ∷ "subsubsection" ∷ "paragraph" ∷ "subparagraph"
    ∷ []

-- self.sectionnames[self.sectionlevel], and the last name on an IndexError
unfoldable pub sectionname : ℕ → String
sectionname level = or_default "subparagraph" (get_elem? sectionnames level)

-- The title in the short form, without the images in it.
unfoldable pub short_title : Env → Node → String
short_title env node = elim (env.traverse node Kind.image) [
  | [] ↦ ""
  | _ ∷ _ ↦ "[" <> (translate env.escape (join " " (split (env.clean_astext node))) <> "]")
]

-- self.context[-1] += x
unfoldable pub extend_top : String → List Piece → Action (List Piece)
extend_top x [] = raise list_index_out_of_range
extend_top x (text t ∷ ps) = pure (text (t <> x) ∷ ps)
extend_top x (num n ∷ ps) = raise type_error

-- The texts go behind the title, and no label is postponed any more.
unfoldable pub relabel : String → Method
relabel targets = do
  context ← gets (λ s. s.context)
  context' ← extend_top targets context
  update (λ s. record s { context = context'; next_section_ids = [] })

-- The postponed labels, in their order.
unfoldable pub label_section : Env → Method
label_section env = do
  ids ← gets (λ s. s.next_section_ids)
  targets ← hypertargets env (sorted ids)
  relabel targets

unfoldable pub section_title : Env → Node → Method
section_title env node = do
  level ← gets (λ s. s.sectionlevel)
  l ← need attribute_error level
  emit ("\\" <> (sectionname l <> (short_title env node <> "{")))
  push_context (text "}\n")
  restrict_footnote node
  label_section env

unfoldable pub open_title : Env → TitleParent → Node → Method
open_title env TitleParent.of_seealso node = raise skip_node
open_title env TitleParent.of_section node = section_title env node
open_title env TitleParent.of_topic node = do
  emit "\\textbf{"
  push_context (text "}\n\n\\medskip\n\n")
open_title env TitleParent.of_admonition node = do emit "{"; push_context (text "}\n")
open_title env TitleParent.of_table node = do b ← alloc; pushbody b
open_title env TitleParent.of_other node = do
  warn_here "encountered title node not in section, topic, table, admonition or sidebar"
  emit "\\textbf{"
  push_context (text "}\n")

-- The first title of all is the title of the document: it is kept, and not written here.
unfoldable pub is_text : Kind → Bool
is_text Kind.text = true
is_text _ = false

unfoldable pub warn_no_text : List Node → Method
warn_no_text [] = raise list_index_out_of_range
warn_no_text (c ∷ []) = pure tt
warn_no_text (c ∷ d ∷ ds) =
    if is_text (kind c) then pure tt else warn_here "document title is not a single Text node"

unfoldable pub document_title : Env → Node → Method
document_title env node = do
  warn_no_text (to_list (children node))
  update (λ s. record s {
    title = if nonempty s.title then s.title else translate env.escape (env.astext node);
    this_is_the_title = false;
  })
  raise skip_node

unfoldable pub is_seealso : TitleParent → Bool
is_seealso TitleParent.of_seealso = true
is_seealso _ = false

unfoldable pub visit_title : Env → Option Kind → Node → Method
visit_title env parent node = do
  first ← gets (λ s. s.this_is_the_title)
  if not (is_seealso (title_parent env parent)) && first then document_title env node else (do
    open_title env (title_parent env parent) node
    update (λ s. record s { in_title = true }))

-- self.table.caption = b
unfoldable pub set_caption : ℕ → Method
set_caption b = do
  table ← gets (λ s. s.table)
  t ← need attribute_error table
  update (λ s. record s { table = some (record t { caption = some b }) })

unfoldable pub caption_table : Method
caption_table = do b ← popbody; set_caption b

unfoldable pub is_table : Option Kind → Bool
is_table (some Kind.table) = true
is_table _ = false

unfoldable pub depart_title : (Node → Method) → Option Kind → Node → Method
depart_title walkabout parent node = do
  update (λ s. record s { in_title = false })
  if is_table parent then caption_table else emit_context
  unrestrict_footnote walkabout node

unfoldable pub is_sidebar : Option Kind → Bool
is_sidebar (some Kind.sidebar) = true
is_sidebar _ = false

unfoldable pub visit_subtitle : Option Kind → Node → Method
visit_subtitle parent node =
    if is_sidebar parent
    then (do emit "~\\\\\n\\textbf{"; push_context (text "}\n\\smallskip\n"))
    else push_context (text "")

-- The heading of the list of footnotes is dropped.
unfoldable pub names_footnotes : Env → List Node → Bool
names_footnotes env (c ∷ []) =
    env.astext c =ˢ "Footnotes" || env.astext c =ˢ env.localize "Footnotes"
names_footnotes env _ = false

unfoldable pub visit_rubric : Env → Node → Method
visit_rubric env node =
    if names_footnotes env (to_list (children node)) then raise skip_node else (do
      emit "\\paragraph{"
      push_context (text "}\n")
      update (λ s. record s { in_title = true }))

unfoldable pub depart_rubric : Node → Method
depart_rubric node = do update (λ s. record s { in_title = false }); emit_context

unfoldable pub is_figure : Option Kind → Bool
is_figure (some Kind.figure) = true
is_figure _ = false

unfoldable pub visit_caption : Option Kind → Node → Method
visit_caption parent node = do
  update (λ s. record s { in_caption = inc s.in_caption })
  s ← gets (λ s. s)
  if truthy s.in_container_literal_block
      then (do b ← alloc; update (λ t. record t { literal_block_caption = b }); pushbody b)
      else if s.in_minipage && is_figure parent
      then emit "\\captionof{figure}{"
      else if is_some s.table && is_figure parent
      then emit "\\sphinxfigcaption{"
      else emit "\\caption{"

-- the name of the last list is dropped
unfoldable pub drop_body : Method
drop_body = do b ← popbody; pure tt

unfoldable pub depart_caption : Node → Method
depart_caption node = do
  inside ← gets (λ s. truthy s.in_container_literal_block)
  if inside then drop_body else emit "}"
  update (λ s. record s { in_caption = dec s.in_caption })
