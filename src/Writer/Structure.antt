-- ===== src/Writer/Structure.antt =====
-- Documents, files, sections and titles of source/_exts/pearson/writer.py.
use Prim.Native.String.{count}
use pymotw.Prelude.{
  ℕ, ◌+◌, ◌-◌, max, String, ◌<>◌, Bool, true, false, Option, none, some, List, [], ◌∷◌, ◌++◌, pos,
  negsuc, ℤ, if◌then◌else◌, ltb, ◌==◌, ◌=ˢ◌, add, add_all, nonempty, or_default, strip, head?,
}
use pymotw.Writer.Node.{
  Node, Nodes, Kind, element, nil, cons, kind, attrs, children, to_list, plain,
}
use pymotw.Writer.State.{
  Env, Action, Method, Footnotes, Bibitem, Highlight, pure, raise, need, gets, update, emit, ◌>>=◌,
  ◌>>◌, skip_node, pop_from_empty_list, list_index_out_of_range, key_error, attribute_error,
  top_sectionlevel,
}
use pymotw.Writer.Text.{hypertarget, encode, idescape}

abbrev pub is_footnote : Kind → Bool
is_footnote Kind.footnote = true
is_footnote Kind.collected_footnote = true
is_footnote _ = false

abbrev pub is_start_of_file : Kind → Bool
is_start_of_file Kind.start_of_file = true
is_start_of_file _ = false

-- `footnotes_under` of `collect_footnotes`, on a node and on its children
unfoldable mutual
  pub footnotes_under : Node → List Node
  footnotes_under (element i k a s c) =
      let below = footnotes_below c in if is_footnote k then element i k a s c ∷ [] else below

  pub footnotes_below : Nodes → List Node
  footnotes_below nil = []
  footnotes_below (cons n ns) =
      let here = footnotes_under n in
      let rest = footnotes_below ns in if is_start_of_file (kind n) then rest else here ++ rest

-- fnotes[num] = [newnode, False]
unfoldable pub set_note : String → Node → Footnotes → Footnotes
set_note k n [] = (k, n, false) ∷ []
set_note k n ((j, m, used) ∷ d) =
    if j =ˢ k then (j, n, false) ∷ d else (j, m, used) ∷ set_note k n d

abbrev pub tail_nodes : Nodes → Nodes
tail_nodes nil = nil
tail_nodes (cons n ns) = ns

-- collected_footnote(*fn.children, number=num): the first child goes to the place of `rawsource`,
-- and the label is no child of the new node.
unfoldable pub collected : String → Node → Node
collected number (element i k a s c) =
    element i Kind.collected_footnote (record plain { number = some number }) "" (tail_nodes c)

-- A footnote with no label is an IndexError.
unfoldable pub note_all : Env → List Node → Footnotes → Option Footnotes
note_all env [] d = some d
note_all env (fn ∷ fns) d = elim (head? (to_list (children fn))) [
  | none ↦ none
  | some label ↦
      note_all env fns
        (set_note (strip (env.astext label)) (collected (strip (env.astext label)) fn) d)
]

unfoldable pub collect_footnotes : Env → Node → Action Footnotes
collect_footnotes env node = need list_index_out_of_range (note_all env (footnotes_under node) [])

-- The first document is all the regular content, and all others are the appendices.
unfoldable pub advance_document : ℤ → ℤ
advance_document (pos n) = if n == 1 then pos 0 else if n == 0 then negsuc 0 else pos n
advance_document (negsuc n) = negsuc n

unfoldable pub doc_target : Env → Option String → Method
doc_target env none = pure tt
doc_target env (some _) = do t ← hypertarget env true true ":doc"; emit t

unfoldable pub visit_document : Env → Node → Method
visit_document env node = do
  notes ← collect_footnotes env node
  update (λ s. record s {
    footnotestack = notes ∷ s.footnotestack;
    curfilestack = or_default "" (attrs node).docname ∷ s.curfilestack;
    first_document = advance_document s.first_document;
  })
  doc_target env (attrs node).docname
  update (λ s. record s { sectionlevel = some (top_sectionlevel - 1) })

-- The loop over `self.bibitems` for the widest label, from the one found so far.
unfoldable pub widest_label : String → List Bibitem → String
widest_label widest [] = widest
widest_label widest (bi ∷ bis) =
    widest_label (if ltb (count widest) (count bi.citelabel) then bi.citelabel else widest) bis

unfoldable pub emit_bibitems : Env → List Bibitem → Method
emit_bibitems env [] = pure tt
emit_bibitems env (bi ∷ bis) = do
  target ← hypertarget env false true (bi.bibdoc <> (":" <> bi.citeid))
  shown ← encode env bi.citelabel
  emit (
      "\\bibitem["
      <> (shown
          <> ("]{"
              <> (idescape env bi.citelabel
                  <> ("}{" <> (target <> (" " <> (bi.citetext <> "}\n"))))))))
  emit_bibitems env bis

unfoldable pub emit_bibliography : Env → List Bibitem → Method
emit_bibliography env [] = pure tt
emit_bibliography env (bi ∷ bis) = do
  emit ("\n\\begin{thebibliography}{" <> (widest_label "" (bi ∷ bis) <> "}\n"))
  emit_bibitems env (bi ∷ bis)
  emit "\\end{thebibliography}\n"
  update (λ s. record s { bibitems = [] })

unfoldable pub depart_document : Env → Node → Method
depart_document env node = do items ← gets (λ s. s.bibitems); emit_bibliography env items

abbrev pub last : {A : Type 0} → List A → Option A
last [] = none
last (x ∷ []) = some x
last (x ∷ y ∷ ys) = last (y ∷ ys)

-- hlsettingstack[0] is the bottom of the stack
unfoldable pub visit_start_of_file : Env → Node → Method
visit_start_of_file env node = do
  notes ← collect_footnotes env node
  update (λ s. record s {
    footnotestack = notes ∷ s.footnotestack;
    next_section_ids = add ":doc" s.next_section_ids;
  })
  file ← need key_error (attrs node).docname
  update (λ s. record s { curfilestack = file ∷ s.curfilestack })
  stack ← gets (λ s. s.hlsettingstack)
  default ← need list_index_out_of_range (last stack)
  update (λ s. record s { hlsettingstack = default ∷ s.hlsettingstack })

-- stack.pop(), by whether there is an element
abbrev pub pop_stack : {A : Type 0} → List A → Action (List A)
pop_stack [] = raise pop_from_empty_list
pop_stack (x ∷ xs) = pure xs

unfoldable pub depart_start_of_file : Node → Method
depart_start_of_file node = do
  notes ← gets (λ s. s.footnotestack)
  notes' ← pop_stack notes
  update (λ s. record s { footnotestack = notes' })
  files ← gets (λ s. s.curfilestack)
  files' ← pop_stack files
  update (λ s. record s { curfilestack = files' })
  settings ← gets (λ s. s.hlsettingstack)
  settings' ← pop_stack settings
  update (λ s. record s { hlsettingstack = settings' })

unfoldable pub set_top : Highlight → List Highlight → Action (List Highlight)
set_top h [] = raise list_index_out_of_range
set_top h (x ∷ xs) = pure (h ∷ xs)

-- hlsettingstack[-1] = h
unfoldable pub set_settings : Highlight → Method
set_settings h = do
  settings ← gets (λ s. s.hlsettingstack)
  settings' ← set_top h settings
  update (λ s. record s { hlsettingstack = settings' })

unfoldable pub visit_highlightlang : Node → Method
visit_highlightlang node = do
  lang ← need key_error (attrs node).lang
  limit ← need key_error (attrs node).linenothreshold
  set_settings (record { hl_language = lang; threshold = limit })
  raise skip_node

unfoldable pub deeper : Bool → Option ℕ → Action (Option ℕ)
deeper true level = pure level
deeper false level = do l ← need attribute_error level; pure (some (l + 1))

unfoldable pub visit_section : Node → Method
visit_section node = do
  title ← gets (λ s. s.this_is_the_title)
  level ← gets (λ s. s.sectionlevel)
  level' ← deeper title level
  update (λ s. record s { sectionlevel = level' })
  emit "\n\n"
  update (λ s. record s { next_section_ids = add_all (attrs node).ids s.next_section_ids })

unfoldable pub depart_section : Node → Method
depart_section node = do
  level ← gets (λ s. s.sectionlevel)
  l ← need attribute_error level
  update (λ s. record s { sectionlevel = some (max (l - 1) (top_sectionlevel - 1)) })

unfoldable pub visit_topic : Node → Method
visit_topic node = do
  update (λ s. record s { in_minipage = true })
  emit "\n\\begin{sphinxShadowBox}\n"

unfoldable pub depart_topic : Node → Method
depart_topic node = do
  update (λ s. record s { in_minipage = false })
  emit "\\end{sphinxShadowBox}\n"

unfoldable pub visit_productionlist : Node → Method
visit_productionlist node = do
  emit "\n\n\\begin{productionlist}\n"
  update (λ s. record s { in_production_list = true })

unfoldable pub depart_productionlist : Node → Method
depart_productionlist node = do
  emit "\\end{productionlist}\n\n"
  update (λ s. record s { in_production_list = false })

unfoldable pub production_name : Env → String → Method
production_name env tn =
    if nonempty tn
    then (do
      t ← hypertarget env true true ("grammar-token-" <> tn)
      emit t
      e ← encode env tn
      emit ("\\production{" <> (e <> "}{")))
    else emit "\\productioncont{"

unfoldable pub visit_production : Env → Node → Method
visit_production env node = do tn ← need key_error (attrs node).tokenname; production_name env tn

unfoldable pub visit_transition : Env → Node → Method
visit_transition env node = emit env.transition
