-- ===== src/Writer/Inline/Notes.antt =====
-- Citations, footnotes and what refers to them of source/_exts/pearson/writer.py.
use pymotw.Prelude.{
  ℕ, zero, suc, String, ◌<>◌, Bool, true, false, Option, none, some, List, [], ◌∷◌, ◌++◌, not, ◌&&◌,
  ◌||◌, ◌=ˢ◌, inc, dec, truthy, if◌then◌else◌, or_default, is_some, join, str, nonempty, contains,
  add, sorted, length, take, drop, starts_with, has_sub, replace, drop_first, strip, translate,
  is_space, code, concat, ◌==◌,
}
use pymotw.Writer.Node.{Node, Kind, kind, attrs}
use pymotw.Writer.State.{
  Env, Method, Action, Translator, Piece, Footnotes, Bibitem, text, num, pure, raise, need, gets,
  update, emit, emit_all, emit_chars, push_context, pop_context, emit_context, curfile, warn_here,
  contents, ◌>>=◌, ◌>>◌, skip_node, skip_children, type_error, list_index_out_of_range,
  attribute_error,
}
use pymotw.Writer.Text.{idescape}

unfoldable pub visit_citation : Node → Method
visit_citation node = do
  update (λ s. record s {
    bibitems =
        s.bibitems ++ (record { citelabel = ""; citetext = ""; bibdoc = ""; citeid = "" } ∷ []);
  })
  size ← gets (λ s. length (contents s.body s))
  push_context (num size)

-- ''.join of the pieces; Python raises at a number
unfoldable pub join_pieces : List Piece → Action String
join_pieces [] = pure ""
join_pieces (num n ∷ ps) = raise type_error
join_pieces (text t ∷ ps) = do rest ← join_pieces ps; pure (t <> rest)

unfoldable pub size_of : Piece → Action ℕ
size_of (num n) = pure n
size_of (text t) = raise type_error

-- A change of `self.bibitems[-1]`, which is there once a citation has been visited.
unfoldable pub change_last : (Bibitem → Bibitem) → List Bibitem → Action (List Bibitem)
change_last f [] = raise list_index_out_of_range
change_last f (b ∷ []) = pure (f b ∷ [])
change_last f (b ∷ c ∷ bs) = do rest ← change_last f (c ∷ bs); pure (b ∷ rest)

unfoldable pub change_bibitem : (Bibitem → Bibitem) → Method
change_bibitem f = do
  items ← gets (λ s. s.bibitems)
  items' ← change_last f items
  update (λ s. record s { bibitems = items' })

unfoldable pub depart_citation : Node → Method
depart_citation node = do
  p ← pop_context
  size ← size_of p
  pieces ← gets (λ s. contents s.body s)
  citation ← join_pieces (drop size pieces)
  update (λ s. record s { buffers = pymotw.Prelude.modify s.body (λ b. take size b) s.buffers })
  change_bibitem (λ b. record b { citetext = citation })

unfoldable pub is_citation : Kind → Bool
is_citation Kind.citation = true
is_citation _ = false

unfoldable pub label_citation : Env → Node → Node → Method
label_citation env parent node = do
  change_bibitem (λ b. record b { citelabel = env.astext node })
  file ← curfile
  change_bibitem (λ b. record b { bibdoc = file })
  i ← need list_index_out_of_range (pymotw.Prelude.head? (attrs parent).ids)
  change_bibitem (λ b. record b { citeid = i })

unfoldable pub visit_label : Env → Option Node → Node → Method
visit_label env none node = raise skip_node
visit_label env (some parent) node = do
  if is_citation (kind parent) then label_citation env parent node else pure tt
  raise skip_node

unfoldable pub visit_citation_reference : Env → Node → Method
visit_citation_reference env node = do
  emit ("\\cite{" <> (idescape env (env.astext node) <> "}"))
  raise skip_node

unfoldable pub visit_collected_footnote : Node → Method
visit_collected_footnote node = do
  update (λ s. record s { in_footnote = inc s.in_footnote })
  number ← need pymotw.Writer.State.key_error (attrs node).number
  emit (
      (if (attrs node).footnotetext then "\\footnotetext[" else "\\footnote[")
      <> (number <> "]{\\sphinxAtStartFootnote%\n"))

unfoldable pub depart_collected_footnote : Node → Method
depart_collected_footnote node = do
  emit "}"
  update (λ s. record s { in_footnote = dec s.in_footnote })

-- footnotestack[-1][num]
unfoldable pub find_note : String → Footnotes → Option (Node × Bool)
find_note k [] = none
find_note k ((j, n, used) ∷ d) = if j =ˢ k then some (n, used) else find_note k d

-- footnotestack[-1][num][1] = True
unfoldable pub use_note : String → Footnotes → Footnotes
use_note k [] = []
use_note k ((j, n, used) ∷ d) = if j =ˢ k then (j, n, true) ∷ d else (j, n, used) ∷ use_note k d

unfoldable pub use_top : String → List Footnotes → List Footnotes
use_top k [] = []
use_top k (d ∷ ds) = use_note k d ∷ ds

unfoldable pub top_note : String → List Footnotes → Option (Node × Bool)
top_note k [] = none
top_note k (d ∷ ds) = find_note k d

-- The note that a reference finds: repeated as a mark, kept for later, or written in place.
unfoldable pub place_note : (Node → Method) → String → Option (Node × Bool) → Method
place_note walkabout k none = raise skip_node
place_note walkabout k (some (footnode, true)) = do
  protected ← gets (λ s. is_some s.table || truthy s.in_term || s.in_title)
  emit ((if protected then "\\protect\\footnotemark[" else "\\footnotemark[") <> (k <> "]"))
place_note walkabout k (some (footnode, false)) = do
  restricted ← gets (λ s. is_some s.footnote_restricted)
  update (λ s. record s { footnotestack = use_top k s.footnotestack })
  if restricted
      then (do
        emit ("\\protect\\footnotemark[" <> (k <> "]"))
        update (λ s. record s { pending_footnotes = s.pending_footnotes ++ (footnode ∷ []) }))
      else walkabout footnode

unfoldable pub visit_footnote_reference : Env → (Node → Method) → Node → Method
visit_footnote_reference env walkabout node = do
  note ← gets (λ s. top_note (strip (env.astext node)) s.footnotestack)
  place_note walkabout (strip (env.astext node)) note
  raise skip_children
