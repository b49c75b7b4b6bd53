-- ===== src/Writer/Figures/Code.antt =====
-- Raw text, code blocks and their containers of source/_exts/pearson/writer.py.
use pymotw.Prelude.{
  String, ◌<>◌, Bool, true, false, none, some, List, [], ◌∷◌, ◌++◌, ◌=ˢ◌, inc, dec, truthy,
  if◌then◌else◌, or_default, join, nonempty, contains, sorted, replace, split, first?,
}
use pymotw.Writer.Node.{Node, attrs}
use pymotw.Writer.State.{
  Env, Method, Action, pure, raise, gets, update, emit, alloc, curfile, contents, Highlight, ◌>>=◌,
  ◌>>◌, skip_node, unsupported, list_index_out_of_range,
}
use pymotw.Writer.Text.{hypertargets, pop_hyperlink_ids}
use pymotw.Writer.Inline.{join_pieces}
use pymotw.Writer.Figures.Images.{first_target}

unfoldable pub visit_raw : Env → Node → Method
visit_raw env node = do
  if contains "latex" (split (or_default "" (attrs node).format))
      then emit (env.astext node)
      else pure tt
  raise skip_node

-- The parts of the options of a listing: `ids` is a text, and `ids[0]` is its first character.
unfoldable pub listing_options : String → String → List String
listing_options caption ids =
    (if nonempty caption then ("caption={" <> (caption <> "}")) ∷ [] else [])
    ++ (elim (first? ids) [ none ↦ [] | some c ↦ ("label={" <> (c <> "}")) ∷ [] ]
        ++ ("frame=tb" ∷ []))

unfoldable pub top_setting : List Highlight → Action Highlight
top_setting [] = raise list_index_out_of_range
top_setting (h ∷ hs) = pure h

-- The language and the line numbers that are computed from the settings reach no output.
unfoldable pub write_listing : Env → Node → Method
write_listing env node = do
  popped ← pop_hyperlink_ids "code-block"
  a ← hypertargets env (sorted popped)
  b ← first_target env (attrs node).ids
  settings ← gets (λ s. s.hlsettingstack)
  setting ← top_setting settings
  if (attrs node).linenos then emit "\n\\lstset{numbers=left,numberstyle=\\tiny}\n" else pure tt
  emit "\n\\begin{lstlisting}"
  pieces ← gets (λ s. contents s.literal_block_caption s)
  caption ← join_pieces pieces
  emit "["
  if nonempty caption
      then (do c ← alloc; update (λ s. record s { literal_block_caption = c }))
      else pure tt
  emit (join "," (listing_options caption (a <> b)))
  emit "]\n"
  emit (replace "€" "@texteuro[]" (env.astext node))
  emit "\\end{lstlisting}"
  if (attrs node).linenos then emit "\n\\lstset{numbers=none}\n" else pure tt

unfoldable pub refuse_in_footnote : Bool → Method
refuse_in_footnote true = do file ← curfile; raise unsupported
refuse_in_footnote false = pure tt

unfoldable pub visit_literal_block : Env → Node → Method
visit_literal_block env node = do
  inside ← gets (λ s. truthy s.in_footnote)
  refuse_in_footnote inside
  if (attrs node).rawsource =ˢ env.astext node
      then (do write_listing env node; raise skip_node)
      else emit "\\begin{alltt}\n"

-- The labels are computed and not used.
unfoldable pub visit_container : Env → Node → Method
visit_container env node =
    if (attrs node).literal_block
    then (do
      update (λ s. record s { in_container_literal_block = inc s.in_container_literal_block })
      popped ← pop_hyperlink_ids "code-block"
      a ← hypertargets env (sorted popped)
      b ← first_target env (attrs node).ids
      pure tt)
    else pure tt

unfoldable pub depart_container : Node → Method
depart_container node =
    if (attrs node).literal_block
    then (do
      update (λ s. record s { in_container_literal_block = dec s.in_container_literal_block })
      emit "\n")
    else pure tt
