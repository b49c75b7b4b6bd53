-- ===== src/Writer/Text.antt =====
-- Text and label escaping of source/_exts/pearson/writer.py, the hyperlink ids and the footnote
-- restriction.
use pymotw.Prelude.{
  String, ◌<>◌, Bool, true, false, Option, none, some, List, [], ◌∷◌, truthy, if◌then◌else◌,
  is_some, ◌==◌, ◌=ˢ◌, translate, replace, backslashreplace, add_all, ℕ,
}
use pymotw.Writer.Node.{Node, uid, mark_footnotetext}
use pymotw.Writer.State.{Env, Action, Method, pure, gets, update, curfile, ◌>>=◌, ◌>>◌, ok}

-- `str.replace` on the line breaks and the blanks
unfoldable pub keep_whitespace : String → String
keep_whitespace s = replace " " "~" (replace "\n" "~\\\\\n" s)

-- `--` and `''` are kept from becoming a dash and a quote
unfoldable pub keep_contractions : String → String
keep_contractions s = replace "''" "'{'}" (replace "--" "-{-}" s)

unfoldable pub encode_with : Env → Bool → Bool → String → String
encode_with env whitespace contractions s =
    let escaped = translate env.escape s in
    let spaced = if whitespace then keep_whitespace escaped else escaped in
    if contractions then keep_contractions spaced else spaced

unfoldable pub encode : Env → String → Action String
encode env s =
    gets (λ t. encode_with env (truthy t.literal_whitespace) (truthy t.no_contractions) s)

-- in \href, the tilde is allowed and must be represented literally
unfoldable pub encode_uri : Env → String → Action String
encode_uri env s = do e ← encode env s; pure (replace "\\textasciitilde{}" "~" e)

unfoldable pub idescape : Env → String → String
idescape env i = replace "\\" "_" (translate backslashreplace (translate env.replace_map i))

unfoldable pub hyperrefescape : Env → String → String
hyperrefescape env ref = replace "-" "\\string-" (idescape env ref)

unfoldable pub hyperlink : Env → String → String
hyperlink env i = "{\\hyperref[" <> (hyperrefescape env i <> "]{")

unfoldable pub hyperpageref : Env → String → String
hyperpageref env i = "\\autopageref*{" <> (idescape env i <> "}")

unfoldable pub label_text : Env → Bool → String → String
label_text env anchor i =
    (if anchor then "\\phantomsection" else "") <> ("\\label{" <> (idescape env i <> "}"))

-- hypertarget(id, withdoc, anchor)
unfoldable pub hypertarget : Env → Bool → Bool → String → Action String
hypertarget env true anchor i = do file ← curfile; pure (label_text env anchor (file <> (":" <> i)))
hypertarget env false anchor i = pure (label_text env anchor i)

-- The concatenation of `hypertarget(id, anchor=False)` over the ids, in their order.
unfoldable pub hypertargets : Env → List String → Action String
hypertargets env [] = pure ""
hypertargets env (i ∷ is) = do
  t ← hypertarget env true false i
  ts ← hypertargets env is
  pure (t <> ts)

-- The ids of a figure type in the dict of sets, none if the type has no entry.
unfoldable pub lookup_ids : String → List (String × List String) → List String
lookup_ids k [] = []
lookup_ids k ((j, v) ∷ d) = if j =ˢ k then v else lookup_ids k d

unfoldable pub update_ids :
    String → List String → List (String × List String) → List (String × List String)
update_ids k ids [] = (k, add_all ids []) ∷ []
update_ids k ids ((j, v) ∷ d) =
    if j =ˢ k then (j, add_all ids v) ∷ d else (j, v) ∷ update_ids k ids d

unfoldable pub remove_ids : String → List (String × List String) → List (String × List String)
remove_ids k [] = []
remove_ids k ((j, v) ∷ d) = let rest = remove_ids k d in if j =ˢ k then rest else (j, v) ∷ rest

unfoldable pub push_hyperlink_ids : String → List String → Method
push_hyperlink_ids figtype ids =
    update (λ s. record s { next_hyperlink_ids = update_ids figtype ids s.next_hyperlink_ids })

-- next_hyperlink_ids.pop(figtype, set())
unfoldable pub pop_hyperlink_ids : String → Action (List String)
pop_hyperlink_ids figtype s = (
  ok (lookup_ids figtype s.next_hyperlink_ids),
  record s { next_hyperlink_ids = remove_ids figtype s.next_hyperlink_ids },
)

-- Nodes are compared by identity.
unfoldable pub restrict_footnote : Node → Method
restrict_footnote node = do
  restricted ← gets (λ s. is_some s.footnote_restricted)
  if restricted
      then pure tt
      else update (λ s. record s { footnote_restricted = some (uid node); pending_footnotes = [] })

abbrev is_restricted_by : Node → Option ℕ → Bool
is_restricted_by node none = false
is_restricted_by node (some i) = i == uid node

-- `for footnode in self.pending_footnotes: …`
unfoldable pub walk_pending : (Node → Method) → List Node → Method
walk_pending walkabout [] = pure tt
walk_pending walkabout (f ∷ fs) = do walkabout (mark_footnotetext f); walk_pending walkabout fs

unfoldable pub release_footnotes : (Node → Method) → Method
release_footnotes walkabout = do
  update (λ s. record s { footnote_restricted = none })
  pending ← gets (λ s. s.pending_footnotes)
  walk_pending walkabout pending
  update (λ s. record s { pending_footnotes = [] })

unfoldable pub unrestrict_footnote : (Node → Method) → Node → Method
unrestrict_footnote walkabout node = do
  mine ← gets (λ s. is_restricted_by node s.footnote_restricted)
  if mine then release_footnotes walkabout else pure tt
