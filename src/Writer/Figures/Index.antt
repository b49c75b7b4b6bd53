-- ===== src/Writer/Figures/Index.antt =====
-- Index entries of source/_exts/pearson/writer.py.
use pymotw.Prelude.{
  ◌⊎◌, ℕ, String, ◌<>◌, Bool, false, Option, none, some, List, [], ◌∷◌, ◌&&◌, ◌||◌, ◌==◌, ◌=ˢ◌, inl,
  inr, if◌then◌else◌, join, code, ltb,
}
use pymotw.Writer.Node.{Node, IndexEntry, attrs}
use pymotw.Writer.State.{Env, Method, Action, pure, raise, emit, warn, ◌>>=◌, ◌>>◌, skip_node}
use pymotw.Writer.Text.{encode}

-- scre.sub('!', text) for ';\s*'
unfoldable pub sub_semicolons : Bool → String → String
sub_semicolons skipping String.[] = ""
sub_semicolons skipping (String.◌∷◌ c s) =
    (if code c == 59
      then "!"
      else if skipping && (code c == 32 || (ltb 8 (code c) && ltb (code c) 14))
      then ""
      else String.◌∷◌ c "")
    <> sub_semicolons
        (code c == 59 || (skipping && (code c == 32 || (ltb 8 (code c) && ltb (code c) 14)))) s

unfoldable pub encode_all : Env → List String → Action (List String)
encode_all env [] = pure []
encode_all env (s ∷ ss) = do e ← encode env s; es ← encode_all env ss; pure (e ∷ es)

-- The commands for the parts of an entry; another number of parts is a ValueError.
unfoldable pub index_command : String → String → List String → Option String
index_command type m (p1 ∷ p2 ∷ []) =
    if type =ˢ "pair"
    then some (
        "\\index{"
        <> (p1 <> ("!" <> (p2 <> (m <> ("}\\index{" <> (p2 <> ("!" <> (p1 <> (m <> "}"))))))))))
    else if type =ˢ "see" || type =ˢ "seealso"
    then some ("\\index{" <> (p1 <> ("|see{" <> (p2 <> "}}"))))
    else none
index_command type m (p1 ∷ p2 ∷ p3 ∷ []) =
    if type =ˢ "triple"
    then some (
        join "" (
          "\\index{" ∷ p1 ∷ "!" ∷ p2 ∷ " " ∷ p3 ∷ m ∷ "}\\index{" ∷ p2 ∷ "!" ∷ p3 ∷ ", " ∷ p1 ∷ m
          ∷ "}\\index{" ∷ p3 ∷ "!" ∷ p1 ∷ " " ∷ p2 ∷ m ∷ "}" ∷ []))
    else none
index_command type m _ = none

unfoldable pub emit_command : Option String → Method
emit_command none = warn "wrong number of values to unpack"
emit_command (some c) = emit c

unfoldable pub index_outcome : Env → IndexEntry → String → String ⊎ List String → Method
index_outcome env e m (inl message) = warn message
index_outcome env e m (inr parts) = do
  shown ← encode_all env parts
  emit_command (index_command e.type m shown)

unfoldable pub index_parts : Env → ℕ → IndexEntry → String → Method
index_parts env n e m = index_outcome env e m (env.split_into n e.type e.string)

unfoldable pub index_entry : Env → IndexEntry → Method
index_entry env e =
    let m = if e.ismain then "|textbf" else "" in
    if e.type =ˢ "single"
    then (do p ← encode env e.string; emit ("\\index{" <> (sub_semicolons false p <> (m <> "}"))))
    else if e.type =ˢ "pair" || e.type =ˢ "see" || e.type =ˢ "seealso"
    then index_parts env 2 e m
    else if e.type =ˢ "triple"
    then index_parts env 3 e m
    else warn ("unknown index entry type " <> (e.type <> " found"))

unfoldable pub index_entries : Env → List IndexEntry → Method
index_entries env [] = pure tt
index_entries env (e ∷ es) = do index_entry env e; index_entries env es

unfoldable pub visit_index : Env → Node → Method
visit_index env node = do
  if (attrs node).not_inline then emit "\n" else pure tt
  index_entries env (attrs node).entries
  raise skip_node
