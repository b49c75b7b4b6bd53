-- ===== src/Writer/Desc.antt =====
-- Descriptions of objects, of options and of their parts in source/_exts/pearson/writer.py.
use pymotw.Prelude.{
  String, Bool, true, false, Option, none, some, List, [], ◌∷◌, ◌=ˢ◌, inc, dec, if◌then◌else◌,
  or_default,
}
use pymotw.Writer.Node.{Node, Kind, kind, attrs, children, to_list}
use pymotw.Writer.State.{
  Env, Method, Action, Piece, text, num, pure, raise, need, gets, update, emit, push_context,
  pop_context, problematic_table, ◌>>=◌, ◌>>◌, skip_node, key_error, attribute_error, type_error,
  list_index_out_of_range,
}
use pymotw.Writer.Text.{hypertarget, encode}

unfoldable pub visit_desc : Node → Method
visit_desc node = do emit "\n\n\\begin{fulllineitems}\n"; problematic_table

unfoldable pub depart_desc : Node → Method
depart_desc node = emit "\n\\end{fulllineitems}\n\n"

-- the loop over the children with its `else`
unfoldable pub has_parameterlist : List Node → Bool
has_parameterlist [] = false
has_parameterlist (c ∷ cs) =
    let rest = has_parameterlist cs in elim (kind c) [ Kind.desc_parameterlist ↦ true | _ ↦ rest ]

unfoldable pub signature_target : Env → String → List String → Action String
signature_target env objtype [] = pure ""
signature_target env objtype (i ∷ is) =
    if objtype =ˢ "describe" then pure "" else hypertarget env true true i

unfoldable pub parent_objtype : Option Node → Action String
parent_objtype none = raise attribute_error
parent_objtype (some p) = need key_error (attrs p).objtype

unfoldable pub visit_desc_signature : Env → Option Node → Node → Method
visit_desc_signature env parent node = do
  objtype ← parent_objtype parent
  hyper ← signature_target env objtype (attrs node).ids
  emit hyper
  emit (
      if has_parameterlist (to_list (children node))
      then "\\pysiglinewithargsret{"
      else "\\pysigline{")

unfoldable pub visit_desc_addname : Node → Method
visit_desc_addname node = do
  emit "\\sphinxcode{"
  update (λ s. record s { literal_whitespace = inc s.literal_whitespace })

unfoldable pub depart_desc_addname : Node → Method
depart_desc_addname node = do
  emit "}"
  update (λ s. record s { literal_whitespace = dec s.literal_whitespace })

unfoldable pub visit_desc_name : Node → Method
visit_desc_name node = do
  emit "\\sphinxbfcode{"
  update (λ s. record s {
    no_contractions = inc s.no_contractions;
    literal_whitespace = inc s.literal_whitespace;
  })

unfoldable pub depart_desc_name : Node → Method
depart_desc_name node = do
  emit "}"
  update (λ s. record s {
    literal_whitespace = dec s.literal_whitespace;
    no_contractions = dec s.no_contractions;
  })

-- close name, open parameterlist
unfoldable pub visit_desc_parameterlist : Node → Method
visit_desc_parameterlist node = do emit "}{"; update (λ s. record s { first_param = true })

unfoldable pub visit_desc_parameter : Node → Method
visit_desc_parameter node = do
  first ← gets (λ s. s.first_param)
  if first then update (λ s. record s { first_param = false }) else emit ", "
  if (attrs node).noemph then pure tt else emit "\\emph{"

unfoldable pub depart_desc_parameter : Node → Method
depart_desc_parameter node = if (attrs node).noemph then pure tt else emit "}"

-- avoid empty desc environment which causes a formatting bug
unfoldable pub starts_unlike_paragraph : List Node → Bool
starts_unlike_paragraph [] = false
starts_unlike_paragraph (c ∷ cs) = elim (kind c) [ Kind.paragraph ↦ false | _ ↦ true ]

unfoldable pub visit_desc_content : Node → Method
visit_desc_content node =
    if starts_unlike_paragraph (to_list (children node)) then emit "~" else pure tt

-- `if self.context[-1]:`
unfoldable pub option_separator : List Piece → Method
option_separator [] = raise list_index_out_of_range
option_separator (num n ∷ ps) = elim n [
  | Prim.Native.Nat.zero ↦ pure tt
  | Prim.Native.Nat.suc m ↦ emit ", "
]
option_separator (text t ∷ ps) = if t =ˢ "" then pure tt else emit ", "

unfoldable pub visit_option : Node → Method
visit_option node = do context ← gets (λ s. s.context); option_separator context

-- `self.context[-1] += 1`
unfoldable pub count_option : List Piece → Action (List Piece)
count_option [] = raise list_index_out_of_range
count_option (num n ∷ ps) = pure (num (Prim.Native.Nat.suc n) ∷ ps)
count_option (text t ∷ ps) = raise type_error

unfoldable pub depart_option : Node → Method
depart_option node = do
  context ← gets (λ s. s.context)
  context' ← count_option context
  update (λ s. record s { context = context' })

unfoldable pub visit_option_argument : Node → Method
visit_option_argument node = emit (or_default " " (attrs node).delimiter)

unfoldable pub visit_option_group : Node → Method
visit_option_group node = do emit "\\item ["; push_context (num 0)

unfoldable pub depart_option_group : Node → Method
depart_option_group node = do flag ← pop_context; emit "] "

unfoldable pub visit_option_list : Node → Method
visit_option_list node = do emit "\\begin{optionlist}{3cm}\n"; problematic_table

unfoldable pub write_option_string : Env → Node → Method
write_option_string env node = do
  update (λ s. record s { no_contractions = inc s.no_contractions })
  e ← encode env (env.astext node)
  emit e
  update (λ s. record s { no_contractions = dec s.no_contractions })

unfoldable pub visit_option_string : Env → Node → Method
visit_option_string env node = do write_option_string env node; raise skip_node
