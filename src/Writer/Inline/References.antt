-- ===== src/Writer/Inline/References.antt =====
-- References, numbered ones too, of source/_exts/pearson/writer.py.
use pymotw.Prelude.{
  Char, String, ◌<>◌, Bool, true, false, List, [], ◌∷◌, not, ◌&&◌, ◌||◌, ◌=ˢ◌, truthy,
  if◌then◌else◌, or_default, nonempty, contains, sorted, starts_with, has_sub, replace, drop_first,
  translate, is_space, code, ◌==◌,
}
use pymotw.Writer.Node.{Node, Kind, element, kind, attrs, children, to_list}
use pymotw.Writer.State.{
  Env, Method, Action, text, pure, raise, gets, emit, emit_chars, push_context, curfile, warn_here,
  ◌>>=◌, ◌>>◌, skip_node, type_error, value_error, outside_model,
}
use pymotw.Writer.Text.{hypertarget, hyperlink, hyperpageref, idescape, encode_uri}

-- the labels in front of a reference
unfoldable pub reference_ids : Env → List String → Method
reference_ids env [] = pure tt
reference_ids env (i ∷ is) = do
  anchor ← gets (λ s. not (truthy s.in_caption))
  t ← hypertarget env true anchor i
  emit_chars t
  reference_ids env is

-- node.get('refuri', ''), or the document and the label that 'refid' stands for
unfoldable pub reference_uri : Node → Action String
reference_uri node =
    let uri = or_default "" (attrs node).refuri in
    let refid = or_default "" (attrs node).refid in
    if not (nonempty uri) && nonempty refid
    then (do file ← curfile; pure ("%" <> (file <> ("#" <> refid))))
    else pure uri

unfoldable pub is_external : String → Bool
is_external uri =
    starts_with "mailto:" uri
    || starts_with "http:" uri
    || starts_with "https:" uri
    || starts_with "ftp:" uri

-- len(node) == 1 and uri == node[0]
unfoldable pub shows_uri : String → List Node → Bool
shows_uri uri (element i Kind.text a s c ∷ []) = uri =ˢ s
shows_uri uri _ = false

unfoldable pub external_reference : Env → String → Node → Method
external_reference env uri node =
    if shows_uri uri (to_list (children node))
    then (do
      e ← encode_uri env uri
      emit ((if (attrs node).nolinkurl then "\\nolinkurl{" else "\\url{") <> (e <> "}"))
      raise skip_node)
    else (do e ← encode_uri env uri; emit ("\\href{" <> (e <> "}{")); push_context (text "}"))

-- what closes a reference: the number of the page, where it is wanted
unfoldable pub close_reference : Env → String → Method
close_reference env i = do
  production ← gets (λ s. s.in_production_list)
  push_context (
      text (
        if env.latex_show_pagerefs && not production
        then "}}} (" <> (hyperpageref env i <> ")")
        else "}}}"))

unfoldable pub local_reference : Env → String → Method
local_reference env uri = do
  file ← curfile
  emit (hyperlink env (file <> (":" <> drop_first uri)))
  emit "\\emph{"
  close_reference env (file <> (":" <> drop_first uri))

unfoldable pub is_std_term : List Node → Bool
is_std_term [] = false
is_std_term (n ∷ ns) = elim (kind n) [
  | Kind.text ↦ false
  | _ ↦ contains "std-term" (attrs n).classes
]

-- the target of a reference to a document, or to a label in a document
unfoldable pub document_id : String → String
document_id uri =
    if has_sub "#" uri then replace "#" ":" (drop_first uri) else drop_first uri <> "::doc"

unfoldable pub document_reference : Env → String → Node → Method
document_reference env uri node = do
  emit (hyperlink env (document_id uri))
  if is_std_term (to_list (children node))
      then (do push_context (text "}}}"); emit "\\sphinxtermref{")
      else (do emit "\\sphinxcrossref{"; close_reference env (document_id uri))

unfoldable pub visit_reference : Env → Node → Method
visit_reference env node = do
  titled ← gets (λ s. s.in_title)
  if titled then pure tt else reference_ids env (sorted (attrs node).ids)
  uri ← reference_uri node
  if titled || not (nonempty uri)
      then push_context (text "")
      else if is_external uri
      then external_reference env uri node
      else if starts_with "#" uri
      then local_reference env uri
      else if starts_with "%" uri
      then document_reference env uri node
      else (do warn_here ("unusable reference target found: " <> uri); push_context (text ""))

-- re.sub('\.(?=\s|$)', '.\\@', text), over the white space of ASCII
unfoldable pub escape_abbr : String → String
escape_abbr String.[] = ""
escape_abbr (String.◌∷◌ c String.[]) = if code c == 46 then ".\\@" else String.◌∷◌ c ""
escape_abbr (String.◌∷◌ c (String.◌∷◌ d s)) =
    (if code c == 46 && is_space (code d) then ".\\@" else String.◌∷◌ c "")
    <> escape_abbr (String.◌∷◌ d s)

unfoldable pub prepend : String → Action String → Action String
prepend x m = do y ← m; pure (x <> y)

-- The flags of a conversion change nothing in a text without a width.
unfoldable pub is_flag : Char → Bool
is_flag c = has_sub (String.◌∷◌ c "") " #+-0"

-- Widths, precisions and lengths, and the conversions `r` and `a`, are left open.
unfoldable pub is_left_open : Char → Bool
is_left_open c = has_sub (String.◌∷◌ c "") "123456789.hlLra"

-- `*` wants a number and `(` a dict; the conversions of numbers want a number, and `c` one character.
unfoldable pub wants_other : Char → Bool
wants_other c = has_sub (String.◌∷◌ c "") "*(diuoxXeEfFgGc"

-- What Python raises for a conversion that is not `%s` or `%%`: a TypeError if there is no argument
-- left or the argument is of another type, and a ValueError if there is no such conversion.
unfoldable pub refuse_conversion : Bool → Char → Action String
refuse_conversion used c =
    if is_left_open c
    then raise outside_model
    else if used || wants_other c
    then raise type_error
    else raise value_error

-- `title % ref`: behind a `%` or not, and with `ref` used up or not. A title that ends in the middle
-- of a conversion is a ValueError, and one that does not use `ref` is a TypeError.
unfoldable pub format_one : Bool → Bool → String → String → Action String
format_one true used ref String.[] = raise value_error
format_one false used ref String.[] = if used then pure "" else raise type_error
format_one true used ref (String.◌∷◌ c s) =
    let flagged = format_one true used ref s in
    let percent = prepend "%" (format_one false used ref s) in
    let given = prepend ref (format_one false true ref s) in
    if is_flag c
    then flagged
    else if code c == 37
    then percent
    else if code c == 115 && not used
    then given
    else refuse_conversion used c
format_one false used ref (String.◌∷◌ c s) =
    let conversion = format_one true used ref s in
    let plain = prepend (String.◌∷◌ c "") (format_one false used ref s) in
    if code c == 37 then conversion else plain

unfoldable pub number_target : Node → Action String
number_target node =
    let refid = or_default "" (attrs node).refid in
    if nonempty refid
    then (do file ← curfile; pure (file <> (":" <> refid)))
    else pure (replace "#" ":" (drop_first (or_default "" (attrs node).refuri)))

unfoldable pub visit_number_reference : Env → Node → Method
visit_number_reference env node = do
  i ← number_target node
  let title = replace "\\%s" "%s" (translate env.escape (or_default "%s" (attrs node).title))
  shown ← format_one false false ("\\ref{" <> (idescape env i <> "}")) (escape_abbr title)
  emit ("\\hyperref[" <> (idescape env i <> ("]{" <> (shown <> "}"))))
  raise skip_node
