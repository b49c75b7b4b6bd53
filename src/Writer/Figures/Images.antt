-- ===== src/Writer/Figures/Images.antt =====
-- Images and their lengths, and the labels of single ids, of source/_exts/pearson/writer.py.
use pymotw.Prelude.{
  ℕ, zero, suc, ◌+◌, String, ◌<>◌, Bool, true, false, Option, none, some, List, [], ◌∷◌, ◌++◌, map,
  not, ◌&&◌, ◌||◌, ◌==◌, ◌=ˢ◌, if◌then◌else◌, or_default, join, nonempty, has_sub, split, code,
  reverse, head?, leb,
}
use pymotw.Writer.Node.{Node, Kind, attrs}
use pymotw.Writer.State.{
  Env, Method, Action, text, pure, need, gets, emit, emit_all, ◌>>=◌, ◌>>◌, key_error,
}
use pymotw.Writer.Text.{hypertarget}

unfoldable pub is_digit : ℕ → Bool
is_digit n = leb 48 n && leb n 57

-- The longest prefix of digits, and the rest.
unfoldable pub span_digits : String → String × String
span_digits String.[] = ("", "")
span_digits (String.◌∷◌ c s) =
    let (d, r) = span_digits s in
    if is_digit (code c) then (String.◌∷◌ c d, r) else ("", String.◌∷◌ c s)

unfoldable pub after_point : String → String → String × String
after_point d String.[] = (d, "")
after_point d (String.◌∷◌ c s) =
    let (e, r) = span_digits s in
    if code c == 46 then (d <> (String.◌∷◌ c e), r) else (d, String.◌∷◌ c s)

-- re.match('(\d*\.?\d*)\s*(\S*)', width_str), which always matches: the amount and the unit.
unfoldable pub amount_unit : String → String × String
amount_unit s =
    let (d, r) = span_digits s in
    let (amount, rest) = after_point d r in (amount, or_default "" (head? (split rest)))

-- With `figure=False`, as all calls have it.
unfoldable pub latex_image_length : Env → String → Option String
latex_image_length env width =
    let (amount, unit) = amount_unit width in
    if not (nonempty unit) || unit =ˢ "px"
    then none
    else if unit =ˢ "%"
    then some (env.percent_format amount <> "\\linewidth")
    else some width

unfoldable pub graphics_option : Env → String → Option String → List String
graphics_option env name none = []
graphics_option env name (some w) = elim (latex_image_length env w) [
  | none ↦ []
  | some l ↦ (name <> ("=" <> l)) ∷ []
]

-- align_prepost[is_inline, align]
unfoldable pub align_prepost : Bool → String → Option (String × String)
align_prepost true align =
    if align =ˢ "top"
    then some ("", "")
    else if align =ˢ "middle"
    then some ("\\raisebox{-0.5\\height}{", "}")
    else if align =ˢ "bottom"
    then some ("\\raisebox{-\\height}{", "}")
    else none
align_prepost false align =
    if align =ˢ "center"
    then some ("{\\hspace*{\\fill}", "\\hspace*{\\fill}}")
    else if align =ˢ "left"
    then some ("{", "\\hspace*{\\fill}}")
    else if align =ˢ "right"
    then some ("{\\hspace*{\\fill}", "}")
    else none

-- `pre` before it is reversed, and `post`
unfoldable pub image_frame : Env → Bool → Node → List String × List String
image_frame env inlined node =
    let scaled : List String × List String = elim (attrs node).scale [
      | none ↦ ([], [])
      | some n ↦ (("\\scalebox{" <> (env.scale_format n <> "}{")) ∷ [], "}" ∷ [])
    ] in
    let aligned : Option (String × String) = elim (attrs node).align [
      | none ↦ none
      | some a ↦ align_prepost inlined a
    ] in
    let both : List String × List String = elim aligned [
      | none ↦ scaled
      | some (a, b) ↦ (scaled.0 ++ (a ∷ []), scaled.1 ++ (b ∷ []))
    ] in
    if inlined then both else (both.0 ++ ("\n\\noindent" ∷ []), both.1 ++ ("\n" ∷ []))

-- path.splitext on the last component: the dots in front of it do not count.
unfoldable pub last_dot : ℕ → Bool → ℕ → Option ℕ → String → Option ℕ
last_dot pos seen start found String.[] = found
last_dot pos seen start found (String.◌∷◌ c s) =
    last_dot (pos + 1) (not (code c == 47) && (seen || not (code c == 46))) start
      (if code c == 47 then none else if code c == 46 && seen then some pos else found) s

unfoldable pub take_text : ℕ → String → String
take_text zero s = ""
take_text (suc n) String.[] = ""
take_text (suc n) (String.◌∷◌ c s) = String.◌∷◌ c (take_text n s)

unfoldable pub drop_text : ℕ → String → String
drop_text zero s = s
drop_text (suc n) String.[] = ""
drop_text (suc n) (String.◌∷◌ c s) = drop_text n s

unfoldable pub splitext : String → String × String
splitext s = elim (last_dot 0 false 0 none s) [
  | none ↦ (s, "")
  | some i ↦ (take_text i s, drop_text i s)
]

unfoldable pub bracketed : List String → String
bracketed [] = ""
bracketed (o ∷ os) = "[" <> (join "," (o ∷ os) <> "]")

-- The `includegraphics` command of an image that is there.
unfoldable pub graphics_command : Bool → List String → String → String
graphics_command titled options uri =
    let shown = bracketed options in
    let (base, ext) = splitext uri in
    if titled && nonempty base
    then "\\lowercase{\\sphinxincludegraphics"
      <> (shown <> ("}{{" <> (base <> ("}" <> (ext <> "}")))))
    else "\\sphinxincludegraphics" <> (shown <> ("{{" <> (base <> ("}" <> (ext <> "}")))))

unfoldable pub write_image : Env → Bool → Node → String → Method
write_image env inlined node uri = if has_sub "://" uri then pure tt else (do
  emit_all (map text (reverse (image_frame env inlined node).0))
  titled ← gets (λ s. s.in_title)
  emit (
      graphics_command titled
        (graphics_option env "width" (attrs node).width
          ++ graphics_option env "height" (attrs node).height)
        uri)
  emit_all (map text (image_frame env inlined node).1))

unfoldable pub is_inline : Env → Option Kind → Bool
is_inline env none = false
is_inline env (some k) = env.is_text_element k

-- A missing image keeps its uri: `ignore_missing_images` is False.
unfoldable pub visit_image : Env → Option Kind → Node → Method
visit_image env parent node = do
  uri ← need key_error (attrs node).uri
  write_image env (is_inline env parent) node (or_default uri (env.images uri))

-- The label of one id, where there is one.
unfoldable pub first_target : Env → List String → Action String
first_target env [] = pure ""
first_target env (i ∷ is) = hypertarget env true false i

unfoldable pub uri_target : Env → Option String → Action String
uri_target env uri =
    let u = or_default "" uri in if nonempty u then hypertarget env false false u else pure ""
