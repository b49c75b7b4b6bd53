-- ===== src/Writer/Inline.antt =====
-- Literals, abbreviations, inline classes and plain text of source/_exts/pearson/writer.py, and in its children the references,
-- the citations and the footnotes.
mod References
mod Notes
unfoldable pub use References.*
unfoldable pub use Notes.*
use pymotw.Prelude.{
  ℕ, zero, suc, String, ◌<>◌, Bool, true, false, Option, none, some, List, [], ◌∷◌, ◌++◌, not, ◌&&◌,
  ◌||◌, ◌=ˢ◌, inc, dec, truthy, if◌then◌else◌, or_default, is_some, join, str, nonempty, contains,
  add, sorted, length, take, drop, starts_with, has_sub, replace, drop_first, strip, translate,
  is_space, code, concat, ◌==◌,
}
use pymotw.Writer.Node.{Node, Kind, element, kind, attrs, children, to_list}
use pymotw.Writer.State.{
  Env, Method, Action, Translator, Piece, Footnotes, Bibitem, text, num, pure, raise, need, gets,
  update, emit, emit_all, emit_chars, push_context, pop_context, emit_context, curfile, warn_here,
  contents, ◌>>=◌, ◌>>◌, skip_node, skip_children, type_error, list_index_out_of_range,
  attribute_error,
}
use pymotw.Writer.Text.{hypertarget, hyperlink, hyperpageref, idescape, encode, encode_uri}

unfoldable pub visit_literal_emphasis : Node → Method
visit_literal_emphasis node = do
  emit "\\emph{\\texttt{"
  update (λ s. record s { no_contractions = inc s.no_contractions })

unfoldable pub depart_literal_emphasis : Node → Method
depart_literal_emphasis node = do
  emit "}}"
  update (λ s. record s { no_contractions = dec s.no_contractions })

unfoldable pub visit_literal_strong : Node → Method
visit_literal_strong node = do
  emit "\\textbf{\\texttt{"
  update (λ s. record s { no_contractions = inc s.no_contractions })

unfoldable pub depart_literal_strong : Node → Method
depart_literal_strong node = do
  emit "}}"
  update (λ s. record s { no_contractions = dec s.no_contractions })

-- spell out the explanation once
unfoldable pub explain : Env → String → Option String → Bool → Method
explain env abbr (some explanation) false = do
  e ← encode env explanation
  push_context (text ("} (" <> (e <> ")")))
  update (λ s. record s { handled_abbrs = add abbr s.handled_abbrs })
explain env abbr _ _ = push_context (text "}")

unfoldable pub visit_abbreviation : Env → Node → Method
visit_abbreviation env node = do
  emit "\\textsc{"
  handled ← gets (λ s. contains (env.astext node) s.handled_abbrs)
  explain env (env.astext node) (attrs node).explanation handled

unfoldable pub visit_literal : Node → Method
visit_literal node = do
  update (λ s. record s { no_contractions = inc s.no_contractions })
  titled ← gets (λ s. s.in_title)
  emit (if titled then "\\texttt{" else "\\sphinxcode{")

unfoldable pub depart_literal : Node → Method
depart_literal node = do
  update (λ s. record s { no_contractions = dec s.no_contractions })
  emit "}"

-- classes in [['menuselection'], ['guilabel']], [['accelerator']], any, or none
unfoldable pub inline_classes : List String → Bool → Method
inline_classes [] titled = push_context (text "")
inline_classes (c ∷ []) titled =
    if c =ˢ "menuselection" || c =ˢ "guilabel"
    then (do emit "\\sphinxmenuselection{"; push_context (text "}"))
    else if c =ˢ "accelerator"
    then (do emit "\\sphinxaccelerator{"; push_context (text "}"))
    else if titled
    then push_context (text "")
    else (do emit ("\\DUrole{" <> (c <> "}{")); push_context (text "}"))
inline_classes (c ∷ d ∷ cs) titled =
    if titled
    then push_context (text "")
    else (do emit ("\\DUrole{" <> (join "," (c ∷ d ∷ cs) <> "}{")); push_context (text "}"))

unfoldable pub visit_inline : Node → Method
visit_inline node = do titled ← gets (λ s. s.in_title); inline_classes (attrs node).classes titled

unfoldable pub visit_text : Env → Node → Method
visit_text env node = do
  e ← encode env (env.astext node)
  plain ← gets (λ s. not (truthy s.no_contractions))
  emit (if plain then env.educate_quotes e else e)
