-- ===== src/Front.antt =====
-- What source/_exts/pearson/writer.py writes beside the walk: the babel commands, the formats of the
-- numbered floats and the indices. The class Babel that ExtBabel extends is docutils': its language
-- and what it answers are fields here.
mod Elements
mod Formats
mod Updates
mod Examples
use pymotw.Prelude.{
  String, ◌<>◌, Bool, true, false, Option, none, some, List, [], ◌∷◌, if◌then◌else◌, nonempty,
  starts_with, contains, translate, not, ◌&&◌, ◌||◌, ◌=ˢ◌, is_some, drop_first,
}
use pymotw.Writer.State.{
  Env, Action, Signal, ok, raised, Exception, list_index_out_of_range, pure, ◌>>=◌,
}
use pymotw.Writer.Text.{encode, idescape}
use pymotw.Writer.Inline.{escape_abbr}

-- `self.language`, and the `get_language()` of the base class, empty for no language.
pub record Babel : Type 0 where
  pub language : String
  pub base_language : String

-- The part before the first underscore.
unfoldable pub short_language : String → String
short_language String.[] = ""
short_language (String.◌∷◌ c s) =
    let rest = short_language s in
    if starts_with "_" (String.◌∷◌ c s) then "" else String.◌∷◌ c rest

unfoldable pub get_shorthandoff : Babel → String
get_shorthandoff b =
    if contains (short_language b.language) (
      "de" ∷ "ngerman" ∷ "sl" ∷ "slovene" ∷ "pt" ∷ "portuges" ∷ "es" ∷ "spanish" ∷ "nl" ∷ "dutch"
      ∷ "pl" ∷ "polish" ∷ "it" ∷ "italian" ∷ [])
    then "\\shorthandoff{\"}"
    else if contains (short_language b.language) ("tr" ∷ "turkish" ∷ [])
    then "\\shorthandoff{=}"
    else ""

unfoldable pub uses_cyrillic : Babel → Bool
uses_cyrillic b = contains (short_language b.language) (
    "bg" ∷ "bulgarian" ∷ "kk" ∷ "kazakh" ∷ "mn" ∷ "mongolian" ∷ "ru" ∷ "russian" ∷ "uk"
    ∷ "ukrainian" ∷ [])

unfoldable pub is_supported_language : Babel → Bool
is_supported_language b = nonempty b.base_language

-- fallback to english
unfoldable pub get_language : Babel → String
get_language b = if nonempty b.base_language then b.base_language else "english"

-- elements['babel'] comes first in the next two
unfoldable pub babel_renewcommand : String → Babel → String → String → String
babel_renewcommand babel b command definition =
    if nonempty babel
    then "\\addto\\captions"
      <> (get_language b <> ("{\\renewcommand{" <> (command <> ("}{" <> (definition <> "}}\n")))))
    else "\\renewcommand{" <> (command <> ("}{" <> (definition <> "}\n")))

unfoldable pub babel_defmacro : String → Babel → String → String → String
babel_defmacro babel b name definition =
    if nonempty babel
    then "\\addto\\extras"
      <> (get_language b <> ("{\\def" <> (name <> ("{" <> (definition <> "}}\n")))))
    else "\\def" <> (name <> ("{" <> (definition <> "}\n")))

unfoldable pub format_docclass : String → String
format_docclass docclass =
    if contains docclass ("howto" ∷ "manual" ∷ []) then "sphinx" <> docclass else docclass

-- text.split('%s', 1): what stands before, and what stands behind if there is a '%s'
unfoldable pub split_format : String → String × Option String
split_format String.[] = ("", none)
split_format (String.◌∷◌ c s) =
    let (before, behind) = split_format s in
    if starts_with "%s" (String.◌∷◌ c s)
    then ("", some (drop_first s))
    else (String.◌∷◌ c before, behind)

unfoldable pub escaped : Env → String → String
escaped env s = escape_abbr (translate env.escape s)

-- The format of the figures or of the tables, by the name of the float.
unfoldable pub float_format : Env → String → Babel → String → String × Option String → String
float_format env babel b name (before, none) =
    "\\def\\fnum@" <> (name <> ("{" <> (escaped env before <> "}\n")))
float_format env babel b name (before, some behind) =
    babel_renewcommand babel b ("\\" <> (name <> "name")) (escaped env before)
    <> (if nonempty behind
        then "\\makeatletter\n\\def\\fnum@"
          <> (name
              <> ("{\\"
                  <> (name
                      <> ("name\\the" <> (name <> (escaped env behind <> "}\n\\makeatother\n"))))))
        else "")

-- `if table[1]` is an IndexError where the format of the tables has no '%s'.
unfoldable pub code_format : Env → Option String → String × Option String → Signal String
code_format env table (before, none) = ok ""
code_format env none (before, some behind) = raised list_index_out_of_range
code_format env (some t) (before, some behind) =
    ok ("\\SetupFloatingEnvironment{literal-block}{name=" <> (escaped env before <> "}\n"))

unfoldable pub after_floats : String → Signal String → Signal String
after_floats s (ok t) = ok (s <> t)
after_floats s (raised e) = raised e

-- The formats of figures, tables and code blocks.
unfoldable pub generate_numfig_format :
    Env → String → Babel → String → String → String → Signal String
generate_numfig_format env babel b figure table codeblock =
    after_floats
      (float_format env babel b "figure" (split_format figure)
        <> float_format env babel b "table" (split_format table))
      (code_format env ((split_format table).1) (split_format codeblock))

-- An entry of an index: its name, document, anchor and extra text.
pub record IndexItem : Type 0 where
  pub name : String
  pub docname : String
  pub anchor : String
  pub extra : String

pub record DomainIndex : Type 0 where
  pub indexname : String
  pub localname : String
  pub content : List (String × List IndexItem)

-- latex_domain_indices: false, true, or a list of names
pub data IndicesConfig : Type 0 where
  no_indices all_indices : IndicesConfig
  listed : List String → IndicesConfig

unfoldable pub write_items : Env → List IndexItem → Action String
write_items env [] = pure ""
write_items env (e ∷ es) =
    let rest = write_items env es in
    if nonempty e.anchor
    then (do
      name ← encode env e.name
      extra ← encode env e.extra
      more ← rest
      pure (
          "\\item {\\texttt{"
          <> (name
              <> ("}}"
                  <> ((if nonempty e.extra then " \\emph{(" <> (extra <> ")}") else "")
                      <> (", \\pageref{"
                          <> (e.docname
                              <> (":" <> (idescape env e.anchor <> ("}\n" <> more))))))))))
    else rest

-- The letters of an index, with a space before all but the first.
unfoldable pub write_letters : Env → Bool → List (String × List IndexItem) → Action String
write_letters env first [] = pure ""
write_letters env first ((letter, items) ∷ content) = do
  a ← write_items env items
  more ← write_letters env false content
  pure (
      (if first then "" else "\\indexspace\n")
      <> ("\\bigletter{" <> (translate env.escape letter <> ("}\n" <> (a <> more)))))

unfoldable pub is_wanted : IndicesConfig → Bool → DomainIndex → Bool
is_wanted no_indices use_modindex i = false
is_wanted all_indices use_modindex i = use_modindex || not (i.indexname =ˢ "py-modindex")
is_wanted (listed names) use_modindex i =
    contains i.indexname names && (use_modindex || not (i.indexname =ˢ "py-modindex"))

unfoldable pub has_content : List (String × List IndexItem) → Bool
has_content [] = false
has_content (_ ∷ _) = true

-- The indices of all domains in their order, with what `generate` of each gives.
unfoldable pub generate_indices : Env → IndicesConfig → Bool → List DomainIndex → Action String
generate_indices env config use_modindex [] = pure ""
generate_indices env config use_modindex (i ∷ is) =
    let rest = generate_indices env config use_modindex is in
    if is_wanted config use_modindex i && has_content i.content
    then (do
      letters ← write_letters env true i.content
      more ← rest
      pure (
          "\\renewcommand{\\indexname}{"
          <> (i.localname
              <> ("}\n\\begin{theindex}\n\\def\\bigletter#1{{\\Large\\sffamily#1}\\nopagebreak\\vspace{1mm}}\n"
                  <> (letters <> ("\\end{theindex}\n" <> more))))))
    else rest
