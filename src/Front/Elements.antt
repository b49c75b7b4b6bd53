-- ===== src/Front/Elements.antt =====
-- The elements that `__init__` of source/_exts/pearson/writer.py fills the header with.
use pymotw.Prelude.{
  ℕ, ◌+◌, ◌-◌, String, ◌<>◌, Bool, Option, none, some, List, [], ◌∷◌, if◌then◌else◌, nonempty,
  or_default, ◌=ˢ◌, ltb, str, join, map,
}
use pymotw.Writer.State.{Env, Signal, ok, raised, top_sectionlevel}
use pymotw.Front.{
  Babel, format_docclass, get_language, is_supported_language, get_shorthandoff, uses_cyrillic,
  babel_renewcommand, babel_defmacro, generate_numfig_format,
}

-- A dict from the names of elements to texts.
abbrev pub Elements : Type 0
Elements = List (String × String)

unfoldable pub set_element : String → String → Elements → Elements
set_element k v [] = (k, v) ∷ []
set_element k v ((j, w) ∷ d) = if j =ˢ k then (j, v) ∷ d else (j, w) ∷ set_element k v d

unfoldable pub element_of : String → Elements → Option String
element_of k [] = none
element_of k ((j, w) ∷ d) = if j =ˢ k then some w else element_of k d

-- elements.update(more)
unfoldable pub update_elements : Elements → Elements → Elements
update_elements [] d = d
update_elements ((k, v) ∷ more) d = update_elements more (set_element k v d)

-- elements[k] += v, of an element that is there
unfoldable pub extend_element : String → String → Elements → Elements
extend_element k v d = set_element k (or_default "" (element_of k d) <> v) d

abbrev pub default_elements : Elements
default_elements =
    ("papersize", "letterpaper")
    ∷ ("pointsize", "10pt")
    ∷ ("classoptions", "")
    ∷ ("extraclassoptions", "")
    ∷ ("passoptionstopackages", "")
    ∷ ("inputenc", "\\ifPDFTeX\n  \\usepackage[utf8]{inputenc}\n\\fi")
    ∷ (
      "utf8extra",
      "\\ifdefined\\DeclareUnicodeCharacter\n  \\DeclareUnicodeCharacter{00A0}{\\nobreakspace}\n\\fi",
    )
    ∷ ("cmappkg", "\\usepackage{cmap}")
    ∷ ("fontenc", "\\usepackage[T1]{fontenc}")
    ∷ ("amsmath", "\\usepackage{amsmath,amssymb,amstext}")
    ∷ ("babel", "\\usepackage{babel}")
    ∷ ("fontpkg", "\\usepackage{times}")
    ∷ ("fncychap", "\\usepackage[Bjarne]{fncychap}")
    ∷ ("longtable", "\\usepackage{longtable}")
    ∷ ("usepackages", "")
    ∷ ("numfig_format", "")
    ∷ ("contentsname", "")
    ∷ ("preamble", "")
    ∷ ("title", "")
    ∷ ("date", "")
    ∷ ("release", "")
    ∷ ("author", "")
    ∷ ("logo", "")
    ∷ ("releasename", "Release")
    ∷ ("makeindex", "\\makeindex")
    ∷ ("shorthandoff", "")
    ∷ ("maketitle", "\\maketitle")
    ∷ ("tableofcontents", "\\tableofcontents")
    ∷ ("footer", "")
    ∷ ("printindex", "\\printindex")
    ∷ ("transition", "\n\n\\bigskip\\hrule{}\\bigskip\n\n")
    ∷ ("figure_align", "htbp")
    ∷ ("tocdepth", "")
    ∷ ("pageautorefname", "")
    ∷ ("doctype", "DOCTYPENOTSET")
    ∷ []

-- The settings of the document and of the builder that are read, with what Sphinx and the file
-- system answer: the date of today in its format, and the base name of the logo.
pub record Setup : Type 0 where
  pub paper_size : String
  pub font_size : String
  pub docclass : String
  pub title : String
  pub release : String
  pub author : String
  pub releasename : String
  pub preamble : String
  pub indexname : String
  pub doctype : String
  pub keep_old_macro_names : Bool
  pub latex_docclass : Elements
  pub today : String
  pub formatted_date : String
  pub logo_name : Option String
  pub babel : Babel
  pub language : Option String
  pub usepackages : List (String × String)
  pub latex_elements : Elements
  pub tocdepth : ℕ
  pub contentsname : Option String
  pub page : String
  pub numfig_figure : String
  pub numfig_table : String
  pub numfig_code : String

unfoldable pub papersize : String → String
papersize paper = if nonempty paper then paper <> "paper" else "letterpaper"

unfoldable pub class_of : Setup → String
class_of c =
    if c.docclass =ˢ "howto"
    then or_default "article" (element_of "howto" c.latex_docclass)
    else or_default "report" (element_of "manual" c.latex_docclass)

-- The elements up to the logo.
unfoldable pub basic_elements : Setup → Elements
basic_elements c =
    let filled =
      update_elements
        (("wrapperclass", format_docclass c.docclass)
          ∷ ("papersize", papersize c.paper_size)
          ∷ ("pointsize", c.font_size)
          ∷ ("title", c.title)
          ∷ ("release", c.release)
          ∷ ("author", c.author)
          ∷ ("releasename", c.releasename)
          ∷ ("preamble", c.preamble)
          ∷ ("indexname", c.indexname)
          ∷ ("doctype", c.doctype)
          ∷ (
            "keepoldnames",
            if c.keep_old_macro_names
                then "\\sphinxKeepOldNamestrue"
                else "\\sphinxKeepOldNamesfalse",
          )
          ∷ ("docclass", class_of c)
          ∷ ("date", if nonempty c.today then c.today else c.formatted_date)
          ∷ [])
        default_elements in
    elim c.logo_name [
      | none ↦ filled
      | some logo ↦ set_element "logo" ("\\sphinxincludegraphics{" <> (logo <> "}\\par")) filled
    ]

-- Japanese goes without babel and without fncychap.
unfoldable pub japanese_elements : String → Elements → Elements
japanese_elements language d =
    if language =ˢ "ja"
    then update_elements (("classoptions", ",dvipdfmx") ∷ ("babel", "") ∷ ("fncychap", "") ∷ []) d
    else d

unfoldable pub language_elements : Babel → Option String → Elements → Elements
language_elements b none d = d
language_elements b (some String.[]) d = d
language_elements b (some language) d =
    let named =
      update_elements
        (("shorthandoff", get_shorthandoff b) ∷ ("fncychap", "\\usepackage[Sonny]{fncychap}") ∷ [])
        d in
    japanese_elements language (if uses_cyrillic b then set_element "fontpkg" "" named else named)

-- The warning that goes with it.
unfoldable pub language_warnings : Babel → Option String → List String
language_warnings b none = []
language_warnings b (some String.[]) = []
language_warnings b (some language) =
    if is_supported_language b then [] else ("no Babel option known for language " <> language) ∷ []

unfoldable pub declare_package : String × String → String
declare_package (packagename, options) =
    if nonempty options
    then "\\usepackage[" <> (options <> ("]{" <> (packagename <> "}")))
    else "\\usepackage{" <> (packagename <> "}")

-- With the packages, the elements of the user, and the class options of the user.
unfoldable pub user_elements : Setup → Elements → Elements
user_elements c d =
    let all =
      update_elements c.latex_elements
        (extend_element "usepackages" (join "\n" (map declare_package c.usepackages)) d) in
    let extra = or_default "" (element_of "extraclassoptions" all) in
    if nonempty extra then extend_element "classoptions" ("," <> extra) all else all

unfoldable pub set_contents : String → Babel → Option String → Elements → Elements
set_contents babel b none d = d
set_contents babel b (some name) d =
    if nonempty name
    then set_element "contentsname" (babel_renewcommand babel b "\\contentsname" name) d
    else d

-- What comes behind the elements of the user; a depth of 0 counts as none, and one below 0 is left
-- out here.
unfoldable pub last_elements : Env → Setup → Elements → Signal Elements
last_elements env c d =
    let depth =
      if ltb 0 c.tocdepth
      then set_element "tocdepth"
          ("\\setcounter{tocdepth}{" <> (str (c.tocdepth + top_sectionlevel - 2) <> "}")) d
      else d in
    let babel = or_default "" (element_of "babel" depth) in
    let named = set_contents babel c.babel c.contentsname depth in
    let paged =
      set_element "pageautorefname" (babel_defmacro babel c.babel "\\pageautorefname" c.page)
        named in
    elim (generate_numfig_format env babel c.babel c.numfig_figure c.numfig_table c.numfig_code) [
      | ok formats ↦ ok (set_element "numfig_format" formats paged)
      | raised e ↦ raised e
    ]

unfoldable pub elements : Env → Setup → Signal Elements
elements env c =
    let named = extend_element "classoptions" ("," <> get_language c.babel) (basic_elements c) in
    last_elements env c (user_elements c (language_elements c.babel c.language named))
