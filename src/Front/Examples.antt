-- ===== src/Front/Examples.antt =====
-- The theorems on the header of source/_exts/pearson/writer.py: a format of the tables without a
-- place for the number, and a project that chooses its own fonts.
use pymotw.Prelude.{[], ◌∷◌, ◌≡◌, not, ◌&&◌, is_some, some, none, false, refl}
use pymotw.Writer.State.{ok}
use pymotw.Writer.Laws.Examples.{env}
use pymotw.Front.{Babel, split_format, generate_numfig_format}
use pymotw.Front.Elements.{Setup, element_of, elements, last_elements}
use pymotw.Front.Updates.{latest, is_derived, value_or, elements-latest}
use pymotw.Front.Formats.{is_raised, is_raised-generate_numfig_format}

abbrev english : Babel
english = record { language = "en"; base_language = "english" }

is_raised-generate_numfig_format_example :
    is_raised (generate_numfig_format env "" english "Fig. %s" "Table" "Listing %s")
    ≡ (is_some ((split_format "Listing %s").1) && not (is_some ((split_format "Table").1)))
is_raised-generate_numfig_format_example =
    is_raised-generate_numfig_format env "" english "Fig. %s" "Table" "Listing %s"

-- A project that chooses its own fonts.
abbrev setup : Setup
setup = record {
  paper_size = "a4";
  font_size = "11pt";
  docclass = "manual";
  title = "The book";
  release = "3";
  author = "";
  releasename = "Release";
  preamble = "";
  indexname = "Index";
  doctype = "manual";
  keep_old_macro_names = false;
  latex_docclass = [];
  today = "today";
  formatted_date = "";
  logo_name = none;
  babel = english;
  language = some "en";
  usepackages = [];
  latex_elements = ("fontpkg", "lmodern") ∷ ("pointsize", "12pt") ∷ [];
  tocdepth = 0;
  contentsname = none;
  page = "page";
  numfig_figure = "Fig. %s";
  numfig_table = "Table %s";
  numfig_code = "Listing %s";
}

header_made : elements env setup ≡ ok (value_or [] (elements env setup))
unfolding elements last_elements generate_numfig_format split_format pymotw.Front.after_floats
    pymotw.Front.code_format pymotw.Prelude.starts_with
header_made = refl

elements-latest_example : element_of "pointsize" (value_or [] (elements env setup)) ≡ some "12pt"
unfolding is_derived latest
elements-latest_example =
    elements-latest env setup (value_or [] (elements env setup)) "pointsize" "12pt" header_made refl
      refl
