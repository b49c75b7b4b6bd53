-- ===== src/Writer/Laws/Examples.antt =====
-- The theorems on source/_exts/pearson/writer.py at concrete documents and states.
use pymotw.Prelude.{
  ◌⊎◌, ℕ, zero, suc, ◌≡◌, refl, String, ◌<>◌, Bool, true, false, Option, some, none, List, [], ◌∷◌,
  str, inl, leb, ◌&&◌, ◌==◌, add_all, strip, ◌++◌,
}
use pymotw.Writer.Node.{Node, Nodes, Kind, plain, element, nil, cons}
use pymotw.Writer.State.{
  Bibitem, Env, Translator, Method, Table, new_table, ok, ◌>>◌, init, raise, recursion_error,
}
use pymotw.Writer.Walk.{walk_step, IsWalker}
use pymotw.Writer.Balance.Frame.{fits, frame}
use pymotw.Writer.Balance.Rules.{Settled}
use pymotw.Writer.Balance.Brackets.{walking}
use pymotw.Writer.Balance.Moves.{Moved}
use pymotw.Writer.Balance.Whole.{walkabout-Settled}
use pymotw.Writer.Balance.Document.{documented, walkabout-Moved}
use pymotw.Writer.Text.{push_hyperlink_ids, pop_hyperlink_ids, restrict_footnote, lookup_ids}
use pymotw.Writer.Structure.{widest_label, visit_section, depart_section}
use pymotw.Writer.Inline.{visit_footnote_reference, top_note}
use pymotw.Writer.Laws.Clines.{Ruled, depart_row-Ruled}
use pymotw.Writer.Laws.Labels.{pop-push_hyperlink_ids}
use pymotw.Writer.Laws.Levels.{
  NoLonger, Among, widest_label-NoLonger, level_of, depart-visit_section,
}
use pymotw.Writer.Laws.Footnotes.{unrestrict-restrict_footnote, visit-visit_footnote_reference}

-- The text of a node, which is the number of a note here.
abbrev text_of : Node → String
text_of (element u k a s c) = s

abbrev pub env : Env
env = record {
  escape = λ c. String.◌∷◌ c String.[];
  replace_map = λ c. String.◌∷◌ c String.[];
  educate_quotes = λ s. s;
  localize = λ s. s;
  astext = text_of;
  clean_astext = text_of;
  traverse = λ n k. [];
  is_text_element = λ k. false;
  is_admonition = λ k. false;
  figtype = λ n. none;
  numfig_title = λ n. false;
  percent_format = λ s. s;
  scale_format = str;
  split_into = λ n k s. inl "unsupported";
  images = λ s. none;
  transition = "";
  highlight_language = "python";
  maxsize = 9223372036854775807;
  latex_show_pagerefs = false;
}

abbrev start : Translator
unfolding init
start = init env "The book"

-- Python's walk, as a function.
unfoldable walkabout : ℕ → List Node → Node → Method
unfolding raise
walkabout zero up n = raise recursion_error
walkabout (suc limit) up n = walk_step env (walkabout limit) up n

walkabout-IsWalker : IsWalker env walkabout
unfolding walkabout
walkabout-IsWalker = record { at_limit = λ up n. refl; step = λ limit up n. refl }

-- A rubric in emphasis within a paragraph.
abbrev example : Node
example = element 0 Kind.paragraph plain "" (
    cons
      (element 1 Kind.rubric plain "Notes"
        (cons (element 2 Kind.literal plain "" (cons (element 3 Kind.text plain "x" nil) nil)) nil))
      nil)

-- A table with a head, a body and one cell, which holds the paragraph.
abbrev cell : Node
cell = element 10 Kind.entry plain "" (cons example nil)

abbrev table : Node
table = element 11 Kind.table plain "" (
    cons
      (element 12 Kind.tgroup plain "" (
        cons
          (element 13 Kind.thead plain "" (cons (element 14 Kind.row plain "" (cons cell nil)) nil))
          (cons
            (element 15 Kind.tbody plain ""
              (cons (element 16 Kind.row plain "" (cons cell nil)) nil))
            nil)))
      nil)

walkabout-Settled_example : Settled (walking false) start (walkabout 12 [] table start)
unfolding fits pymotw.Writer.Balance.Frame.spot_below pymotw.Writer.Balance.Frame.is_under_group
    pymotw.Writer.Balance.Frame.allowed start
walkabout-Settled_example =
    walkabout-Settled env walkabout walkabout-IsWalker 12 [] false table start refl
      (record { notes = (tt, tt); clear = λ e. refl; open_table = λ e. cc; unmerged = refl })

-- A document of one section with the table.
abbrev chapter : Nodes
chapter =
    cons
      (element 17 Kind.section plain "" (
        cons
          (element 18 Kind.title plain "Tables"
            (cons (element 20 Kind.text plain "Tables" nil) nil))
          (cons table nil)))
      nil

walkabout-Moved_example :
    Moved
      (documented "" (frame start))
      (walkabout 20 [] (element 19 Kind.document plain "" chapter) start)
unfolding fits pymotw.Writer.Balance.Frame.spot_below pymotw.Writer.Balance.Frame.is_under_group
    pymotw.Writer.Balance.Frame.allowed start
walkabout-Moved_example =
    walkabout-Moved env walkabout walkabout-IsWalker 20 19 plain "" chapter start refl
      (record { notes = (tt, tt); clear = λ e. refl; open_table = λ e. cc; unmerged = refl })

abbrev two_columns : Table
unfolding new_table
two_columns = record new_table { col = 2; colcount = 2 }

-- Behind the second cell of a row.
abbrev in_row : Translator
in_row = record start { table = some two_columns }

depart_row-Ruled_example : Ruled in_row two_columns
unfolding two_columns start
depart_row-Ruled_example = depart_row-Ruled in_row two_columns refl refl refl

pop-push_hyperlink_ids_example :
    ((push_hyperlink_ids "table" ("a" ∷ []) >> pop_hyperlink_ids "table") start).0
    ≡ ok (add_all ("a" ∷ []) (lookup_ids "table" start.next_hyperlink_ids))
pop-push_hyperlink_ids_example = (pop-push_hyperlink_ids "table" "figure" ("a" ∷ []) start refl).0

abbrev section : Node
section = element 5 Kind.section plain "" nil

abbrev in_chapter : Translator
in_chapter = record start { sectionlevel = some 3; this_is_the_title = false }

-- A section below, with nothing in it.
abbrev subsection : Method
subsection = visit_section example >> depart_section example

abbrev behind_subsection : Translator
behind_subsection = (subsection (visit_section section in_chapter).1).1

depart-visit_section_example :
    (level_of (visit_section section in_chapter) ≡ some 4)
    × (level_of ((visit_section section >> (subsection >> depart_section section)) in_chapter)
        ≡ some 3)
unfolding visit_section depart_section pymotw.Writer.Structure.deeper ◌>>◌ pymotw.Writer.State.◌>>=◌
    pymotw.Writer.State.gets pymotw.Writer.State.update pymotw.Writer.State.need
    pymotw.Writer.State.emit pymotw.Writer.State.emit_all pymotw.Writer.State.pure
depart-visit_section_example =
    depart-visit_section in_chapter behind_subsection section subsection 3 refl refl (inl refl)
      subsection_returns subsection_level
  where
    subsection_returns :
        subsection (visit_section section in_chapter).1 ≡ (ok tt, behind_subsection)
    subsection_returns = refl

    subsection_level :
        behind_subsection.sectionlevel ≡ (visit_section section in_chapter).1.sectionlevel
    subsection_level = refl

abbrev caption : Node
caption = element 6 Kind.caption plain "" nil

unrestrict-restrict_footnote_example :
    (restrict_footnote section start).1.footnote_restricted ≡ some 5
unfolding start
unrestrict-restrict_footnote_example =
    (unrestrict-restrict_footnote (walkabout 9 []) section caption start refl refl).0

abbrev reference : Node
reference = element 7 Kind.footnote_reference plain "1" nil

abbrev note : Node
note = element 8 Kind.collected_footnote plain "" nil

abbrev in_title : Translator
in_title = record start {
  footnotestack = (("1", note, false) ∷ []) ∷ [];
  footnote_restricted = some 5;
  pending_footnotes = [];
}

visit-visit_footnote_reference_example :
    (visit_footnote_reference env (walkabout 9 []) reference in_title).1.pending_footnotes
    ≡ in_title.pending_footnotes ++ (note ∷ [])
unfolding top_note pymotw.Writer.Inline.find_note pymotw.Prelude.strip pymotw.Prelude.lstrip
    pymotw.Prelude.rstrip pymotw.Prelude.is_space
visit-visit_footnote_reference_example =
    (visit-visit_footnote_reference env (walkabout 9 []) reference note 5 in_title refl refl).0

abbrev bibliography : List Bibitem
bibliography =
    record { citelabel = "A1"; citetext = ""; bibdoc = ""; citeid = "" }
    ∷ record { citelabel = "Bee"; citetext = ""; bibdoc = ""; citeid = "" }
    ∷ []

widest_label-NoLonger_example :
    NoLonger (widest_label "" bibliography) bibliography
    × ((widest_label "" bibliography ≡ "") ⊎ Among (widest_label "" bibliography) bibliography)
widest_label-NoLonger_example = widest_label-NoLonger bibliography
