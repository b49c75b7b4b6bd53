-- ===== src/Writer/Balance/Neutral.antt =====
-- The nodes that restore the frame in their visit and in their departure each.
use pymotw.Prelude.{◌≡◌, Bool, true, false, List}
use pymotw.Writer.Node.{Node, Kind}
use pymotw.Writer.State.{Env, Method}
use pymotw.Writer.Dispatch.{visit, depart, pass}
use pymotw.Writer.Balance.Frame.{fits, flow}
use pymotw.Writer.Balance.Rules.{Good}
use pymotw.Writer.Balance.Moves.{any_place}
use pymotw.Writer.Balance.Brackets.{visiting, walking}
use pymotw.Writer.Balance.Blocks.{block_rules, Good-visit_acks, Good-visit_termsep}
use pymotw.Writer.Balance.Parts.{
  part_rules, Good-visit_tabular_col_spec, Good-visit_label, Good-visit_citation_reference,
  Good-visit_raw, Good-visit_literal_block, Good-visit_number_reference, Good-visit_index,
}
use pymotw.Writer.Balance.Special.{
  Good-visit_math, Good-visit_option_string, Good-depart_option, Good-visit_footnote_reference,
  Good-visit_highlightlang,
}

-- The kinds that do so.
abbrev pub is_neutral : Kind → Bool
is_neutral Kind.document = false
is_neutral Kind.start_of_file = false
is_neutral Kind.table = false
is_neutral Kind.thead = false
is_neutral Kind.tbody = false
is_neutral Kind.caption = false
is_neutral Kind.figure = false
is_neutral Kind.container = false
is_neutral Kind.title = false
is_neutral Kind.subtitle = false
is_neutral Kind.rubric = false
is_neutral Kind.entry = false
is_neutral Kind.reference = false
is_neutral Kind.abbreviation = false
is_neutral Kind.citation = false
is_neutral Kind.option_group = false
is_neutral Kind.inline = false
is_neutral Kind.term = false
is_neutral Kind.field_name = false
is_neutral Kind.desc_addname = false
is_neutral Kind.desc_name = false
is_neutral Kind.collected_footnote = false
is_neutral Kind.hlist = false
is_neutral Kind.literal_emphasis = false
is_neutral Kind.literal_strong = false
is_neutral Kind.manpage = false
is_neutral Kind.literal = false
is_neutral _ = true

ruleset visits = (
  block_rules, part_rules, Good-visit_acks, Good-visit_termsep, Good-visit_tabular_col_spec,
  Good-visit_label, Good-visit_citation_reference, Good-visit_raw, Good-visit_literal_block,
  Good-visit_number_reference, Good-visit_index, Good-visit_math, Good-visit_option_string,
  Good-visit_highlightlang,
)

pub visit-Good :
    {held : Bool} (env : Env) (walk : Node → Method) (up : List Node) (n : Node)
    → ((m : Node) → fits true flow m ≡ true → Good any_place (walk m))
    → (k : Kind) → is_neutral k ≡ true
    → Good (visiting held) (visit env walk k up n)
unfolding visit pass
visit-Good env walk up n w Kind.document e = cc
visit-Good env walk up n w Kind.start_of_file e = cc
visit-Good env walk up n w Kind.table e = cc
visit-Good env walk up n w Kind.thead e = cc
visit-Good env walk up n w Kind.tbody e = cc
visit-Good env walk up n w Kind.caption e = cc
visit-Good env walk up n w Kind.figure e = cc
visit-Good env walk up n w Kind.container e = cc
visit-Good env walk up n w Kind.title e = cc
visit-Good env walk up n w Kind.subtitle e = cc
visit-Good env walk up n w Kind.rubric e = cc
visit-Good env walk up n w Kind.entry e = cc
visit-Good env walk up n w Kind.reference e = cc
visit-Good env walk up n w Kind.abbreviation e = cc
visit-Good env walk up n w Kind.citation e = cc
visit-Good env walk up n w Kind.option_group e = cc
visit-Good env walk up n w Kind.inline e = cc
visit-Good env walk up n w Kind.term e = cc
visit-Good env walk up n w Kind.field_name e = cc
visit-Good env walk up n w Kind.desc_addname e = cc
visit-Good env walk up n w Kind.desc_name e = cc
visit-Good env walk up n w Kind.collected_footnote e = cc
visit-Good env walk up n w Kind.hlist e = cc
visit-Good env walk up n w Kind.literal_emphasis e = cc
visit-Good env walk up n w Kind.literal_strong e = cc
visit-Good env walk up n w Kind.manpage e = cc
visit-Good env walk up n w Kind.literal e = cc
visit-Good env walk up n w Kind.footnote_reference e = Good-visit_footnote_reference walk w env n
visit-Good env walk up n w (Kind.named_admonition a) e = search visits depth 30
visit-Good env walk up n w _ e = search visits depth 30

pub depart-Good :
    {held : Bool} (env : Env) (walk : Node → Method) (up : List Node) (n : Node) (k : Kind)
    → is_neutral k ≡ true
    → Good (walking held) (depart env walk k up n)
unfolding depart pass
depart-Good env walk up n Kind.document e = cc
depart-Good env walk up n Kind.start_of_file e = cc
depart-Good env walk up n Kind.table e = cc
depart-Good env walk up n Kind.thead e = cc
depart-Good env walk up n Kind.tbody e = cc
depart-Good env walk up n Kind.caption e = cc
depart-Good env walk up n Kind.figure e = cc
depart-Good env walk up n Kind.container e = cc
depart-Good env walk up n Kind.title e = cc
depart-Good env walk up n Kind.subtitle e = cc
depart-Good env walk up n Kind.rubric e = cc
depart-Good env walk up n Kind.entry e = cc
depart-Good env walk up n Kind.reference e = cc
depart-Good env walk up n Kind.abbreviation e = cc
depart-Good env walk up n Kind.citation e = cc
depart-Good env walk up n Kind.option_group e = cc
depart-Good env walk up n Kind.inline e = cc
depart-Good env walk up n Kind.term e = cc
depart-Good env walk up n Kind.field_name e = cc
depart-Good env walk up n Kind.desc_addname e = cc
depart-Good env walk up n Kind.desc_name e = cc
depart-Good env walk up n Kind.collected_footnote e = cc
depart-Good env walk up n Kind.hlist e = cc
depart-Good env walk up n Kind.literal_emphasis e = cc
depart-Good env walk up n Kind.literal_strong e = cc
depart-Good env walk up n Kind.manpage e = cc
depart-Good env walk up n Kind.literal e = cc
depart-Good env walk up n Kind.option e = Good-depart_option n
depart-Good env walk up n _ e = search (block_rules, part_rules) depth 30
