-- ===== src/Writer/Dispatch.antt =====
-- The methods by the class of the node: docutils calls `visit_NAME` and `depart_NAME` of
-- source/_exts/pearson/writer.py by the name of the class. Those of one or two lines stand here.
use pymotw.Prelude.{String, ◌<>◌, Option, none, some, List, [], ◌∷◌}
use pymotw.Writer.Node.{Node, Kind, Admonition, kind}
use pymotw.Writer.State.{
  Env, Method, pure, raise, emit, emit_context, warn_here, ◌>>◌, skip_node, not_implemented,
}
use pymotw.Writer.Structure.{
  depart_document, depart_productionlist, depart_section, depart_start_of_file, depart_topic,
  visit_document, visit_highlightlang, visit_production, visit_productionlist, visit_section,
  visit_start_of_file, visit_topic, visit_transition,
}
use pymotw.Writer.Titles.{
  depart_caption, depart_rubric, depart_title, visit_caption, visit_rubric, visit_subtitle,
  visit_title,
}
use pymotw.Writer.Desc.{
  depart_desc, depart_desc_addname, depart_desc_name, depart_desc_parameter, depart_option,
  depart_option_group, visit_desc, visit_desc_addname, visit_desc_content, visit_desc_name,
  visit_desc_parameter, visit_desc_parameterlist, visit_desc_signature, visit_option,
  visit_option_argument, visit_option_group, visit_option_list, visit_option_string,
}
use pymotw.Writer.Lists.{
  depart_block_quote, depart_bullet_list, depart_hlist, depart_term, visit_acks, visit_block_quote,
  visit_bullet_list, visit_centered, visit_definition_list, visit_enumerated_list, visit_field_list,
  visit_hlist, visit_line_block, visit_paragraph, visit_term, visit_termsep,
}
use pymotw.Writer.Tables.{
  depart_entry, depart_row, depart_table, depart_tbody, visit_colspec, visit_entry, visit_row,
  visit_table, visit_tabular_col_spec, visit_tbody, visit_thead,
}
use pymotw.Writer.Inline.{
  depart_citation, depart_collected_footnote, depart_literal, depart_literal_emphasis,
  depart_literal_strong, visit_abbreviation, visit_citation, visit_citation_reference,
  visit_collected_footnote, visit_footnote_reference, visit_inline, visit_label, visit_literal,
  visit_literal_emphasis, visit_literal_strong, visit_number_reference, visit_reference, visit_text,
}
use pymotw.Writer.Figures.{
  depart_container, depart_figure, visit_container, visit_figure, visit_image, visit_index,
  visit_literal_block, visit_raw, visit_target,
}

-- The parent, of the ancestors with the nearest first.
abbrev pub parent : List Node → Option Node
parent [] = none
parent (p ∷ up) = some p

abbrev pub parent_kind : List Node → Option Kind
parent_kind [] = none
parent_kind (p ∷ up) = some (kind p)

abbrev pub grandparent : List Node → Option Node
grandparent [] = none
grandparent (p ∷ []) = none
grandparent (p ∷ g ∷ up) = some g

unfoldable pub admonition_name : Admonition → String
admonition_name Admonition.attention = "attention"
admonition_name Admonition.caution = "caution"
admonition_name Admonition.danger = "danger"
admonition_name Admonition.error = "error"
admonition_name Admonition.hint = "hint"
admonition_name Admonition.important = "important"
admonition_name Admonition.note = "note"
admonition_name Admonition.tip = "tip"
admonition_name Admonition.warning = "warning"

unfoldable pub pass : Method
pass = pure tt

unfoldable pub visit_math : Method
visit_math = do
  warn_here
      "using \"math\" markup without a Sphinx math extension active, please use one of the math extensions described at http://sphinx-doc.org/ext/math.html"
  raise skip_node

-- `visit_NAME`, with the ancestors of the node, and `walkabout` for the footnotes that are walked
-- from inside.
unfoldable pub visit : Env → (Node → Method) → Kind → List Node → Node → Method
visit env walk Kind.document up node = visit_document env node
visit env walk Kind.start_of_file up node = visit_start_of_file env node
visit env walk Kind.highlightlang up node = visit_highlightlang node
visit env walk Kind.section up node = visit_section node
visit env walk Kind.problematic up node = emit "{\\color{red}\\bfseries{}"
visit env walk Kind.topic up node = visit_topic node
visit env walk Kind.sidebar up node = visit_topic node
visit env walk Kind.glossary up node = pass
visit env walk Kind.productionlist up node = visit_productionlist node
visit env walk Kind.production up node = visit_production env node
visit env walk Kind.transition up node = visit_transition env node
visit env walk Kind.title up node = visit_title env (parent_kind up) node
visit env walk Kind.subtitle up node = visit_subtitle (parent_kind up) node
visit env walk Kind.desc up node = visit_desc node
visit env walk Kind.desc_signature up node = visit_desc_signature env (parent up) node
visit env walk Kind.desc_addname up node = visit_desc_addname node
visit env walk Kind.desc_type up node = pass
visit env walk Kind.desc_returns up node = emit "{ $\\rightarrow$ "
visit env walk Kind.desc_name up node = visit_desc_name node
visit env walk Kind.desc_parameterlist up node = visit_desc_parameterlist node
visit env walk Kind.desc_parameter up node = visit_desc_parameter node
visit env walk Kind.desc_optional up node = emit "\\sphinxoptional{"
visit env walk Kind.desc_annotation up node = emit "\\sphinxstrong{"
visit env walk Kind.desc_content up node = visit_desc_content node
visit env walk Kind.seealso up node = emit "\n\\tip{Related Reading}{"
visit env walk Kind.rubric up node = visit_rubric env node
visit env walk Kind.footnote up node = raise skip_node
visit env walk Kind.collected_footnote up node = visit_collected_footnote node
visit env walk Kind.label up node = visit_label env (parent up) node
visit env walk Kind.tabular_col_spec up node = visit_tabular_col_spec node
visit env walk Kind.table up node = visit_table node
visit env walk Kind.colspec up node = visit_colspec node
visit env walk Kind.tgroup up node = pass
visit env walk Kind.thead up node = visit_thead
visit env walk Kind.tbody up node = visit_tbody
visit env walk Kind.row up node = visit_row
visit env walk Kind.entry up node = visit_entry env (grandparent up) node
visit env walk Kind.acks up node = visit_acks env node
visit env walk Kind.bullet_list up node = visit_bullet_list node
visit env walk Kind.enumerated_list up node = visit_enumerated_list node
visit env walk Kind.list_item up node = emit "\\item {} "
visit env walk Kind.definition_list up node = visit_definition_list node
visit env walk Kind.definition_list_item up node = pass
visit env walk Kind.term up node = visit_term env node
visit env walk Kind.termsep up node = visit_termsep node
visit env walk Kind.classifier up node = emit "{[}"
visit env walk Kind.definition up node = pass
visit env walk Kind.field_list up node = visit_field_list node
visit env walk Kind.field up node = pass
visit env walk Kind.field_name up node = visit_term env node
visit env walk Kind.field_body up node = pass
visit env walk Kind.paragraph up node = visit_paragraph (parent up) node
visit env walk Kind.centered up node = visit_centered node
visit env walk Kind.hlist up node = visit_hlist node
visit env walk Kind.hlistcol up node = pass
visit env walk Kind.image up node = visit_image env (parent_kind up) node
visit env walk Kind.figure up node = visit_figure env node
visit env walk Kind.caption up node = visit_caption (parent_kind up) node
visit env walk Kind.legend up node = emit "{\\small "
visit env walk Kind.admonition up node = emit "\n\\tip{}{"
visit env walk Kind.versionmodified up node = pass
visit env walk Kind.target up node = visit_target env up node
visit env walk Kind.attribution up node = do emit "\n\\begin{flushright}\n"; emit "---"
visit env walk Kind.index up node = visit_index env node
visit env walk Kind.raw up node = visit_raw env node
visit env walk Kind.reference up node = visit_reference env node
visit env walk (Kind.named_admonition a) up node =
    emit ("\n\\" <> (admonition_name a <> "noheader{"))
visit env walk Kind.number_reference up node = visit_number_reference env node
visit env walk Kind.download_reference up node = pass
visit env walk Kind.pending_xref up node = pass
visit env walk Kind.emphasis up node = emit "\\emph{"
visit env walk Kind.literal_emphasis up node = visit_literal_emphasis node
visit env walk Kind.strong up node = emit "\\textbf{"
visit env walk Kind.literal_strong up node = visit_literal_strong node
visit env walk Kind.abbreviation up node = visit_abbreviation env node
visit env walk Kind.manpage up node = visit_literal_emphasis node
visit env walk Kind.title_reference up node = emit "\\sphinxtitleref{"
visit env walk Kind.citation up node = visit_citation node
visit env walk Kind.citation_reference up node = visit_citation_reference env node
visit env walk Kind.literal up node = visit_literal node
visit env walk Kind.footnote_reference up node = visit_footnote_reference env walk node
visit env walk Kind.literal_block up node = visit_literal_block env node
visit env walk Kind.doctest_block up node = visit_literal_block env node
visit env walk Kind.line up node = emit "\\item[] "
visit env walk Kind.line_block up node = visit_line_block (parent_kind up) node
visit env walk Kind.block_quote up node = visit_block_quote node
visit env walk Kind.option up node = visit_option node
visit env walk Kind.option_argument up node = visit_option_argument node
visit env walk Kind.option_group up node = visit_option_group node
visit env walk Kind.option_list up node = visit_option_list node
visit env walk Kind.option_list_item up node = pass
visit env walk Kind.option_string up node = visit_option_string env node
visit env walk Kind.description up node = emit " "
visit env walk Kind.superscript up node = emit "$^{\\text{"
visit env walk Kind.subscript up node = emit "$_{\\text{"
visit env walk Kind.substitution_definition up node = raise skip_node
visit env walk Kind.substitution_reference up node = raise skip_node
visit env walk Kind.inline up node = visit_inline node
visit env walk Kind.generated up node = pass
visit env walk Kind.compound up node = pass
visit env walk Kind.container up node = visit_container env node
visit env walk Kind.decoration up node = pass
visit env walk Kind.header up node = raise skip_node
visit env walk Kind.footer up node = raise skip_node
visit env walk Kind.docinfo up node = raise skip_node
visit env walk Kind.text up node = visit_text env node
visit env walk Kind.comment up node = raise skip_node
visit env walk Kind.meta up node = raise skip_node
visit env walk Kind.system_message up node = pass
visit env walk Kind.math up node = visit_math
visit env walk Kind.math_block up node = visit_math
visit env walk Kind.unknown up node = raise not_implemented

-- `depart_NAME`. A node whose visit always raises SkipNode has no such method.
unfoldable pub depart : Env → (Node → Method) → Kind → List Node → Node → Method
depart env walk Kind.document up node = depart_document env node
depart env walk Kind.start_of_file up node = depart_start_of_file node
depart env walk Kind.highlightlang up node = raise not_implemented
depart env walk Kind.section up node = depart_section node
depart env walk Kind.problematic up node = emit "}"
depart env walk Kind.topic up node = depart_topic node
depart env walk Kind.sidebar up node = depart_topic node
depart env walk Kind.glossary up node = pass
depart env walk Kind.productionlist up node = depart_productionlist node
depart env walk Kind.production up node = emit "}\n"
depart env walk Kind.transition up node = pass
depart env walk Kind.title up node = depart_title walk (parent_kind up) node
depart env walk Kind.subtitle up node = emit_context
depart env walk Kind.desc up node = depart_desc node
depart env walk Kind.desc_signature up node = emit "}"
depart env walk Kind.desc_addname up node = depart_desc_addname node
depart env walk Kind.desc_type up node = pass
depart env walk Kind.desc_returns up node = emit "}"
depart env walk Kind.desc_name up node = depart_desc_name node
depart env walk Kind.desc_parameterlist up node = emit "}{"
depart env walk Kind.desc_parameter up node = depart_desc_parameter node
depart env walk Kind.desc_optional up node = emit "}"
depart env walk Kind.desc_annotation up node = emit "}"
depart env walk Kind.desc_content up node = pass
depart env walk Kind.seealso up node = emit "}"
depart env walk Kind.rubric up node = depart_rubric node
depart env walk Kind.footnote up node = raise not_implemented
depart env walk Kind.collected_footnote up node = depart_collected_footnote node
depart env walk Kind.label up node = raise not_implemented
depart env walk Kind.tabular_col_spec up node = raise not_implemented
depart env walk Kind.table up node = depart_table env walk node
depart env walk Kind.colspec up node = pass
depart env walk Kind.tgroup up node = pass
depart env walk Kind.thead up node = pass
depart env walk Kind.tbody up node = depart_tbody
depart env walk Kind.row up node = depart_row
depart env walk Kind.entry up node = depart_entry
depart env walk Kind.acks up node = raise not_implemented
depart env walk Kind.bullet_list up node = depart_bullet_list node
depart env walk Kind.enumerated_list up node = emit "\\end{enumerate}\n"
depart env walk Kind.list_item up node = emit "\n"
depart env walk Kind.definition_list up node = emit "\\end{description}\n"
depart env walk Kind.definition_list_item up node = pass
depart env walk Kind.term up node = depart_term walk node
depart env walk Kind.termsep up node = raise not_implemented
depart env walk Kind.classifier up node = emit "{]}"
depart env walk Kind.definition up node = emit "\n"
depart env walk Kind.field_list up node = emit "\\end{description}\\end{quote}\n"
depart env walk Kind.field up node = pass
depart env walk Kind.field_name up node = depart_term walk node
depart env walk Kind.field_body up node = emit "\n"
depart env walk Kind.paragraph up node = emit "\n"
depart env walk Kind.centered up node = emit "\n\\end{center}"
depart env walk Kind.hlist up node = depart_hlist node
depart env walk Kind.hlistcol up node = pass
depart env walk Kind.image up node = pass
depart env walk Kind.figure up node = depart_figure walk node
depart env walk Kind.caption up node = depart_caption node
depart env walk Kind.legend up node = emit "}"
depart env walk Kind.admonition up node = emit "}"
depart env walk Kind.versionmodified up node = pass
depart env walk Kind.target up node = pass
depart env walk Kind.attribution up node = emit "\n\\end{flushright}\n"
depart env walk Kind.index up node = raise not_implemented
depart env walk Kind.raw up node = raise not_implemented
depart env walk Kind.reference up node = emit_context
depart env walk (Kind.named_admonition a) up node = emit "}"
depart env walk Kind.number_reference up node = raise not_implemented
depart env walk Kind.download_reference up node = pass
depart env walk Kind.pending_xref up node = pass
depart env walk Kind.emphasis up node = emit "}"
depart env walk Kind.literal_emphasis up node = depart_literal_emphasis node
depart env walk Kind.strong up node = emit "}"
depart env walk Kind.literal_strong up node = depart_literal_strong node
depart env walk Kind.abbreviation up node = emit_context
depart env walk Kind.manpage up node = depart_literal_emphasis node
depart env walk Kind.title_reference up node = emit "}"
depart env walk Kind.citation up node = depart_citation node
depart env walk Kind.citation_reference up node = raise not_implemented
depart env walk Kind.literal up node = depart_literal node
depart env walk Kind.footnote_reference up node = pass
depart env walk Kind.literal_block up node = emit "\n\\end{alltt}\n"
depart env walk Kind.doctest_block up node = emit "\n\\end{alltt}\n"
depart env walk Kind.line up node = emit "\n"
depart env walk Kind.line_block up node = emit "\\end{DUlineblock}\n"
depart env walk Kind.block_quote up node = depart_block_quote node
depart env walk Kind.option up node = depart_option node
depart env walk Kind.option_argument up node = pass
depart env walk Kind.option_group up node = depart_option_group node
depart env walk Kind.option_list up node = emit "\\end{optionlist}\n"
depart env walk Kind.option_list_item up node = pass
depart env walk Kind.option_string up node = raise not_implemented
depart env walk Kind.description up node = pass
depart env walk Kind.superscript up node = emit "}}$"
depart env walk Kind.subscript up node = emit "}}$"
depart env walk Kind.substitution_definition up node = raise not_implemented
depart env walk Kind.substitution_reference up node = raise not_implemented
depart env walk Kind.inline up node = emit_context
depart env walk Kind.generated up node = pass
depart env walk Kind.compound up node = pass
depart env walk Kind.container up node = depart_container node
depart env walk Kind.decoration up node = pass
depart env walk Kind.header up node = raise not_implemented
depart env walk Kind.footer up node = raise not_implemented
depart env walk Kind.docinfo up node = raise not_implemented
depart env walk Kind.text up node = pass
depart env walk Kind.comment up node = raise not_implemented
depart env walk Kind.meta up node = raise not_implemented
depart env walk Kind.system_message up node = emit "\n"
depart env walk Kind.math up node = raise not_implemented
depart env walk Kind.math_block up node = raise not_implemented
depart env walk Kind.unknown up node = raise not_implemented
