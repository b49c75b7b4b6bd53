-- ===== src/Writer/Node.antt =====
-- The document tree that the translator of source/_exts/pearson/writer.py walks over. The classes
-- of the nodes are those that the translator has a `visit_` method for.
use pymotw.Prelude.{ℕ, ◌+◌, String, Bool, true, false, Option, none, List, [], ◌∷◌}
use pymotw.Prelude.{◌==◌, if◌then◌else◌}

pub data Admonition : Type 0 where
  attention caution danger error hint important note tip warning : Admonition

pub data Kind : Type 0 where
  document start_of_file highlightlang section problematic topic sidebar glossary : Kind
  productionlist production transition title subtitle : Kind
  desc desc_signature desc_addname desc_type desc_returns desc_name desc_parameterlist : Kind
  desc_parameter desc_optional desc_annotation desc_content seealso rubric : Kind
  footnote collected_footnote label tabular_col_spec table colspec tgroup thead tbody row entry :
      Kind
  acks bullet_list enumerated_list list_item definition_list definition_list_item term termsep :
      Kind
  classifier definition field_list field field_name field_body paragraph centered hlist hlistcol :
      Kind
  image figure caption legend admonition versionmodified target attribution index raw reference :
      Kind
  named_admonition : Admonition → Kind
  number_reference download_reference pending_xref emphasis literal_emphasis strong : Kind
  literal_strong abbreviation manpage title_reference citation citation_reference literal : Kind
  footnote_reference literal_block doctest_block line line_block block_quote : Kind
  option option_argument option_group option_list option_list_item option_string description : Kind
  superscript subscript substitution_definition substitution_reference inline generated : Kind
  compound container decoration header footer docinfo text comment meta system_message : Kind
  math math_block unknown : Kind

-- An entry of an index node: (type, string, tid, ismain, key_).
pub record IndexEntry : Type 0 where
  pub type : String
  pub string : String
  pub tid : String
  pub ismain : Bool

-- The attributes that the translator reads. `none` and `false` stand for a missing attribute;
-- docutils gives every element its lists `ids`, `names` and `classes`.
pub record Attrs : Type 0 where
  pub ids : List String
  pub names : List String
  pub classes : List String
  pub docname : Option String
  pub refuri : Option String
  pub refid : Option String
  pub objtype : Option String
  pub tokenname : Option String
  pub spec : Option String
  pub explanation : Option String
  pub delimiter : Option String
  pub title : Option String
  pub format : Option String
  pub language : Option String
  pub lang : Option String
  pub number : Option String
  pub uri : Option String
  pub width : Option String
  pub height : Option String
  pub align : Option String
  pub scale : Option ℕ
  pub start : Option ℕ
  pub linenothreshold : Option ℕ
  pub entries : List IndexEntry
  pub rawsource : String
  pub noemph : Bool
  pub nolinkurl : Bool
  pub auto : Bool
  pub linenos : Bool
  pub literal_block : Bool
  pub footnotetext : Bool
  pub not_inline : Bool

abbrev pub plain : Attrs
plain = record {
  ids = [];
  names = [];
  classes = [];
  docname = none;
  refuri = none;
  refid = none;
  objtype = none;
  tokenname = none;
  spec = none;
  explanation = none;
  delimiter = none;
  title = none;
  format = none;
  language = none;
  lang = none;
  number = none;
  uri = none;
  width = none;
  height = none;
  align = none;
  scale = none;
  start = none;
  linenothreshold = none;
  entries = [];
  rawsource = "";
  noemph = false;
  nolinkurl = false;
  auto = false;
  linenos = false;
  literal_block = false;
  footnotetext = false;
  not_inline = false;
}

-- The first field is the identity of the object, by which Python compares nodes. The last but one
-- is the text of a `Text` node.
mutual
  pub data Node : Type 0 where
    element : ℕ → Kind → Attrs → String → Nodes → Node

  pub data Nodes : Type 0 where
    nil : Nodes
    cons : Node → Nodes → Nodes

abbrev pub uid : Node → ℕ
uid (element i k a s c) = i

abbrev pub kind : Node → Kind
kind (element i k a s c) = k

abbrev pub attrs : Node → Attrs
attrs (element i k a s c) = a

abbrev pub children : Node → Nodes
children (element i k a s c) = c

-- `node.children` as a list
unfoldable pub to_list : Nodes → List Node
to_list nil = []
to_list (cons n ns) = n ∷ to_list ns

-- `node.parent.index(node)`; the length where the node is missing
unfoldable pub index_of : ℕ → Nodes → ℕ
index_of i nil = 0
index_of i (cons n ns) = if uid n == i then 0 else index_of i ns + 1

-- `node['footnotetext'] = True`
abbrev pub mark_footnotetext : Node → Node
mark_footnotetext (element i k a s c) = element i k (record a { footnotetext = true }) s c
