-- ===== src/Writer/State.antt =====
-- The state of `PearsonLaTeXTranslator` (source/_exts/pearson/writer.py), and its methods as actions
-- that may raise. What was written before a raise stays written.
use pymotw.Prelude.{
  ℕ, Char, String, ◌<>◌, ◌⊎◌, Bool, true, false, Option, none, some, List, [], ◌∷◌, ◌++◌, map, ℤ,
  pos, length, modify, get_elem?, or_default, chars,
}
use pymotw.Writer.Node.{Node, Kind}

-- What docutils, Sphinx and the builder's configuration give. `escape` and `replace_map` are the
-- tables of sphinx.util.texescape; the classes of docutils are tests on kinds.
pub record Env : Type 0 where
  pub escape : Char → String
  pub replace_map : Char → String
  pub educate_quotes : String → String
  pub localize : String → String
  pub astext : Node → String
  pub clean_astext : Node → String
  pub traverse : Node → Kind → List Node
  pub is_text_element : Kind → Bool
  pub is_admonition : Kind → Bool
  pub figtype : Node → Option String
  pub numfig_title : Node → Bool
  -- "%.3f" % (float(amount) / 100.0) and "%f" % (scale / 100.0)
  pub percent_format : String → String
  pub scale_format : ℕ → String
  -- split_into of sphinx.util: the parts, or the message of its ValueError
  pub split_into : ℕ → String → String → String ⊎ List String
  pub images : String → Option String
  pub transition : String
  pub highlight_language : String
  pub maxsize : ℕ
  pub latex_show_pagerefs : Bool

-- An element of a Python list that holds texts, and the numbers that `context` holds too.
pub data Piece : Type 0 where
  text : String → Piece
  num : ℕ → Piece

-- The class `Table`; `caption` is a reference to a list of pieces.
pub record Table : Type 0 where
  pub col : ℕ
  pub colcount : ℕ
  pub colspec : Option String
  pub rowcount : ℕ
  pub had_head : Bool
  pub has_problematic : Bool
  pub has_verbatim : Bool
  pub caption : Option ℕ
  pub longtable : Bool

-- `Table()`
unfoldable pub new_table : Table
new_table = record {
  col = 0;
  colcount = 0;
  colspec = none;
  rowcount = 0;
  had_head = false;
  has_problematic = false;
  has_verbatim = false;
  caption = none;
  longtable = false;
}

-- bibitem: [citelabel, citetext, docname, citeid]
pub record Bibitem : Type 0 where
  pub citelabel : String
  pub citetext : String
  pub bibdoc : String
  pub citeid : String

-- [language, linenothreshold]
pub record Highlight : Type 0 where
  pub hl_language : String
  pub threshold : ℕ

-- A dict from the number of a footnote to its node and whether it has been used.
abbrev pub Footnotes : Type 0
Footnotes = List (String × Node × Bool)

-- `body`, `bodystack`, `tablebody`, `tableheaders` and the captions refer to lists of `buffers`, so
-- that two names can stand for one list. The stacks have their top first.
pub record Translator : Type 0 where
  pub buffers : List (List Piece)
  pub body : ℕ
  pub bodystack : List ℕ
  pub context : List Piece
  pub curfilestack : List String
  pub in_footnote : ℤ
  pub in_caption : ℤ
  pub in_container_literal_block : ℤ
  pub in_term : ℤ
  pub literal_whitespace : ℤ
  pub no_contractions : ℤ
  pub compact_list : ℤ
  pub table : Option Table
  pub tablebody : Option ℕ
  pub tableheaders : Option ℕ
  pub in_title : Bool
  pub in_production_list : Bool
  pub in_merged_cell : Bool
  pub in_minipage : Bool
  pub first_document : ℤ
  pub this_is_the_title : Bool
  pub first_param : Bool
  pub remember_multirow : List (ℕ × ℕ)
  pub remember_multirowcol : List (ℕ × ℕ)
  pub sectionlevel : Option ℕ
  pub title : String
  pub bibitems : List Bibitem
  pub next_table_colspec : Option String
  pub hlsettingstack : List Highlight
  pub footnotestack : List Footnotes
  pub footnote_restricted : Option ℕ
  pub pending_footnotes : List Node
  pub handled_abbrs : List String
  pub next_hyperlink_ids : List (String × List String)
  pub next_section_ids : List String
  pub literal_block_caption : ℕ
  pub warnings : List String

-- sectionnames.index('section')
abbrev pub top_sectionlevel : ℕ
top_sectionlevel = 2

-- `__init__`, the flags and the stacks: list 0 is the body, list 1 the caption.
unfoldable pub init : Env → String → Translator
init env title = record {
  buffers = [] ∷ [] ∷ [];
  body = 0;
  bodystack = [];
  context = [];
  curfilestack = [];
  in_footnote = pos 0;
  in_caption = pos 0;
  in_container_literal_block = pos 0;
  in_term = pos 0;
  literal_whitespace = pos 0;
  no_contractions = pos 0;
  compact_list = pos 0;
  table = none;
  tablebody = none;
  tableheaders = none;
  in_title = false;
  in_production_list = false;
  in_merged_cell = false;
  in_minipage = false;
  first_document = pos 1;
  this_is_the_title = true;
  first_param = false;
  remember_multirow = [];
  remember_multirowcol = [];
  sectionlevel = none;
  title = title;
  bibitems = [];
  next_table_colspec = none;
  hlsettingstack =
      record { hl_language = env.highlight_language; threshold = env.maxsize }
      ∷ record { hl_language = env.highlight_language; threshold = env.maxsize }
      ∷ [];
  footnotestack = [];
  footnote_restricted = none;
  pending_footnotes = [];
  handled_abbrs = [];
  next_hyperlink_ids = [];
  next_section_ids = [];
  literal_block_caption = 1;
  warnings = [];
}

-- The exceptions that the methods raise themselves, or that Python raises in them, and a mark for what
-- the model leaves open.
pub data Exception : Type 0 where
  skip_node skip_children pop_from_empty_list list_index_out_of_range key_error : Exception
  attribute_error type_error value_error unsupported not_implemented recursion_error : Exception
  outside_model : Exception

pub data Signal (A : Type 0) : Type 0 where
  ok : A → Signal A
  raised : Exception → Signal A

abbrev pub Action : Type 0 → Type 0
Action A = Translator → Signal A × Translator

abbrev pub Method : Type 0
Method = Action (Unit {0})

unfoldable pub pure : {A : Type 0} → A → Action A
pure a s = (ok a, s)

unfoldable pub raise : {A : Type 0} → Exception → Action A
raise e s = (raised e, s)

abbrev pub continue :
    {A B : Type 0} → (A → Action B) → Signal A → Translator → Signal B × Translator
continue f (ok a) t = f a t
continue f (raised e) t = (raised e, t)

infixl 10 ◌>>=◌ ◌>>◌
unfoldable pub ◌>>=◌ : {A B : Type 0} → Action A → (A → Action B) → Action B
◌>>=◌ m f s = let (r, t) = m s in continue f r t

unfoldable pub ◌>>◌ : {B : Type 0} → Method → Action B → Action B
unfolding ◌>>=◌
m >> k = m >>= λ _. k

unfoldable pub gets : {A : Type 0} → (Translator → A) → Action A
gets f s = (ok (f s), s)

unfoldable pub update : (Translator → Translator) → Method
update f s = (ok tt, f s)

-- The value, or the exception where there is none.
unfoldable pub need : {A : Type 0} → Exception → Option A → Action A
need e none s = (raised e, s)
need e (some a) s = (ok a, s)

-- `self.body.extend(pieces)`
unfoldable pub emit_all : List Piece → Method
emit_all ps s = (ok tt, record s { buffers = modify s.body (λ b. b ++ ps) s.buffers })

-- `self.body.append(x)`
unfoldable pub emit : String → Method
emit x = emit_all (text x ∷ [])

-- `self.body.extend(x)` of a text, which adds its characters one by one
unfoldable pub emit_chars : String → Method
emit_chars x = emit_all (map text (chars x))

-- The contents of a list.
abbrev pub contents : ℕ → Translator → List Piece
contents r s = or_default [] (get_elem? s.buffers r)

-- A new empty list.
unfoldable pub alloc : Action ℕ
alloc s = (ok (length s.buffers), record s { buffers = s.buffers ++ ([] ∷ []) })

unfoldable pub pushbody : ℕ → Method
pushbody newbody s = (ok tt, record s { bodystack = s.body ∷ s.bodystack; body = newbody })

unfoldable pub popped : List ℕ → Action ℕ
popped [] s = (raised pop_from_empty_list, s)
popped (b ∷ bs) s = (ok s.body, record s { body = b; bodystack = bs })

unfoldable pub popbody : Action ℕ
popbody s = popped s.bodystack s

unfoldable pub push_context : Piece → Method
push_context p s = (ok tt, record s { context = p ∷ s.context })

unfoldable pub take_context : List Piece → Action Piece
take_context [] s = (raised pop_from_empty_list, s)
take_context (p ∷ ps) s = (ok p, record s { context = ps })

-- `self.context.pop()`
unfoldable pub pop_context : Action Piece
pop_context s = take_context s.context s

-- `self.body.append(self.context.pop())`
unfoldable pub emit_context : Method
emit_context = do p ← pop_context; emit_all (p ∷ [])

unfoldable pub top_file : List String → Action String
top_file [] s = (raised list_index_out_of_range, s)
top_file (f ∷ fs) s = (ok f, s)

-- `self.curfilestack[-1]`
unfoldable pub curfile : Action String
curfile s = top_file s.curfilestack s

-- `self.builder.warn(message, (self.curfilestack[-1], node.line))`
unfoldable pub warn_here : String → Method
warn_here message = do
  file ← curfile
  update (λ s. record s { warnings = (file <> ": " <> message) ∷ s.warnings })

-- `self.builder.warn(message)`
unfoldable pub warn : String → Method
warn message s = (ok tt, record s { warnings = message ∷ s.warnings })

abbrev pub mark_problematic : Option Table → Option Table
mark_problematic none = none
mark_problematic (some t) = some (record t { has_problematic = true })

-- `if self.table: self.table.has_problematic = True`
unfoldable pub problematic_table : Method
problematic_table s = (ok tt, record s { table = mark_problematic s.table })
