-- ===== src/Writer/Tables.antt =====
-- Tables of source/_exts/pearson/writer.py: the table's own lists, its head, rows and cells.
use pymotw.Prelude.{
  ℕ, zero, suc, ◌+◌, ◌-◌, String, ◌<>◌, Bool, true, false, Option, none, some, List, [], ◌∷◌, not,
  ◌&&◌, ◌||◌, ◌==◌, ◌=ˢ◌, leb, dec, if◌then◌else◌, is_some, str, nonempty, rstrip, sorted, code,
  contains,
}
use pymotw.Writer.Node.{Node, Kind, kind, attrs, children, to_list}
use pymotw.Writer.State.{
  Env, Method, Action, Translator, Piece, Table, text, num, pure, raise, need, gets, update, emit,
  emit_all, emit_chars, alloc, pushbody, popbody, push_context, emit_context, curfile, contents,
  new_table, ◌>>=◌, ◌>>◌, skip_node, unsupported, key_error, attribute_error, type_error,
}
use pymotw.Writer.Text.{hypertarget, pop_hyperlink_ids, restrict_footnote, unrestrict_footnote}

unfoldable pub visit_tabular_col_spec : Node → Method
visit_tabular_col_spec node = do
  spec ← need key_error (attrs node).spec
  update (λ s. record s { next_table_colspec = some spec })
  raise skip_node

unfoldable pub refuse_nested : Bool → Method
refuse_nested true = do file ← curfile; raise unsupported
refuse_nested false = pure tt

unfoldable pub visit_table : Node → Method
visit_table node = do
  nested ← gets (λ s. is_some s.table)
  refuse_nested nested
  tablebody ← alloc
  tableheaders ← alloc
  update (λ s. record s {
    table = some (record new_table { longtable = contains "longtable" (attrs node).classes });
    tablebody = some tablebody;
    tableheaders = some tableheaders;
  })
  pushbody tablebody
  restrict_footnote node

-- The list that a field refers to; Python raises at None.
unfoldable pub pieces_of : Option ℕ → Action (List Piece)
pieces_of r = do r' ← need type_error r; gets (contents r')

-- The caption, empty where the table has none.
abbrev caption_pieces : Table → Translator → List Piece
caption_pieces t s = elim t.caption [ none ↦ [] | some r ↦ contents r s ]

unfoldable pub table_caption : List Piece → Method
table_caption [] = pure tt
table_caption (p ∷ ps) = do emit "\\caption{"; emit_all (p ∷ ps); emit "}"

-- '%s' % piece
unfoldable pub piece_text : Piece → String
piece_text (text t) = t
piece_text (num n) = str n

unfoldable pub first_id : Env → List String → Method
first_id env [] = pure tt
first_id env (i ∷ is) = do t ← hypertarget env true false i; emit t

unfoldable pub caption_target : Env → List Piece → Method
caption_target env [] = pure tt
caption_target env (p ∷ ps) = do t ← hypertarget env false false ("table:" <> piece_text p); emit t

unfoldable pub emit_each : Env → List String → Method
emit_each env [] = pure tt
emit_each env (i ∷ is) = do t ← hypertarget env true false i; emit t; emit_each env is

-- 'l|' * n
unfoldable pub repeat : ℕ → String → String
repeat zero x = ""
repeat (suc n) x = x <> repeat n x

-- Default to left-justified.
unfoldable pub column_specifier : Table → String
column_specifier t = elim t.colspec [
  | none ↦ "{|" <> (repeat t.colcount "l|" <> "}")
  | some spec ↦ rstrip spec
]

-- Everything that is written after the body has been switched back.
unfoldable pub write_table : Env → Node → Table → Method
write_table env node t = do
  caption ← gets (caption_pieces t)
  table_caption caption
  ids ← pop_hyperlink_ids "table"
  emit_each env (sorted ids)
  first_id env (attrs node).ids
  caption_target env caption
  emit "\\vspace{1.5ex}\n"
  emit "{\\small \\begin{tabular}"
  emit (column_specifier t)
  emit "\\thickhline\n"
  emit "\\rowcolor[gray]{.9}\n"
  headers ← gets (λ s. s.tableheaders)
  head_pieces ← pieces_of headers
  emit_all head_pieces
  tablebody ← gets (λ s. s.tablebody)
  body_pieces ← pieces_of tablebody
  emit_all body_pieces
  emit_chars "\\end{tabular} }\n"
  emit_chars "\\end{threeparttable}\n"
  emit_chars "\\end{center}\n"
  emit_chars "\\end{table}\n"

unfoldable pub depart_table : Env → (Node → Method) → Node → Method
depart_table env walkabout node = do
  inner ← popbody
  emit "\n\\begin{table}[t]\n"
  emit "\\begin{center}\n"
  emit "\\begin{threeparttable}\n"
  table ← gets (λ s. s.table)
  t ← need attribute_error table
  write_table env node t
  unrestrict_footnote walkabout node
  update (λ s. record s { table = none; tablebody = none })

unfoldable pub visit_colspec : Node → Method
visit_colspec node = do
  table ← gets (λ s. s.table)
  t ← need attribute_error table
  update (λ s. record s { table = some (record t { colcount = t.colcount + 1 }) })

-- `if self.next_table_colspec:`
unfoldable pub head_colspec : Option String → Option String → Option String
head_colspec none old = old
head_colspec (some spec) old = if nonempty spec then some ("{" <> (spec <> "}\n")) else old

-- `visit_table` has set the two lists whenever there is a table.
-- Redirect head output until header is finished. see visit_tbody.
unfoldable pub visit_thead : Method
visit_thead = do
  table ← gets (λ s. s.table)
  t ← need attribute_error table
  spec ← gets (λ s. s.next_table_colspec)
  headers ← gets (λ s. s.tableheaders)
  h ← need attribute_error headers
  update (λ s. record s {
    table = some (record t { had_head = true; colspec = head_colspec spec t.colspec });
    next_table_colspec = none;
    body = h;
  })

unfoldable pub visit_tbody : Method
visit_tbody = do
  table ← gets (λ s. s.table)
  t ← need attribute_error table
  if t.had_head then pure tt else visit_thead
  rows ← gets (λ s. s.tablebody)
  r ← need attribute_error rows
  update (λ s. record s { body = r })

unfoldable pub depart_tbody : Method
depart_tbody = update (λ s. record s { remember_multirow = []; remember_multirowcol = [] })

-- d.get(key, 0) of a dict from columns to numbers
unfoldable pub get_or_zero : ℕ → List (ℕ × ℕ) → ℕ
get_or_zero k [] = 0
get_or_zero k ((j, v) ∷ d) = if j == k then v else get_or_zero k d

unfoldable pub remove_key : ℕ → List (ℕ × ℕ) → List (ℕ × ℕ)
remove_key k [] = []
remove_key k ((j, v) ∷ d) = let rest = remove_key k d in if j == k then rest else (j, v) ∷ rest

-- The keys whose rows have run out leave the other dict.
unfoldable pub drop_finished : List (ℕ × ℕ) → List (ℕ × ℕ) → List (ℕ × ℕ)
drop_finished [] cols = cols
drop_finished ((k, v) ∷ rows) cols = drop_finished rows (if v == 0 then remove_key k cols else cols)

unfoldable pub visit_row : Method
visit_row = do
  table ← gets (λ s. s.table)
  t ← need attribute_error table
  update (λ s. record s {
    table = some (record t { col = 0 });
    remember_multirowcol = drop_finished s.remember_multirow s.remember_multirowcol;
  })

-- The `for col in range(col, col + rounds)` of `depart_row` with the `if` behind it: the ranges of
-- columns that get a line, for the functions that `remember_multirow.get` and
-- `remember_multirowcol.get` are. `seen` is the value of `col` so far.
unfoldable pub cline_ranges : (ℕ → ℕ) → (ℕ → ℕ) → ℕ → ℕ → ℕ → ℕ → List (ℕ × ℕ)
cline_ranges rows cols zero col seen linestart =
    if leb linestart seen then (linestart, seen) ∷ [] else []
cline_ranges rows cols (suc rounds) col seen linestart =
    let rest =
      cline_ranges rows cols rounds (col + 1) col
        (if rows col == 0 then linestart else col + 1 + cols col) in
    if rows col == 0 then rest else if linestart == col then rest else (linestart, col - 1) ∷ rest

unfoldable pub emit_clines : List (ℕ × ℕ) → Method
emit_clines [] = pure tt
emit_clines ((a, b) ∷ rs) = do
  emit ("\\cline{" <> (str a <> ("-" <> (str b <> "}"))))
  emit_clines rs

unfoldable pub any_value : List (ℕ × ℕ) → Bool
any_value [] = false
any_value ((k, v) ∷ d) = not (v == 0) || any_value d

unfoldable pub row_lines : Translator → Table → List (ℕ × ℕ)
row_lines s t =
    cline_ranges (λ c. get_or_zero c s.remember_multirow)
      (λ c. get_or_zero c s.remember_multirowcol) t.col 1 t.colcount 1

unfoldable pub depart_row : Method
depart_row = do
  emit "\\\\"
  table ← gets (λ s. s.table)
  t ← need attribute_error table
  spanned ← gets (λ s. any_value s.remember_multirow)
  lines ← gets (λ s. row_lines s t)
  if spanned then emit_clines lines else emit "\\hline\n"
  update (λ s. record s { table = some (record t { rowcount = t.rowcount + 1 }) })

unfoldable pub in_thead : Option Node → Bool
in_thead none = false
in_thead (some n) = elim (kind n) [ Kind.thead ↦ true | _ ↦ false ]

-- len(node) == 1 and isinstance(node[0], nodes.paragraph) and node.astext() == ''
unfoldable pub is_empty_cell : Env → Node → List Node → Bool
is_empty_cell env node (c ∷ []) = elim (kind c) [
  | Kind.paragraph ↦ env.astext node =ˢ ""
  | _ ↦ false
]
is_empty_cell env node _ = false

unfoldable pub two_or_more : List Node → Bool
two_or_more (a ∷ b ∷ _) = true
two_or_more _ = false

unfoldable pub open_entry : Env → Bool → Node → Method
open_entry env bold node = do
  table ← gets (λ s. s.table)
  t ← need attribute_error table
  if t.col == 0 then pure tt else emit "&"
  if bold then emit " \\textbf{\\textsf " else pure tt
  update (λ s. record s {
    table = some (record t {
      col = t.col + 1;
      has_problematic = t.has_problematic || two_or_more (env.traverse node Kind.paragraph);
    });
  })

unfoldable pub visit_entry : Env → Option Node → Node → Method
visit_entry env grandparent node = do
  let bold = in_thead grandparent && not (is_empty_cell env node (to_list (children node)))
  open_entry env bold node
  push_context (text (if bold then "} " else ""))

-- Where the text stands after `~`, `~\` or `~\\`: 1, 2 or 3.
unfoldable pub after_tilde : ℕ → ℕ → ℕ
after_tilde state c =
    if c == 126 then 1 else if c == 92 && (state == 1 || state == 2) then state + 1 else 0

-- re.sub: a line break that `~\\` does not stand before gets it
unfoldable pub escape_return : ℕ → String → String
escape_return state String.[] = ""
escape_return state (String.◌∷◌ c s) =
    (if code c == 10 && not (state == 3) then "~\\\\\n" else String.◌∷◌ c "")
    <> escape_return (after_tilde state (code c)) s

-- Remove empty lines from top of merged cell
unfoldable pub drop_breaks : List Piece → List Piece
drop_breaks [] = []
drop_breaks (num n ∷ ps) = num n ∷ ps
drop_breaks (text t ∷ ps) = let rest = drop_breaks ps in if t =ˢ "\n" then rest else text t ∷ ps

unfoldable pub emit_lines : List Piece → Method
emit_lines [] = pure tt
emit_lines (num n ∷ ps) = raise type_error
emit_lines (text t ∷ ps) = do emit (escape_return 0 t); emit_lines ps

unfoldable pub merged_cell : Method
merged_cell = do
  update (λ s. record s { in_merged_cell = false; literal_whitespace = dec s.literal_whitespace })
  b ← popbody
  pieces ← gets (contents b)
  emit_lines (drop_breaks pieces)

unfoldable pub depart_entry : Method
depart_entry = do
  merged ← gets (λ s. s.in_merged_cell)
  if merged then merged_cell else pure tt
  emit_context
