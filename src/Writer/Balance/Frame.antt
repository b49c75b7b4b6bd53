-- ===== src/Writer/Balance/Frame.antt =====
-- The part of the translator's state that every node has to restore, and the documents in which it
-- does.
use pymotw.Prelude.{
  ℕ, ◌≡◌, String, Bool, true, false, List, [], ◌∷◌, ◌&&◌, ◌||◌, not, ℤ, length, is_some,
}
use pymotw.Writer.Node.{Node, Nodes, Kind, element, nil, cons}
use pymotw.Writer.State.{Translator, Piece, text, num, Footnotes}

pub record Frame : Type 0 where
  pub context : List Piece
  pub bodystack : List ℕ
  pub curfilestack : List String
  pub in_footnote : ℤ
  pub in_caption : ℤ
  pub in_container_literal_block : ℤ
  pub in_term : ℤ
  pub literal_whitespace : ℤ
  pub no_contractions : ℤ
  pub compact_list : ℤ
  pub in_table : Bool
  pub in_merged_cell : Bool
  pub body : ℕ
  pub files : ℕ
  pub settings : ℕ

-- The number that counts the options of a group changes below it.
abbrev pub shape : Piece → Piece
shape (text t) = text t
shape (num n) = num 0

abbrev pub shapes : List Piece → List Piece
shapes [] = []
shapes (x ∷ xs) = shape x ∷ shapes xs

abbrev pub frame : Translator → Frame
frame s = record {
  context = shapes s.context;
  bodystack = s.bodystack;
  curfilestack = s.curfilestack;
  in_footnote = s.in_footnote;
  in_caption = s.in_caption;
  in_container_literal_block = s.in_container_literal_block;
  in_term = s.in_term;
  literal_whitespace = s.literal_whitespace;
  no_contractions = s.no_contractions;
  compact_list = s.compact_list;
  in_table = is_some s.table;
  in_merged_cell = s.in_merged_cell;
  body = s.body;
  files = length s.footnotestack;
  settings = length s.hlsettingstack;
}

-- The kinds whose visit leaves something on the context stack for their children. A footnote is
-- walked wherever a reference to it stands.
unfoldable pub holds_context : Kind → Bool
holds_context Kind.title = true
holds_context Kind.subtitle = true
holds_context Kind.rubric = true
holds_context Kind.entry = true
holds_context Kind.term = true
holds_context Kind.field_name = true
holds_context Kind.reference = true
holds_context Kind.abbreviation = true
holds_context Kind.citation = true
holds_context Kind.option_group = true
holds_context Kind.inline = true
holds_context Kind.figure = true
holds_context Kind.footnote = true
holds_context Kind.collected_footnote = true
holds_context _ = false

-- Where a node stands: directly in a table, directly in the group of a table, or elsewhere.
pub data Spot : Type 0 where
  flow under_table under_group : Spot

unfoldable pub spot_below : Spot → Kind → Spot
spot_below spot Kind.table = under_table
spot_below under_table Kind.tgroup = under_group
spot_below spot k = flow

unfoldable pub is_under_group : Spot → Bool
is_under_group under_group = true
is_under_group _ = false

-- A figure takes the whole context, so none may be held above it. The head and the body of a table
-- switch the list that is written to, and stand in the group of a table alone. The document is the
-- root alone.
unfoldable pub allowed : Bool → Spot → Kind → Bool
allowed held spot Kind.figure = not held
allowed held spot Kind.document = false
allowed held spot Kind.thead = is_under_group spot
allowed held spot Kind.tbody = is_under_group spot
allowed held spot _ = true

-- A tree at a spot, below ancestors that hold context or not.
unfoldable mutual
  pub fits : Bool → Spot → Node → Bool
  fits held spot (element i k a s c) =
      allowed held spot k && fits_all (held || holds_context k) (spot_below spot k) c

  pub fits_all : Bool → Spot → Nodes → Bool
  fits_all held spot nil = true
  fits_all held spot (cons n ns) = fits held spot n && fits_all held spot ns

-- The footnotes that are kept for later can be walked anywhere.
abbrev pub NodesFit : List Node → Type 0
NodesFit [] = Unit
NodesFit (n ∷ ns) = (fits true flow n ≡ true) × NodesFit ns

abbrev pub FootnotesFit : Footnotes → Type 0
FootnotesFit [] = Unit
FootnotesFit ((k, n, used) ∷ d) = (fits true flow n ≡ true) × FootnotesFit d

abbrev pub StackFits : List Footnotes → Type 0
StackFits [] = Unit
StackFits (d ∷ ds) = FootnotesFit d × StackFits ds

abbrev pub NotesFit : Translator → Type 0
NotesFit s = StackFits s.footnotestack × NodesFit s.pending_footnotes
