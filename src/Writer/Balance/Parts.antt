-- ===== src/Writer/Balance/Parts.antt =====
-- Tables, inline elements and floats: the methods that restore the frame by themselves.
use pymotw.Prelude.{
  ◌≡◌, ℕ, Char, String, Bool, true, false, Option, none, some, List, [], ◌∷◌, ◌⊎◌, inl, inr, not,
  code, ◌==◌, ◌&&◌,
}
use pymotw.Writer.Node.{Node, Kind, IndexEntry}
use pymotw.Writer.State.{Env, Piece, Table, Bibitem, Action, text, num, Highlight}
use pymotw.Writer.Tables.{
  refuse_nested, visit_tabular_col_spec, pieces_of, table_caption, first_id, caption_target,
  emit_each, write_table, visit_colspec, depart_tbody, visit_row, emit_clines, depart_row,
}
use pymotw.Writer.Inline.{
  reference_ids, reference_uri, prepend, is_flag, refuse_conversion, format_one, number_target,
  visit_number_reference, join_pieces, change_last, change_bibitem, label_citation, visit_label,
  visit_citation_reference, visit_text,
}
use pymotw.Writer.Figures.{
  Postponed, write_image, visit_image, first_target, uri_target, add_target, add_targets,
  place_target, visit_target, encode_all, emit_command, index_outcome, index_parts, index_entry,
  index_entries, visit_index, visit_raw, top_setting, write_listing, refuse_in_footnote,
  visit_literal_block,
}
use pymotw.Writer.Balance.Rules.{Place, Good, Good-then, Good-bind, Good-if}
use pymotw.Writer.Balance.Texts.{text_rules}

module _ {p : Place} where
  pub Good-refuse_nested : (b : Bool) → Good p (refuse_nested b)
  unfolding refuse_nested
  Good-refuse_nested true = search (text_rules) depth 30
  Good-refuse_nested false = search (text_rules) depth 30

  pub Good-pieces_of : (o : Option ℕ) → Good p (pieces_of o)
  unfolding pieces_of
  Good-pieces_of o = search (text_rules) depth 30

  pub Good-table_caption : (ps : List Piece) → Good p (table_caption ps)
  unfolding table_caption
  Good-table_caption [] = search (text_rules) depth 30
  Good-table_caption (q ∷ ps) = search (text_rules) depth 30

  pub Good-first_id : (env : Env) (xs : List String) → Good p (first_id env xs)
  unfolding first_id
  Good-first_id env [] = search (text_rules) depth 30
  Good-first_id env (i ∷ is) = search (text_rules) depth 30

  pub Good-caption_target : (env : Env) (ps : List Piece) → Good p (caption_target env ps)
  unfolding caption_target
  Good-caption_target env [] = search (text_rules) depth 30
  Good-caption_target env (q ∷ ps) = search (text_rules) depth 30

  pub Good-emit_each : (env : Env) (xs : List String) → Good p (emit_each env xs)
  unfolding emit_each
  Good-emit_each env [] = search (text_rules) depth 30
  Good-emit_each env (i ∷ is) =
      Good-bind _ _ (search text_rules)
        (λ t. Good-then _ _ (search text_rules) (Good-emit_each env is))

  pub Good-write_table : (env : Env) (node : Node) (w : Table) → Good p (write_table env node w)
  unfolding write_table
  Good-write_table env node w =
      search
        (
          text_rules, Good-pieces_of, Good-table_caption, Good-first_id, Good-caption_target,
          Good-emit_each,
        )
        depth 30

  pub Good-visit_colspec : (node : Node) → Good p (visit_colspec node)
  unfolding visit_colspec
  Good-visit_colspec node = search (text_rules) depth 30

  pub Good-depart_tbody : Good p depart_tbody
  unfolding depart_tbody
  Good-depart_tbody = search (text_rules) depth 30

  pub Good-visit_row : Good p visit_row
  unfolding visit_row
  Good-visit_row = search (text_rules) depth 30

  pub Good-emit_clines : (w : List (ℕ × ℕ)) → Good p (emit_clines w)
  unfolding emit_clines
  Good-emit_clines [] = search (text_rules) depth 30
  Good-emit_clines (r ∷ rs) = Good-then _ _ (search text_rules) (Good-emit_clines rs)

module _ {p : Place} where
  pub Good-depart_row : Good p depart_row
  unfolding depart_row
  Good-depart_row = search (text_rules, Good-emit_clines) depth 30

  pub Good-reference_ids : (env : Env) (xs : List String) → Good p (reference_ids env xs)
  unfolding reference_ids
  Good-reference_ids env [] = search (text_rules) depth 30
  Good-reference_ids env (i ∷ is) = Good-bind _ _ (search text_rules) (λ a.
      Good-bind _ _ (search text_rules)
        (λ t. Good-then _ _ (search text_rules) (Good-reference_ids env is)))

  pub Good-reference_uri : (node : Node) → Good p (reference_uri node)
  unfolding reference_uri
  Good-reference_uri node = search (text_rules) depth 30

  pub Good-prepend : (x : String) (m : Action String) → Good p m → Good p (prepend x m)
  unfolding prepend
  Good-prepend x m g = search text_rules

  pub Good-refuse_conversion : (b : Bool) (c : Char) → Good p (refuse_conversion b c)
  unfolding refuse_conversion
  Good-refuse_conversion b c = search text_rules depth 30

  pub Good-format_one : (o b : Bool) (x s : String) → Good p (format_one o b x s)
  unfolding format_one
  Good-format_one true b x String.[] = search text_rules
  Good-format_one false b x String.[] = search text_rules
  Good-format_one true b x (String.◌∷◌ c s) = Good-if (is_flag c) (Good-format_one true b x s) (
      Good-if (code c == 37) (Good-prepend "%" _ (Good-format_one false b x s)) (
        Good-if (code c == 115 && not b) (Good-prepend x _ (Good-format_one false true x s))
          (Good-refuse_conversion b c)))
  Good-format_one false b x (String.◌∷◌ c s) =
      Good-if (code c == 37) (Good-format_one true b x s)
        (Good-prepend (String.◌∷◌ c "") _ (Good-format_one false b x s))

  pub Good-number_target : (node : Node) → Good p (number_target node)
  unfolding number_target
  Good-number_target node = search (text_rules) depth 30

  pub Good-join_pieces : (ps : List Piece) → Good p (join_pieces ps)
  unfolding join_pieces
  Good-join_pieces [] = search (text_rules) depth 30
  Good-join_pieces (text t ∷ ps) = Good-bind _ _ (Good-join_pieces ps) (λ r. search text_rules)
  Good-join_pieces (num n ∷ ps) = search (text_rules) depth 30

  pub Good-change_last : (w : (Bibitem → Bibitem)) (w2 : List Bibitem) → Good p (change_last w w2)
  unfolding change_last
  Good-change_last w [] = search (text_rules) depth 30
  Good-change_last w (b ∷ []) = search (text_rules) depth 30
  Good-change_last w (b ∷ c ∷ bs) =
      Good-bind _ _ (Good-change_last w (c ∷ bs)) (λ r. search text_rules)

  pub Good-change_bibitem : (w : (Bibitem → Bibitem)) → Good p (change_bibitem w)
  unfolding change_bibitem
  Good-change_bibitem w = search (text_rules, Good-change_last) depth 30

  pub Good-label_citation :
      (env : Env) (node : Node) (node2 : Node) → Good p (label_citation env node node2)
  unfolding label_citation
  Good-label_citation env node node2 = search (text_rules, Good-change_bibitem) depth 30

  pub Good-visit_text : (env : Env) (node : Node) → Good p (visit_text env node)
  unfolding visit_text
  Good-visit_text env node = search (text_rules) depth 30

  pub Good-write_image :
      (env : Env) (b : Bool) (node : Node) (x : String) → Good p (write_image env b node x)
  unfolding write_image
  Good-write_image env b node x = search (text_rules) depth 30

  pub Good-visit_image :
      (env : Env) (parent : Option Kind) (node : Node) → Good p (visit_image env parent node)
  unfolding visit_image
  Good-visit_image env parent node = search (text_rules, Good-write_image) depth 30

  pub Good-first_target : (env : Env) (xs : List String) → Good p (first_target env xs)
  unfolding first_target
  Good-first_target env [] = search (text_rules) depth 30
  Good-first_target env (i ∷ is) = search (text_rules) depth 30

  pub Good-uri_target : (env : Env) (o : Option String) → Good p (uri_target env o)
  unfolding uri_target
  Good-uri_target env o = search (text_rules) depth 30

  pub Good-add_target : (env : Env) (x : String) → Good p (add_target env x)
  unfolding add_target
  Good-add_target env x = search (text_rules) depth 30

  pub Good-add_targets : (env : Env) (xs : List String) → Good p (add_targets env xs)
  unfolding add_targets
  Good-add_targets env [] = search (text_rules) depth 30
  Good-add_targets env (i ∷ is) = Good-then _ _ (Good-add_target env i) (Good-add_targets env is)

  pub Good-place_target :
      (env : Env) (node : Node) (w : Postponed) → Good p (place_target env node w)
  unfolding place_target
  Good-place_target env node Postponed.to_section = search (text_rules, Good-add_targets) depth 30
  Good-place_target env node (Postponed.to_float f) = search (text_rules, Good-add_targets) depth 30
  Good-place_target env node Postponed.here = search (text_rules, Good-add_targets) depth 30

  pub Good-visit_target :
      (env : Env) (ns : List Node) (node : Node) → Good p (visit_target env ns node)
  unfolding visit_target
  Good-visit_target env [] node = search (text_rules, Good-place_target) depth 30
  Good-visit_target env (q ∷ up) node = search (text_rules, Good-place_target) depth 30

  pub Good-encode_all : (env : Env) (xs : List String) → Good p (encode_all env xs)
  unfolding encode_all
  Good-encode_all env [] = search (text_rules) depth 30
  Good-encode_all env (x ∷ xs) =
      Good-bind _ _ (search text_rules)
        (λ e. Good-bind _ _ (Good-encode_all env xs) (λ es. search text_rules))

  pub Good-emit_command : (o : Option String) → Good p (emit_command o)
  unfolding emit_command
  Good-emit_command none = search (text_rules) depth 30
  Good-emit_command (some x) = search (text_rules) depth 30

  pub Good-index_outcome :
      (env : Env) (e : IndexEntry) (x : String) (r : String ⊎ List String)
      → Good p (index_outcome env e x r)
  unfolding index_outcome
  Good-index_outcome env e x (inl m) =
      search (text_rules, Good-encode_all, Good-emit_command) depth 30
  Good-index_outcome env e x (inr xs) =
      search (text_rules, Good-encode_all, Good-emit_command) depth 30

  pub Good-index_parts :
      (env : Env) (n : ℕ) (e : IndexEntry) (x : String) → Good p (index_parts env n e x)
  unfolding index_parts
  Good-index_parts env n e x = search (text_rules, Good-index_outcome) depth 30

  pub Good-index_entry : (env : Env) (e : IndexEntry) → Good p (index_entry env e)
  unfolding index_entry
  Good-index_entry env e = search (text_rules, Good-index_parts) depth 30

  pub Good-index_entries : (env : Env) (es : List IndexEntry) → Good p (index_entries env es)
  unfolding index_entries
  Good-index_entries env [] = search (text_rules) depth 30
  Good-index_entries env (e ∷ es) =
      Good-then _ _ (Good-index_entry env e) (Good-index_entries env es)

  pub Good-top_setting : (w : List Highlight) → Good p (top_setting w)
  unfolding top_setting
  Good-top_setting [] = search (text_rules) depth 30
  Good-top_setting (h ∷ hs) = search (text_rules) depth 30

  pub Good-write_listing : (env : Env) (node : Node) → Good p (write_listing env node)
  unfolding write_listing
  Good-write_listing env node =
      search (text_rules, Good-top_setting, Good-first_target, Good-join_pieces) depth 30

  pub Good-refuse_in_footnote : (b : Bool) → Good p (refuse_in_footnote b)
  unfolding refuse_in_footnote
  Good-refuse_in_footnote true = search (text_rules) depth 30
  Good-refuse_in_footnote false = search (text_rules) depth 30

-- Those that raise SkipNode.
module _ {p : Place} (may : p.skips ≡ true) where
  pub Good-visit_tabular_col_spec : (node : Node) → Good p (visit_tabular_col_spec node)
  unfolding visit_tabular_col_spec
  Good-visit_tabular_col_spec node = search (text_rules) depth 30

  pub Good-visit_number_reference :
      (env : Env) (node : Node) → Good p (visit_number_reference env node)
  unfolding visit_number_reference
  Good-visit_number_reference env node =
      search (text_rules, Good-number_target, Good-format_one) depth 30

  pub Good-visit_label :
      (env : Env) (up : Option Node) (node : Node) → Good p (visit_label env up node)
  unfolding visit_label
  Good-visit_label env none node = search (text_rules, Good-label_citation) depth 30
  Good-visit_label env (some parent) node = search (text_rules, Good-label_citation) depth 30

  pub Good-visit_citation_reference :
      (env : Env) (node : Node) → Good p (visit_citation_reference env node)
  unfolding visit_citation_reference
  Good-visit_citation_reference env node = search (text_rules) depth 30

  pub Good-visit_index : (env : Env) (node : Node) → Good p (visit_index env node)
  unfolding visit_index
  Good-visit_index env node = search (text_rules, Good-index_entries) depth 30

  pub Good-visit_raw : (env : Env) (node : Node) → Good p (visit_raw env node)
  unfolding visit_raw
  Good-visit_raw env node = search (text_rules) depth 30

  pub Good-visit_literal_block : (env : Env) (node : Node) → Good p (visit_literal_block env node)
  unfolding visit_literal_block
  Good-visit_literal_block env node =
      search (text_rules, Good-refuse_in_footnote, Good-write_listing) depth 30

pub ruleset part_rules = (
  text_rules, Good-refuse_nested, Good-pieces_of, Good-table_caption, Good-first_id,
  Good-caption_target, Good-emit_each, Good-write_table, Good-visit_colspec, Good-depart_tbody,
  Good-visit_row, Good-emit_clines, Good-depart_row, Good-reference_ids, Good-reference_uri,
  Good-prepend, Good-format_one, Good-number_target, Good-join_pieces, Good-change_last,
  Good-change_bibitem, Good-label_citation, Good-visit_text, Good-write_image, Good-visit_image,
  Good-first_target, Good-uri_target, Good-add_target, Good-add_targets, Good-place_target,
  Good-visit_target, Good-encode_all, Good-emit_command, Good-index_outcome, Good-index_parts,
  Good-index_entry, Good-index_entries, Good-top_setting, Good-write_listing,
  Good-refuse_in_footnote,
)
