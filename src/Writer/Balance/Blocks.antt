-- ===== src/Writer/Balance/Blocks.antt =====
-- Documents, sections, descriptions and lists: the methods that restore the frame by themselves.
use pymotw.Prelude.{◌≡◌, ℕ, zero, suc, String, Bool, true, false, Option, none, some, List, [], ◌∷◌}
use pymotw.Writer.Node.{Node, Kind}
use pymotw.Writer.State.{Env, Piece, text, num}
use pymotw.Writer.Structure.{
  deeper, visit_section, depart_section, visit_topic, depart_topic, visit_productionlist,
  depart_productionlist, production_name, visit_production, visit_transition,
}
use pymotw.Writer.Desc.{
  visit_desc, depart_desc, signature_target, parent_objtype, visit_desc_signature,
  visit_desc_parameterlist, visit_desc_parameter, depart_desc_parameter, visit_desc_content,
  option_separator, visit_option, visit_option_argument, visit_option_list,
}
use pymotw.Writer.Lists.{
  acks_text, visit_acks, visit_bullet_list, depart_bullet_list, set_counter, visit_enumerated_list,
  visit_definition_list, term_target, visit_termsep, visit_field_list, emit_break, visit_paragraph,
  visit_centered, visit_line_block, visit_block_quote, depart_block_quote,
}
use pymotw.Writer.Balance.Rules.{Place, Good}
use pymotw.Writer.Balance.Texts.{text_rules}

module _ {p : Place} where
  pub Good-deeper : (b : Bool) (o : Option ℕ) → Good p (deeper b o)
  unfolding deeper
  Good-deeper true o = search (text_rules) depth 30
  Good-deeper false o = search (text_rules) depth 30

  pub Good-visit_section : (node : Node) → Good p (visit_section node)
  unfolding visit_section
  Good-visit_section node = search (text_rules, Good-deeper) depth 30

  pub Good-depart_section : (node : Node) → Good p (depart_section node)
  unfolding depart_section
  Good-depart_section node = search (text_rules) depth 30

  pub Good-visit_topic : (node : Node) → Good p (visit_topic node)
  unfolding visit_topic
  Good-visit_topic node = search (text_rules) depth 30

  pub Good-depart_topic : (node : Node) → Good p (depart_topic node)
  unfolding depart_topic
  Good-depart_topic node = search (text_rules) depth 30

  pub Good-visit_productionlist : (node : Node) → Good p (visit_productionlist node)
  unfolding visit_productionlist
  Good-visit_productionlist node = search (text_rules) depth 30

  pub Good-depart_productionlist : (node : Node) → Good p (depart_productionlist node)
  unfolding depart_productionlist
  Good-depart_productionlist node = search (text_rules) depth 30

  pub Good-production_name : (env : Env) (x : String) → Good p (production_name env x)
  unfolding production_name
  Good-production_name env x = search (text_rules) depth 30

  pub Good-visit_production : (env : Env) (node : Node) → Good p (visit_production env node)
  unfolding visit_production
  Good-visit_production env node = search (text_rules, Good-production_name) depth 30

  pub Good-visit_transition : (env : Env) (node : Node) → Good p (visit_transition env node)
  unfolding visit_transition
  Good-visit_transition env node = search (text_rules) depth 30

  pub Good-visit_desc : (node : Node) → Good p (visit_desc node)
  unfolding visit_desc
  Good-visit_desc node = search (text_rules) depth 30

  pub Good-depart_desc : (node : Node) → Good p (depart_desc node)
  unfolding depart_desc
  Good-depart_desc node = search (text_rules) depth 30

  pub Good-signature_target :
      (env : Env) (x : String) (xs : List String) → Good p (signature_target env x xs)
  unfolding signature_target
  Good-signature_target env x [] = search (text_rules) depth 30
  Good-signature_target env x (i ∷ is) = search (text_rules) depth 30

  pub Good-parent_objtype : (up : Option Node) → Good p (parent_objtype up)
  unfolding parent_objtype
  Good-parent_objtype none = search (text_rules) depth 30
  Good-parent_objtype (some p) = search (text_rules) depth 30

  pub Good-visit_desc_signature :
      (env : Env) (up : Option Node) (node : Node) → Good p (visit_desc_signature env up node)
  unfolding visit_desc_signature
  Good-visit_desc_signature env up node =
      search (text_rules, Good-signature_target, Good-parent_objtype) depth 30

  pub Good-visit_desc_parameterlist : (node : Node) → Good p (visit_desc_parameterlist node)
  unfolding visit_desc_parameterlist
  Good-visit_desc_parameterlist node = search (text_rules) depth 30

  pub Good-visit_desc_parameter : (node : Node) → Good p (visit_desc_parameter node)
  unfolding visit_desc_parameter
  Good-visit_desc_parameter node = search (text_rules) depth 30

  pub Good-depart_desc_parameter : (node : Node) → Good p (depart_desc_parameter node)
  unfolding depart_desc_parameter
  Good-depart_desc_parameter node = search (text_rules) depth 30

  pub Good-visit_desc_content : (node : Node) → Good p (visit_desc_content node)
  unfolding visit_desc_content
  Good-visit_desc_content node = search (text_rules) depth 30

  pub Good-option_separator : (ps : List Piece) → Good p (option_separator ps)
  unfolding option_separator
  Good-option_separator [] = search (text_rules) depth 30
  Good-option_separator (num zero ∷ ps) = search (text_rules) depth 30
  Good-option_separator (num (suc n) ∷ ps) = search (text_rules) depth 30
  Good-option_separator (text t ∷ ps) = search (text_rules) depth 30

  pub Good-visit_option : (node : Node) → Good p (visit_option node)
  unfolding visit_option
  Good-visit_option node = search (text_rules, Good-option_separator) depth 30

  pub Good-visit_option_argument : (node : Node) → Good p (visit_option_argument node)
  unfolding visit_option_argument
  Good-visit_option_argument node = search (text_rules) depth 30

  pub Good-visit_option_list : (node : Node) → Good p (visit_option_list node)
  unfolding visit_option_list
  Good-visit_option_list node = search (text_rules) depth 30

  pub Good-acks_text : (env : Env) (ns : List Node) → Good p (acks_text env ns)
  unfolding acks_text
  Good-acks_text env [] = search (text_rules) depth 30
  Good-acks_text env (n ∷ ns) = search (text_rules) depth 30

  pub Good-visit_bullet_list : (node : Node) → Good p (visit_bullet_list node)
  unfolding visit_bullet_list
  Good-visit_bullet_list node = search (text_rules) depth 30

  pub Good-depart_bullet_list : (node : Node) → Good p (depart_bullet_list node)
  unfolding depart_bullet_list
  Good-depart_bullet_list node = search (text_rules) depth 30

  pub Good-set_counter : (o : Option ℕ) → Good p (set_counter o)
  unfolding set_counter
  Good-set_counter none = search (text_rules) depth 30
  Good-set_counter (some n) = search (text_rules) depth 30

  pub Good-visit_enumerated_list : (node : Node) → Good p (visit_enumerated_list node)
  unfolding visit_enumerated_list
  Good-visit_enumerated_list node = search (text_rules, Good-set_counter) depth 30

  pub Good-visit_definition_list : (node : Node) → Good p (visit_definition_list node)
  unfolding visit_definition_list
  Good-visit_definition_list node = search (text_rules) depth 30

  pub Good-term_target : (env : Env) (xs : List String) → Good p (term_target env xs)
  unfolding term_target
  Good-term_target env [] = search (text_rules) depth 30
  Good-term_target env (i ∷ is) = search (text_rules) depth 30

  pub Good-visit_field_list : (node : Node) → Good p (visit_field_list node)
  unfolding visit_field_list
  Good-visit_field_list node = search (text_rules) depth 30

  pub Good-emit_break : (x : String) → Good p (emit_break x)
  unfolding emit_break
  Good-emit_break x = search (text_rules) depth 30

  pub Good-visit_paragraph : (up : Option Node) (node : Node) → Good p (visit_paragraph up node)
  unfolding visit_paragraph
  Good-visit_paragraph none node = search (text_rules, Good-emit_break) depth 30
  Good-visit_paragraph (some parent) node = search (text_rules, Good-emit_break) depth 30

  pub Good-visit_centered : (node : Node) → Good p (visit_centered node)
  unfolding visit_centered
  Good-visit_centered node = search (text_rules) depth 30

  pub Good-visit_line_block :
      (parent : Option Kind) (node : Node) → Good p (visit_line_block parent node)
  unfolding visit_line_block
  Good-visit_line_block parent node = search (text_rules) depth 30

  pub Good-visit_block_quote : (node : Node) → Good p (visit_block_quote node)
  unfolding visit_block_quote
  Good-visit_block_quote node = search (text_rules) depth 30

  pub Good-depart_block_quote : (node : Node) → Good p (depart_block_quote node)
  unfolding depart_block_quote
  Good-depart_block_quote node = search (text_rules) depth 30

-- Those that raise SkipNode.
module _ {p : Place} (may : p.skips ≡ true) where
  pub Good-visit_acks : (env : Env) (node : Node) → Good p (visit_acks env node)
  unfolding visit_acks
  Good-visit_acks env node = search (text_rules, Good-acks_text) depth 30

  pub Good-visit_termsep : (node : Node) → Good p (visit_termsep node)
  unfolding visit_termsep
  Good-visit_termsep node = search (text_rules) depth 30

pub ruleset block_rules = (
  text_rules, Good-deeper, Good-visit_section, Good-depart_section, Good-visit_topic,
  Good-depart_topic, Good-visit_productionlist, Good-depart_productionlist, Good-production_name,
  Good-visit_production, Good-visit_transition, Good-visit_desc, Good-depart_desc,
  Good-signature_target, Good-parent_objtype, Good-visit_desc_signature,
  Good-visit_desc_parameterlist, Good-visit_desc_parameter, Good-depart_desc_parameter,
  Good-visit_desc_content, Good-option_separator, Good-visit_option, Good-visit_option_argument,
  Good-visit_option_list, Good-acks_text, Good-visit_bullet_list, Good-depart_bullet_list,
  Good-set_counter, Good-visit_enumerated_list, Good-visit_definition_list, Good-term_target,
  Good-visit_field_list, Good-emit_break, Good-visit_paragraph, Good-visit_centered,
  Good-visit_line_block, Good-visit_block_quote, Good-depart_block_quote,
)
