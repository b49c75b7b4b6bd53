-- ===== src/Writer/Balance/Kinds.antt =====
-- The step at every kind of node that a balanced tree may have.
use pymotw.Prelude.{
  none, ◌&&◌, ℕ, inl, inr, Bool-cases, String, ◌≡◌, refl, ◌∙◌, ap, arith, Bool, true, false, List,
  [], Option, some, ◌||◌, not,
}
use pymotw.Writer.Node.{Node, kind, Nodes, Attrs, Kind, element}
use pymotw.Writer.State.{Env, Method, Piece}
use pymotw.Writer.Dispatch.{visit, depart, parent_kind}
use pymotw.Writer.Walk.{walk_step}
use pymotw.Writer.Titles.{is_table}
use pymotw.Writer.Balance.Frame.{Frame, fits, flow, is_under_group, allowed, holds_context}
use pymotw.Writer.Balance.Rules.{Good}
use pymotw.Writer.Balance.Moves.{any_place, Moves, holding, Moves-emit_context}
use pymotw.Writer.Balance.Brackets.{Enters-Moves, walking, kids, enter, leave, bracket, neutral}
use pymotw.Writer.Balance.Holding.{
  Always, Holds, Holds-visit_reference, Holds-visit_abbreviation, Holds-visit_inline,
  Holds-visit_subtitle, Holds-visit_rubric, Holds-visit_option_group, Holds-visit_entry,
}
use pymotw.Writer.Balance.Counts.{
  more_whitespace, more_both, more_compact, more_contractions, more_footnotes, more_blocks,
  Moves-visit_desc_addname, Moves-depart_desc_addname, Moves-visit_desc_name,
  Moves-depart_desc_name, Moves-visit_hlist, Moves-depart_hlist, Moves-visit_literal_emphasis,
  Moves-depart_literal_emphasis, Moves-visit_literal_strong, Moves-depart_literal_strong,
  Moves-visit_literal, Moves-depart_literal, Moves-visit_collected_footnote,
  Moves-depart_collected_footnote,
}
use pymotw.Writer.Balance.Terms.{term_frame, Enters-visit_term, Moves-depart_term}
use pymotw.Writer.Balance.Special.{Holds-visit_citation, Moves-depart_citation}
use pymotw.Writer.Balance.Titles.{
  Outer, switched, Enters-visit_title, Holds-visit_title, Moves-depart_title,
  Moves-depart_title_table,
}
use pymotw.Writer.Balance.Captions.{captioned, Captions, Enters-visit_caption, Moves-depart_caption}
use pymotw.Writer.Balance.Files.{
  filed, Unfiled, Enters-visit_start_of_file, Moves-depart_start_of_file,
}
use pymotw.Writer.Balance.Neutral.{is_neutral, visit-Good, depart-Good}
use pymotw.Writer.Balance.Opened.{
  Moves-depart_rubric, Moves-depart_option_group, Moves-depart_entry, Moves-visit_container,
  Moves-depart_container, Moves-container, Moves-plain_container, Bare, figured,
  Enters-visit_figure, Moves-depart_figure,
}

module _ (env : Env) (walk : List Node → Node → Method) (up : List Node) (n : Node)
    (held : Bool) where
  abbrev pub Under : Type 0
  Under = Good (walking (held || holds_context (kind n))) (kids env walk up n)

  abbrev pub Restored : Type 0
  Restored = Good (walking held) (walk_step env walk up n)

  counts_below :
      holds_context (kind n) ≡ false → (held || holds_context (kind n)) ≡ false → held ≡ false
  counts_below h e = ground arith

  held_below : holds_context (kind n) ≡ true → (held || holds_context (kind n)) ≡ false → ⊥
  held_below h e = ground arith

  pub counted :
      holds_context (kind n) ≡ (false)
      → (g : Frame → Frame) → ((a : Frame) → (g a).context ≡ a.context)
      → ((a : Frame) → Moves a (g a) (enter env walk up n))
      → ((a : Frame) → Moves (g a) a (leave env walk up n))
      → Under
      → Restored
  counted k g c opens closes good =
      bracket env walk up n {X = Unit} (λ x a. Unit) (λ x a. g a) held
        (held || holds_context (kind n)) (Enters-Moves _ _ tt (λ s h. tt) opens) (λ x a p. closes a)
        (λ x a p b e. c a ∙ b (counts_below k e)) good

  pub holds :
      holds_context (kind n) ≡ true
      → Holds held (enter env walk up n)
      → ((x : Piece) (a : Frame) → Moves (holding x a) a (leave env walk up n))
      → Under
      → Restored
  holds k opens closes good =
      bracket env walk up n Always holding held (held || holds_context (kind n)) opens
        (λ x a p. closes x a) (λ x a p b e. absurd (held_below k e)) good

lower : (a b : Bool) → (a || b) ≡ false → a ≡ false
lower a b h = ground arith

both : (a b : Bool) → (a && b) ≡ true → (a ≡ true) × (b ≡ true)
both a b h = ground arith

captioned-context : (x : Option (ℕ × ℕ)) (a : Frame) → (captioned x a).context ≡ a.context
captioned-context none a = refl
captioned-context (some x) a = refl

not-true : (b : Bool) → not b ≡ true → b ≡ false
not-true b h = ground arith

module _ (env : Env) (walk : List Node → Node → Method) (up : List Node) (held : Bool)
    (w : (m : Node) → fits true flow m ≡ true → Good any_place (walk [] m)) where
  container-Restored :
      (u : ℕ) (a : Attrs) (s : String) (c : Nodes)
      → (b : Bool) → a.literal_block ≡ b
      → Under env walk up (element u Kind.container a s c) held
      → Restored env walk up (element u Kind.container a s c) held
  unfolding visit depart holds_context is_table
  container-Restored u a s c true e good =
      counted env walk up (element u Kind.container a s c) held refl more_blocks (λ a. refl)
        (λ f. Moves-visit_container env _ e) (λ f. Moves-depart_container _ e) good
  container-Restored u a s c false e good =
      counted env walk up (element u Kind.container a s c) held refl (λ a. a) (λ a. refl)
        (λ f. Moves-container env _ e) (λ f. Moves-plain_container _ e) good

  title-Restored :
      (u : ℕ) (a : Attrs) (s : String) (c : Nodes)
      → (k : Option Kind) → parent_kind up ≡ k
      → Under env walk up (element u Kind.title a s c) held
      → Restored env walk up (element u Kind.title a s c) held
  unfolding visit depart holds_context is_table
  title-Restored u a s c (some Kind.table) e good =
      bracket env walk up (element u Kind.title a s c) Outer switched held _
        (rw e (Enters-visit_title env _))
        (λ x f p. rw e (Moves-depart_title_table x (walk []) _ w p))
        (λ x f p b q. absurd (held_below env walk up (element u Kind.title a s c) held refl q)) good
  title-Restored u a s c _ e good =
      holds env walk up (element u Kind.title a s c) held refl
        (Holds-visit_title env _ _ (ap is_table e))
        (λ x f. Moves-depart_title x (walk []) _ _ w (ap is_table e)) good

  -- A node that is not neutral.
  opened-Restored :
      (n : Node)
      → is_neutral (kind n) ≡ false
      → is_table (some (kind n)) ≡ false
      → fits held flow n ≡ true
      → Under env walk up n held
      → Restored env walk up n held
  unfolding visit depart fits allowed holds_context is_table is_under_group
  opened-Restored (element u Kind.subtitle a s c) e t f good =
      holds env walk up (element u Kind.subtitle a s c) held refl (Holds-visit_subtitle _ _)
        (λ x a. Moves-emit_context x) good
  opened-Restored (element u Kind.rubric a s c) e t f good =
      holds env walk up (element u Kind.rubric a s c) held refl (Holds-visit_rubric env _)
        (λ x a. Moves-depart_rubric x _) good
  opened-Restored (element u Kind.entry a s c) e t f good =
      holds env walk up (element u Kind.entry a s c) held refl (Holds-visit_entry env _ _)
        (λ x a. Moves-depart_entry x) good
  opened-Restored (element u Kind.reference a s c) e t f good =
      holds env walk up (element u Kind.reference a s c) held refl (Holds-visit_reference env _)
        (λ x a. Moves-emit_context x) good
  opened-Restored (element u Kind.abbreviation a s c) e t f good =
      holds env walk up (element u Kind.abbreviation a s c) held refl
        (Holds-visit_abbreviation env _) (λ x a. Moves-emit_context x) good
  opened-Restored (element u Kind.citation a s c) e t f good =
      holds env walk up (element u Kind.citation a s c) held refl (Holds-visit_citation _)
        (λ x a. Moves-depart_citation x _) good
  opened-Restored (element u Kind.option_group a s c) e t f good =
      holds env walk up (element u Kind.option_group a s c) held refl (Holds-visit_option_group _)
        (λ x a. Moves-depart_option_group x _) good
  opened-Restored (element u Kind.inline a s c) e t f good =
      holds env walk up (element u Kind.inline a s c) held refl (Holds-visit_inline _)
        (λ x a. Moves-emit_context x) good
  opened-Restored (element u Kind.term a s c) e t f good =
      bracket env walk up (element u Kind.term a s c) Always term_frame held _
        (Enters-visit_term env _) (λ x f p. Moves-depart_term x (walk []) _ w)
        (λ x f p b q. absurd (held_below env walk up (element u Kind.term a s c) held refl q)) good
  opened-Restored (element u Kind.field_name a s c) e t f good =
      bracket env walk up (element u Kind.field_name a s c) Always term_frame held _
        (Enters-visit_term env _) (λ x f p. Moves-depart_term x (walk []) _ w)
        (λ x f p b q. absurd (held_below env walk up (element u Kind.field_name a s c) held refl q))
        good
  opened-Restored (element u Kind.desc_addname a s c) e t f good =
      counted env walk up (element u Kind.desc_addname a s c) held refl more_whitespace (λ a. refl)
        (λ f. Moves-visit_desc_addname _) (λ f. Moves-depart_desc_addname _) good
  opened-Restored (element u Kind.desc_name a s c) e t f good =
      counted env walk up (element u Kind.desc_name a s c) held refl more_both (λ a. refl)
        (λ f. Moves-visit_desc_name _) (λ f. Moves-depart_desc_name _) good
  opened-Restored (element u Kind.hlist a s c) e t f good =
      counted env walk up (element u Kind.hlist a s c) held refl more_compact (λ a. refl)
        (λ f. Moves-visit_hlist _) (λ f. Moves-depart_hlist _) good
  opened-Restored (element u Kind.literal_emphasis a s c) e t f good =
      counted env walk up (element u Kind.literal_emphasis a s c) held refl more_contractions
        (λ a. refl) (λ f. Moves-visit_literal_emphasis _) (λ f. Moves-depart_literal_emphasis _)
        good
  opened-Restored (element u Kind.literal_strong a s c) e t f good =
      counted env walk up (element u Kind.literal_strong a s c) held refl more_contractions
        (λ a. refl) (λ f. Moves-visit_literal_strong _) (λ f. Moves-depart_literal_strong _) good
  opened-Restored (element u Kind.manpage a s c) e t f good =
      counted env walk up (element u Kind.manpage a s c) held refl more_contractions (λ a. refl)
        (λ f. Moves-visit_literal_emphasis _) (λ f. Moves-depart_literal_emphasis _) good
  opened-Restored (element u Kind.literal a s c) e t f good =
      counted env walk up (element u Kind.literal a s c) held refl more_contractions (λ a. refl)
        (λ f. Moves-visit_literal _) (λ f. Moves-depart_literal _) good
  opened-Restored (element u Kind.collected_footnote a s c) e t f good =
      bracket env walk up (element u Kind.collected_footnote a s c) {X = Unit} (λ x f. Unit)
        (λ x f. more_footnotes f) held _
        (Enters-Moves _ _ tt (λ s h. tt) (λ f. Moves-visit_collected_footnote _))
        (λ x f p. Moves-depart_collected_footnote _)
        (λ x f p b q.
          absurd (held_below env walk up (element u Kind.collected_footnote a s c) held refl q))
        good
  opened-Restored (element u Kind.container a s c) e t f good =
      container-Restored u a s c a.literal_block refl good
  opened-Restored (element u Kind.title a s c) e t f good =
      title-Restored u a s c (parent_kind up) refl good
  opened-Restored (element u Kind.figure a s c) e t f good =
      bracket env walk up (element u Kind.figure a s c) Bare figured held _
        (Enters-visit_figure env _ (not-true held (both _ _ f).0))
        (λ x g p. Moves-depart_figure x (walk []) _ w p)
        (λ x g p b q. absurd (held_below env walk up (element u Kind.figure a s c) held refl q))
        good
  opened-Restored (element u Kind.document a s c) e t f good = cc
  opened-Restored (element u Kind.start_of_file a s c) e t f good =
      bracket env walk up (element u Kind.start_of_file a s c) Unfiled filed held _
        (Enters-visit_start_of_file env flow _ f) (λ x g p. Moves-depart_start_of_file x _)
        (λ x g p b q. b (lower held _ q)) good
  opened-Restored (element u Kind.caption a s c) e t f good =
      bracket env walk up (element u Kind.caption a s c) Captions captioned held _
        (Enters-visit_caption _ _) (λ x g p. Moves-depart_caption x _ p)
        (λ x g p b q. captioned-context x g ∙ b (lower held _ q)) good
  opened-Restored (element u Kind.table a s c) e t f good = cc
  opened-Restored (element u _ a s c) e t f good = cc

  pub step-Good :
      (n : Node)
      → is_table (some (kind n)) ≡ false
      → fits held flow n ≡ true
      → Under env walk up n held
      → Restored env walk up n held
  step-Good n t f good = elim (Bool-cases (is_neutral (kind n))) [
    | inl e ↦
        neutral env walk up n held (held || holds_context (kind n))
          (visit-Good env (walk []) up n w (kind n) e) (depart-Good env (walk []) up n (kind n) e)
          (λ q. lower held _ q) good
    | inr e ↦ opened-Restored n e t f good
  ]
