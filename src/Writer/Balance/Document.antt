-- ===== src/Writer/Balance/Document.antt =====
-- The document: the root of the tree, whose notes and name stay on their stacks.
use pymotw.Prelude.{
  ℕ, zero, suc, ◌-◌, String, ◌≡◌, refl, true, false, List, [], ◌∷◌, Option, none, some, or_default,
}
use pymotw.Writer.Node.{Node, Nodes, Attrs, Kind, element, attrs}
use pymotw.Writer.State.{
  Env, Translator, Method, Signal, Bibitem, Footnotes, ok, raised, skip_node, skip_children,
  pop_from_empty_list, need, raise, update, list_index_out_of_range, top_sectionlevel, ◌>>◌, ◌>>=◌,
}
use pymotw.Writer.Dispatch.{visit, depart}
use pymotw.Writer.Structure.{
  visit_document, depart_document, doc_target, emit_bibitems, emit_bibliography, collect_footnotes,
  footnotes_under, note_all, advance_document,
}
use pymotw.Writer.Walk.{after_visit, IsWalker}
use pymotw.Writer.Balance.Frame.{Frame, frame, fits_all, flow}
use pymotw.Writer.Balance.Rules.{Place, Good, Good-then, Good-bind, Start}
use pymotw.Writer.Balance.Texts.{text_rules}
use pymotw.Writer.Balance.Moves.{Moved, Moves, Good-Moves, bind-Moved}
use pymotw.Writer.Balance.Brackets.{walking, kids, leave, Below-Start, Settled-Moved-At}
use pymotw.Writer.Balance.Notes.{document-FootnotesFit}
use pymotw.Writer.Balance.Whole.{walkabout-Good, children-Good}

abbrev name_of : Node → String
name_of n = or_default "" (attrs n).docname

-- What is left of the frame when the document has been walked.
abbrev pub documented : String → Frame → Frame
documented x a = record a { curfilestack = x ∷ a.curfilestack; files = suc a.files }

module _ {p : Place} where
  Good-doc_target : (env : Env) (o : Option String) → Good p (doc_target env o)
  unfolding doc_target
  Good-doc_target env none = search text_rules
  Good-doc_target env (some x) = search text_rules

  Good-emit_bibitems : (env : Env) (bis : List Bibitem) → Good p (emit_bibitems env bis)
  unfolding emit_bibitems
  Good-emit_bibitems env [] = search text_rules
  Good-emit_bibitems env (bi ∷ bis) = Good-bind _ _ (search text_rules) (λ t.
      Good-bind _ _ (search text_rules)
        (λ x. Good-then _ _ (search text_rules) (Good-emit_bibitems env bis)))

  Good-emit_bibliography : (env : Env) (bis : List Bibitem) → Good p (emit_bibliography env bis)
  unfolding emit_bibliography
  Good-emit_bibliography env [] = search text_rules
  Good-emit_bibliography env (bi ∷ bis) = search (text_rules, Good-emit_bibitems) depth 20

  Good-depart_document : (env : Env) (n : Node) → Good p (depart_document env n)
  unfolding depart_document
  Good-depart_document env n = search (text_rules, Good-emit_bibliography) depth 20

begun : Node → Footnotes → Translator → Translator
begun n notes s = record s {
  footnotestack = notes ∷ s.footnotestack;
  curfilestack = name_of n ∷ s.curfilestack;
  first_document = advance_document s.first_document;
}

Moves-begin :
    {a : Frame} (env : Env) (n : Node)
    → Moves a a (
        doc_target env (attrs n).docname
        >> update (λ s. record s { sectionlevel = some (top_sectionlevel - 1) }))
Moves-begin env n = Good-Moves _ (search (text_rules, Good-doc_target))

begun-Moved :
    (env : Env) (u : ℕ) (b : Attrs) (x : String) (c : Nodes) (s : Translator)
    → fits_all false flow c ≡ true
    → Start (walking false) s
    → Moved
        (documented (name_of (element u Kind.document b x c)) (frame s))
        (visit_document env (element u Kind.document b x c) s)
unfolding visit_document collect_footnotes need update ◌>>=◌ ◌>>◌ begun
begun-Moved env u b x c s w h = go (note_all env (footnotes_under n) []) refl
  where
    n : Node
    n = element u Kind.document b x c

    go :
        (o : Option Footnotes)
        → note_all env (footnotes_under n) [] ≡ o
        → Moved (documented (name_of n) (frame s)) (
            (need list_index_out_of_range o >>= λ notes.
            update (begun n notes)
            >> (doc_target env (attrs n).docname
                >> update (λ s. record s { sectionlevel = some (top_sectionlevel - 1) })))
              s)
    go none e = tt
    go (some notes) e = (Moves-begin env n).at (begun n notes s) (record {
      same = refl;
      notes = ((document-FootnotesFit env u b x c w e, h.notes.0), h.notes.1);
      unmerged = h.unmerged;
    })

finished-Moved :
    (env : Env) (walk : List Node → Node → Method) (n : Node) (a : Frame)
    (r : Signal (Unit {0}) × Translator)
    → a.context ≡ []
    → Good (walking false) (kids env walk [] n)
    → Good (walking true) (leave env walk [] n)
    → Moved a r
    → Moved a (after_visit env walk [] n r)
unfolding ◌>>◌
finished-Moved env walk n a (ok o, t) c below close h =
    bind-Moved (λ _. leave env walk [] n) (kids env walk [] n t) (λ _. Good-Moves _ close)
      (Settled-Moved-At (walking false) (kids env walk [] n t) refl h
        (below.at t (Below-Start (λ _. c) h)))
finished-Moved env walk n a (raised skip_node, t) c below close h = absurd h
finished-Moved env walk n a (raised skip_children, t) c below close h = absurd h
finished-Moved env walk n a (raised pop_from_empty_list, t) c below close h = h
finished-Moved env walk n a (raised _, t) c below close h = tt

module _ (env : Env) (walkabout : ℕ → List Node → Node → Method) (w : IsWalker env walkabout) where
  -- For every function that walks as docutils does, and every document whose children fit: from a state
  -- whose kept footnotes fit, with no merged cell and an empty context, a walk that returns leaves the
  -- frame that `documented` names, the one before with the name of the document pushed on the stack of
  -- files and the count of files one up. A walk that does not return raises no SkipNode, no SkipChildren,
  -- and no pop from an empty list.
  pub walkabout-Moved :
      (limit u : ℕ) (b : Attrs) (x : String) (c : Nodes) (s : Translator)
      → fits_all false flow c ≡ true
      → Start (walking false) s
      → Moved
          (documented (name_of (element u Kind.document b x c)) (frame s))
          (walkabout limit [] (element u Kind.document b x c) s)
  unfolding visit depart raise
  walkabout-Moved zero u b x c s f h = rw (w.at_limit [] (element u Kind.document b x c)) tt
  walkabout-Moved (suc limit) u b x c s f h = rw (w.step limit [] (element u Kind.document b x c)) (
      finished-Moved env (walkabout limit) (element u Kind.document b x c)
        (documented (name_of (element u Kind.document b x c)) (frame s)) _ (h.clear refl)
        (children-Good env (walkabout limit) (element u Kind.document b x c ∷ []) false
          (λ m g.
            walkabout-Good env walkabout w limit (element u Kind.document b x c ∷ []) false m g)
          c f)
        (Good-depart_document env _) (begun-Moved env u b x c s f h))
