-- ===== src/Writer/Balance/Special.antt =====
-- The nodes that restore the frame for a reason of their own: code settings, options, footnote
-- references and citations.
use pymotw.Prelude.{
  ℕ, ◌≡◌, refl, sym, ◌∙◌, ap, String, Bool, true, false, List, [], ◌∷◌, Option, none, some, length,
  strip, arith,
}
use pymotw.Writer.Node.{Node}
use pymotw.Writer.State.{
  Env, Translator, Action, Method, Piece, text, num, Highlight, Footnotes, gets, update, emit,
  raise, skip_children, ◌>>=◌, ◌>>◌,
}
use pymotw.Writer.Structure.{set_top, set_settings, visit_highlightlang}
use pymotw.Writer.Desc.{count_option, depart_option, visit_option_string}
use pymotw.Writer.Inline.{
  use_top, place_note, visit_footnote_reference, visit_citation, depart_citation, size_of,
}
use pymotw.Writer.Dispatch.{visit_math}
use pymotw.Writer.Balance.Frame.{Frame, frame, fits, flow, shapes}
use pymotw.Writer.Balance.Rules.{
  Place, Start, Good, Good-then, Good-bind, Good-if, Good-raise, rules, Settled,
}
use pymotw.Writer.Balance.Parts.{part_rules}
use pymotw.Writer.Balance.Moves.{Good-Moves, Moves-bind, Moves-pop, Moves, holding, any_place}
use pymotw.Writer.Balance.Counts.{Moves-write_option_string}
use pymotw.Writer.Balance.Brackets.{Moves-Good, Enters-then, Enters-bind, visiting, Good-anywhere}
use pymotw.Writer.Balance.Notes.{
  NoteFits, top_note-Fits, use_top-Fits, length-use_top, NodesFit-append,
}
use pymotw.Writer.Balance.Holding.{Holds, Holds-push}

-- The top of the settings changes, and their number does not.
Good-set_settings : {p : Place} (h : Highlight) → Good p (set_settings h)
unfolding set_settings set_top gets update raise pymotw.Writer.State.pure ◌>>=◌
Good-set_settings {p} h = record { at = λ s st. go s s.hlsettingstack refl st }
  where
    go :
        (s : Translator) (hs : List Highlight)
        → s.hlsettingstack ≡ hs
        → Start p s
        → Settled p s (
            (set_top h hs >>= λ settings'. update (λ t. record t { hlsettingstack = settings' })) s)
    go s [] e st = tt
    go s (k ∷ ks) e st = record {
      same = ap (λ n. record (frame s) { settings = n }) (sym (ap length e));
      notes = st.notes;
    }

pub Good-visit_math : {p : Place} → p.skips ≡ true → Good p visit_math
unfolding visit_math
Good-visit_math may = search rules

pub Good-visit_option_string :
    {p : Place} (env : Env) (n : Node) → p.skips ≡ true → Good p (visit_option_string env n)
unfolding visit_option_string
Good-visit_option_string env n may =
    Good-then _ _ (Moves-Good _ (λ a. Moves-write_option_string env n)) (search rules)

-- The number on the context counts up, and its shape stays.
pub Good-depart_option : {p : Place} (n : Node) → Good p (depart_option n)
unfolding depart_option count_option gets update raise pymotw.Writer.State.pure ◌>>=◌
Good-depart_option {p} n = record { at = λ s st. go s s.context refl st }
  where
    go :
        (s : Translator) (ps : List Piece)
        → s.context ≡ ps
        → Start p s
        → Settled p s
            ((count_option ps >>= λ context'. update (λ t. record t { context = context' })) s)
    go s [] e st = tt
    go s (num k ∷ ps) e st = record {
      same = ap (λ c. record (frame s) { context = c }) (sym (ap shapes e));
      notes = st.notes;
    }
    go s (text t ∷ ps) e st = tt

module _ (walk : Node → Method)
    (walks : (n : Node) → fits true flow n ≡ true → Good any_place (walk n)) {held : Bool} where
  Good-use :
      (k : String)
      → Good (visiting held) (update (λ s. record s { footnotestack = use_top k s.footnotestack }))
  unfolding update
  Good-use k = record {
    at = λ s h. record {
      same = ap (λ n. record (frame s) { files = n }) (length-use_top k s.footnotestack);
      notes = (use_top-Fits k s.footnotestack h.notes.0, h.notes.1);
    };
  }

  Good-keep :
      (n : Node)
      → fits true flow n ≡ true
      → Good (visiting held) (
          update (λ s. record s {
            pending_footnotes = pymotw.Prelude.◌++◌ s.pending_footnotes (n ∷ []);
          }))
  unfolding update
  Good-keep n f = record {
    at = λ s h. record {
      same = refl;
      notes = (h.notes.0, NodesFit-append s.pending_footnotes n h.notes.1 f);
    };
  }

  Good-place_note :
      (k : String) (o : Option (Node × Bool))
      → NoteFits o
      → Good (visiting held) (place_note walk k o)
  unfolding place_note
  Good-place_note k none f = search rules
  Good-place_note k (some (n, true)) f = search rules depth 20
  Good-place_note k (some (n, false)) f = Good-bind _ _ (search rules) (λ r.
      Good-then _ _ (Good-use k)
        (Good-if r (Good-then _ _ (search rules) (Good-keep n f)) (Good-anywhere (walks n f))))

  pub Good-visit_footnote_reference :
      (env : Env) (n : Node) → Good (visiting held) (visit_footnote_reference env walk n)
  unfolding visit_footnote_reference ◌>>=◌ gets
  Good-visit_footnote_reference env n = record {
    at = λ s h.
        (Good-then _ _
            (Good-place_note (strip (env.astext n)) _
              (top_note-Fits (strip (env.astext n)) s.footnotestack h.notes.0))
            (Good-raise _ skip_children refl)).at
          s h;
  }

pub Good-visit_highlightlang :
    {p : Place} (n : Node) → p.skips ≡ true → Good p (visit_highlightlang n)
unfolding visit_highlightlang
Good-visit_highlightlang n may = search (rules, Good-set_settings)

Good-size_of : {p : Place} (x : Piece) → Good p (size_of x)
unfolding size_of
Good-size_of (num n) = search rules
Good-size_of (text t) = search rules

pub Holds-visit_citation : {held : Bool} (n : Node) → Holds held (visit_citation n)
unfolding visit_citation
Holds-visit_citation n =
    Enters-then _ _ _ _ (search rules) (Enters-bind _ _ _ _ (search rules) (λ k. Holds-push _))

pub Moves-depart_citation :
    {a : Frame} (x : Piece) (n : Node) → Moves (holding x a) a (depart_citation n)
unfolding depart_citation
Moves-depart_citation x n =
    Moves-bind _ _ (Moves-pop x) (λ q. Good-Moves _ (search (part_rules, Good-size_of) depth 20))
