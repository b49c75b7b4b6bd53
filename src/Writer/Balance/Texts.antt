-- ===== src/Writer/Balance/Texts.antt =====
-- The helpers for texts, labels and the postponed footnotes restore the frame.
use pymotw.Prelude.{◌≡◌, refl, String, Bool, true, false, List, [], ◌∷◌}
use pymotw.Writer.Node.{Node, mark_footnotetext, element}
use pymotw.Writer.State.{Env, Method, gets, update, ◌>>=◌, ◌>>◌}
use pymotw.Writer.Text.{
  encode, encode_uri, hypertarget, hypertargets, push_hyperlink_ids, pop_hyperlink_ids,
  restrict_footnote, walk_pending, release_footnotes, unrestrict_footnote,
}
use pymotw.Writer.Balance.Frame.{NodesFit, fits, flow}
use pymotw.Writer.Balance.Rules.{
  Place, rules, Good, Start, Kept, Settled, Good-then, Good-bind, Good-update,
}

module _ {p : Place} where
  pub Good-encode : (env : Env) (s : String) → Good p (encode env s)
  unfolding encode
  Good-encode env s = search rules

  pub Good-encode_uri : (env : Env) (s : String) → Good p (encode_uri env s)
  unfolding encode_uri
  Good-encode_uri env s = search (rules, Good-encode)

  pub Good-hypertarget : (env : Env) (w a : Bool) (i : String) → Good p (hypertarget env w a i)
  unfolding hypertarget
  Good-hypertarget env true a i = search rules
  Good-hypertarget env false a i = search rules

  pub Good-hypertargets : (env : Env) (is : List String) → Good p (hypertargets env is)
  unfolding hypertargets
  Good-hypertargets env [] = search rules
  Good-hypertargets env (i ∷ is) =
      Good-bind _ _ (search (rules, Good-hypertarget))
        (λ t. Good-bind _ _ (Good-hypertargets env is) (λ ts. search rules))

  pub Good-push_hyperlink_ids : (f : String) (ids : List String) → Good p (push_hyperlink_ids f ids)
  unfolding push_hyperlink_ids
  Good-push_hyperlink_ids f ids = search rules

  pub Good-pop_hyperlink_ids : (f : String) → Good p (pop_hyperlink_ids f)
  unfolding pop_hyperlink_ids
  Good-pop_hyperlink_ids f = record { at = λ s h. record { same = refl; notes = h.notes } }

  pub Good-restrict_footnote : (n : Node) → Good p (restrict_footnote n)
  unfolding restrict_footnote
  Good-restrict_footnote n = search rules

-- A walk over any node that fits is given; the footnotes that are kept fit everywhere.
module _ {p : Place} (walk : Node → Method)
    (walks : (n : Node) → fits true flow n ≡ true → Good p (walk n)) where
  mark-fits : (n : Node) → fits true flow n ≡ true → fits true flow (mark_footnotetext n) ≡ true
  unfolding fits
  mark-fits (element i k a s c) h = h

  pub Good-walk_pending : (ns : List Node) → NodesFit ns → Good p (walk_pending walk ns)
  unfolding walk_pending
  Good-walk_pending [] h = search rules
  Good-walk_pending (n ∷ ns) h =
      Good-then _ _ (walks _ (mark-fits n h.0)) (Good-walk_pending ns h.1)

  release : Method
  release = do
    pending ← gets (λ s. s.pending_footnotes)
    walk_pending walk pending
    update (λ s. record s { pending_footnotes = [] })

  release-Good : Good p release
  unfolding release gets ◌>>=◌
  release-Good = record {
    at = λ s h.
        (Good-then _ _ (Good-walk_pending s.pending_footnotes h.notes.1) (search rules)).at s h;
  }

  pub Good-release_footnotes : Good p (release_footnotes walk)
  unfolding release_footnotes
  Good-release_footnotes = Good-then _ _ (search rules) (unfold release in release-Good)

  pub Good-unrestrict_footnote : (n : Node) → Good p (unrestrict_footnote walk n)
  unfolding unrestrict_footnote
  Good-unrestrict_footnote n = search (rules, Good-release_footnotes)

pub ruleset text_rules = (
  rules, Good-encode, Good-encode_uri, Good-hypertarget, Good-hypertargets, Good-push_hyperlink_ids,
  Good-pop_hyperlink_ids, Good-restrict_footnote,
)
