-- ===== src/Writer/Laws/Footnotes.antt =====
-- The places of the footnotes.
use pymotw.Prelude.{
  ℕ, ◌≡◌, refl, ◌∙◌, ap, String, Bool, true, false, Option, some, none, List, [], ◌∷◌, ◌++◌,
  if◌then◌else◌, ◌=ˢ◌, ◌==◌, eq_iff, strip, Bool-cases, inl, inr,
}
use pymotw.Writer.Node.{Node, uid}
use pymotw.Writer.State.{
  Env, raise, Translator, Method, Footnotes, ok, ◌>>◌, ◌>>=◌, update, gets, pure, emit, emit_all,
}
use pymotw.Writer.Text.{restrict_footnote, unrestrict_footnote}
use pymotw.Writer.Inline.{
  visit_footnote_reference, find_note, use_note, place_note, top_note, use_top,
}

-- The note that a number has, marked as used.
abbrev pub used_up : Option (Node × Bool) → Option (Node × Bool)
used_up none = none
used_up (some (n, u)) = some (n, true)

find-use_note : (k : String) (d : Footnotes) → find_note k (use_note k d) ≡ used_up (find_note k d)
unfolding find_note use_note
find-use_note k [] = refl
find-use_note k ((j, n, u) ∷ d) = elim (Bool-cases (j =ˢ k)) [
  | inl e ↦ rw e (rw e refl)
  | inr e ↦ rw e (rw e (find-use_note k d))
]

find-use_other :
    (k m : String) (d : Footnotes) → (k =ˢ m) ≡ false → find_note m (use_note k d) ≡ find_note m d
unfolding find_note use_note
find-use_other k m [] h = refl
find-use_other k m ((j, n, u) ∷ d) h = elim (Bool-cases (j =ˢ k)) [
  | inl e ↦ rw e (rw (ap (λ x. x =ˢ m) ((eq_iff j k).0 e) ∙ h) refl)
  | inr e ↦ rw e (ap (λ l. if j =ˢ m then some (n, u) else l) (find-use_other k m d h))
]

-- Once a node has restricted the footnotes, where nothing did before, a node of another identity
-- changes nothing at all, neither by restricting them nor by releasing them.
pub unrestrict-restrict_footnote :
    (walk : Node → Method) (n m : Node) (s : Translator)
    → s.footnote_restricted ≡ none
    → (uid n == uid m) ≡ false
    → let r = (restrict_footnote n s).1 in
      (r.footnote_restricted ≡ some (uid n))
      × (restrict_footnote m r ≡ (ok tt, r))
      × (unrestrict_footnote walk m r ≡ (ok tt, r))
unfolding restrict_footnote unrestrict_footnote ◌>>=◌ gets pure update
unrestrict-restrict_footnote walk n m s e h = (rw e refl, rw e refl, rw e (rw h refl))

top-use_top :
    (k : String) (ds : List Footnotes) → top_note k (use_top k ds) ≡ used_up (top_note k ds)
unfolding top_note use_top
top-use_top k [] = refl
top-use_top k (d ∷ ds) = find-use_note k d

-- Where footnotes are restricted and the note that a reference names is not used yet, the first
-- reference puts the note at the end of those kept for later, and a second one adds none.
pub visit-visit_footnote_reference :
    (env : Env) (walk : Node → Method) (r n : Node) (i : ℕ) (s : Translator)
    → top_note (strip (env.astext r)) s.footnotestack ≡ some (n, false)
    → s.footnote_restricted ≡ some i
    → let t = (visit_footnote_reference env walk r s).1 in
      (t.pending_footnotes ≡ s.pending_footnotes ++ (n ∷ []))
      × ((visit_footnote_reference env walk r t).1.pending_footnotes ≡ t.pending_footnotes)
unfolding visit_footnote_reference place_note ◌>>◌ ◌>>=◌ gets raise update emit emit_all
visit-visit_footnote_reference env walk r n i s h e =
    rw h (rw e (refl, rw (top-use_top (strip (env.astext r)) s.footnotestack ∙ ap used_up h) refl))
