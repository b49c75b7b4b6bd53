-- ===== src/Writer/Laws/Levels.antt =====
-- The section level and the widest label of the bibliography.
use Prim.Native.String.{count}
use mathlib.Core.Path.{subst}
use pymotw.Prelude.{
  ℕ, ◌+◌, ◌-◌, max, ◌≡◌, refl, sym, ap, ◌∙◌, String, Bool, true, false, Option, some, List, [], ◌∷◌,
  ltb, leb, arith, ◌⊎◌, Bool-cases, inl, inr,
}
use pymotw.Writer.Node.{Node}
use pymotw.Writer.State.{
  Translator, Method, ok, Bibitem, Signal, ◌>>◌, ◌>>=◌, gets, update, need, emit, emit_all, pure,
  top_sectionlevel,
}
use pymotw.Writer.Structure.{visit_section, depart_section, deeper, widest_label}

abbrev pub level_of : {A : Type 0} → Signal A × Translator → Option ℕ
level_of (r, t) = t.sectionlevel

-- The level at which the contents of a section are walked.
abbrev pub level_inside : Bool → ℕ → ℕ
level_inside true l = l
level_inside false l = l + 1

visit_section_lem :
    (s : Translator) (n : Node) (l : ℕ)
    → s.sectionlevel ≡ some l
    → ((visit_section n s).0 ≡ ok tt)
      × (level_of (visit_section n s) ≡ some (level_inside s.this_is_the_title l))
unfolding visit_section deeper ◌>>◌ ◌>>=◌ gets update need emit emit_all pure
visit_section_lem s n l e = elim (Bool-cases s.this_is_the_title) [
  | inl h ↦ rw h (refl, e)
  | inr h ↦ rw h (rw e (refl, refl))
]

depart_section_lem :
    (t : Translator) (n : Node) (m : ℕ)
    → t.sectionlevel ≡ some m
    → level_of (depart_section n t) ≡ some (max (m - 1) (top_sectionlevel - 1))
unfolding depart_section ◌>>◌ ◌>>=◌ gets update need
depart_section_lem t n m e = rw e refl

back :
    (title : Bool) (l : ℕ)
    → leb (top_sectionlevel - 1) l ≡ true
    → (title ≡ false) ⊎ (l ≡ top_sectionlevel - 1)
    → max (level_inside title l - 1) (top_sectionlevel - 1) ≡ l
back true l h (inl e) = cc
back true l h (inr e) = ground arith
back false l h e = ground arith

composed :
    (s t : Translator) (n : Node) (below : Method)
    → (visit_section n s).0 ≡ ok tt
    → below (visit_section n s).1 ≡ (ok tt, t)
    → (visit_section n >> (below >> depart_section n)) s ≡ depart_section n t
unfolding ◌>>◌ ◌>>=◌
composed s t n below h k = rw h (rw k refl)

-- A section deepens the level for its contents by one, but the section that has the title of the
-- document does not. The level is the one before the section again when it has been walked: the visit,
-- then any walk of the contents that goes through and keeps the level, then the departure. The level
-- before is at least that of the chapters, and is that of the chapters while the title has not been
-- seen.
pub depart-visit_section :
    (s t : Translator) (n : Node) (below : Method) (l : ℕ)
    → s.sectionlevel ≡ some l
    → leb (top_sectionlevel - 1) l ≡ true
    → (s.this_is_the_title ≡ false) ⊎ (l ≡ top_sectionlevel - 1)
    → below (visit_section n s).1 ≡ (ok tt, t)
    → t.sectionlevel ≡ (visit_section n s).1.sectionlevel
    → (level_of (visit_section n s) ≡ some (level_inside s.this_is_the_title l))
      × (level_of ((visit_section n >> (below >> depart_section n)) s) ≡ some l)
depart-visit_section s t n below l e h title k same =
    let (went, level) = visit_section_lem s n l e in
    (
      level,
      ap level_of (composed s t n below went k)
          ∙ depart_section_lem t n (level_inside s.this_is_the_title l) (same ∙ level)
          ∙ ap some (back s.this_is_the_title l h title),
    )

trans_le : (a b c : ℕ) → ltb a b ≡ true → leb b c ≡ true → leb a c ≡ true
trans_le a b c h k = ground arith

widest-ge : (w : String) (bis : List Bibitem) → leb (count w) (count (widest_label w bis)) ≡ true
unfolding widest_label
widest-ge w [] = ground arith
widest-ge w (bi ∷ bis) = elim (Bool-cases (ltb (count w) (count bi.citelabel))) [
  | inl e ↦ rw e (trans_le _ _ _ e (widest-ge bi.citelabel bis))
  | inr e ↦ rw e (widest-ge w bis)
]

-- No label of these is longer.
abbrev pub NoLonger : String → List Bibitem → Type 0
NoLonger x [] = Unit
NoLonger x (bi ∷ bis) = (leb (count bi.citelabel) (count x) ≡ true) × NoLonger x bis

-- The text is the label of one of these.
abbrev pub Among : String → List Bibitem → Type 0
Among x [] = ⊥
Among x (bi ∷ bis) = (bi.citelabel ≡ x) ⊎ Among x bis

no_more : (a b c : ℕ) → ltb a b ≡ false → leb a c ≡ true → leb b c ≡ true
no_more a b c h k = ground arith

longer :
    (w : String) (bi : Bibitem) (bis : List Bibitem)
    → ltb (count w) (count bi.citelabel) ≡ true
    → widest_label w (bi ∷ bis) ≡ widest_label bi.citelabel bis
unfolding widest_label
longer w bi bis e = rw e refl

shorter :
    (w : String) (bi : Bibitem) (bis : List Bibitem)
    → ltb (count w) (count bi.citelabel) ≡ false
    → widest_label w (bi ∷ bis) ≡ widest_label w bis
unfolding widest_label
shorter w bi bis e = rw e refl

widest-NoLonger : (w : String) (bis : List Bibitem) → NoLonger (widest_label w bis) bis
unfolding widest_label
widest-NoLonger w [] = tt
widest-NoLonger w (bi ∷ bis) = elim (Bool-cases (ltb (count w) (count bi.citelabel))) [
  | inl e ↦
      subst (λ x. NoLonger x (bi ∷ bis)) (sym (longer w bi bis e))
        (widest-ge bi.citelabel bis, widest-NoLonger bi.citelabel bis)
  | inr e ↦
      subst (λ x. NoLonger x (bi ∷ bis)) (sym (shorter w bi bis e))
        (no_more _ _ _ e (widest-ge w bis), widest-NoLonger w bis)
]

widest-Among :
    (w : String) (bis : List Bibitem) → (widest_label w bis ≡ w) ⊎ Among (widest_label w bis) bis
unfolding widest_label
widest-Among w [] = inl refl
widest-Among w (bi ∷ bis) = elim (Bool-cases (ltb (count w) (count bi.citelabel))) [
  | inl e ↦
      subst (λ x. (x ≡ w) ⊎ Among x (bi ∷ bis)) (sym (longer w bi bis e))
        (elim (widest-Among bi.citelabel bis) [ inl q ↦ inr (inl (sym q)) | inr q ↦ inr (inr q) ])
  | inr e ↦
      subst (λ x. (x ≡ w) ⊎ Among x (bi ∷ bis)) (sym (shorter w bi bis e))
        (elim (widest-Among w bis) [ inl q ↦ inl q | inr q ↦ inr (inr q) ])
]

-- No label of the bibliography is longer than the widest label, which is one of them, or empty.
pub widest_label-NoLonger :
    (bis : List Bibitem)
    → NoLonger (widest_label "" bis) bis
      × ((widest_label "" bis ≡ "") ⊎ Among (widest_label "" bis) bis)
widest_label-NoLonger bis = (widest-NoLonger "" bis, widest-Among "" bis)
