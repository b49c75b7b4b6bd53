-- ===== src/Front/Updates.antt =====
-- The elements of the header that the user's `latex_elements` decide.
use pymotw.Prelude.{
  ◌≡◌, refl, ◌∙◌, ap, String, false, Option, some, none, [], ◌∷◌, ◌=ˢ◌, eq_iff, if◌then◌else◌,
  Bool-cases, inl, inr, Bool, true, ◌||◌, nonempty, or_default, join, map, sym, ltb, ◌+◌, ◌-◌, ◌<>◌,
  str,
}
use pymotw.Writer.State.{Env, Signal, ok, raised, top_sectionlevel}
use pymotw.Front.{Babel}
use pymotw.Front.Elements.{
  Elements, Setup, set_element, element_of, update_elements, extend_element, declare_package,
  user_elements, set_contents, last_elements, elements,
}

-- The last value that a list of settings gives to a name.
unfoldable pub latest : String → Elements → Option String
latest k [] = none
latest k ((j, v) ∷ more) = elim (latest k more) [
  | some w ↦ some w
  | none ↦ if j =ˢ k then some v else none
]

unfoldable pub or_before : Option String → Option String → Option String
or_before none o = o
or_before (some w) o = some w

element_of-set_same : (k v : String) (d : Elements) → element_of k (set_element k v d) ≡ some v
unfolding element_of set_element
element_of-set_same k v [] = rw ((eq_iff k k).1 refl) refl
element_of-set_same k v ((j, w) ∷ d) = elim (Bool-cases (j =ˢ k)) [
  | inl e ↦ rw e (rw e refl)
  | inr e ↦ rw e (rw e (element_of-set_same k v d))
]

element_of-set_other :
    (j k v : String) (d : Elements)
    → (j =ˢ k) ≡ false
    → element_of k (set_element j v d) ≡ element_of k d
unfolding element_of set_element
element_of-set_other j k v [] h = rw h refl
element_of-set_other j k v ((i, w) ∷ d) h = elim (Bool-cases (i =ˢ j)) [
  | inl e ↦ rw e (rw (ap (λ x. x =ˢ k) ((eq_iff i j).0 e) ∙ h) refl)
  | inr e ↦ rw e (ap (λ o. if i =ˢ k then some w else o) (element_of-set_other j k v d h))
]

latest-step :
    (j k v : String) (more d : Elements)
    → or_before (latest k more) (element_of k (set_element j v d))
      ≡ or_before (latest k ((j, v) ∷ more)) (element_of k d)
unfolding latest or_before
latest-step j k v more d = go (latest k more)
  where
    go :
        (o : Option String)
        → or_before o (element_of k (set_element j v d))
          ≡ or_before
              (elim o [ some w ↦ some w | none ↦ if j =ˢ k then some v else none ])
              (element_of k d)
    go (some w) = refl
    go none = elim (Bool-cases (j =ˢ k)) [
      | inl e ↦ rw e (
          ap (λ x. element_of k (set_element x v d)) ((eq_iff j k).0 e) ∙ element_of-set_same k v d)
      | inr e ↦ rw e (element_of-set_other j k v d e)
    ]

element_of-update_elements :
    (k : String) (more d : Elements)
    → element_of k (update_elements more d) ≡ or_before (latest k more) (element_of k d)
unfolding update_elements latest or_before
element_of-update_elements k [] d = refl
element_of-update_elements k ((j, v) ∷ more) d =
    element_of-update_elements k more (set_element j v d) ∙ latest-step j k v more d

-- The elements that are set or added to behind the update by the user's.
unfoldable pub is_derived : String → Bool
is_derived k =
    "classoptions" =ˢ k
    || ("tocdepth" =ˢ k
        || ("contentsname" =ˢ k || ("pageautorefname" =ˢ k || "numfig_format" =ˢ k)))

-- What it means for a name that it is not one of those.
record Apart (k : String) : Type 0 where
  classoptions : ("classoptions" =ˢ k) ≡ false
  tocdepth : ("tocdepth" =ˢ k) ≡ false
  contentsname : ("contentsname" =ˢ k) ≡ false
  pageautorefname : ("pageautorefname" =ˢ k) ≡ false
  numfig_format : ("numfig_format" =ˢ k) ≡ false

neither : (a b : Bool) → (a || b) ≡ false → (a ≡ false) × (b ≡ false)
neither true b h = (h, cc)
neither false b h = (refl, h)

apart_lem : (k : String) → is_derived k ≡ false → Apart k
unfolding is_derived
apart_lem k h =
    let (a, h1) = neither ("classoptions" =ˢ k) _ h in
    let (b, h2) = neither ("tocdepth" =ˢ k) _ h1 in
    let (c, h3) = neither ("contentsname" =ˢ k) _ h2 in
    let (d, e) = neither ("pageautorefname" =ˢ k) _ h3 in
    record {
      classoptions = a;
      tocdepth = b;
      contentsname = c;
      pageautorefname = d;
      numfig_format = e;
    }

element_of-update_some :
    (k v : String) (more d : Elements)
    → latest k more ≡ some v
    → element_of k (update_elements more d) ≡ some v
unfolding or_before
element_of-update_some k v more d h = element_of-update_elements k more d ∙ rw h refl

element_of-user_elements :
    (k v : String) (c : Setup) (d : Elements)
    → Apart k
    → latest k c.latex_elements ≡ some v
    → element_of k (user_elements c d) ≡ some v
unfolding user_elements extend_element
element_of-user_elements k v c d p h =
    let all =
      update_elements c.latex_elements
        (extend_element "usepackages" (join "\n" (map declare_package c.usepackages)) d) in
    elim (Bool-cases (nonempty (or_default "" (element_of "extraclassoptions" all)))) [
      | inl e ↦ rw e (
          element_of-set_other "classoptions" k _ all p.classoptions
          ∙ element_of-update_some k v c.latex_elements _ h)
      | inr e ↦ rw e (element_of-update_some k v c.latex_elements _ h)
    ]

element_of-set_contents :
    (k : String) (babel : String) (b : Babel) (name : Option String) (d : Elements)
    → Apart k
    → element_of k (set_contents babel b name d) ≡ element_of k d
unfolding set_contents
element_of-set_contents k babel b none d p = refl
element_of-set_contents k babel b (some name) d p = elim (Bool-cases (nonempty name)) [
  | inl e ↦ rw e (element_of-set_other "contentsname" k _ d p.contentsname)
  | inr e ↦ rw e refl
]

-- The value, where there is one.
abbrev pub value_or : Elements → Signal Elements → Elements
value_or d (ok x) = x
value_or d (raised e) = d

element_of-formats :
    (k : String) (x d : Elements) (r : Signal String)
    → Apart k
    → (elim r [ ok formats ↦ ok (set_element "numfig_format" formats x) | raised e ↦ raised e ])
      ≡ ok d
    → element_of k d ≡ element_of k x
element_of-formats k x d (ok formats) p h =
    ap (λ r. element_of k (value_or x r)) (sym h)
    ∙ element_of-set_other "numfig_format" k formats x p.numfig_format
element_of-formats k x d (raised e) p h = cc

abbrev with_depth : Setup → Elements → Elements
with_depth c x =
    if ltb 0 c.tocdepth
    then set_element "tocdepth"
        ("\\setcounter{tocdepth}{" <> (str (c.tocdepth + top_sectionlevel - 2) <> "}")) x
    else x

element_of-with_depth :
    (k : String) (c : Setup) (x : Elements)
    → Apart k
    → element_of k (with_depth c x) ≡ element_of k x
element_of-with_depth k c x p = elim (Bool-cases (ltb 0 c.tocdepth)) [
  | inl e ↦ rw e (element_of-set_other "tocdepth" k _ x p.tocdepth)
  | inr e ↦ rw e refl
]

element_of-last_elements :
    (k : String) (env : Env) (c : Setup) (x d : Elements)
    → Apart k
    → last_elements env c x ≡ ok d
    → element_of k d ≡ element_of k x
unfolding last_elements
element_of-last_elements k env c x d p h =
    let babel = or_default "" (element_of "babel" (with_depth c x)) in
    element_of-formats k _ d _ p h
    ∙ element_of-set_other "pageautorefname" k _ _ p.pageautorefname
    ∙ element_of-set_contents k babel c.babel c.contentsname (with_depth c x) p
    ∙ element_of-with_depth k c x p

-- The user's `latex_elements` win: where the header can be made, an element that they give has the
-- value they give it last, over the defaults, the settings of the document and the language, for every
-- name but those of the five elements that `__init__` sets or adds to afterwards: classoptions,
-- tocdepth, contentsname, pageautorefname and numfig_format.
pub elements-latest :
    (env : Env) (c : Setup) (d : Elements) (k v : String)
    → elements env c ≡ ok d
    → is_derived k ≡ false
    → latest k c.latex_elements ≡ some v
    → element_of k d ≡ some v
unfolding elements
elements-latest env c d k v made other given =
    let p = apart_lem k other in
    element_of-last_elements k env c _ d p made ∙ element_of-user_elements k v c _ p given
