-- ===== src/Shelve/Laws.antt =====
-- What the finder and the loader of source/sys/sys_shelve_importer.py promise.
use pymotw.Prelude.{
  ◌≡◌, refl, sym, ap, ◌∙◌, String, ◌<>◌, Bool, true, false, Option, some, none, List, [], ◌∷◌,
  if◌then◌else◌, ◌==◌, is_some, or_default, arith, Bool-cases, inl, inr, ◌++◌, join, code, Char,
  eq_of_test,
}
use Prim.Native.String.append
use text.Mathlib.TextEquality.{Char-path}
use pymotw.Prelude.Program.{Result, ok, raised}
use pymotw.Shelve.{
  Error, Shelf, fetch, World, Interpreter, get_key_name, is_found, find_module, found_in, path_or,
  source_in, get_source, split_dots, all_but_last, parent_package,
}

key_present :
    (fullname : String) (db : Shelf)
    → is_found (get_key_name fullname db) ≡ true
    → is_some (fetch (or_default "" (get_key_name fullname db)) db) ≡ true
unfolding get_key_name is_found
key_present fullname db h = ground arith

source_found :
    (fullname : String) (db : Shelf)
    → is_found (get_key_name fullname db) ≡ true
    → (s : String) × (source_in fullname (ok db) ≡ ok s)
unfolding source_in
source_found fullname db h = go (fetch (or_default "" (get_key_name fullname db)) db) refl
  where
    go :
        (o : Option String)
        → fetch (or_default "" (get_key_name fullname db)) db ≡ o
        → (s : String) × (source_in fullname (ok db) ≡ ok s)
    go none e = let k = key_present fullname db h in absurd (cc)
    go (some s) e = (s, ground arith)

source_only :
    (fullname s : String) (db : Shelf)
    → source_in fullname (ok db) ≡ ok s
    → is_found (get_key_name fullname db) ≡ true
unfolding source_in
source_only fullname s db h = ground arith

found-source_in :
    (fullname path : String) (r : Result Error Shelf)
    → (found_in fullname path r ≡ ok (some path) → (s : String) × (source_in fullname r ≡ ok s))
      × ((s : String) → source_in fullname r ≡ ok s → found_in fullname path r ≡ ok (some path))
unfolding found_in source_in
found-source_in fullname path (raised e) = ((λ h. absurd (not_ok h)), λ s h. absurd (no_source h))
  where
    not_ok : {o : Option String} → ◌≡◌ {A = Result Error (Option String)} (raised e) (ok o) → ⊥
    not_ok h = cc

    no_source : {s : String} → source_in fullname (raised e) ≡ ok s → ⊥
    no_source h = cc
found-source_in fullname path (ok db) = (
  (λ h. source_found fullname db (found_only h)),
  λ s h. let g = source_only fullname s db h in ground arith,
)
  where
    found_only :
        ◌≡◌ {A = Result Error (Option String)}
          (ok (if is_found (get_key_name fullname db) then some path else none))
          (ok (some path))
        → is_found (get_key_name fullname db) ≡ true
    found_only h = ground arith

-- If the path that is asked for is empty, none, or the one of the finder, then the finder returns a
-- loader for that path just when this loader finds a source for the module.
pub find_module-get_source :
    (w : World) (path_entry fullname : String) (path : Option String) (st : Interpreter)
    → path_or path path_entry ≡ path_entry
    → ((find_module w path_entry fullname path st).0 ≡ ok (some path_entry)
        → (s : String) × ((get_source w path_entry fullname st).0 ≡ ok s))
      × ((s : String)
          → (get_source w path_entry fullname st).0 ≡ ok s
          → (find_module w path_entry fullname path st).0 ≡ ok (some path_entry))
unfolding find_module get_source
find_module-get_source w path_entry fullname path st p =
    rw p (found-source_in fullname path_entry (w.open_shelf path_entry))

-- The parts of a name without a dot, and of one behind a dot.
abbrev pub has_no_dot : String → Bool
has_no_dot String.[] = true
has_no_dot (String.◌∷◌ c s) = if code c == 46 then false else has_no_dot s

split_one : (b : String) → has_no_dot b ≡ true → split_dots b ≡ b ∷ []
unfolding split_dots
split_one String.[] h = refl
split_one (String.◌∷◌ c s) h = elim (Bool-cases (code c == 46)) [
  | inl e ↦ ground arith
  | inr e ↦ let ih = split_one s in ground arith
]

abbrev dot : Char
dot = Char.char 46 tt

dotted : (b : String) → "" <> ("." <> b) ≡ String.◌∷◌ dot b
dotted b =
    append.nil ("." <> b) ∙ (append.cons dot "" b ∙ ap (λ t. String.◌∷◌ dot t) (append.nil b))

split_empty : split_dots "" ≡ "" ∷ []
unfolding split_dots
split_empty = refl

split_at_dot :
    (c : Char) (s p : String) (ps : List String)
    → (code c == 46) ≡ true
    → split_dots s ≡ p ∷ ps
    → split_dots (String.◌∷◌ c s) ≡ "" ∷ p ∷ ps
unfolding split_dots
split_at_dot c s p ps d e = ground arith

split_at_other :
    (c : Char) (s p : String) (ps : List String)
    → (code c == 46) ≡ false
    → split_dots s ≡ p ∷ ps
    → split_dots (String.◌∷◌ c s) ≡ String.◌∷◌ c p ∷ ps
unfolding split_dots
split_at_other c s p ps d e = ground arith

some_part : (s : String) → (p : String) × (ps : List String) × (split_dots s ≡ p ∷ ps)
unfolding split_dots
some_part String.[] = ("", [], refl)
some_part (String.◌∷◌ c s) =
    let (p, ps, e) = some_part s in
    elim (Bool-cases (code c == 46)) [
      | inl d ↦ ("", p ∷ ps, ground arith)
      | inr d ↦ (String.◌∷◌ c p, ps, ground arith)
    ]

split-append :
    (a b : String) → has_no_dot b ≡ true → split_dots (a <> ("." <> b)) ≡ split_dots a ++ (b ∷ [])
split-append String.[] b h =
    ap split_dots (dotted b)
    ∙ split_at_dot dot b b [] refl (split_one b h)
    ∙ ap (λ l. l ++ (b ∷ [])) (sym split_empty)
split-append (String.◌∷◌ c s) b h =
    let (p, ps, e) = some_part s in
    rw (append.cons c s ("." <> b)) (
      let ih : split_dots (s <> ("." <> b)) ≡ p ∷ (ps ++ (b ∷ [])) =
        split-append s b h ∙ ap (λ l. l ++ (b ∷ [])) e in
      elim (Bool-cases (code c == 46)) [
        | inl d ↦ rw (split_at_dot c s p ps d e) (split_at_dot c _ p _ d ih)
        | inr d ↦ rw (split_at_other c s p ps d e) (split_at_other c _ p _ d ih)
      ])

init-append : (l : List String) (b : String) → all_but_last (l ++ (b ∷ [])) ≡ l
unfolding all_but_last
init-append [] b = refl
init-append (x ∷ []) b = refl
init-append (x ∷ y ∷ zs) b = let ih = init-append (y ∷ zs) b in ground arith

join_at_dot :
    (c : Char) (p : String) (ps : List String)
    → (code c == 46) ≡ true
    → join "." ("" ∷ p ∷ ps) ≡ String.◌∷◌ c (join "." (p ∷ ps))
unfolding join
join_at_dot c p ps d =
    dotted (join "." (p ∷ ps))
    ∙ ap (λ e. String.◌∷◌ e (join "." (p ∷ ps))) (sym (Char-path c dot (eq_of_test _ _ d)))

join_at_other :
    (c : Char) (p : String) (ps : List String)
    → join "." (String.◌∷◌ c p ∷ ps) ≡ String.◌∷◌ c (join "." (p ∷ ps))
unfolding join
join_at_other c p [] = refl
join_at_other c p (q ∷ qs) = append.cons c p _

join_one : (s : String) → join "." (s ∷ []) ≡ s
unfolding join
join_one s = refl

join-split_dots : (s : String) → join "." (split_dots s) ≡ s
join-split_dots String.[] = ap (join ".") split_empty ∙ join_one ""
join-split_dots (String.◌∷◌ c s) =
    let (p, ps, e) = some_part s in
    let ih : join "." (p ∷ ps) ≡ s = ap (join ".") (sym e) ∙ join-split_dots s in
    elim (Bool-cases (code c == 46)) [
      | inl d ↦ rw (split_at_dot c s p ps d e) (join_at_dot c p ps d ∙ ap (λ t. String.◌∷◌ c t) ih)
      | inr d ↦
          rw (split_at_other c s p ps d e) (join_at_other c p ps ∙ ap (λ t. String.◌∷◌ c t) ih)
    ]

-- Where b has no dot, the parent package of a, a dot and b is a.
pub parent_package-append :
    (a b : String) → has_no_dot b ≡ true → parent_package (a <> ("." <> b)) ≡ a
unfolding parent_package
parent_package-append a b h =
    ap (λ l. join "." (all_but_last l)) (split-append a b h)
    ∙ (ap (join ".") (init-append (split_dots a) b) ∙ join-split_dots a)
