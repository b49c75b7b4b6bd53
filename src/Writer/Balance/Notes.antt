-- ===== src/Writer/Balance/Notes.antt =====
-- The footnotes that the translator keeps come from the document, so they fit wherever they are
-- walked.
use pymotw.Prelude.{
  ℕ, false, ◌≡◌, refl, String, Bool, true, List, [], ◌∷◌, ◌++◌, Option, none, some, arith, length,
  ◌&&◌, ◌||◌, ◌=ˢ◌, head?, strip, Bool-cases, inl, inr,
}
use pymotw.Writer.Node.{Node, Nodes, Attrs, Kind, element, nil, cons, kind, to_list, children}
use pymotw.Writer.State.{Env, Footnotes}
use pymotw.Writer.Structure.{
  is_footnote, is_start_of_file, footnotes_under, footnotes_below, set_note, collected, note_all,
  tail_nodes,
}
use pymotw.Writer.Inline.{find_note, use_note, use_top, top_note}
use pymotw.Writer.Balance.Frame.{
  fits, Spot, flow, under_table, under_group, spot_below, fits_all, allowed, holds_context,
  NodesFit, FootnotesFit, StackFits,
}

-- A footnote from the document, before it is collected.
abbrev Source : Node → Type 0
Source (element i k a s c) = fits_all true flow c ≡ true

abbrev Sources : List Node → Type 0
Sources [] = Unit
Sources (n ∷ ns) = Source n × Sources ns

Sources-append : (xs ys : List Node) → Sources xs → Sources ys → Sources (xs ++ ys)
Sources-append [] ys h k = k
Sources-append (x ∷ xs) ys h k = (h.0, Sources-append xs ys h.1 k)

and-true : (a b : Bool) → (a && b) ≡ true → (a ≡ true) × (b ≡ true)
and-true a b h = ground arith

footnote-below :
    (held : Bool) (spot : Spot) (k : Kind) (c : Nodes)
    → is_footnote k ≡ true
    → fits_all (held || holds_context k) (spot_below spot k) c ≡ true
    → fits_all true flow c ≡ true
unfolding holds_context spot_below
footnote-below true flow Kind.footnote c h f = f
footnote-below true under_table Kind.footnote c h f = f
footnote-below true under_group Kind.footnote c h f = f
footnote-below false flow Kind.footnote c h f = f
footnote-below false under_table Kind.footnote c h f = f
footnote-below false under_group Kind.footnote c h f = f
footnote-below true flow Kind.collected_footnote c h f = f
footnote-below true under_table Kind.collected_footnote c h f = f
footnote-below true under_group Kind.collected_footnote c h f = f
footnote-below false flow Kind.collected_footnote c h f = f
footnote-below false under_table Kind.collected_footnote c h f = f
footnote-below false under_group Kind.collected_footnote c h f = f
footnote-below held spot _ c h f = cc

mutual
  unfolding footnotes_under fits

  under-Sources :
      (held : Bool) (spot : Spot) (n : Node) → fits held spot n ≡ true → Sources (footnotes_under n)
  under-Sources held spot (element i k a s c) h = elim (Bool-cases (is_footnote k)) [
    | inl e ↦ rw e (
      footnote-below held spot k c e
          (and-true (allowed held spot k) (fits_all (held || holds_context k) (spot_below spot k) c)
            h).1,
      tt,
    )
    | inr e ↦ rw e (
        below-Sources (held || holds_context k) (spot_below spot k) c
          (and-true (allowed held spot k) (fits_all (held || holds_context k) (spot_below spot k) c)
            h).1)
  ]

  below-Sources :
      (held : Bool) (spot : Spot) (ns : Nodes)
      → fits_all held spot ns ≡ true
      → Sources (footnotes_below ns)
  below-Sources held spot nil h = tt
  below-Sources held spot (cons n ns) h = elim (Bool-cases (is_start_of_file (kind n))) [
    | inl e ↦
        rw e (below-Sources held spot ns (and-true (fits held spot n) (fits_all held spot ns) h).1)
    | inr e ↦ rw e (
        Sources-append (footnotes_under n) (footnotes_below ns)
          (under-Sources held spot n (and-true (fits held spot n) (fits_all held spot ns) h).0)
          (below-Sources held spot ns (and-true (fits held spot n) (fits_all held spot ns) h).1))
  ]

tail-fits : (c : Nodes) → fits_all true flow c ≡ true → fits_all true flow (tail_nodes c) ≡ true
unfolding fits
tail-fits nil h = h
tail-fits (cons n ns) h = (and-true (fits true flow n) (fits_all true flow ns) h).1

collected-fits : (k : String) (n : Node) → Source n → fits true flow (collected k n) ≡ true
unfolding fits collected allowed spot_below
collected-fits k (element i j a s c) h = tail-fits c h

set_note-Fits :
    (k : String) (n : Node) (d : Footnotes)
    → fits true flow n ≡ true
    → FootnotesFit d
    → FootnotesFit (set_note k n d)
unfolding set_note
set_note-Fits k n [] h f = (h, tt)
set_note-Fits k n ((j, m, used) ∷ d) h f = elim (Bool-cases (j =ˢ k)) [
  | inl e ↦ rw e (h, f.1)
  | inr e ↦ rw e (f.0, set_note-Fits k n d h f.1)
]

-- The dict that is collected, where there is one.
abbrev DictFits : Option Footnotes → Type 0
DictFits none = Unit
DictFits (some d) = FootnotesFit d

note_all-Fits :
    (env : Env) (ns : List Node) (d : Footnotes)
    → Sources ns
    → FootnotesFit d
    → DictFits (note_all env ns d)
unfolding note_all
note_all-Fits env [] d h f = f
note_all-Fits env (n ∷ ns) d h f =
    go (λ e g. note_all-Fits env ns e h.1 g) (head? (to_list (children n)))
  where
    go :
        ((e : Footnotes) → FootnotesFit e → DictFits (note_all env ns e))
        → (o : Option Node)
        → DictFits (elim o [
          | none ↦ none
          | some label ↦
              note_all env ns
                (set_note (strip (env.astext label)) (collected (strip (env.astext label)) n) d)
        ])
    go rec none = tt
    go rec (some label) = rec _ (set_note-Fits _ _ d (collected-fits _ n h.0) f)

pub note_all-FootnotesFit :
    (env : Env) (held : Bool) (spot : Spot) (n : Node) {d : Footnotes}
    → fits held spot n ≡ true
    → note_all env (footnotes_under n) [] ≡ some d
    → FootnotesFit d
note_all-FootnotesFit env held spot n h e =
    rw e at (note_all-Fits env (footnotes_under n) [] (under-Sources held spot n h) tt)

-- What a reference finds.
abbrev pub NoteFits : Option (Node × Bool) → Type 0
NoteFits none = Unit
NoteFits (some (n, used)) = fits true flow n ≡ true

find_note-Fits : (k : String) (d : Footnotes) → FootnotesFit d → NoteFits (find_note k d)
unfolding find_note
find_note-Fits k [] f = tt
find_note-Fits k ((j, n, used) ∷ d) f = elim (Bool-cases (j =ˢ k)) [
  | inl e ↦ rw e f.0
  | inr e ↦ rw e (find_note-Fits k d f.1)
]

pub top_note-Fits : (k : String) (ds : List Footnotes) → StackFits ds → NoteFits (top_note k ds)
unfolding top_note
top_note-Fits k [] f = tt
top_note-Fits k (d ∷ ds) f = find_note-Fits k d f.0

use_note-Fits : (k : String) (d : Footnotes) → FootnotesFit d → FootnotesFit (use_note k d)
unfolding use_note
use_note-Fits k [] f = tt
use_note-Fits k ((j, n, used) ∷ d) f = elim (Bool-cases (j =ˢ k)) [
  | inl e ↦ rw e (f.0, f.1)
  | inr e ↦ rw e (f.0, use_note-Fits k d f.1)
]

pub use_top-Fits : (k : String) (ds : List Footnotes) → StackFits ds → StackFits (use_top k ds)
unfolding use_top
use_top-Fits k [] f = tt
use_top-Fits k (d ∷ ds) f = (use_note-Fits k d f.0, f.1)

pub length-use_top : (k : String) (ds : List Footnotes) → length (use_top k ds) ≡ length ds
unfolding use_top
length-use_top k [] = refl
length-use_top k (d ∷ ds) = refl

pub NodesFit-append :
    (ns : List Node) (n : Node) → NodesFit ns → fits true flow n ≡ true → NodesFit (ns ++ (n ∷ []))
NodesFit-append [] n f h = (h, tt)
NodesFit-append (m ∷ ns) n f h = (f.0, NodesFit-append ns n f.1 h)

-- The notes of a whole document.
pub document-FootnotesFit :
    (env : Env) (u : ℕ) (a : Attrs) (s : String) (c : Nodes) {d : Footnotes}
    → fits_all false flow c ≡ true
    → note_all env (footnotes_under (element u Kind.document a s c)) [] ≡ some d
    → FootnotesFit d
unfolding footnotes_under
document-FootnotesFit env u a s c h e =
    rw e at (note_all-Fits env (footnotes_below c) [] (below-Sources false flow c h) tt)
