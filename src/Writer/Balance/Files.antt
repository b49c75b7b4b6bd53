-- ===== src/Writer/Balance/Files.antt =====
-- The files of a document and the document itself: the stacks that their visit pushes on.
use mathlib.Core.Path.{subst}
use pymotw.Prelude.{
  ℕ, zero, suc, String, ◌≡◌, refl, sym, ◌∙◌, ap, Bool, true, List, [], ◌∷◌, Option, none, some,
  length, add,
}
use pymotw.Writer.Node.{Node, attrs}
use pymotw.Writer.State.{
  Env, Translator, Method, Highlight, Footnotes, gets, update, need, pure, key_error,
  list_index_out_of_range, ◌>>◌, ◌>>=◌,
}
use pymotw.Writer.Structure.{
  visit_start_of_file, depart_start_of_file, collect_footnotes, note_all, footnotes_under, last,
  pop_stack,
}
use pymotw.Writer.Balance.Frame.{Frame, frame, fits, Spot, FootnotesFit, StackFits}
use pymotw.Writer.Balance.Rules.{Start}
use pymotw.Writer.Balance.Moves.{At, Moved, Moves}
use pymotw.Writer.Balance.Brackets.{Enters, Entered, visiting}
use pymotw.Writer.Balance.Notes.{note_all-FootnotesFit}

-- Within a file: its name, its notes and its settings are on their stacks.
abbrev pub filed : String → Frame → Frame
filed x a = record a {
  curfilestack = x ∷ a.curfilestack;
  files = suc a.files;
  settings = suc a.settings;
}

abbrev pub Unfiled : String → Frame → Type 0
Unfiled x a = Unit

setting_tail : Option Highlight → Method
setting_tail o = do
  default ← need list_index_out_of_range o
  update (λ s. record s { hlsettingstack = default ∷ s.hlsettingstack })

file_tail : Option String → Method
file_tail o = do
  file ← need key_error o
  update (λ s. record s { curfilestack = file ∷ s.curfilestack })
  stack ← gets (λ s. s.hlsettingstack)
  default ← need list_index_out_of_range (last stack)
  update (λ s. record s { hlsettingstack = default ∷ s.hlsettingstack })

-- The state with the notes of a file.
abbrev noted : Footnotes → Translator → Translator
noted notes s = record s {
  footnotestack = notes ∷ s.footnotestack;
  next_section_ids = add ":doc" s.next_section_ids;
}

setting-Entered :
    (s : Translator) (notes : Footnotes) (file : String) (o : Option Highlight)
    → FootnotesFit notes
    → {held : Bool} → Start (visiting held) s
    → Entered Unfiled filed s
        (setting_tail o (record (noted notes s) { curfilestack = file ∷ s.curfilestack }))
unfolding setting_tail need ◌>>=◌ update
setting-Entered s notes file none f h = tt
setting-Entered s notes file (some x) f h =
    (file, tt, record { same = refl; notes = ((f, h.notes.0), h.notes.1); unmerged = h.unmerged })

file-Entered :
    (s : Translator) (notes : Footnotes) (o : Option String)
    → FootnotesFit notes
    → {held : Bool} → Start (visiting held) s
    → Entered Unfiled filed s (file_tail o (noted notes s))
unfolding file_tail setting_tail need ◌>>=◌ ◌>>◌ update gets
file-Entered s notes none f h = tt
file-Entered s notes (some x) f h = setting-Entered s notes x (last s.hlsettingstack) f h

pub Enters-visit_start_of_file :
    {held : Bool} (env : Env) (spot : Spot) (n : Node)
    → fits held spot n ≡ true
    → Enters Unfiled filed held (visit_start_of_file env n)
unfolding visit_start_of_file collect_footnotes need ◌>>=◌ ◌>>◌ update gets file_tail
Enters-visit_start_of_file {held} env spot n w = record {
  at = λ s h. go s h (note_all env (footnotes_under n) []) refl;
}
  where
    go :
        (s : Translator)
        → Start (visiting held) s
        → (o : Option Footnotes) → note_all env (footnotes_under n) [] ≡ o
        → Entered Unfiled filed s (
            (need list_index_out_of_range o >>= λ notes.
            update (noted notes) >> file_tail (attrs n).docname)
              s)
    go s h none e = tt
    go s h (some notes) e =
        file-Entered s notes (attrs n).docname (note_all-FootnotesFit env held spot n w e) h

abbrev pred : ℕ → ℕ
pred zero = zero
pred (suc n) = n

abbrev below_top : List String → List String
below_top [] = []
below_top (x ∷ xs) = xs

-- A pop of a stack that is not empty, and what is done with the rest.
Moves-pop_stack :
    {A : Type 0} {a c : Frame} (get : Translator → List A) (k : List A → Method)
    → ((s : Translator) → At a s → get s ≡ [] → ⊥)
    → ((s : Translator) (x : A) (xs : List A) → get s ≡ x ∷ xs → At a s → Moved c (k xs s))
    → Moves a c (gets get >>= λ l. pop_stack l >>= k)
unfolding gets ◌>>=◌ pure
Moves-pop_stack {A} {a} {c} get k empty rest = record { at = λ s h. go s h (get s) refl }
  where
    go : (s : Translator) → At a s → (l : List A) → get s ≡ l → Moved c ((pop_stack l >>= k) s)
    go s h [] e = absurd (empty s h e)
    go s h (x ∷ xs) e = rest s x xs e h

abbrev fewer_files : Frame → Frame
fewer_files f = record f { files = pred f.files }

abbrev fewer_names : Frame → Frame
fewer_names f = record f { curfilestack = below_top f.curfilestack }

abbrev fewer_settings : Frame → Frame
fewer_settings f = record f { settings = pred f.settings }

pop_notes :
    {a : Frame} (s : Translator) (x : Footnotes) (xs : List Footnotes)
    → s.footnotestack ≡ x ∷ xs
    → At a s
    → At (fewer_files a) (record s { footnotestack = xs })
pop_notes s x xs e h = record {
  same = ap (λ n. record (frame s) { files = pred n }) (sym (ap length e)) ∙ ap fewer_files h.same;
  notes = ((subst StackFits e h.notes.0).1, h.notes.1);
  unmerged = h.unmerged;
}

pop_names :
    {a : Frame} (s : Translator) (x : String) (xs : List String)
    → s.curfilestack ≡ x ∷ xs
    → At a s
    → At (fewer_names a) (record s { curfilestack = xs })
pop_names s x xs e h = record {
  same = ap (λ l. record (frame s) { curfilestack = below_top l }) (sym e) ∙ ap fewer_names h.same;
  notes = h.notes;
  unmerged = h.unmerged;
}

pop_settings :
    {a : Frame} (s : Translator) (x : Highlight) (xs : List Highlight)
    → s.hlsettingstack ≡ x ∷ xs
    → At a s
    → At (fewer_settings a) (record s { hlsettingstack = xs })
pop_settings s x xs e h = record {
  same =
      ap (λ n. record (frame s) { settings = pred n }) (sym (ap length e))
      ∙ ap fewer_settings h.same;
  notes = h.notes;
  unmerged = h.unmerged;
}

pub Moves-depart_start_of_file :
    {a : Frame} (x : String) (n : Node) → Moves (filed x a) a (depart_start_of_file n)
unfolding depart_start_of_file update ◌>>◌ ◌>>=◌
Moves-depart_start_of_file x n =
    Moves-pop_stack (λ s. s.footnotestack) _ (λ s h e. cc (ap length e, ap (λ f. f.files) h.same))
      (λ s y ys e h.
        (Moves-pop_stack (λ s. s.curfilestack) _ (λ s h e. cc (e, ap (λ f. f.curfilestack) h.same))
            (λ s z zs e h.
              (Moves-pop_stack (λ s. s.hlsettingstack)
                  (λ l. update (λ t. record t { hlsettingstack = l }))
                  (λ s h e. cc (ap length e, ap (λ f. f.settings) h.same))
                  (λ s v vs e h. pop_settings s v vs e h)).at
                _ (pop_names s z zs e h))).at
          _ (pop_notes s y ys e h))
