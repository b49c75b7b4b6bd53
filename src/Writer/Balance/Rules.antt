-- ===== src/Writer/Balance/Rules.antt =====
-- Rules for actions that restore the frame, one for each way to build an action.
use pymotw.Prelude.{
  ◌≡◌, refl, sym, ◌∙◌, ap, String, Bool, true, false, List, [], ◌∷◌, Option, none, some, arith,
  if◌then◌else◌, ℕ, is_some,
}
use mathlib.Core.Path.{subst}
use pymotw.Writer.State.{
  Translator, Action, Method, Signal, Table, ok, raised, Exception, skip_node, skip_children, Piece,
  pop_from_empty_list, pure, raise, gets, update, need, emit, emit_all, emit_chars, alloc, curfile,
  top_file, warn, warn_here, problematic_table, ◌>>=◌, ◌>>◌,
}
use pymotw.Writer.Balance.Frame.{frame, NotesFit}

-- Where an action stands: whether a node above it holds context, whether it knows that a table is
-- open, and whether it may raise SkipNode or SkipChildren.
pub record Place : Type 0 where
  pub held : Bool
  pub tabled : Bool
  pub skips : Bool

abbrev pub in_table : Place → Place
in_table p = record p { tabled = true }

-- Below nothing that holds context, the context is empty.
pub record Start (p : Place) (s : Translator) : Type 0 where
  pub notes : NotesFit s
  pub clear : p.held ≡ false → (frame s).context ≡ []
  pub open_table : p.tabled ≡ true → is_some s.table ≡ true
  pub unmerged : s.in_merged_cell ≡ false

pub record Kept (s t : Translator) : Type 0 where
  pub same : frame t ≡ frame s
  pub notes : NotesFit t

-- The frame is kept where the action returns or skips, and no pop has found an empty list.
abbrev pub Settled : {A : Type 0} → Place → Translator → Signal A × Translator → Type 0
Settled p s (ok a, t) = Kept s t
Settled p s (raised skip_node, t) = (p.skips ≡ true) × Kept s t
Settled p s (raised skip_children, t) = (p.skips ≡ true) × Kept s t
Settled p s (raised pop_from_empty_list, t) = ⊥
Settled p s (raised _, t) = Unit

pub record Good (p : Place) {A : Type 0} (m : Action A) : Type 0 where
  pub at : (s : Translator) → Start p s → Settled p s (m s)

pub Kept-refl : (s : Translator) → NotesFit s → Kept s s
Kept-refl s n = record { same = refl; notes = n }

pub Kept-trans : {s t u : Translator} → Kept s t → Kept t u → Kept s u
Kept-trans k l = record { same = l.same ∙ k.same; notes = l.notes }

pub Kept-Start : {p : Place} {s t : Translator} → Start p s → Kept s t → Start p t
Kept-Start h k = record {
  notes = k.notes;
  clear = λ e. ap (λ f. f.context) k.same ∙ h.clear e;
  open_table = λ e. ap (λ f. f.in_table) k.same ∙ h.open_table e;
  unmerged = ap (λ f. f.in_merged_cell) k.same ∙ h.unmerged;
}

pub Settled-trans :
    (p : Place) {A : Type 0} {s t : Translator} (r : Signal A × Translator)
    → Kept s t
    → Settled p t r
    → Settled p s r
Settled-trans p (ok a, u) k h = Kept-trans k h
Settled-trans p (raised skip_node, u) k h = (h.0, Kept-trans k h.1)
Settled-trans p (raised skip_children, u) k h = (h.0, Kept-trans k h.1)
Settled-trans p (raised pop_from_empty_list, u) k h = h
Settled-trans p (raised _, u) k h = tt

module _ {p : Place} {A : Type 0} where
  pub Good-pure : (a : A) → Good p (pure a)
  unfolding pure
  Good-pure a = record { at = λ s h. Kept-refl s h.notes }

  pub Good-gets : (f : Translator → A) → Good p (gets f)
  unfolding gets
  Good-gets f = record { at = λ s h. Kept-refl s h.notes }

  pub Good-if : (b : Bool) {m n : Action A} → Good p m → Good p n → Good p (if b then m else n)
  Good-if true g h = g
  Good-if false g h = h

-- All other exceptions but the one for an empty list may be raised anywhere.
abbrev pub benign : Place → Exception → Bool
benign p skip_node = p.skips
benign p skip_children = p.skips
benign p pop_from_empty_list = false
benign p _ = true

Settled-raised :
    (p : Place) (A : Type 0) {s : Translator} (e : Exception)
    → benign p e ≡ true
    → Kept s s
    → Settled {A = A} p s (raised e, s)
Settled-raised p A skip_node b k = (b, k)
Settled-raised p A skip_children b k = (b, k)
Settled-raised p A pop_from_empty_list b k = cc
Settled-raised p A _ b k = tt

module _ {p : Place} (A : Type 0) (e : Exception) (b : benign p e ≡ true) where
  pub Good-raise : Good p (raise {A = A} e)
  unfolding raise
  Good-raise = record { at = λ s h. Settled-raised p A e b (Kept-refl s h.notes) }

  pub Good-need : (o : Option A) → Good p (need e o)
  unfolding need
  Good-need none = record { at = λ s h. Settled-raised p A e b (Kept-refl s h.notes) }
  Good-need (some a) = record { at = λ s h. Kept-refl s h.notes }

module _ {p : Place} {A B : Type 0} where
  bind-Settled :
      (f : A → Action B) {s : Translator} (r : Signal A × Translator)
      → Start p s
      → ((a : A) → Good p (f a))
      → Settled p s r
      → Settled p s (◌>>=◌ (λ t. r) f s)
  unfolding ◌>>=◌
  bind-Settled f (ok a, t) h g k = Settled-trans p (f a t) k ((g a).at t (Kept-Start h k))
  bind-Settled f (raised skip_node, t) h g k = k
  bind-Settled f (raised skip_children, t) h g k = k
  bind-Settled f (raised pop_from_empty_list, t) h g k = k
  bind-Settled f (raised _, t) h g k = tt

  pub Good-bind :
      (m : Action A) (f : A → Action B) → Good p m → ((a : A) → Good p (f a)) → Good p (m >>= f)
  unfolding ◌>>=◌
  Good-bind m f g h = record { at = λ s st. bind-Settled f (m s) st h (g.at s st) }

pub Good-then :
    {p : Place} {B : Type 0} (m : Method) (k : Action B) → Good p m → Good p k → Good p (m >> k)
unfolding ◌>>◌
Good-then m k g h = Good-bind m (λ _. k) g (λ _. h)

top_file-Settled :
    (p : Place) (fs : List String) {s : Translator} → Kept s s → Settled p s (top_file fs s)
unfolding top_file
top_file-Settled p [] k = tt
top_file-Settled p (f ∷ fs) k = k

module _ {p : Place} where
  pub Good-update :
      (f : Translator → Translator)
      → ((s : Translator) → frame (f s) ≡ frame s)
      → ((s : Translator) → NotesFit s → NotesFit (f s))
      → Good p (update f)
  unfolding update
  Good-update f e q = record { at = λ s h. record { same = e s; notes = q s h.notes } }

  pub Good-update_pending :
      (f : Translator → Translator)
      → ((s : Translator) → frame (f s) ≡ frame s)
      → ((s : Translator) → (f s).footnotestack ≡ s.footnotestack)
      → ((s : Translator) → (f s).pending_footnotes ≡ [])
      → Good p (update f)
  Good-update_pending f e q r = Good-update f e λ s n. (rw (q s) n.0, rw (r s) tt)

  pub Good-emit_all : (ps : List Piece) → Good p (emit_all ps)
  unfolding emit_all
  Good-emit_all ps = record { at = λ s h. record { same = refl; notes = h.notes } }

  pub Good-emit : (x : String) → Good p (emit x)
  unfolding emit
  Good-emit x = Good-emit_all _

  pub Good-emit_chars : (x : String) → Good p (emit_chars x)
  unfolding emit_chars
  Good-emit_chars x = Good-emit_all _

  pub Good-alloc : Good p alloc
  unfolding alloc
  Good-alloc = record { at = λ s h. record { same = refl; notes = h.notes } }

  pub Good-warn : (m : String) → Good p (warn m)
  unfolding warn
  Good-warn m = record { at = λ s h. record { same = refl; notes = h.notes } }

  pub Good-curfile : Good p curfile
  unfolding curfile
  Good-curfile = record { at = λ s h. top_file-Settled p s.curfilestack (Kept-refl s h.notes) }

  pub Good-problematic : Good p problematic_table
  unfolding problematic_table
  Good-problematic = record { at = λ s h. record { same = ground arith; notes = h.notes } }

  pub Good-warn_here : (m : String) → Good p (warn_here m)
  unfolding warn_here
  Good-warn_here m = search (Good-bind, Good-curfile, Good-update)

abbrev pub with_table : Translator → Table → Translator
with_table s t = record s { table = some t }

table-some : (o : Option Table) → is_some o ≡ true → (t : Table) × (o ≡ some t)
table-some none h = cc
table-some (some t) h = (t, refl)

-- Where a table is known to be open, its record and the body may change.
pub Good-update_table :
    {p : Place} (f : Translator → Translator)
    → p.tabled ≡ true
    → ((s : Translator) (t : Table) → frame (f (with_table s t)) ≡ frame (with_table s t))
    → ((s : Translator) → NotesFit s → NotesFit (f s))
    → Good p (update f)
unfolding update
Good-update_table f o e q = record {
  at = λ s h.
      let (t, same) = table-some s.table (h.open_table o) in
      record {
        same =
            subst (λ x. frame (f (record s { table = x })) ≡ frame (record s { table = x }))
              (sym same) (e s t);
        notes = q s h.notes;
      };
}

Settled-need :
    {A : Type 0} {p : Place} (e : Exception) (k : Table → Action A) (s : Translator)
    → benign p e ≡ true
    → ((t : Table) → Good (in_table p) (k t))
    → Start p s
    → Settled p s ((need e s.table >>= k) s)
unfolding need ◌>>=◌
Settled-need {A} {p} e k s b g h = go s.table refl
  where
    go : (o : Option Table) → s.table ≡ o → Settled p s ((need e o >>= k) s)
    go none q = Settled-raised p A e b (Kept-refl s h.notes)
    go (some t) q = (g t).at s (record {
      notes = h.notes;
      clear = h.clear;
      open_table = λ _. ap is_some q;
      unmerged = h.unmerged;
    })

-- `self.table`, of which Python raises at None, and what is done with it.
pub Good-table :
    {A : Type 0} {p : Place} (e : Exception) (k : Table → Action A)
    → benign p e ≡ true
    → ((t : Table) → Good (in_table p) (k t))
    → Good p (gets (λ s. s.table) >>= λ table. need e table >>= k)
unfolding gets ◌>>=◌
Good-table e k b g = record { at = λ s h. Settled-need e k s b g h }

pub ruleset rules = (
  Good-pure, Good-gets, Good-if, Good-raise, Good-need, Good-bind, Good-then, Good-update,
  Good-update_pending, Good-emit_all, Good-emit, Good-emit_chars, Good-alloc, Good-warn,
  Good-curfile, Good-problematic, Good-warn_here, Good-update_table, Good-table, refl,
)
