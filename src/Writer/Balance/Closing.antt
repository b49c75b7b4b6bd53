-- ===== src/Writer/Balance/Closing.antt =====
-- The visit of a table, its children, and the departure that switches back to the list before.
use pymotw.Prelude.{
  String, ℕ, ◌≡◌, refl, sym, ◌∙◌, ap, Bool, true, false, List, [], ◌∷◌, ◌++◌, none, some, is_some,
  length, contains,
}
use pymotw.Writer.Node.{Node, attrs}
use pymotw.Writer.State.{
  Env, Translator, Action, Method, Signal, ok, raised, skip_node, skip_children,
  pop_from_empty_list, new_table, gets, update, need, raise, pure, attribute_error, emit, popbody,
  popped, pushbody, alloc, unsupported, curfile, top_file, ◌>>◌, ◌>>=◌,
}
use pymotw.Writer.Text.{restrict_footnote, unrestrict_footnote}
use pymotw.Writer.Tables.{visit_table, depart_table, refuse_nested, write_table}
use pymotw.Writer.Balance.Frame.{Frame, frame, fits, flow, NotesFit}
use pymotw.Writer.Balance.Rules.{Good, rules, Start, Settled}
use pymotw.Writer.Balance.Texts.{text_rules, Good-unrestrict_footnote}
use pymotw.Writer.Balance.Parts.{part_rules}
use pymotw.Writer.Balance.Moves.{Moved, any_place, Good-Moves}
use pymotw.Writer.Balance.Brackets.{Enters, Entered, Moved-Entered, visiting}
use pymotw.Writer.Balance.Tabular.{blur}

-- Within a table: the list before is on the stack of lists.
abbrev pub tabled : ℕ × ℕ → Frame → Frame
tabled (o, new) a = record a { bodystack = o ∷ a.bodystack; body = new; in_table = true }

abbrev pub Untabled : ℕ × ℕ → Frame → Type 0
Untabled (o, new) a = (a.body ≡ o) × (a.in_table ≡ false)

-- A frame up to whether a table is open.
abbrev forget : Frame → Frame
forget f = record f { in_table = true }

record Half (a : Frame) (s : Translator) : Type 0 where
  same : forget (frame s) ≡ forget a
  notes : NotesFit s
  unmerged : a.in_merged_cell ≡ false

Half-Start : {a : Frame} {s : Translator} → Half a s → Start any_place s
Half-Start h = record {
  notes = h.notes;
  clear = λ e. cc;
  open_table = λ e. cc;
  unmerged = ap (λ f. f.in_merged_cell) h.same ∙ h.unmerged;
}

-- What closes the table.
record Closes (a : Frame) (m : Method) : Type 0 where
  at : (s : Translator) → Half a s → Moved a (m s)

bind-Closes :
    {A : Type 0} {a : Frame} (f : A → Method) {s : Translator} (r : Signal A × Translator)
    → Half a s
    → ((x : A) → Closes a (f x))
    → Settled any_place s r
    → Moved a (◌>>=◌ (λ t. r) f s)
unfolding ◌>>=◌
bind-Closes f (ok x, t) h g k =
    (g x).at t (record { same = ap forget k.same ∙ h.same; notes = k.notes; unmerged = h.unmerged })
bind-Closes f (raised skip_node, t) h g k = cc (k.0)
bind-Closes f (raised skip_children, t) h g k = cc (k.0)
bind-Closes f (raised pop_from_empty_list, t) h g k = k
bind-Closes f (raised _, t) h g k = tt

Closes-bind :
    {A : Type 0} {a : Frame} (m : Action A) (f : A → Method)
    → Good any_place m
    → ((x : A) → Closes a (f x))
    → Closes a (m >>= f)
unfolding ◌>>=◌
Closes-bind m f g h = record { at = λ s st. bind-Closes f (m s) st h (g.at s (Half-Start st)) }

Closes-then : {a : Frame} (m k : Method) → Good any_place m → Closes a k → Closes a (m >> k)
unfolding ◌>>◌
Closes-then m k g h = Closes-bind m (λ _. k) g (λ _. h)

abbrev shut : Frame → Frame
shut f = record f { in_table = false }

abbrev shut_table : Translator → Translator
shut_table s = record s { table = none; tablebody = none }

Closes-shut : {a : Frame} → a.in_table ≡ false → Closes a (update shut_table)
unfolding update
Closes-shut {a} c = record {
  at = λ s h. record {
    same = ap shut h.same ∙ ap (λ b. record a { in_table = b }) (sym c);
    notes = h.notes;
    unmerged = h.unmerged;
  };
}

abbrev rest : List ℕ → List ℕ
rest [] = []
rest (b ∷ bs) = bs

abbrev top : List ℕ → ℕ
top [] = 0
top (b ∷ bs) = b

abbrev back : Frame → Frame
back f = record f { bodystack = rest f.bodystack; body = top f.bodystack; in_table = true }

-- The departure once the list has been switched back.
written : Env → (Node → Method) → Node → Method
written env walk n = do
  emit "\n\\begin{table}[t]\n"
  emit "\\begin{center}\n"
  emit "\\begin{threeparttable}\n"
  table ← gets (λ s. s.table)
  t ← need attribute_error table
  write_table env n t
  unrestrict_footnote walk n
  update shut_table

module _ (env : Env) (walk : Node → Method) (n : Node)
    (w : (m : Node) → fits true flow m ≡ true → Good any_place (walk m)) where
  popped-Moved :
      {a : Frame} (x : ℕ × ℕ) (s : Translator) (bs : List ℕ) (k : ℕ → Method)
      → s.bodystack ≡ bs
      → Untabled x a
      → blur (frame s) ≡ blur (tabled x a)
      → NotesFit s
      → a.in_merged_cell ≡ false
      → ((o : ℕ) → Closes a (k o))
      → Moved a ((popped bs >>= k) s)
  unfolding popped ◌>>=◌
  popped-Moved (o, new) s [] k e c h q u g = cc (e, ap (λ f. f.bodystack) h)
  popped-Moved {a} (o, new) s (b ∷ bs) k e c h q u g = (g s.body).at _ (record {
    same =
        ap (λ l. back (record (frame s) { bodystack = l })) (sym e)
        ∙ ap back h
        ∙ ap (λ m. forget (record a { body = m })) (sym c.0);
    notes = q;
    unmerged = u;
  })

  Closes-written : {a : Frame} → a.in_table ≡ false → Closes a (written env walk n)
  unfolding written
  Closes-written c = Closes-then _ _ (search rules) (
      Closes-then _ _ (search rules) (
        Closes-then _ _ (search rules) (
          Closes-bind _ _ (search rules) (λ table. Closes-bind _ _ (search rules) (λ t.
            Closes-then _ _ (search part_rules)
              (Closes-then _ _ (Good-unrestrict_footnote walk w n) (Closes-shut c)))))))

  pub Moves-depart_table :
      {a : Frame} (x : ℕ × ℕ) (s : Translator)
      → Untabled x a
      → blur (frame s) ≡ blur (tabled x a)
      → NotesFit s
      → a.in_merged_cell ≡ false
      → Moved a (depart_table env walk n s)
  unfolding depart_table popbody ◌>>=◌ written
  Moves-depart_table x s c h q u =
      popped-Moved x s s.bodystack (λ inner. written env walk n) refl c h q u
        (λ inner. Closes-written c.1)

opened_table : Node → Translator → Translator
opened_table n s = record s {
  buffers = s.buffers ++ ([] ∷ []) ++ ([] ∷ []);
  table = some (record new_table { longtable = contains "longtable" (attrs n).classes });
  tablebody = some (length s.buffers);
  tableheaders = some (length (s.buffers ++ ([] ∷ [])));
  bodystack = s.body ∷ s.bodystack;
  body = length s.buffers;
}

restrict-Entered :
    (n : Node) {held : Bool} (s : Translator)
    → Start (visiting held) s
    → is_some s.table ≡ false
    → Entered Untabled tabled s (restrict_footnote n (opened_table n s))
unfolding opened_table
restrict-Entered n s h e =
    Moved-Entered Untabled tabled s (s.body, length s.buffers) _ (refl, e)
      ((Good-Moves (restrict_footnote n) (search text_rules)).at _
        (record { same = refl; notes = h.notes; unmerged = h.unmerged }))

-- A table within a table is refused.
refused : (k : Method) (s : Translator) → Entered Untabled tabled s ((refuse_nested true >> k) s)
unfolding refuse_nested curfile top_file ◌>>=◌ ◌>>◌ raise
refused k s = go s.curfilestack
  where
    go :
        (files : List String)
        → Entered Untabled tabled s
            (((top_file files >>= λ file. raise {A = Unit {0}} unsupported) >> k) s)
    go [] = tt
    go (f ∷ fs) = tt

pub Enters-visit_table : {held : Bool} (n : Node) → Enters Untabled tabled held (visit_table n)
unfolding visit_table refuse_nested curfile alloc pushbody update gets raise pure ◌>>=◌ ◌>>◌
    opened_table
Enters-visit_table {held} n = record { at = λ s h. go s h (is_some s.table) refl }
  where
    go :
        (s : Translator)
        → Start (visiting held) s
        → (b : Bool) → is_some s.table ≡ b
        → Entered Untabled tabled s (
            (refuse_nested b >> (do
              tablebody ← alloc
              tableheaders ← alloc
              update (λ s. record s {
                table =
                    some (record new_table { longtable = contains "longtable" (attrs n).classes });
                tablebody = some tablebody;
                tableheaders = some tableheaders;
              })
              pushbody tablebody
              restrict_footnote n))
              s)
    go s h false e = restrict-Entered n s h e
    go s h true e = refused _ s
