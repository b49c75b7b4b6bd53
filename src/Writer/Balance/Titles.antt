-- ===== src/Writer/Balance/Titles.antt =====
-- Titles: in a table the body is switched, elsewhere the context holds what closes the title.
use pymotw.Prelude.{
  ℕ, ◌≡◌, refl, sym, ◌∙◌, ap, ◌<>◌, String, Bool, true, false, List, [], ◌∷◌, Option, none, some,
  length, arith,
}
use pymotw.Writer.Node.{Node, Kind}
use pymotw.Writer.State.{
  Env, Translator, Action, Method, Piece, text, num, pure, raise, Signal, ok, raised, skip_node,
  skip_children, pop_from_empty_list, push_context, alloc, pushbody, popbody, popped, gets, update,
  ◌>>=◌, ◌>>◌,
}
use pymotw.Writer.Titles.{
  TitleParent, title_parent, label_section, relabel, extend_top, section_title, open_title,
  visit_title, depart_title, caption_table, set_caption, is_table, is_seealso, document_title,
}
use pymotw.Writer.Balance.Frame.{Frame, frame, fits, flow, shape, shapes}
use pymotw.Writer.Balance.Rules.{Place, Good, rules}
use pymotw.Writer.Balance.Texts.{text_rules, Good-unrestrict_footnote}
use pymotw.Writer.Balance.Parts.{part_rules}
use pymotw.Writer.Balance.Moves.{
  At, Moved, Moves, Good-Moves, Moves-bind, Moves-then, Moves-push, Moves-emit_context, holding,
  any_place,
}
use pymotw.Writer.Balance.Brackets.{
  Enters, Entered, Enters-bind, Enters-then, Enters-if, Enters-skip, Enters-before,
}
use pymotw.Writer.Balance.Terms.{Pushed, Pushes, Pushes-bind, Pushes-then}
use pymotw.Writer.Balance.Holding.{Always, Holds, Good-warn_no_text, Holds-document_title, opening}

-- What changes the piece on top alone.
record Relabels (a : Frame) (m : Method) : Type 0 where
  at : (x : Piece) (s : Translator) → At (holding x a) s → Pushed a (m s)

Relabels-bind :
    {A : Type 0} {a : Frame} (m : Action A) (f : A → Method)
    → Good any_place m
    → ((v : A) → Relabels a (f v))
    → Relabels a (m >>= f)
unfolding ◌>>=◌
Relabels-bind {A} {a} m f g h = record { at = λ x s k. bound x (m s) ((Good-Moves m g).at s k) }
  where
    bound :
        (x : Piece) (r : Signal A × Translator)
        → Moved (holding x a) r
        → Pushed a (◌>>=◌ (λ t. r) f (r.1))
    bound x (ok v, t) e = (h v).at x t e
    bound x (raised skip_node, t) e = e
    bound x (raised skip_children, t) e = e
    bound x (raised pop_from_empty_list, t) e = e
    bound x (raised _, t) e = tt

Relabels-then : {a : Frame} (m k : Method) → Good any_place m → Relabels a k → Relabels a (m >> k)
unfolding ◌>>◌
Relabels-then m k g h = Relabels-bind m (λ _. k) g (λ _. h)

abbrev rest_of : List Piece → List Piece
rest_of [] = []
rest_of (_ ∷ ys) = ys

abbrev put_top : Piece → Frame → Frame
put_top x f = record f { context = shape x ∷ rest_of f.context }

Relabels-relabel : {a : Frame} (x : String) → Relabels a (relabel x)
unfolding relabel extend_top gets update raise pure ◌>>=◌
Relabels-relabel {a} x = record { at = λ y s h. go y s s.context refl h }
  where
    go :
        (y : Piece) (s : Translator) (ps : List Piece)
        → s.context ≡ ps
        → At (holding y a) s
        → Pushed a (
            (extend_top x ps >>= λ c. update (λ t. record t { context = c; next_section_ids = [] }))
              s)
    go y s [] e h = tt
    go y s (num n ∷ ps) e h = tt
    go y s (text t ∷ ps) e h = (
      text (t <> x),
      record {
        same =
            ap (λ c. put_top (text (t <> x)) (record (frame s) { context = c })) (sym (ap shapes e))
            ∙ ap (put_top (text (t <> x))) h.same;
        notes = h.notes;
        unmerged = h.unmerged;
      },
    )

-- A push, and then a change of what was pushed.
Pushes-relabel :
    {a : Frame} (x : Piece) (k : Method) → Relabels a k → Pushes a (push_context x >> k)
unfolding push_context ◌>>◌ ◌>>=◌
Pushes-relabel x k h = record { at = λ s e. h.at x _ ((Moves-push x).at s e) }

Pushes-section_title : {a : Frame} (env : Env) (n : Node) → Pushes a (section_title env n)
unfolding section_title label_section
Pushes-section_title env n = Pushes-bind _ _ (search rules) (λ level.
    Pushes-bind _ _ (search rules) (λ l. Pushes-then _ _ (search rules) (
      Pushes-relabel _ _ (
        Relabels-then _ _ (search text_rules) (
          Relabels-bind _ _ (search rules)
            (λ ids. Relabels-bind _ _ (search text_rules) (λ t. Relabels-relabel t)))))))

Holds-Pushes : {held : Bool} (m : Method) → ((a : Frame) → Pushes a m) → Holds held m
Holds-Pushes m g = record {
  at = λ s h.
      entered s (m s)
        ((g (frame s)).at s (record { same = refl; notes = h.notes; unmerged = h.unmerged }));
}
  where
    entered :
        (s : Translator) (r : Signal (Unit {0}) × Translator)
        → Pushed (frame s) r
        → Entered Always holding s r
    entered s (ok o, t) (x, h) = (x, tt, h)
    entered s (raised skip_node, t) h = absurd h
    entered s (raised skip_children, t) h = h
    entered s (raised pop_from_empty_list, t) h = h
    entered s (raised _, t) h = tt

-- A body that is switched: the one before, `o`, is on the stack.
abbrev pub switched : ℕ × ℕ → Frame → Frame
switched (o, new) a = record a { bodystack = o ∷ a.bodystack; body = new }

abbrev pub Outer : ℕ × ℕ → Frame → Type 0
Outer (o, new) a = a.body ≡ o

new_body : Method
new_body = do b ← alloc; pushbody b

pub Enters-new_body : {held : Bool} → Enters Outer switched held (do b ← alloc; pushbody b)
unfolding alloc pushbody ◌>>=◌
Enters-new_body = record {
  at = λ s h. (
    (s.body, length s.buffers),
    refl,
    record { same = refl; notes = h.notes; unmerged = h.unmerged },
  );
}

abbrev rest : List ℕ → List ℕ
rest [] = []
rest (b ∷ bs) = bs

abbrev top_or : ℕ → List ℕ → ℕ
top_or d [] = d
top_or d (b ∷ bs) = b

abbrev back : Frame → Frame
back f = record f { bodystack = rest f.bodystack; body = top_or 0 f.bodystack }

popped-Moved :
    {a : Frame} (o new : ℕ) (bs : List ℕ) (s : Translator)
    → s.bodystack ≡ bs
    → a.body ≡ o
    → At (switched (o, new) a) s
    → Moved a (popped bs s)
unfolding popped
popped-Moved o new [] s e c h = cc (e, ap (λ f. f.bodystack) h.same)
popped-Moved {a} o new (b ∷ bs) s e c h = record {
  same =
      ap (λ l. back (record (frame s) { bodystack = l })) (sym e)
      ∙ ap back h.same
      ∙ ap (λ m. record a { body = m }) (sym c);
  notes = h.notes;
  unmerged = h.unmerged;
}

pub Moves-popbody : {a : Frame} (o new : ℕ) → a.body ≡ o → Moves (switched (o, new) a) a popbody
unfolding popbody
Moves-popbody o new c = record { at = λ s h. popped-Moved o new s.bodystack s refl c h }

is_of_table : TitleParent → Bool
is_of_table TitleParent.of_table = true
is_of_table _ = false

Holds-open_title :
    {held : Bool} (env : Env) (t : TitleParent) (n : Node)
    → is_of_table t ≡ false
    → Holds held (open_title env t n)
unfolding open_title is_of_table
Holds-open_title env TitleParent.of_table n e = cc
Holds-open_title env TitleParent.of_section n e = Holds-Pushes _ (λ a. Pushes-section_title env n)
Holds-open_title env _ n e = search opening depth 30

parent_of_table :
    (env : Env) (k : Option Kind) → is_table k ≡ false → is_of_table (title_parent env k) ≡ false
unfolding is_table title_parent is_of_table
parent_of_table env none e = refl
parent_of_table env (some Kind.table) e = cc
parent_of_table env (some Kind.seealso) e = refl
parent_of_table env (some k) e = ground arith

pub Holds-visit_title :
    {held : Bool} (env : Env) (k : Option Kind) (n : Node)
    → is_table k ≡ false
    → Holds held (visit_title env k n)
unfolding visit_title
Holds-visit_title env k n e =
    search
      (
        opening,
        Holds-document_title,
        Holds-open_title env (title_parent env k) n (parent_of_table env k e),
      )
      depth 30

pub Enters-visit_title :
    {held : Bool} (env : Env) (n : Node)
    → Enters Outer switched held (visit_title env (some Kind.table) n)
unfolding visit_title title_parent open_title is_seealso document_title
Enters-visit_title env n =
    search
      (
        Enters-bind, Enters-then, Enters-if, Enters-skip, Enters-before, Enters-new_body,
        Good-warn_no_text, part_rules,
      )
      depth 30

Good-set_caption : {p : Place} (b : ℕ) → Good p (set_caption b)
unfolding set_caption
Good-set_caption b = search part_rules depth 20

pub Moves-depart_title_table :
    {a : Frame} (x : ℕ × ℕ) (walk : Node → Method) (n : Node)
    → ((m : Node) → fits true flow m ≡ true → Good any_place (walk m))
    → Outer x a
    → Moves (switched x a) a (depart_title walk (some Kind.table) n)
unfolding depart_title is_table caption_table
Moves-depart_title_table (o, new) walk n w c = Moves-then _ _ (Good-Moves _ (search rules)) (
    Moves-then _ _ (Moves-bind _ _ (Moves-popbody o new c) (λ b. Good-Moves _ (Good-set_caption b)))
      (Good-Moves _ (Good-unrestrict_footnote walk w n)))

pub Moves-depart_title :
    {a : Frame} (x : Piece) (walk : Node → Method) (k : Option Kind) (n : Node)
    → ((m : Node) → fits true flow m ≡ true → Good any_place (walk m))
    → is_table k ≡ false
    → Moves (holding x a) a (depart_title walk k n)
unfolding depart_title
Moves-depart_title x walk k n w e = rw e (
    Moves-then _ _ (Good-Moves _ (search rules))
      (Moves-then _ _ (Moves-emit_context x) (Good-Moves _ (Good-unrestrict_footnote walk w n))))
