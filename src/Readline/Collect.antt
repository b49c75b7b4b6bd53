-- ===== src/Readline/Collect.antt =====
-- What readline gets from the completers when it asks for the matches one by one.
use pymotw.Prelude.{
  ℕ, zero, suc, ◌≡◌, refl, ap, ◌∙◌, String, true, some, none, List, [], ◌∷◌, nonempty, get_elem?,
  length, split, leb, starts_with, keep, skip, ◌&&◌, arith, Bool-cases, inl, inr, drop,
}
use pymotw.Prelude.Program.{ok, raised, Program, pure, gets, update, need, continue, ◌>>=◌, ◌>>◌}
use pymotw.Readline.{
  Error, type_error, SimpleCompleter, match_list, starting_with, build_matches, complete,
  BufferAwareCompleter, LineBuffer, keys, part, narrow, candidates_for, build_candidates,
  candidate_at, response, complete_in_line, names_of,
}

-- complete(text, state), complete(text, state + 1) and so on, until the answer is None
unfoldable pub collect : ℕ → String → ℕ → Program SimpleCompleter Error (List String)
unfolding ◌>>=◌ pure
collect zero text state = pure []
collect (suc calls) text state = complete text state >>= λ answer. elim answer [
  | none ↦ pure []
  | some s ↦ collect calls text (suc state) >>= λ ss. pure (s ∷ ss)
]

none_at : (l : List String) (n : ℕ) → drop n l ≡ [] → get_elem? l n ≡ none
none_at [] n d = refl
none_at (x ∷ l) zero d = cc
none_at (x ∷ l) (suc n) d = none_at l n d

some_at :
    (l : List String) (n : ℕ) (r : String) (rest : List String)
    → drop n l ≡ r ∷ rest
    → get_elem? l n ≡ some r
some_at [] zero r rest d = cc
some_at [] (suc n) r rest d = cc
some_at (x ∷ l) zero r rest d = cc
some_at (x ∷ l) (suc n) r rest d = some_at l n r rest d

drop_more :
    (l : List String) (n : ℕ) (r : String) (rest : List String)
    → drop n l ≡ r ∷ rest
    → drop (suc n) l ≡ rest
drop_more [] zero r rest d = cc
drop_more [] (suc n) r rest d = cc
drop_more (x ∷ l) zero r rest d = cc
drop_more (x ∷ l) (suc n) r rest d = drop_more l n r rest d

too_few : (rest : List String) → leb (suc (length rest)) 0 ≡ true → ⊥
too_few rest l = ground arith

module _ (text : String) (c : SimpleCompleter) (ms : List String) (e : c.matches ≡ some ms) where
  complete_later : (state : ℕ) → complete text (suc state) c ≡ (ok (get_elem? ms (suc state)), c)
  unfolding complete gets need pure ◌>>◌ ◌>>=◌ continue
  complete_later state = ground arith

  collect_step :
      (state calls : ℕ) (r : String) (rest : List String)
      → get_elem? ms (suc state) ≡ some r
      → collect calls text (suc (suc state)) c ≡ (ok rest, c)
      → collect (suc calls) text (suc state) c ≡ (ok (r ∷ rest), c)
  unfolding collect pure ◌>>=◌ continue
  collect_step state calls r rest g h = let k = complete_later state in ground arith

  collect_end :
      (state calls : ℕ)
      → get_elem? ms (suc state) ≡ none
      → collect (suc calls) text (suc state) c ≡ (ok [], c)
  unfolding collect pure ◌>>=◌ continue
  collect_end state calls g = let k = complete_later state in ground arith

  -- With enough calls, what is behind a position is collected from there.
  collect_later :
      (rest : List String) (calls state : ℕ)
      → drop (suc state) ms ≡ rest
      → leb (length rest) calls ≡ true
      → collect (suc calls) text (suc state) c ≡ (ok rest, c)
  collect_later [] calls state d l = collect_end state calls (none_at ms (suc state) d)
  collect_later (r ∷ rest) zero state d l = absurd (too_few rest l)
  collect_later (r ∷ rest) (suc calls) state d l =
      collect_step state (suc calls) r rest (some_at ms (suc state) r rest d)
        (collect_later rest calls (suc state) (drop_more ms (suc state) r rest d) (ground arith))

starting_with-length :
    (text : String) (options : List String)
    → leb (length (starting_with text options)) (length options) ≡ true
unfolding starting_with
starting_with-length text [] = refl
starting_with-length text (s ∷ ss) =
    let ih = starting_with-length text ss in
    elim (Bool-cases (nonempty s && starts_with text s)) [
      | inl e ↦ rw e (ground arith)
      | inr e ↦ rw e (ground arith)
    ]

match_list-length :
    (text : String) (options : List String)
    → leb (length (match_list text options)) (length options) ≡ true
unfolding match_list
match_list-length text options = let h = starting_with-length text options in ground arith

module _ (text : String) (c : SimpleCompleter) where
  abbrev built : List String → SimpleCompleter
  built ms = record c { matches = some ms }

  complete_first :
      complete text 0 c
      ≡ (ok (get_elem? (match_list text c.options) 0), built (match_list text c.options))
  unfolding complete build_matches gets need pure update ◌>>◌ ◌>>=◌ continue
  complete_first = ground arith

  collect_first :
      (calls : ℕ) (r : String) (rest : List String)
      → get_elem? (match_list text c.options) 0 ≡ some r
      → collect calls text 1 (built (match_list text c.options))
        ≡ (ok rest, built (match_list text c.options))
      → (collect (suc calls) text 0 c).0 ≡ ok (r ∷ rest)
  unfolding collect pure ◌>>=◌ continue
  collect_first calls r rest g h = let k = complete_first in ground arith

  collect_nomatch :
      (calls : ℕ)
      → get_elem? (match_list text c.options) 0 ≡ none
      → (collect (suc calls) text 0 c).0 ≡ ok []
  unfolding collect pure ◌>>=◌ continue
  collect_nomatch calls g = let k = complete_first in ground arith

  collected :
      (n : ℕ) (ms : List String)
      → match_list text c.options ≡ ms
      → leb (length ms) n ≡ true
      → (collect (suc n) text 0 c).0 ≡ ok ms
  collected n [] e l = collect_nomatch n (ap (λ l. get_elem? l 0) e)
  collected zero (r ∷ rest) e l = absurd (too_few rest l)
  collected (suc calls) (r ∷ rest) e l =
      collect_first (suc calls) r rest (ap (λ l. get_elem? l 0) e) (
        collect_later text (built (match_list text c.options)) (match_list text c.options) refl rest
          calls 0 (ap (λ l. drop 1 l) e) (ground arith))

  -- Whatever the completer was asked before, the calls of complete from state 0 on until the answer is
  -- None give the list of matches of the text, in its order, and one more call than there are options is
  -- enough.
  pub collect-match_list :
      (collect (suc (length c.options)) text 0 c).0 ≡ ok (match_list text c.options)
  collect-match_list =
      collected (length c.options) (match_list text c.options) refl
        (match_list-length text c.options)

nothing : (line : String) (m n : ℕ) → m ≡ 0 → n ≡ 0 → part m n line ≡ ""
unfolding part keep skip
nothing line m n p q = rw p (rw q refl)

narrow_none : (s : String) (l : List String) → s ≡ "" → narrow s keys l ≡ keys l
unfolding narrow
narrow_none s l e = rw e refl

candidates_for-keys :
    (options : List (String × List String)) (b : LineBuffer) (first : String) (words : List String)
    → b.begidx ≡ 0
    → b.endidx ≡ 0
    → candidates_for options b (first ∷ words) ≡ keys (names_of options)
unfolding candidates_for
candidates_for-keys options b first words p q =
    let n = narrow_none _ (names_of options) (nothing b.line_buffer b.begidx b.endidx p q) in
    ground arith

-- If the line has a word and the part to complete starts and ends at its start, then the completer that
-- knows the line raises a TypeError in state 0.
pub complete_in_line-keys :
    (b : LineBuffer) (c : BufferAwareCompleter) (first : String) (words : List String)
    → b.begidx ≡ 0
    → b.endidx ≡ 0
    → split b.line_buffer ≡ first ∷ words
    → (complete_in_line b 0 c).0 ≡ raised type_error
unfolding complete_in_line build_candidates response candidate_at update pure ◌>>◌ ◌>>=◌ continue
complete_in_line-keys b c first words p q e =
    ap (candidate_at 0)
      (ap (candidates_for c.options b) e ∙ candidates_for-keys c.options b first words p q)
