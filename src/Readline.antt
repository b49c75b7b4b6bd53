-- ===== src/Readline.antt =====
-- The completers of source/readline: readline_completer.py and readline_buffer.py.
mod Collect
mod Examples
use pymotw.Prelude.{
  ℕ, zero, suc, ◌+◌, ◌-◌, String, Bool, true, false, Option, some, none, List, [], ◌∷◌,
  if◌then◌else◌, ◌==◌, ◌&&◌, ◌=ˢ◌, nonempty, starts_with, keep, skip, sorted, get_elem?, map, split,
  drop_first,
}
use pymotw.Prelude.Program.{
  Result, ok, raised, Program, pure, raise, gets, update, need, ◌>>=◌, ◌>>◌,
}

pub data Error : Type 0 where
  -- an attribute that is not set yet; an index into the view of a dict's keys
  attribute_error type_error : Error

pub record SimpleCompleter : Type 0 where
  pub options : List String
  pub matches : Option (List String)

unfoldable pub simple_completer : List String → SimpleCompleter
unfolding sorted
simple_completer options = record { options = sorted options; matches = none }

-- [s for s in options if s and s.startswith(text)]
unfoldable pub starting_with : String → List String → List String
unfolding starts_with
starting_with text [] = []
starting_with text (s ∷ ss) =
    let rest = starting_with text ss in if nonempty s && starts_with text s then s ∷ rest else rest

unfoldable pub match_list : String → List String → List String
unfolding starting_with
match_list text options = if nonempty text then starting_with text options else options

unfoldable pub build_matches : String → Program SimpleCompleter Error (Unit {0})
unfolding update match_list
build_matches text = update (λ c. record c { matches = some (match_list text c.options) })

-- complete(text, state)
unfoldable pub complete : String → ℕ → Program SimpleCompleter Error (Option String)
unfolding ◌>>=◌ ◌>>◌ build_matches pure gets need
complete text state = do
  if state == 0 then build_matches text else pure tt
  matches ← gets (λ c. c.matches) >>= need attribute_error
  pure (get_elem? matches state)

-- The candidates are a list, or the view of the keys of a dict, which has no index.
pub data Candidates : Type 0 where
  texts : List String → Candidates
  keys : List String → Candidates

pub record BufferAwareCompleter : Type 0 where
  pub options : List (String × List String)
  pub current_candidates : Candidates

unfoldable pub buffer_aware_completer : List (String × List String) → BufferAwareCompleter
buffer_aware_completer options = record { options = options; current_candidates = texts [] }

-- The line that readline is at, and the part of it that is completed.
pub record LineBuffer : Type 0 where
  pub line_buffer : String
  pub begidx : ℕ
  pub endidx : ℕ

-- text[begin:end]
unfoldable pub part : ℕ → ℕ → String → String
unfolding skip keep
part begin end text = keep (end - begin) (skip begin text)

unfoldable pub options_of : String → List (String × List String) → Option (List String)
options_of k [] = none
options_of k ((j, words) ∷ options) = if k =ˢ j then some words else options_of k options

abbrev pub names_of : List (String × List String) → List String
names_of [] = []
names_of ((j, words) ∷ options) = j ∷ names_of options

unfoldable pub beginning_with : String → List String → List String
unfolding starts_with
beginning_with text [] = []
beginning_with text (w ∷ ws) =
    let rest = beginning_with text ws in if starts_with text w then w ∷ rest else rest

-- All candidates, or those that begin with what is being completed.
unfoldable pub narrow : String → (List String → Candidates) → List String → Candidates
unfolding beginning_with
narrow being_completed all candidates =
    if nonempty being_completed
    then texts (beginning_with being_completed candidates)
    else all candidates

-- A word behind the first; without options for the first there are no candidates.
unfoldable pub later_word : String → Option (List String) → Candidates
unfolding narrow
later_word being_completed none = texts []
later_word being_completed (some candidates) = narrow being_completed texts candidates

unfoldable pub candidates_for : List (String × List String) → LineBuffer → List String → Candidates
unfolding sorted narrow part later_word options_of
candidates_for options b [] = texts (sorted (names_of options))
candidates_for options b (first ∷ words) =
    let being_completed = part b.begidx b.endidx b.line_buffer in
    if b.begidx == 0
    then narrow being_completed keys (names_of options)
    else later_word being_completed (options_of first options)

unfoldable pub build_candidates : LineBuffer → Program BufferAwareCompleter Error (Unit {0})
unfolding update candidates_for split
build_candidates b =
    update (λ c. record c { current_candidates = candidates_for c.options b (split b.line_buffer) })

unfoldable pub candidate_at : ℕ → Candidates → Result Error (Option String)
candidate_at state (texts ts) = ok (get_elem? ts state)
candidate_at state (keys ks) = raised type_error

unfoldable pub response : ℕ → Program BufferAwareCompleter Error (Option String)
unfolding candidate_at
response state c = (candidate_at state c.current_candidates, c)

unfoldable pub complete_in_line :
    LineBuffer → ℕ → Program BufferAwareCompleter Error (Option String)
unfolding ◌>>◌ ◌>>=◌ build_candidates response pure
complete_in_line b state = (if state == 0 then build_candidates b else pure tt) >> response state
