-- ===== src/Readline/Examples.antt =====
-- The completers on single inputs.
use pymotw.Prelude.{
  ℕ, zero, suc, ◌≡◌, refl, String, Bool, true, false, Option, some, none, List, [], ◌∷◌, split,
  length, sorted,
}
use pymotw.Prelude.Program.{ok, raised}
use pymotw.Readline.{
  SimpleCompleter, match_list, starting_with, type_error, BufferAwareCompleter, LineBuffer,
  buffer_aware_completer, complete_in_line,
}
use pymotw.Readline.Collect.{collect, collect-match_list, complete_in_line-keys}

abbrev completer : SimpleCompleter
completer = record { options = "list" ∷ "print" ∷ "start" ∷ "stop" ∷ []; matches = none }

collect-match_list_example : (collect 5 "st" 0 completer).0 ≡ ok (match_list "st" completer.options)
collect-match_list_example = collect-match_list "st" completer

match_run : match_list "st" completer.options ≡ "start" ∷ "stop" ∷ []
unfolding match_list starting_with pymotw.Prelude.starts_with
match_run = refl

abbrev in_line : BufferAwareCompleter
unfolding buffer_aware_completer
in_line = buffer_aware_completer (("list", "files" ∷ []) ∷ ("stop", []) ∷ [])

abbrev at_start : LineBuffer
at_start = record { line_buffer = "list files"; begidx = 0; endidx = 0 }

complete_in_line-keys_example : (complete_in_line at_start 0 in_line).0 ≡ raised type_error
unfolding split pymotw.Prelude.is_space
complete_in_line-keys_example =
    complete_in_line-keys at_start in_line "list" ("files" ∷ []) refl refl refl
