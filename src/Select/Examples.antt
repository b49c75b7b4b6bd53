-- ===== src/Select/Examples.antt =====
-- The echo server in a world of one client.
use pymotw.Prelude.{
  text_length, is_some, Bool-cases, inl, inr, eq_of_test, arith, ◌+◌, ℕ, ◌≡◌, refl, Bool, true,
  false, some, none, List, [], ◌∷◌, ◌==◌, if◌then◌else◌, lookup,
}
use pymotw.Prelude.Program.{ok, raised, After}
use pymotw.Select.Server.{member, World, Server, key_error, received, start}
use pymotw.Select.Echo.{has_any, turn, turn_or_timeout, serve}
use pymotw.Select.Owes.{Echoes}
use pymotw.Select.Echoes.{serve-Echoes}
use pymotw.Select.Listed.{Listed}
use pymotw.Select.Outputs.{serve-Listed}
use pymotw.Select.Drain.{Drained, drain, only_writable}
use pymotw.Select.Poll.{PollWorld, Flag, read_only, begin, poll_for}
use pymotw.Select.Sound.{Fine}
use pymotw.Select.Agree.{Agree}
use pymotw.Select.PollLoop.{in_events, Reported, Documented, poll_for-Fine}
use pymotw.Select.Leaving.{closed, turn-closed}

-- The client 7 connects, sends one message, and can be written to as long as the server asks for it;
-- its socket takes two characters at a time.
abbrev client : World
client = record {
  server = 3;
  select = λ t i o. some (
      if t == 0
      then record { readable = 3 ∷ []; writable = []; exceptional = [] }
      else if t == 2
      then record { readable = 7 ∷ []; writable = []; exceptional = [] }
      else if member 7 o
      then only_writable 7
      else record { readable = []; writable = []; exceptional = [] });
  accept = λ t. some 7;
  recv = λ t s. some "hello";
  send = λ t s m. some 2;
  getpeername = λ t s. true;
}

serve_run :
    ((serve (turn client) 5 (start client)).0 ≡ ok tt)
    × ((serve (turn_or_timeout client) 5 (start client)).0 ≡ ok tt)
    × (lookup 7 (serve (turn client) 5 (start client)).1.message_queues ≡ some [])
unfolding serve turn turn_or_timeout start member lookup has_any pymotw.Prelude.put
    pymotw.Select.Server.remove_first
serve_run = (refl, refl, refl)

serve-Echoes_example :
    After Echoes (serve (turn client) 5 (start client))
    × After Echoes (serve (turn_or_timeout client) 5 (start client))
serve-Echoes_example = serve-Echoes client 5

serve-Listed_example :
    After Listed (serve (turn client) 5 (start client))
    × After Listed (serve (turn_or_timeout client) 5 (start client))
serve-Listed_example = serve-Listed client 5

-- A client whose connection is always ready to be written to.
abbrev listener : World
listener = record client {
  send = λ t s m. some (text_length m);
  select = λ t i o. some (only_writable 7);
}

abbrev waiting : Server
waiting = record {
  inputs = 3 ∷ 7 ∷ [];
  outputs = 7 ∷ [];
  message_queues = (7, "b" ∷ "c" ∷ []) ∷ [];
  trace = received 7 "c" ∷ received 7 "b" ∷ [];
  clock = 4;
}

drain_example : Drained 7 ("b" ∷ "c" ∷ []) waiting (serve (turn listener) 3 waiting)
unfolding member lookup has_any
drain_example =
    drain listener 7 ("b" ∷ "c" ∷ []) waiting ((λ t i o h. refl), (λ t. refl), (λ t m. refl)) refl
      refl refl

-- A client that has closed its end, and could still be written to.
abbrev leaver : World
leaver = record client {
  select = λ t i o. some (record { readable = 7 ∷ []; writable = 7 ∷ []; exceptional = [] });
  recv = λ t s. some "";
}

turn-closed_example : turn leaver waiting ≡ (raised key_error, closed 7 waiting)
unfolding member lookup
turn-closed_example = turn-closed leaver 7 waiting ("b" ∷ "c" ∷ []) [] [] refl refl refl refl refl

-- A poll in which the server alone has events.
abbrev quiet : PollWorld
quiet = record {
  server = 3;
  poll = λ t l. if is_some (lookup 3 l) then (3, read_only) ∷ [] else [];
  accept = λ t. some (t + 10);
  recv = λ t s. none;
  send = λ t s m. some (text_length m);
  getpeername = λ t s. true;
}

quiet-Documented : Documented quiet
unfolding in_events
quiet-Documented = record {
  reported = λ t l. reported_lem (is_some (lookup 3 l));
  asked_for = λ t l c h. asked_lem l c h;
}
  where
    reported_lem : (b : Bool) → Reported 3 (if b then (3, read_only) ∷ [] else [])
    reported_lem true = (refl, (λ e. refl), tt)
    reported_lem false = tt

    asked_lem :
        (l : List (ℕ × Flag)) (c : ℕ)
        → in_events (if is_some (lookup 3 l) then (3, read_only) ∷ [] else []) c ≡ true
        → is_some (lookup c l) ≡ true
    asked_lem l c h = elim (Bool-cases (is_some (lookup 3 l))) [
      | inl e ↦ let k = eq_of_test c 3 in ground arith
      | inr e ↦ cc
    ]

poll_for-Fine_example : Fine (λ a. Agree 3 (in_events [])) (poll_for quiet 4 (begin quiet))
poll_for-Fine_example = poll_for-Fine quiet quiet-Documented 4
