-- ===== src/Select/Leaving.antt =====
-- A client of the echo server that leaves while messages for it are waiting.
use pymotw.Prelude.{
  ℕ, ◌+◌, ◌≡◌, String, true, false, some, List, [], ◌∷◌, ◌==◌, lookup, remove, lookup-remove_same,
  arith,
}
use pymotw.Prelude.Program.{ok, raised, each}
use pymotw.Select.Server.{
  World, Server, key_error, received, tick, log, member, remove_first, discard,
}
use pymotw.Select.Echo.{
  recv, remove_input, discard_output, delete_queue, message_queue, close_connection, read_from,
  handle_readable, handle_writable, select, handle_ready, turn,
}
use pymotw.Select.Drain.{remove_first-discard}

-- The state when the connection s has been closed.
abbrev pub closed : ℕ → Server → Server
closed s st = record st {
  inputs = discard s st.inputs;
  outputs = discard s st.outputs;
  message_queues = remove s st.message_queues;
  trace = received s "" ∷ st.trace;
  clock = (st.clock + 1) + 1;
}

module _ (w : World) (s : ℕ) (st : Server) where
  abbrev asked : Server
  asked = record st { clock = st.clock + 1 }

  handle_readable-closed :
      (q : List String)
      → (s == w.server) ≡ false
      → w.recv (st.clock + 1) s ≡ some ""
      → remove_first s st.inputs ≡ some (discard s st.inputs)
      → lookup s st.message_queues ≡ some q
      → handle_readable w s asked ≡ (ok tt, closed s st)
  unfolding handle_readable read_from recv tick log close_connection discard_output remove_input
      delete_queue message_queue
  handle_readable-closed q a b c d = ground arith

  no_queue : handle_writable w s (closed s st) ≡ (raised key_error, closed s st)
  unfolding handle_writable message_queue
  no_queue = let e = lookup-remove_same s st.message_queues in ground arith

  -- If s, with a queue and among the inputs, is the one that is readable, has nothing more to read, and is
  -- the first that is ready to be written to, then the turn closes it and raises a KeyError.
  pub turn-closed :
      (q : List String) (more exceptional : List ℕ)
      → (s == w.server) ≡ false
      → w.select st.clock st.inputs st.outputs
        ≡ some (record { readable = s ∷ []; writable = s ∷ more; exceptional = exceptional })
      → w.recv (st.clock + 1) s ≡ some ""
      → member s st.inputs ≡ true
      → lookup s st.message_queues ≡ some q
      → turn w st ≡ (raised key_error, closed s st)
  unfolding turn select handle_ready each tick
  turn-closed q more exceptional a b c d e =
      let f = handle_readable-closed q a c (remove_first-discard s _ d) e in
      let g = no_queue in ground arith
