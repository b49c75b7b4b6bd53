-- ===== src/Select/Echo.antt =====
-- The echo server of source/select/select_echo_server.py, and the loop of the one that does not wait
-- forever, source/select/select_echo_server_timeout.py.
use pymotw.Prelude.{
  ℕ, zero, suc, String, Bool, true, false, List, [], ◌∷◌, ◌++◌, if◌then◌else◌, ◌==◌, lookup, put,
  remove, nonempty, ◌||◌,
}
use pymotw.Prelude.Program.{pure, gets, update, need, each, ◌>>=◌, ◌>>◌}
use pymotw.Select.Server.{
  World, Ready, Handler, os_error, value_error, key_error, accepted, received, sent, tick, log,
  check, member, remove_first, discard,
}

-- connection, client_address = s.accept()
unfoldable pub accept : World → Handler ℕ
unfolding ◌>>=◌ ◌>>◌ gets tick need
accept w = do t ← gets (λ s. s.clock); tick; need os_error (w.accept t)

unfoldable pub recv : World → ℕ → Handler String
unfolding ◌>>=◌ ◌>>◌ gets tick need
recv w s = do t ← gets (λ st. st.clock); tick; need os_error (w.recv t s)

-- The socket may take less of the message than there is; the server does not look.
unfoldable pub send : World → ℕ → String → Handler (Unit {0})
unfolding ◌>>=◌ ◌>>◌ gets tick need log
send w s message = do
  t ← gets (λ st. st.clock)
  tick
  taken ← need os_error (w.send t s message)
  log (sent s message taken)

unfoldable pub getpeername : World → ℕ → Handler (Unit {0})
unfolding ◌>>=◌ ◌>>◌ gets tick check
getpeername w s = do t ← gets (λ st. st.clock); tick; check (w.getpeername t s)

unfoldable pub add_connection : ℕ → Handler (Unit {0})
unfolding update
add_connection connection = update (λ st. record st {
  inputs = st.inputs ++ (connection ∷ []);
  message_queues = put connection [] st.message_queues;
})

unfoldable pub message_queue : ℕ → Handler (List String)
unfolding ◌>>=◌ gets need
message_queue s = gets (λ st. lookup s st.message_queues) >>= need key_error

unfoldable pub set_queue : ℕ → List String → Handler (Unit {0})
unfolding update
set_queue s messages =
    update (λ st. record st { message_queues = put s messages st.message_queues })

-- message_queues[s].put(data)
unfoldable pub put_message : ℕ → String → Handler (Unit {0})
unfolding ◌>>=◌ message_queue set_queue
put_message s message = do messages ← message_queue s; set_queue s (messages ++ (message ∷ []))

unfoldable pub add_output : ℕ → Handler (Unit {0})
unfolding update
add_output s = update (λ st. record st {
  outputs = if member s st.outputs then st.outputs else st.outputs ++ (s ∷ []);
})

-- inputs.remove(s)
unfoldable pub remove_input : ℕ → Handler (Unit {0})
unfolding ◌>>=◌ gets need update
remove_input s = gets (λ st. remove_first s st.inputs) >>= need value_error >>= λ inputs.
    update (λ st. record st { inputs = inputs })

unfoldable pub remove_output : ℕ → Handler (Unit {0})
unfolding ◌>>=◌ gets need update
remove_output s = gets (λ st. remove_first s st.outputs) >>= need value_error >>= λ outputs.
    update (λ st. record st { outputs = outputs })

unfoldable pub discard_output : ℕ → Handler (Unit {0})
unfolding update
discard_output s = update (λ st. record st { outputs = discard s st.outputs })

-- del message_queues[s]
unfoldable pub delete_queue : ℕ → Handler (Unit {0})
unfolding ◌>>=◌ message_queue update
delete_queue s = message_queue s >>= λ messages.
    update (λ st. record st { message_queues = remove s st.message_queues })

unfoldable pub accept_connection : World → Handler (Unit {0})
unfolding ◌>>=◌ ◌>>◌ accept log add_connection
accept_connection w = do connection ← accept w; log (accepted connection); add_connection connection

unfoldable pub close_connection : ℕ → Handler (Unit {0})
unfolding ◌>>◌ discard_output remove_input delete_queue
close_connection s = do discard_output s; remove_input s; delete_queue s

unfoldable pub queue_message : World → ℕ → String → Handler (Unit {0})
unfolding ◌>>◌ getpeername put_message add_output
queue_message w s message = do getpeername w s; put_message s message; add_output s

unfoldable pub read_from : World → ℕ → Handler (Unit {0})
unfolding ◌>>=◌ ◌>>◌ recv log queue_message close_connection
read_from w s = do
  message ← recv w s
  log (received s message)
  if nonempty message then queue_message w s message else close_connection s

unfoldable pub handle_readable : World → ℕ → Handler (Unit {0})
unfolding accept_connection read_from
handle_readable w s = if s == w.server then accept_connection w else read_from w s

-- The next message has been taken from the queue when its send is announced.
unfoldable pub send_next : World → ℕ → List String → Handler (Unit {0})
unfolding ◌>>◌ getpeername remove_output set_queue send
send_next w s [] = getpeername w s >> remove_output s
send_next w s (next_msg ∷ messages) = do set_queue s messages; getpeername w s; send w s next_msg

unfoldable pub handle_writable : World → ℕ → Handler (Unit {0})
unfolding ◌>>=◌ message_queue send_next
handle_writable w s = message_queue s >>= send_next w s

unfoldable pub handle_exceptional : World → ℕ → Handler (Unit {0})
unfolding ◌>>◌ getpeername remove_input discard_output delete_queue
handle_exceptional w s = do getpeername w s; remove_input s; discard_output s; delete_queue s

unfoldable pub select : World → Handler Ready
unfolding ◌>>=◌ ◌>>◌ gets tick need
select w = do st ← gets (λ st. st); tick; need os_error (w.select st.clock st.inputs st.outputs)

unfoldable pub handle_ready : World → Ready → Handler (Unit {0})
unfolding ◌>>◌ each handle_readable handle_writable handle_exceptional
handle_ready w ready = do
  each (handle_readable w) ready.readable
  each (handle_writable w) ready.writable
  each (handle_exceptional w) ready.exceptional

-- One turn of the loop.
unfoldable pub turn : World → Handler (Unit {0})
unfolding ◌>>=◌ select handle_ready
turn w = select w >>= handle_ready w

unfoldable pub has_any : List ℕ → Bool
has_any [] = false
has_any (x ∷ xs) = true

-- One turn of the loop with a timeout: if nothing is ready, nothing is done.
unfoldable pub turn_or_timeout : World → Handler (Unit {0})
unfolding ◌>>=◌ select handle_ready pure
turn_or_timeout w = select w >>= λ ready.
    if has_any ready.readable || has_any ready.writable || has_any ready.exceptional
    then handle_ready w ready
    else pure tt

-- while inputs: as many turns as the fuel, the empty list of inputs ends the program.
unfoldable pub serve : Handler (Unit {0}) → ℕ → Handler (Unit {0})
unfolding ◌>>=◌ ◌>>◌ gets pure
serve one zero = pure tt
serve one (suc turns) = do
  st ← gets (λ st. st)
  if has_any st.inputs then one >> serve one turns else pure tt
