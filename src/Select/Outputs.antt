-- ===== src/Select/Outputs.antt =====
-- The turns of the echo server of source/select/select_echo_server.py, and its outputs.
use pymotw.Prelude.{ℕ, String, List, [], ◌∷◌}
use pymotw.Prelude.Program.{
  Program, After, Leads, Keeps, Keeps-pure, Keeps-gets, Keeps-need, Keeps-bind, Keeps-then,
  Keeps-each, Leads-raise, Leads-update, Leads-if, Leads-bind, Leads-then, keeping, pure, raise,
  gets, update, need, each, ◌>>=◌, ◌>>◌, continue,
}
use pymotw.Select.Server.{World, Ready, start, member}
use pymotw.Select.Echo.{
  accept, recv, getpeername, put_message, remove_input, discard_output, accept_connection,
  close_connection, queue_message, read_from, handle_readable, send_next, handle_writable,
  handle_exceptional, select, handle_ready, turn, turn_or_timeout, serve,
}
use pymotw.Select.Queues.{message_queue-Leads}
use pymotw.Select.Echoes.{serve-Keeps}
use pymotw.Select.Listed.{
  Listed, Off, Queued, Listed-tick, Listed-log, Listed-set_queue, Listed-add_connection,
  Listed-getpeername, Listed-send, put_message-Queued, add_output-Listed, remove_output-Listed,
  discard_output-Off, delete_queue-Listed, Off-remove_input, Listed-remove_input,
}

pub ruleset listing = (
  keeping, Listed-tick, Listed-log, Listed-set_queue, Listed-add_connection, Listed-getpeername,
  Listed-send, remove_output-Listed, Listed-remove_input,
)

accept_connection-Listed : (w : World) → Keeps Listed (accept_connection w)
unfolding accept_connection accept
accept_connection-Listed w = search listing depth 20

queue_message-Listed : (w : World) (s : ℕ) (m : String) → Keeps Listed (queue_message w s m)
unfolding queue_message
queue_message-Listed w s m =
    Leads-then {R = Listed} (getpeername w s) _ (search listing)
      (Leads-then (put_message s m) _ (put_message-Queued s m) (add_output-Listed s))

close_connection-Listed : (s : ℕ) → Keeps Listed (close_connection s)
unfolding close_connection
close_connection-Listed s =
    Leads-then (discard_output s) _ (discard_output-Off s)
      (Leads-then {R = Off s} (remove_input s) _ Off-remove_input (delete_queue-Listed s))

recv-Listed : (w : World) (s : ℕ) → Keeps Listed (recv w s)
unfolding recv
recv-Listed w s = search listing

handle_readable-Listed : (w : World) (s : ℕ) → Keeps Listed (handle_readable w s)
unfolding handle_readable read_from
handle_readable-Listed w s =
    search
      (
        listing, accept_connection-Listed, recv-Listed, queue_message-Listed,
        close_connection-Listed,
      )
      depth 20

send_next-Listed : (w : World) (s : ℕ) (r : List String) → Keeps Listed (send_next w s r)
unfolding send_next
send_next-Listed w s [] = search listing
send_next-Listed w s (m ∷ r) = search listing

handle_writable-Listed : (w : World) (s : ℕ) → Keeps Listed (handle_writable w s)
unfolding handle_writable
handle_writable-Listed w s = message_queue-Leads s _ (λ st r h l. (send_next-Listed w s r).at st h)

handle_exceptional-Listed : (w : World) (s : ℕ) → Keeps Listed (handle_exceptional w s)
unfolding handle_exceptional
handle_exceptional-Listed w s = Leads-then {R = Listed} (getpeername w s) _ (search listing) (
    Leads-then {R = Listed} (remove_input s) _ (search listing)
      (Leads-then (discard_output s) _ (discard_output-Off s) (delete_queue-Listed s)))

select-Listed : (w : World) → Keeps Listed (select w)
unfolding select
select-Listed w = search listing

handle_ready-Listed : (w : World) (ready : Ready) → Keeps Listed (handle_ready w ready)
unfolding handle_ready
handle_ready-Listed w ready =
    search (
      listing, Keeps-each, handle_readable-Listed, handle_writable-Listed,
      handle_exceptional-Listed,
    )

turn-Listed : (w : World) → Keeps Listed (turn w)
unfolding turn
turn-Listed w = search (listing, select-Listed, handle_ready-Listed)

turn_or_timeout-Listed : (w : World) → Keeps Listed (turn_or_timeout w)
unfolding turn_or_timeout
turn_or_timeout-Listed w = search (listing, select-Listed, handle_ready-Listed)

Listed-start : (w : World) → Listed (start w)
unfolding start member
Listed-start w = record { queued = λ c m. cc; once = tt }

-- In any world and after any number of turns of either server that returns: every socket on the outputs
-- has a queue, and none stands there twice.
pub serve-Listed :
    (w : World) (turns : ℕ)
    → After Listed (serve (turn w) turns (start w))
      × After Listed (serve (turn_or_timeout w) turns (start w))
serve-Listed w turns = (
  (serve-Keeps (turn w) turns (turn-Listed w)).at (start w) (Listed-start w),
  (serve-Keeps (turn_or_timeout w) turns (turn_or_timeout-Listed w)).at (start w) (Listed-start w),
)
