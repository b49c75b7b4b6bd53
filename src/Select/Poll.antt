-- ===== src/Select/Poll.antt =====
-- The echo server of source/select/select_poll_echo_server.py, which waits with poll().
use pymotw.Prelude.{
  ℕ, zero, suc, ◌+◌, String, Bool, true, false, Option, List, [], ◌∷◌, ◌++◌, if◌then◌else◌, ◌==◌,
  lookup, put, remove, nonempty, ◌||◌,
}
use pymotw.Prelude.Program.{Program, pure, raise, gets, update, need, each, ◌>>=◌, ◌>>◌}
use pymotw.Select.Server.{Error, os_error, key_error, Call, accepted, received, sent}

-- The bits of an event: POLLIN, POLLPRI, POLLHUP, POLLERR and POLLOUT
pub record Flag : Type 0 where
  pub pollin : Bool
  pub pollpri : Bool
  pub pollhup : Bool
  pub pollerr : Bool
  pub pollout : Bool

abbrev pub read_only : Flag
read_only = record {
  pollin = true;
  pollpri = true;
  pollhup = true;
  pollerr = true;
  pollout = false;
}

abbrev pub read_write : Flag
read_write = record read_only { pollout = true }

-- The system: what the calls answer, by the number of calls before. A socket is its file descriptor.
pub record PollWorld : Type 0 where
  pub server : ℕ
  pub poll : ℕ → List (ℕ × Flag) → List (ℕ × Flag)
  pub accept : ℕ → Option ℕ
  pub recv : ℕ → ℕ → Option String
  pub send : ℕ → ℕ → String → Option ℕ
  pub getpeername : ℕ → ℕ → Bool

pub record Poller : Type 0 where
  pub registered : List (ℕ × Flag)
  pub fd_to_socket : List (ℕ × ℕ)
  pub message_queues : List (ℕ × List String)
  pub closed : List ℕ
  pub trace : List Call
  pub clock : ℕ

abbrev pub PollHandler : Type 0 → Type 0
PollHandler A = Program Poller Error A

unfoldable pub begin : PollWorld → Poller
begin w = record {
  registered = (w.server, read_only) ∷ [];
  fd_to_socket = (w.server, w.server) ∷ [];
  message_queues = [];
  closed = [];
  trace = [];
  clock = 0;
}

unfoldable pub now : PollHandler ℕ
unfolding ◌>>=◌ ◌>>◌ gets update pure
now = do t ← gets (λ st. st.clock); update (λ st. record st { clock = st.clock + 1 }); pure t

unfoldable pub log : Call → PollHandler (Unit {0})
unfolding update
log c = update (λ st. record st { trace = c ∷ st.trace })

unfoldable pub check : Bool → PollHandler (Unit {0})
unfolding pure raise
check b = if b then pure tt else raise os_error

-- poller.register(s, flags); a second time it changes the flags.
unfoldable pub register : ℕ → Flag → PollHandler (Unit {0})
unfolding update
register s flags = update (λ st. record st { registered = put s flags st.registered })

-- poller.modify(s, flags): OSError for a socket that is not registered
unfoldable pub modify : ℕ → Flag → PollHandler (Unit {0})
unfolding ◌>>=◌ gets need register
modify s flags =
    gets (λ st. lookup s st.registered) >>= need os_error >>= λ before. register s flags

-- poller.unregister(s): KeyError for a socket that is not registered
unfoldable pub unregister : ℕ → PollHandler (Unit {0})
unfolding ◌>>=◌ gets need update
unregister s = gets (λ st. lookup s st.registered) >>= need key_error >>= λ before.
    update (λ st. record st { registered = remove s st.registered })

unfoldable pub close : ℕ → PollHandler (Unit {0})
unfolding update
close s = update (λ st. record st { closed = s ∷ st.closed })

unfoldable pub message_queue : ℕ → PollHandler (List String)
unfolding ◌>>=◌ gets need
message_queue s = gets (λ st. lookup s st.message_queues) >>= need key_error

unfoldable pub set_queue : ℕ → List String → PollHandler (Unit {0})
unfolding update
set_queue s messages =
    update (λ st. record st { message_queues = put s messages st.message_queues })

unfoldable pub delete_queue : ℕ → PollHandler (Unit {0})
unfolding ◌>>=◌ message_queue update
delete_queue s = message_queue s >>= λ messages.
    update (λ st. record st { message_queues = remove s st.message_queues })

unfoldable pub getpeername : PollWorld → ℕ → PollHandler (Unit {0})
unfolding ◌>>=◌ now check
getpeername w s = now >>= λ t. check (w.getpeername t s)

unfoldable pub add_connection : ℕ → PollHandler (Unit {0})
unfolding ◌>>◌ update register set_queue
add_connection connection = do
  update (λ st. record st { fd_to_socket = put connection connection st.fd_to_socket })
  register connection read_only
  set_queue connection []

unfoldable pub accept_connection : PollWorld → PollHandler (Unit {0})
unfolding ◌>>=◌ ◌>>◌ now need log add_connection
accept_connection w = do
  t ← now
  connection ← need os_error (w.accept t)
  log (accepted connection)
  add_connection connection

unfoldable pub queue_message : PollWorld → ℕ → String → PollHandler (Unit {0})
unfolding ◌>>=◌ ◌>>◌ getpeername message_queue set_queue modify
queue_message w s message = do
  getpeername w s
  messages ← message_queue s
  set_queue s (messages ++ (message ∷ []))
  modify s read_write

unfoldable pub hang_up : ℕ → PollHandler (Unit {0})
unfolding ◌>>◌ unregister close
hang_up s = unregister s >> close s

unfoldable pub close_connection : ℕ → PollHandler (Unit {0})
unfolding ◌>>◌ hang_up delete_queue
close_connection s = hang_up s >> delete_queue s

unfoldable pub read_from : PollWorld → ℕ → PollHandler (Unit {0})
unfolding ◌>>=◌ ◌>>◌ now need log queue_message close_connection
read_from w s = do
  t ← now
  message ← need os_error (w.recv t s)
  log (received s message)
  if nonempty message then queue_message w s message else close_connection s

unfoldable pub send : PollWorld → ℕ → String → PollHandler (Unit {0})
unfolding ◌>>=◌ ◌>>◌ now need log
send w s message = do
  t ← now
  taken ← need os_error (w.send t s message)
  log (sent s message taken)

unfoldable pub send_next : PollWorld → ℕ → List String → PollHandler (Unit {0})
unfolding ◌>>◌ getpeername modify set_queue send
send_next w s [] = getpeername w s >> modify s read_only
send_next w s (next_msg ∷ messages) = do set_queue s messages; getpeername w s; send w s next_msg

unfoldable pub exception_on : PollWorld → ℕ → PollHandler (Unit {0})
unfolding ◌>>◌ getpeername close_connection
exception_on w s = getpeername w s >> close_connection s

-- A hang-up leaves the queue of the connection where it is.
unfoldable pub handle_flag : PollWorld → ℕ → Flag → PollHandler (Unit {0})
unfolding accept_connection read_from hang_up ◌>>=◌ message_queue send_next exception_on pure
handle_flag w s flag =
    if flag.pollin || flag.pollpri
    then (if s == w.server then accept_connection w else read_from w s)
    else if flag.pollhup
    then hang_up s
    else if flag.pollout
    then message_queue s >>= send_next w s
    else if flag.pollerr
    then exception_on w s
    else pure tt

unfoldable pub handle_event : PollWorld → ℕ × Flag → PollHandler (Unit {0})
unfolding ◌>>=◌ gets need handle_flag
handle_event w (fd, flag) =
    gets (λ st. lookup fd st.fd_to_socket) >>= need key_error >>= λ s. handle_flag w s flag

-- One turn of the loop.
unfoldable pub poll_once : PollWorld → PollHandler (Unit {0})
unfolding ◌>>=◌ ◌>>◌ now gets each handle_event
poll_once w = do
  t ← now
  registered ← gets (λ st. st.registered)
  each (handle_event w) (w.poll t registered)

-- while True, for as many turns as the fuel
unfoldable pub poll_for : PollWorld → ℕ → PollHandler (Unit {0})
unfolding ◌>>◌ poll_once pure
poll_for w zero = pure tt
poll_for w (suc turns) = poll_once w >> poll_for w turns
