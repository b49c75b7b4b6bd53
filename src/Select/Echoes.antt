-- ===== src/Select/Echoes.antt =====
-- What the echo server of source/select/select_echo_server.py promises its clients.
use pymotw.Prelude.{
  ℕ, zero, suc, ◌≡◌, refl, sym, ◌∙◌, String, some, none, List, [], ◌∷◌, ◌++◌, ◌==◌, lookup, put,
  lookup-empty, lookup-put, lookup-put_other, nonempty, arith, Bool-cases, inl, inr,
}
use pymotw.Prelude.Program.{
  After, Leads, Keeps, Keeps-pure, Keeps-gets, Keeps-bind, Keeps-then, Keeps-each, Leads-if,
  Leads-bind, Leads-then, update, ◌>>=◌, ◌>>◌, continue,
}
use pymotw.Select.Server.{World, Server, Ready, Handler, accepted, log, start}
use pymotw.Select.Echo.{
  recv, getpeername, add_connection, set_queue, remove_input, discard_output, delete_queue,
  accept_connection, close_connection, queue_message, read_from, handle_readable, send_next,
  handle_writable, handle_exceptional, handle_ready, turn, turn_or_timeout, serve, has_any,
}
use pymotw.Select.Owes.{
  messages_in, messages_out, Owes, Echoes, arriving, leaving, received-Owes, Keeps-getpeername,
  Keeps-remove_output, parts,
}
use pymotw.Select.Queues.{
  message_queue-Leads, put_message-Echoes, delete_queue-Echoes, taken_lem, send-Echoes,
}

-- A connection starts with no message.
accepted-Echoes : (j : ℕ) → Leads Echoes Echoes (log (accepted j) >> add_connection j)
unfolding log add_connection ◌>>◌ ◌>>=◌ update continue messages_in messages_out
accepted-Echoes j = record { at = λ st h. record { owed = λ c q e. accepted_lem c q st h e } }
  where
    accepted_lem :
        (c : ℕ) (q : List String) (st : Server)
        → Echoes st
        → lookup c (put j [] st.message_queues) ≡ some q
        → messages_in c (accepted j ∷ st.trace) ≡ messages_out c (accepted j ∷ st.trace) ++ q
    accepted_lem c q st h e = elim (Bool-cases (c == j)) [
      | inl d ↦ let p = lookup-put c j [] st.message_queues in ground arith
      | inr d ↦
          let k = h.owed c q (sym (lookup-put_other c j [] st.message_queues d) ∙ e) in ground arith
    ]

accept_connection-Echoes : (w : World) → Keeps Echoes (accept_connection w)
unfolding accept_connection
accept_connection-Echoes w = search (parts, accepted-Echoes)

read_from-Echoes : (w : World) (s : ℕ) → Keeps Echoes (read_from w s)
unfolding read_from queue_message close_connection
read_from-Echoes w s = Leads-bind {R = Echoes} (recv w s) _ (search parts) (λ m.
    Leads-then _ _ (received-Owes s m) (
      Leads-if (nonempty m)
        (Leads-then {R = Owes (arriving s m)} (getpeername w s) _ (search parts)
          (Leads-then _ _ (put_message-Echoes s m) (search parts)))
        (Leads-then {R = Owes (arriving s m)} (discard_output s) _ (search parts) (
          Leads-then {R = Owes (arriving s m)} (remove_input s) _ (search parts)
            (delete_queue-Echoes (arriving s m) s (λ c q d. rw d refl))))))

handle_readable-Echoes : (w : World) (s : ℕ) → Keeps Echoes (handle_readable w s)
unfolding handle_readable
handle_readable-Echoes w s = search (parts, accept_connection-Echoes, read_from-Echoes)

handle_writable-Echoes : (w : World) (s : ℕ) → Keeps Echoes (handle_writable w s)
unfolding handle_writable send_next set_queue
handle_writable-Echoes w s = message_queue-Leads s _ next_lem
  where
    next_lem :
        (st : Server) (r : List String)
        → Echoes st
        → lookup s st.message_queues ≡ some r
        → After Echoes (send_next w s r st)
    next_lem st [] h l =
        (Keeps-then {P = Echoes} _ _ (Keeps-getpeername w s) (Keeps-remove_output s)).at st h
    next_lem st (m ∷ r) h l =
        (Leads-then {P = Owes (leaving s m)} _ _ (Keeps-getpeername w s) (send-Echoes w s m)).at
          (record st { message_queues = put s r st.message_queues })
          (record { owed = λ c q e. taken_lem c s m q r st h l e })

delete-Echoes : (s : ℕ) → Keeps Echoes (delete_queue s)
delete-Echoes s = delete_queue-Echoes (λ c q. q) s (λ c q d. refl)

handle_exceptional-Echoes : (w : World) (s : ℕ) → Keeps Echoes (handle_exceptional w s)
unfolding handle_exceptional
handle_exceptional-Echoes w s = search (parts, delete-Echoes)

handle_ready-Echoes : (w : World) (ready : Ready) → Keeps Echoes (handle_ready w ready)
unfolding handle_ready
handle_ready-Echoes w ready =
    search
      (parts, Keeps-each, handle_readable-Echoes, handle_writable-Echoes, handle_exceptional-Echoes)

turn-Echoes : (w : World) → Keeps Echoes (turn w)
unfolding turn
turn-Echoes w = search (parts, handle_ready-Echoes)

turn_or_timeout-Echoes : (w : World) → Keeps Echoes (turn_or_timeout w)
unfolding turn_or_timeout
turn_or_timeout-Echoes w = search (parts, handle_ready-Echoes)

pub serve-Keeps :
    {P : Server → Type 0} (one : Handler (Unit {0})) (turns : ℕ)
    → Keeps P one
    → Keeps P (serve one turns)
unfolding serve
serve-Keeps one zero k = Keeps-pure tt
serve-Keeps one (suc turns) k = Keeps-bind _ _ (Keeps-gets (λ (st : Server). st)) (λ (st : Server).
    Leads-if (has_any st.inputs) (Keeps-then _ _ k (serve-Keeps one turns k)) (Keeps-pure tt))

none-some : {A : Type 0} {a : A} → none ≡ some a → ⊥
none-some e = cc

Echoes-start : (w : World) → Echoes (start w)
unfolding start messages_in messages_out
Echoes-start w = record { owed = λ c q e. empty_lem c q e }
  where
    empty_lem : (c : ℕ) (q : List String) → lookup c [] ≡ some q → [] ≡ q
    empty_lem c q e = absurd (none-some (sym (lookup-empty c) ∙ e))

-- In any world and after any number of turns of either server that returns: for each connection with a
-- queue, the messages received since it was accepted are those handed to send() since then, however
-- much of each the socket took, in the same order, followed by those in its queue.
pub serve-Echoes :
    (w : World) (turns : ℕ)
    → After Echoes (serve (turn w) turns (start w))
      × After Echoes (serve (turn_or_timeout w) turns (start w))
serve-Echoes w turns = (
  (serve-Keeps (turn w) turns (turn-Echoes w)).at (start w) (Echoes-start w),
  (serve-Keeps (turn_or_timeout w) turns (turn_or_timeout-Echoes w)).at (start w) (Echoes-start w),
)
