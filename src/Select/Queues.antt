-- ===== src/Select/Queues.antt =====
-- The steps of the echo server that take a message out of a queue or put one into it.
use pymotw.Prelude.{
  ℕ, ◌≡◌, refl, sym, ap, ◌∙◌, String, false, Option, some, none, List, [], ◌∷◌, ◌++◌, ◌==◌, lookup,
  put, remove, lookup-put, lookup-remove, lookup-put_other, lookup-remove_other, eq_of_test, arith,
  Bool-cases, inl, inr,
}
use mathlib.Core.List.{append_assoc}
use pymotw.Prelude.Program.{
  After, Leads, Leads-update, Leads-bind, Leads-then, gets, update, need, ◌>>=◌, continue,
}
use pymotw.Select.Server.{World, Server, Handler, key_error, os_error, sent, tick, log}
use pymotw.Select.Echo.{send, message_queue, set_queue, put_message, delete_queue}
use pymotw.Select.Owes.{messages_in, messages_out, Owes, Echoes, arriving, leaving, parts}

-- What is done with a queue may use that it is there.
pub message_queue-Leads :
    {B : Type 0} {P Q : Server → Type 0} (s : ℕ) (f : List String → Handler B)
    → ((st : Server) (r : List String)
        → P st
        → lookup s st.message_queues ≡ some r
        → After Q (f r st))
    → Leads P Q (message_queue s >>= f)
unfolding message_queue gets need ◌>>=◌ continue
message_queue-Leads {B} {P} {Q} s f g = record {
  at = λ st h. found_lem st h (lookup s st.message_queues) refl;
}
  where
    found_lem :
        (st : Server)
        → P st
        → (o : Option (List String)) → lookup s st.message_queues ≡ o
        → After Q ((need key_error o >>= f) st)
    found_lem st h none l = tt
    found_lem st h (some r) l = g st r h l

-- A queue with the message that was on its way.
pub queued_lem :
    (c s : ℕ) (m : String) (q r : List String) (st : Server)
    → Owes (arriving s m) st
    → lookup s st.message_queues ≡ some r
    → lookup c (put s (r ++ (m ∷ [])) st.message_queues) ≡ some q
    → messages_in c st.trace ≡ messages_out c st.trace ++ q
queued_lem c s m q r st h l e = elim (Bool-cases (c == s)) [
  | inl d ↦
      let k = h.owed c r (ap (λ j. lookup j st.message_queues) (eq_of_test c s d) ∙ l) in
      let p = lookup-put c s (r ++ (m ∷ [])) st.message_queues in ground arith
  | inr d ↦
      let k = h.owed c q (sym (lookup-put_other c s (r ++ (m ∷ [])) st.message_queues d) ∙ e) in
      ground arith
]

pub put_message-Echoes : (s : ℕ) (m : String) → Leads (Owes (arriving s m)) Echoes (put_message s m)
unfolding put_message set_queue update
put_message-Echoes s m =
    message_queue-Leads s _ (λ st r h l. record { owed = λ c q e. queued_lem c s m q r st h l e })

-- With the queue the debt is gone.
pub deleted_lem :
    (f : ℕ → List String → List String) (c s : ℕ) (q : List String) (st : Server)
    → ((c : ℕ) (q : List String) → (c == s) ≡ false → f c q ≡ q)
    → Owes f st
    → lookup c (remove s st.message_queues) ≡ some q
    → messages_in c st.trace ≡ messages_out c st.trace ++ q
deleted_lem f c s q st g h e = elim (Bool-cases (c == s)) [
  | inl d ↦ let p = lookup-remove c s st.message_queues in ground arith
  | inr d ↦
      h.owed c q (sym (lookup-remove_other c s st.message_queues d) ∙ e)
      ∙ ap (λ l. messages_out c st.trace ++ l) (g c q d)
]

pub delete_queue-Echoes :
    (f : ℕ → List String → List String) (s : ℕ)
    → ((c : ℕ) (q : List String) → (c == s) ≡ false → f c q ≡ q)
    → Leads (Owes f) Echoes (delete_queue s)
unfolding delete_queue update
delete_queue-Echoes f s g =
    message_queue-Leads s _ (λ st r h l. record { owed = λ c q e. deleted_lem f c s q st g h e })

-- The message that is taken from a queue is on its way until it is sent.
pub taken_lem :
    (c s : ℕ) (m : String) (q r : List String) (st : Server)
    → Echoes st
    → lookup s st.message_queues ≡ some (m ∷ r)
    → lookup c (put s r st.message_queues) ≡ some q
    → messages_in c st.trace ≡ messages_out c st.trace ++ leaving s m c q
taken_lem c s m q r st h l e = elim (Bool-cases (c == s)) [
  | inl d ↦
      let k = h.owed c (m ∷ r) (ap (λ j. lookup j st.message_queues) (eq_of_test c s d) ∙ l) in
      let p = lookup-put c s r st.message_queues in ground arith
  | inr d ↦
      let k = h.owed c q (sym (lookup-put_other c s r st.message_queues d) ∙ e) in ground arith
]

pub sent-Echoes :
    (s : ℕ) (m : String) (taken : ℕ) → Leads (Owes (leaving s m)) Echoes (log (sent s m taken))
unfolding log messages_in messages_out
sent-Echoes s m taken =
    Leads-update _ (λ st h. record { owed = λ c q e. sent_lem c q st (h.owed c q e) })
  where
    sent_lem :
        (c : ℕ) (q : List String) (st : Server)
        → messages_in c st.trace ≡ messages_out c st.trace ++ leaving s m c q
        → messages_in c st.trace ≡ messages_out c (sent s m taken ∷ st.trace) ++ q
    sent_lem c q st e = elim (Bool-cases (c == s)) [
      | inl d ↦ let a = append_assoc (messages_out c st.trace) (m ∷ []) q in ground arith
      | inr d ↦ ground arith
    ]

pub send-Echoes : (w : World) (s : ℕ) (m : String) → Leads (Owes (leaving s m)) Echoes (send w s m)
unfolding send
send-Echoes w s m =
    Leads-bind {R = Owes (leaving s m)} (gets (λ st. st.clock)) _ (search parts) (λ t.
      Leads-then {R = Owes (leaving s m)} tick _ (search parts) (
        Leads-bind {R = Owes (leaving s m)} (need os_error (w.send t s m)) _ (search parts)
          (λ n. sent-Echoes s m n)))
