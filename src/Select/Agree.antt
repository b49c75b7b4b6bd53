-- ===== src/Select/Agree.antt =====
-- What the tables of the poll server of source/select/select_poll_echo_server.py have to agree on.
use pymotw.Prelude.{
  ℕ, ◌+◌, ◌≡◌, refl, ap, ◌∙◌, String, Bool, true, false, Option, some, none, List, ◌==◌, lookup,
  put, lookup-put, is_some, arith, Bool-cases, inl, inr, eq_of_test,
}
use pymotw.Prelude.Program.{raise, gets, update, need, continue, ◌>>=◌}
use pymotw.Select.Server.{os_error, Call}
use pymotw.Select.Poll.{
  Flag, PollWorld, Poller, now, log, check, register, modify, close, set_queue, getpeername,
}
use pymotw.Select.Sound.{
  Fine, Steady, Sound-bind, Sound-then, Sound-update, Steady-pure, Steady-gets,
}

-- Every file descriptor stands for its own socket, every registered one is known, and has a queue
-- unless it is the server's. Those that are still to be handled are registered.
pub record Agree (server : ℕ) (waits : ℕ → Bool) (st : Poller) : Type 0 where
  pub own : (fd s : ℕ) → lookup fd st.fd_to_socket ≡ some s → s ≡ fd
  pub known :
      (c : ℕ) → is_some (lookup c st.registered) ≡ true → is_some (lookup c st.fd_to_socket) ≡ true
  pub queued :
      (c : ℕ)
      → is_some (lookup c st.registered) ≡ true
      → (c == server) ≡ false
      → is_some (lookup c st.message_queues) ≡ true
  pub pending : (c : ℕ) → waits c ≡ true → is_some (lookup c st.registered) ≡ true

pub put_present :
    {A : Type 0} (c k : ℕ) (a : A) (d : List (ℕ × A))
    → is_some (lookup c d) ≡ true
    → is_some (lookup c (put k a d)) ≡ true
put_present c k a d h = let e = lookup-put c k a d in ground arith

-- What is there when the put key was there, or another.
pub put_back :
    {A : Type 0} (c k : ℕ) (a : A) (d : List (ℕ × A))
    → is_some (lookup k d) ≡ true
    → is_some (lookup c (put k a d)) ≡ true
    → is_some (lookup c d) ≡ true
put_back c k a d h p = elim (Bool-cases (c == k)) [
  | inl e ↦ ap (λ j. is_some (lookup j d)) (eq_of_test c k e) ∙ h
  | inr e ↦ let q = lookup-put c k a d in ground arith
]

module _ {server : ℕ} {waits : ℕ → Bool} where
  pub Steady-clock : Steady (Agree server waits) (update (λ st. record st { clock = st.clock + 1 }))
  Steady-clock =
      Sound-update (Agree server waits) _
        (λ st h. record { own = h.own; known = h.known; queued = h.queued; pending = h.pending })

  pub Steady-now : Steady (Agree server waits) now
  unfolding now
  Steady-now =
      Sound-bind (λ t. Agree server waits) _ _ (Steady-gets _)
        (λ t. Sound-then (Agree server waits) _ _ Steady-clock (Steady-pure t))

  pub Steady-log : (c : Call) → Steady (Agree server waits) (log c)
  unfolding log
  Steady-log c =
      Sound-update (Agree server waits) _
        (λ st h. record { own = h.own; known = h.known; queued = h.queued; pending = h.pending })

  pub Steady-close : (s : ℕ) → Steady (Agree server waits) (close s)
  unfolding close
  Steady-close s =
      Sound-update (Agree server waits) _
        (λ st h. record { own = h.own; known = h.known; queued = h.queued; pending = h.pending })

  pub Steady-check : (b : Bool) → Steady (Agree server waits) (check b)
  unfolding check raise
  Steady-check true = Steady-pure tt
  Steady-check false = record { at = λ st h. tt }

  pub Steady-getpeername : (w : PollWorld) (s : ℕ) → Steady (Agree server waits) (getpeername w s)
  unfolding getpeername
  Steady-getpeername w s = Sound-bind (λ t. Agree server waits) _ _ Steady-now (λ t. Steady-check _)

  pub Steady-set_queue : (s : ℕ) (ms : List String) → Steady (Agree server waits) (set_queue s ms)
  unfolding set_queue
  Steady-set_queue s ms = Sound-update (Agree server waits) _ (λ st h. record {
    own = h.own;
    known = h.known;
    queued = λ c r n. put_present c s ms st.message_queues (h.queued c r n);
    pending = h.pending;
  })

  pub flags_put :
      (s : ℕ) (f : Flag) (st : Poller)
      → Agree server waits st
      → is_some (lookup s st.registered) ≡ true
      → Agree server waits (record st { registered = put s f st.registered })
  flags_put s f st h g = record {
    own = h.own;
    known = λ c r. h.known c (put_back c s f st.registered g r);
    queued = λ c r n. h.queued c (put_back c s f st.registered g r) n;
    pending = λ c r. put_present c s f st.registered (h.pending c r);
  }

  pub Steady-modify : (s : ℕ) (f : Flag) → Steady (Agree server waits) (modify s f)
  unfolding modify register ◌>>=◌ gets need update continue
  Steady-modify s f = record { at = λ st h. modify_lem st h (lookup s st.registered) refl }
    where
      modify_lem :
          (st : Poller)
          → Agree server waits st
          → (o : Option Flag) → lookup s st.registered ≡ o
          → Fine (λ a. Agree server waits) ((need os_error o >>= λ before. register s f) st)
      modify_lem st h none e = tt
      modify_lem st h (some b) e = flags_put s f st h (ap is_some e)
