-- ===== src/Select/PollSafe.antt =====
-- The steps of the poll server of source/select/select_poll_echo_server.py, which raise no KeyError.
use pymotw.Prelude.{
  ℕ, ◌≡◌, sym, ap, ◌∙◌, String, Bool, true, false, some, List, [], ◌∷◌, ◌==◌, lookup, put,
  lookup-put, lookup-put_other, nonempty, is_some, arith, Bool-cases, inl, inr, eq_of_test,
}
use pymotw.Prelude.Program.{update, continue, ◌>>=◌, ◌>>◌}
use pymotw.Select.Server.{accepted, received}
use pymotw.Select.Poll.{
  read_only, read_write, PollWorld, Poller, register, message_queue, set_queue, add_connection,
  accept_connection, queue_message, read_from, send, send_next, exception_on,
}
use pymotw.Select.Sound.{
  Sound, Steady, Sound-bind, Sound-then, Sound-if, Sound-after, Steady-need, Sound-key,
}
use pymotw.Select.Agree.{
  Agree, put_present, Steady-now, Steady-log, Steady-getpeername, Steady-set_queue, Steady-modify,
}
use pymotw.Select.Hanging.{with_fd, registered_now, present, Sound-leave, Sound-close_connection}

module _ {server : ℕ} {waits : ℕ → Bool} where
  -- The new connection is known, registered and has a queue.
  Steady-add_connection : (c : ℕ) → Steady (Agree server waits) (add_connection c)
  unfolding add_connection update register set_queue ◌>>◌ ◌>>=◌ continue
  Steady-add_connection c = record {
    at = λ st h. record {
      own = λ fd s e. own_lem fd s st h e;
      known = λ k r. known_lem k st h r;
      queued = λ k r n. queued_lem k st h r n;
      pending = λ k r. put_present k c read_only st.registered (h.pending k r);
    };
  }
    where
      own_lem :
          (fd s : ℕ) (st : Poller)
          → Agree server waits st
          → lookup fd (put c c st.fd_to_socket) ≡ some s
          → s ≡ fd
      own_lem fd s st h e =
          let p = lookup-put fd c c st.fd_to_socket in
          elim (Bool-cases (fd == c)) [
            | inl d ↦ let q = eq_of_test fd c d in ground arith
            | inr d ↦ h.own fd s (sym (lookup-put_other fd c c st.fd_to_socket d) ∙ e)
          ]

      known_lem :
          (k : ℕ) (st : Poller)
          → Agree server waits st
          → is_some (lookup k (put c read_only st.registered)) ≡ true
          → is_some (lookup k (put c c st.fd_to_socket)) ≡ true
      known_lem k st h r =
          let p = lookup-put k c c st.fd_to_socket in
          let q = lookup-put k c read_only st.registered in
          elim (Bool-cases (k == c)) [
            | inl d ↦ ground arith
            | inr d ↦
                let g =
                  h.known k
                    (ap is_some (sym (lookup-put_other k c read_only st.registered d)) ∙ r) in
                ground arith
          ]

      queued_lem :
          (k : ℕ) (st : Poller)
          → Agree server waits st
          → is_some (lookup k (put c read_only st.registered)) ≡ true
          → (k == server) ≡ false
          → is_some (lookup k (put c [] st.message_queues)) ≡ true
      queued_lem k st h r n =
          let p = lookup-put k c [] st.message_queues in
          elim (Bool-cases (k == c)) [
            | inl d ↦ ground arith
            | inr d ↦
                let g =
                  h.queued k (ap is_some (sym (lookup-put_other k c read_only st.registered d)) ∙ r)
                    n in
                ground arith
          ]

  pub Steady-accept_connection : (w : PollWorld) → Steady (Agree server waits) (accept_connection w)
  unfolding accept_connection
  Steady-accept_connection w = Sound-bind _ _ _ Steady-now (λ t.
      Sound-bind _ _ _ (Steady-need (w.accept t))
        (λ c. Sound-then _ _ _ (Steady-log (accepted c)) (Steady-add_connection c)))

module _ {server : ℕ} (waits : ℕ → Bool) (w : PollWorld) (s : ℕ) (n : (s == server) ≡ false) where
  Sound-message_queue :
      Sound (Agree server (with_fd s waits)) (λ a. Agree server (with_fd s waits)) (message_queue s)
  unfolding message_queue
  Sound-message_queue =
      Sound-after _ (λ a. Agree server (with_fd s waits)) _ (λ a st h. h.0)
        (Sound-key (λ st. lookup s st.message_queues)
          (λ st h.
            present (lookup s st.message_queues)
              (h.queued s (h.pending s (registered_now waits s)) n)))

  Sound-queue_message : (m : String) → Steady (Agree server (with_fd s waits)) (queue_message w s m)
  unfolding queue_message
  Sound-queue_message m = Sound-then _ _ _ (Steady-getpeername w s) (
      Sound-bind _ _ _ Sound-message_queue
        (λ ms. Sound-then _ _ _ (Steady-set_queue s _) (Steady-modify s read_write)))

  Sound-send_next : (ms : List String) → Steady (Agree server (with_fd s waits)) (send_next w s ms)
  unfolding send_next send
  Sound-send_next [] = Sound-then _ _ _ (Steady-getpeername w s) (Steady-modify s read_only)
  Sound-send_next (m ∷ ms) = Sound-then _ _ _ (Steady-set_queue s ms) (
      Sound-then _ _ _ (Steady-getpeername w s) (
        Sound-bind _ _ _ Steady-now
          (λ t. Sound-bind _ _ _ (Steady-need (w.send t s m)) (λ n. Steady-log _))))

  module _ (f : waits s ≡ false) where
    pub Sound-read_from :
        Sound (Agree server (with_fd s waits)) (λ a. Agree server waits) (read_from w s)
    unfolding read_from
    Sound-read_from = Sound-bind _ _ _ Steady-now (λ t.
        Sound-bind _ _ _ (Steady-need (w.recv t s)) (λ m.
          Sound-then _ _ _ (Steady-log (received s m)) (
            Sound-if (nonempty m) (λ e. Sound-leave s _ (Sound-queue_message m))
              (λ e. Sound-close_connection s f n))))

    pub Sound-exception_on :
        Sound (Agree server (with_fd s waits)) (λ a. Agree server waits) (exception_on w s)
    unfolding exception_on
    Sound-exception_on = Sound-then _ _ _ (Steady-getpeername w s) (Sound-close_connection s f n)

    pub Sound-write_to :
        Sound
          (Agree server (with_fd s waits))
          (λ a. Agree server waits)
          (message_queue s >>= send_next w s)
    Sound-write_to = Sound-leave s _ (Sound-bind _ _ _ Sound-message_queue Sound-send_next)
