-- ===== src/Select/PollLoop.antt =====
-- The loop of the poll server of source/select/select_poll_echo_server.py.
use pymotw.Prelude.{
  ℕ, zero, suc, ◌≡◌, refl, sym, ap, ◌∙◌, Bool, true, false, some, List, [], ◌∷◌, ◌==◌, lookup,
  is_some, arith, Bool-cases, inl, inr, ◌||◌,
}
use pymotw.Prelude.Program.{gets, each}
use pymotw.Select.Poll.{
  Flag, PollWorld, Poller, begin, handle_flag, handle_event, poll_once, poll_for,
}
use pymotw.Select.Sound.{
  Fine, Sound, Steady, Sound-bind, Sound-then, Sound-if, Sound-after, Steady-pure, Sound-key,
}
use pymotw.Select.Agree.{Agree, Steady-now}
use pymotw.Select.Hanging.{with_fd, registered_now, present, Sound-leave, Sound-hang_up}
use mathlib.Core.Path.{subst}
use pymotw.Select.PollSafe.{
  Steady-accept_connection, Sound-read_from, Sound-exception_on, Sound-write_to,
}

-- The descriptors of the events that are still to be handled.
unfoldable pub in_events : List (ℕ × Flag) → ℕ → Bool
in_events [] c = false
in_events ((fd, flag) ∷ events) c = c == fd || in_events events c

-- What poll() documents: a descriptor has one event at most, and a listening socket is only readable.
abbrev pub Reported : ℕ → List (ℕ × Flag) → Type 0
Reported server [] = Unit
Reported server ((fd, flag) ∷ events) =
    (in_events events fd ≡ false)
    × ((fd == server) ≡ true → (flag.pollin || flag.pollpri) ≡ true)
    × Reported server events

pub record Documented (w : PollWorld) : Type 0 where
  pub reported : (t : ℕ) (registered : List (ℕ × Flag)) → Reported w.server (w.poll t registered)
  pub asked_for :
      (t : ℕ) (registered : List (ℕ × Flag)) (c : ℕ)
      → in_events (w.poll t registered) c ≡ true
      → is_some (lookup c registered) ≡ true

module _ (waits : ℕ → Bool) (w : PollWorld) (s : ℕ) (f : waits s ≡ false) where
  Sound-handle_flag :
      (flag : Flag)
      → ((s == w.server) ≡ true → (flag.pollin || flag.pollpri) ≡ true)
      → Sound (Agree w.server (with_fd s waits)) (λ a. Agree w.server waits) (handle_flag w s flag)
  unfolding handle_flag
  Sound-handle_flag flag g =
      Sound-if (flag.pollin || flag.pollpri)
        (λ e.
          Sound-if (s == w.server) (λ d. Sound-leave s _ (Steady-accept_connection w))
            (λ d. Sound-read_from waits w s d f))
        (λ e.
          Sound-if flag.pollhup
            (λ h.
              Sound-after _ (λ a. Agree w.server waits) _ (λ a st k. k.agree) (Sound-hang_up s f))
            (λ h.
              Sound-if flag.pollout (λ o. Sound-write_to waits w s (not_server e) f)
                (λ o.
                  Sound-if flag.pollerr (λ r. Sound-exception_on waits w s (not_server e) f)
                    (λ r. Sound-leave s _ (Steady-pure tt)))))
    where
      not_server : (flag.pollin || flag.pollpri) ≡ false → (s == w.server) ≡ false
      not_server e = elim (Bool-cases (s == w.server)) [ inl d ↦ let k = g d in cc | inr d ↦ d ]

module _ (w : PollWorld) where
  known_fd :
      (fd : ℕ) (waits : ℕ → Bool) (st : Poller)
      → Agree w.server (with_fd fd waits) st
      → (s : ℕ) × (lookup fd st.fd_to_socket ≡ some s)
  known_fd fd waits st h =
      present (lookup fd st.fd_to_socket) (h.known fd (h.pending fd (registered_now waits fd)))

  Sound-handle_event :
      (waits : ℕ → Bool) (fd : ℕ) (flag : Flag)
      → waits fd ≡ false
      → ((fd == w.server) ≡ true → (flag.pollin || flag.pollpri) ≡ true)
      → Sound
          (Agree w.server (with_fd fd waits))
          (λ a. Agree w.server waits)
          (handle_event w (fd, flag))
  unfolding handle_event
  Sound-handle_event waits fd flag f g =
      Sound-bind _ _ _ (Sound-key (λ st. lookup fd st.fd_to_socket) (known_fd fd waits)) (λ s.
        record {
          at = λ st h.
              subst (λ k. Fine (λ a. Agree w.server waits) (handle_flag w k flag st))
                (sym (h.0.own fd s h.1)) ((Sound-handle_flag waits w fd f flag g).at st h.0);
        })

  Sound-events :
      (events : List (ℕ × Flag))
      → Reported w.server events
      → Sound
          (Agree w.server (in_events events))
          (λ a. Agree w.server (in_events []))
          (each (handle_event w) events)
  unfolding each in_events
  Sound-events [] r = Steady-pure tt
  Sound-events ((fd, flag) ∷ events) r =
      Sound-then _ _ _ (Sound-handle_event (in_events events) fd flag r.0 r.1)
        (Sound-events events r.2)

  asked :
      (d : Documented w) (t : ℕ) (registered : List (ℕ × Flag)) (st : Poller)
      → Agree w.server (in_events []) st
      → st.registered ≡ registered
      → Agree w.server (in_events (w.poll t registered)) st
  asked d t registered st h e = record {
    own = h.own;
    known = h.known;
    queued = h.queued;
    pending = λ c i. ap (λ l. is_some (lookup c l)) e ∙ d.asked_for t registered c i;
  }

  Sound-registered :
      Sound
        (Agree w.server (in_events []))
        (λ l st. Agree w.server (in_events []) st × (st.registered ≡ l))
        (gets (λ st. st.registered))
  unfolding gets
  Sound-registered = record { at = λ st h. (h, refl) }

  Sound-poll_once : Documented w → Steady (Agree w.server (in_events [])) (poll_once w)
  unfolding poll_once
  Sound-poll_once d = Sound-bind _ _ _ Steady-now (λ t. Sound-bind _ _ _ Sound-registered (λ l.
      record {
        at = λ st h. (Sound-events (w.poll t l) (d.reported t l)).at st (asked d t l st h.0 h.1);
      }))

  Sound-poll_for :
      Documented w → (turns : ℕ) → Steady (Agree w.server (in_events [])) (poll_for w turns)
  unfolding poll_for
  Sound-poll_for d zero = Steady-pure tt
  Sound-poll_for d (suc turns) = Sound-then _ _ _ (Sound-poll_once d) (Sound-poll_for d turns)

  Agree-begin : Agree w.server (in_events []) (begin w)
  unfolding begin in_events lookup
  Agree-begin = record {
    own = λ fd s e. ground arith;
    known = λ c r. ground arith;
    queued = λ c r n. ground arith;
    pending = λ c r. cc;
  }

-- If poll() reports registered descriptors only, each once at most, and the listening socket as
-- readable only, then the poll server raises no KeyError in any number of turns from its start. Where
-- they return, every descriptor stands for its own socket, every registered one is known, and every
-- registered one but the server's has a queue.
pub poll_for-Fine :
    (w : PollWorld)
    → Documented w
    → (turns : ℕ) → Fine (λ a. Agree w.server (in_events [])) (poll_for w turns (begin w))
poll_for-Fine w d turns = (Sound-poll_for w d turns).at (begin w) (Agree-begin w)
