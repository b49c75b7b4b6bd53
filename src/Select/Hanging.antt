-- ===== src/Select/Hanging.antt =====
-- How the poll server lets a connection go.
use pymotw.Prelude.{
  ℕ, ◌≡◌, refl, ap, Bool, true, false, Option, some, none, List, ◌==◌, lookup, remove,
  lookup-remove, lookup-remove_same, is_some, arith, Bool-cases, inl, inr, eq_of_test, ◌||◌,
}
use pymotw.Select.Poll.{
  Poller, PollHandler, unregister, close, message_queue, delete_queue, hang_up, close_connection,
}
use pymotw.Select.Sound.{Sound, Sound-bind, Sound-then, Sound-after, Sound-update, Sound-key}
use pymotw.Select.Agree.{Agree}

-- The descriptor that is handled is registered as those that wait.
abbrev pub with_fd : ℕ → (ℕ → Bool) → ℕ → Bool
with_fd s waits c = c == s || waits c

-- s is no more registered, and the others are as they were.
pub record Gone (server : ℕ) (waits : ℕ → Bool) (s : ℕ) (st : Poller) : Type 0 where
  pub agree : Agree server waits st
  pub absent : lookup s st.registered ≡ none
  pub queue : (s == server) ≡ false → is_some (lookup s st.message_queues) ≡ true

pub registered_now : (waits : ℕ → Bool) (s : ℕ) → with_fd s waits s ≡ true
registered_now waits s = ground arith

pub still : (waits : ℕ → Bool) (s c : ℕ) → waits c ≡ true → with_fd s waits c ≡ true
still waits s c h = ground arith

pub apart : (waits : ℕ → Bool) (s c : ℕ) → waits s ≡ false → waits c ≡ true → (c == s) ≡ false
apart waits s c f h = elim (Bool-cases (c == s)) [
  | inl e ↦ let d = ap waits (eq_of_test c s e) in cc
  | inr e ↦ e
]

pub present : {A : Type 0} (o : Option A) → is_some o ≡ true → (a : A) × (o ≡ some a)
present none h = cc
present (some a) h = (a, refl)

pub removed :
    {A : Type 0} (c s : ℕ) (d : List (ℕ × A))
    → is_some (lookup c (remove s d)) ≡ true
    → is_some (lookup c d) ≡ true
removed c s d h = let e = lookup-remove c s d in ground arith

pub kept :
    {A : Type 0} (c s : ℕ) (d : List (ℕ × A))
    → (c == s) ≡ false
    → is_some (lookup c d) ≡ true
    → is_some (lookup c (remove s d)) ≡ true
kept c s d n h = let e = lookup-remove c s d in ground arith

pub not_removed :
    {A : Type 0} (c s : ℕ) (d : List (ℕ × A))
    → is_some (lookup c d) ≡ true
    → lookup s d ≡ none
    → (c == s) ≡ false
not_removed c s d h e = elim (Bool-cases (c == s)) [
  | inl p ↦ let q = ap (λ j. is_some (lookup j d)) (eq_of_test c s p) in cc
  | inr p ↦ p
]

module _ {server : ℕ} {waits : ℕ → Bool} (s : ℕ) where
  pub leave : (st : Poller) → Agree server (with_fd s waits) st → Agree server waits st
  leave st h = record {
    own = h.own;
    known = h.known;
    queued = h.queued;
    pending = λ c r. h.pending c (still waits s c r);
  }

  pub Sound-leave :
      {P : Poller → Type 0} (m : PollHandler (Unit {0}))
      → Sound P (λ a. Agree server (with_fd s waits)) m
      → Sound P (λ a. Agree server waits) m
  Sound-leave m h = Sound-after _ (λ a. Agree server waits) m (λ a. leave) h

  pub unregister_lem :
      (st : Poller)
      → waits s ≡ false
      → Agree server (with_fd s waits) st
      → Gone server waits s (record st { registered = remove s st.registered })
  unregister_lem st f h = record {
    agree = record {
      own = h.own;
      known = λ c r. h.known c (removed c s st.registered r);
      queued = λ c r n. h.queued c (removed c s st.registered r) n;
      pending =
          λ c r. kept c s st.registered (apart waits s c f r) (h.pending c (still waits s c r));
    };
    absent = lookup-remove_same s st.registered;
    queue = λ n. h.queued s (h.pending s (registered_now waits s)) n;
  }

  pub Sound-hang_up :
      waits s ≡ false
      → Sound (Agree server (with_fd s waits)) (λ a. Gone server waits s) (hang_up s)
  unfolding hang_up unregister close
  Sound-hang_up f =
      Sound-then (Gone server waits s) _ _
        (Sound-bind _ _ _
          (Sound-key (λ st. lookup s st.registered)
            (λ st h. present (lookup s st.registered) (h.pending s (registered_now waits s))))
          (λ a. Sound-update (Gone server waits s) _ (λ st h. unregister_lem st f h.0)))
        (Sound-update (Gone server waits s) _ (λ st h. record {
          agree = record {
            own = h.agree.own;
            known = h.agree.known;
            queued = h.agree.queued;
            pending = h.agree.pending;
          };
          absent = h.absent;
          queue = h.queue;
        }))

  pub Sound-delete_queue :
      (s == server) ≡ false → Sound (Gone server waits s) (λ a. Agree server waits) (delete_queue s)
  unfolding delete_queue message_queue
  Sound-delete_queue n =
      Sound-bind _ _ _
        (Sound-key (λ st. lookup s st.message_queues)
          (λ st h. present (lookup s st.message_queues) (h.queue n)))
        (λ a. Sound-update (Agree server waits) _ (λ st h. record {
          own = h.0.agree.own;
          known = h.0.agree.known;
          queued = λ c r m.
              kept c s st.message_queues (not_removed c s st.registered r h.0.absent)
                (h.0.agree.queued c r m);
          pending = h.0.agree.pending;
        }))

  pub Sound-close_connection :
      waits s ≡ false
      → (s == server) ≡ false
      → Sound (Agree server (with_fd s waits)) (λ a. Agree server waits) (close_connection s)
  unfolding close_connection
  Sound-close_connection f n = Sound-then _ _ _ (Sound-hang_up f) (Sound-delete_queue n)
