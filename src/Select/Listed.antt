-- ===== src/Select/Listed.antt =====
-- The outputs of the echo server of source/select/select_echo_server.py and its queues.
use pymotw.Prelude.{
  ℕ, ◌≡◌, refl, sym, ap, ◌∙◌, String, Bool, true, false, Option, some, none, List, [], ◌∷◌, ◌++◌,
  if◌then◌else◌, ◌==◌, lookup, put, remove, lookup-put, lookup-remove_other, eq_of_test, arith,
  Bool-cases, inl, inr, is_some,
}
use pymotw.Prelude.Program.{
  After, Leads, Keeps, Leads-update, keeping, gets, update, need, ◌>>=◌, continue,
}
use pymotw.Select.Server.{
  World, Server, Call, Error, value_error, tick, log, check, member, remove_first, discard,
}
use pymotw.Select.Echo.{
  send, getpeername, add_connection, set_queue, put_message, add_output, remove_input,
  remove_output, discard_output, delete_queue,
}
use mathlib.Core.Path.{subst}
use pymotw.Select.Queues.{message_queue-Leads}
use pymotw.Select.Once.{
  Once, member-discard, same_member, not_member-discard, Once-discard, member-append, Once-append,
  remove_first-is_discard,
}

-- Every socket on the outputs has a queue, and none stands there twice.
pub record Listed (st : Server) : Type 0 where
  pub queued : (c : ℕ) → member c st.outputs ≡ true → is_some (lookup c st.message_queues) ≡ true
  pub once : Once st.outputs

-- s is off the outputs.
pub record Off (s : ℕ) (st : Server) : Type 0 where
  pub listed : Listed st
  pub absent : member s st.outputs ≡ false

pub put_present :
    (c k : ℕ) (a : List String) (d : List (ℕ × List String))
    → is_some (lookup c d) ≡ true
    → is_some (lookup c (put k a d)) ≡ true
put_present c k a d h = let e = lookup-put c k a d in ground arith

pub Listed-discard :
    (s : ℕ) (st : Server) → Listed st → Listed (record st { outputs = discard s st.outputs })
Listed-discard s st h = record {
  queued = λ c m. h.queued c (member-discard c s st.outputs m);
  once = Once-discard s st.outputs h.once;
}

pub Listed-tick : Keeps Listed tick
unfolding tick
Listed-tick = Leads-update _ (λ s h. record { queued = h.queued; once = h.once })

pub Listed-log : (c : Call) → Keeps Listed (log c)
unfolding log
Listed-log c = Leads-update _ (λ s h. record { queued = h.queued; once = h.once })

pub Listed-check : (b : Bool) → Keeps Listed (check b)
unfolding check
Listed-check b = search keeping

pub Listed-set_queue : (s : ℕ) (ms : List String) → Keeps Listed (set_queue s ms)
unfolding set_queue
Listed-set_queue s ms = Leads-update _ (λ st h. record {
  queued = λ c m. put_present c s ms st.message_queues (h.queued c m);
  once = h.once;
})

pub Listed-add_connection : (c : ℕ) → Keeps Listed (add_connection c)
unfolding add_connection
Listed-add_connection c = Leads-update _ (λ st h. record {
  queued = λ k m. put_present k c [] st.message_queues (h.queued k m);
  once = h.once;
})

pub Listed-getpeername : (w : World) (s : ℕ) → Keeps Listed (getpeername w s)
unfolding getpeername
Listed-getpeername w s = search (keeping, Listed-tick, Listed-check)

pub Listed-send : (w : World) (s : ℕ) (m : String) → Keeps Listed (send w s m)
unfolding send
Listed-send w s m = search (keeping, Listed-tick, Listed-check, Listed-log) depth 20

-- s has a queue.
pub record Queued (s : ℕ) (st : Server) : Type 0 where
  pub listed : Listed st
  pub has_queue : is_some (lookup s st.message_queues) ≡ true

pub put_message-Queued : (s : ℕ) (m : String) → Leads Listed (Queued s) (put_message s m)
unfolding put_message set_queue update
put_message-Queued s m = message_queue-Leads s _ (λ st r h l. record {
  listed = record {
    queued = λ c k. put_present c s _ st.message_queues (h.queued c k);
    once = h.once;
  };
  has_queue = put_present s s _ st.message_queues (ap is_some l);
})

pub add_output-Listed : (s : ℕ) → Leads (Queued s) Listed (add_output s)
unfolding add_output
add_output-Listed s =
    Leads-update _ (λ st h. record { queued = λ c m. queued_lem c st h m; once = once_lem st h })
  where
    once_lem :
        (st : Server)
        → Queued s st
        → Once (if member s st.outputs then st.outputs else st.outputs ++ (s ∷ []))
    once_lem st h = elim (Bool-cases (member s st.outputs)) [
      | inl e ↦ rw e h.listed.once
      | inr e ↦ rw e (Once-append s st.outputs e h.listed.once)
    ]

    queued_lem :
        (c : ℕ) (st : Server)
        → Queued s st
        → member c (if member s st.outputs then st.outputs else st.outputs ++ (s ∷ [])) ≡ true
        → is_some (lookup c st.message_queues) ≡ true
    queued_lem c st h m =
        let a = member-append c s st.outputs in
        elim (Bool-cases (member c st.outputs)) [
          | inl e ↦ h.listed.queued c e
          | inr e ↦
              ap (λ j. is_some (lookup j st.message_queues)) (eq_of_test c s (own_lem c st e m a))
              ∙ h.has_queue
        ]
      where
        own_lem :
            (c : ℕ) (st : Server)
            → member c st.outputs ≡ false
            → member c (if member s st.outputs then st.outputs else st.outputs ++ (s ∷ [])) ≡ true
            → member c (st.outputs ++ (s ∷ [])) ≡ (if member c st.outputs then true else c == s)
            → (c == s) ≡ true
        own_lem c st e m a = ground arith

pub remove_output-Listed : (s : ℕ) → Keeps Listed (remove_output s)
unfolding remove_output gets need update ◌>>=◌ continue
remove_output-Listed s = record { at = λ st h. removed_lem st h (remove_first s st.outputs) refl }
  where
    removed_lem :
        (st : Server)
        → Listed st
        → (o : Option (List ℕ)) → remove_first s st.outputs ≡ o
        → After Listed
            ((need value_error o >>= λ outputs. update (λ st. record st { outputs = outputs })) st)
    removed_lem st h none e = tt
    removed_lem st h (some r) e =
        subst (λ l. Listed (record st { outputs = l }))
          (sym (remove_first-is_discard s st.outputs r e)) (Listed-discard s st h)

pub discard_output-Off : (s : ℕ) → Leads Listed (Off s) (discard_output s)
unfolding discard_output
discard_output-Off s = Leads-update _ (λ st h. record {
  listed = Listed-discard s st h;
  absent = not_member-discard s st.outputs h.once;
})

pub delete_queue-Listed : (s : ℕ) → Leads (Off s) Listed (delete_queue s)
unfolding delete_queue update
delete_queue-Listed s =
    message_queue-Leads s _
      (λ st r h l. record { queued = λ c m. left_lem c st h m; once = h.listed.once })
  where
    left_lem :
        (c : ℕ) (st : Server)
        → Off s st
        → member c st.outputs ≡ true
        → is_some (lookup c (remove s st.message_queues)) ≡ true
    left_lem c st h m = elim (Bool-cases (c == s)) [
      | inl e ↦ let p = same_member c s st.outputs (eq_of_test c s e) in let q = h.absent in cc
      | inr e ↦ ap is_some (lookup-remove_other c s st.message_queues e) ∙ h.listed.queued c m
    ]

module _ {s : ℕ} where
  pub Off-inputs :
      (l : List ℕ) → Keeps {E = Error} (Off s) (update (λ st. record st { inputs = l }))
  Off-inputs l = Leads-update _ (λ st h. record {
    listed = record { queued = h.listed.queued; once = h.listed.once };
    absent = h.absent;
  })

  pub Off-remove_input : Keeps (Off s) (remove_input s)
  unfolding remove_input
  Off-remove_input = search (keeping, Off-inputs)

pub Listed-inputs :
    (l : List ℕ) → Keeps {E = Error} Listed (update (λ st. record st { inputs = l }))
Listed-inputs l = Leads-update _ (λ st h. record { queued = h.queued; once = h.once })

pub Listed-remove_input : (s : ℕ) → Keeps Listed (remove_input s)
unfolding remove_input
Listed-remove_input s = search (keeping, Listed-inputs)
