-- ===== src/Select/Owes.antt =====
-- What the echo server of source/select/select_echo_server.py owes its clients, by the log of its calls.
use pymotw.Prelude.{
  ℕ, ◌≡◌, refl, String, Bool, some, List, [], ◌∷◌, ◌++◌, if◌then◌else◌, ◌==◌, lookup, Bool-cases,
  inl, inr,
}
use mathlib.Core.List.{append_assoc}
use pymotw.Prelude.Program.{
  Program, After, Leads, Keeps, Keeps-pure, Keeps-gets, Keeps-need, Keeps-bind, Keeps-then,
  Keeps-each, Leads-raise, Leads-update, Leads-if, Leads-bind, Leads-then, keeping, pure, raise,
  gets, update, need, each, ◌>>=◌, ◌>>◌, continue,
}
use pymotw.Select.Server.{World, Server, Call, Error, accepted, received, sent, tick, log, check}
use pymotw.Select.Echo.{
  accept, recv, getpeername, add_output, remove_input, remove_output, discard_output, select,
}

-- What has been received on a connection, and what has been handed to send() for it, in order, since
-- it was accepted.
unfoldable pub messages_in : ℕ → List Call → List String
messages_in c [] = []
messages_in c (accepted j ∷ t) = let rest = messages_in c t in if c == j then [] else rest
messages_in c (received j m ∷ t) =
    let rest = messages_in c t in if c == j then rest ++ (m ∷ []) else rest
messages_in c (sent j m taken ∷ t) = messages_in c t

unfoldable pub messages_out : ℕ → List Call → List String
messages_out c [] = []
messages_out c (accepted j ∷ t) = let rest = messages_out c t in if c == j then [] else rest
messages_out c (received j m ∷ t) = messages_out c t
messages_out c (sent j m taken ∷ t) =
    let rest = messages_out c t in if c == j then rest ++ (m ∷ []) else rest

-- What the queue of a connection holds is what is received and not yet sent, up to a message that has
-- been received or taken from the queue and is on its way.
pub record Owes (f : ℕ → List String → List String) (st : Server) : Type 0 where
  pub owed :
      (c : ℕ) (q : List String)
      → lookup c st.message_queues ≡ some q
      → messages_in c st.trace ≡ messages_out c st.trace ++ f c q

abbrev pub Echoes : Server → Type 0
Echoes = Owes (λ c q. q)

abbrev pub arriving : ℕ → String → ℕ → List String → List String
arriving s m c q = if c == s then q ++ (m ∷ []) else q

abbrev pub leaving : ℕ → String → ℕ → List String → List String
leaving s m c q = if c == s then m ∷ q else q

module _ {f : ℕ → List String → List String} where
  pub Keeps-tick : Keeps (Owes f) tick
  unfolding tick
  Keeps-tick = Leads-update _ (λ s h. record { owed = h.owed })

  pub Keeps-check : (b : Bool) → Keeps (Owes f) (check b)
  unfolding check
  Keeps-check b = search keeping

  pub Keeps-getpeername : (w : World) (s : ℕ) → Keeps (Owes f) (getpeername w s)
  unfolding getpeername
  Keeps-getpeername w s = search (keeping, Keeps-tick, Keeps-check)

  pub Keeps-accept : (w : World) → Keeps (Owes f) (accept w)
  unfolding accept
  Keeps-accept w = search (keeping, Keeps-tick)

  pub Keeps-recv : (w : World) (s : ℕ) → Keeps (Owes f) (recv w s)
  unfolding recv
  Keeps-recv w s = search (keeping, Keeps-tick)

  pub Keeps-select : (w : World) → Keeps (Owes f) (select w)
  unfolding select
  Keeps-select w = search (keeping, Keeps-tick)

  pub Keeps-add_output : (s : ℕ) → Keeps (Owes f) (add_output s)
  unfolding add_output
  Keeps-add_output s = Leads-update _ (λ s h. record { owed = h.owed })

  pub Keeps-inputs :
      (l : List ℕ) → Keeps {E = Error} (Owes f) (update (λ st. record st { inputs = l }))
  Keeps-inputs l = Leads-update _ (λ s h. record { owed = h.owed })

  pub Keeps-outputs :
      (l : List ℕ) → Keeps {E = Error} (Owes f) (update (λ st. record st { outputs = l }))
  Keeps-outputs l = Leads-update _ (λ s h. record { owed = h.owed })

  pub Keeps-remove_input : (s : ℕ) → Keeps (Owes f) (remove_input s)
  unfolding remove_input
  Keeps-remove_input s = search (keeping, Keeps-inputs)

  pub Keeps-remove_output : (s : ℕ) → Keeps (Owes f) (remove_output s)
  unfolding remove_output
  Keeps-remove_output s = search (keeping, Keeps-outputs)

  pub Keeps-discard_output : (s : ℕ) → Keeps (Owes f) (discard_output s)
  unfolding discard_output
  Keeps-discard_output s = Leads-update _ (λ s h. record { owed = h.owed })

pub ruleset parts = (
  keeping, Keeps-accept, Keeps-recv, Keeps-select, Keeps-tick, Keeps-check, Keeps-getpeername,
  Keeps-add_output, Keeps-remove_input, Keeps-remove_output, Keeps-discard_output,
)

-- What a connection has received is on its way until it is in the queue, or the queue is gone.
pub received-Owes : (s : ℕ) (m : String) → Leads Echoes (Owes (arriving s m)) (log (received s m))
unfolding log messages_in messages_out
received-Owes s m =
    Leads-update _ (λ st h. record { owed = λ c q e. received_lem c q st (h.owed c q e) })
  where
    received_lem :
        (c : ℕ) (q : List String) (st : Server)
        → messages_in c st.trace ≡ messages_out c st.trace ++ q
        → messages_in c (received s m ∷ st.trace) ≡ messages_out c st.trace ++ arriving s m c q
    received_lem c q st e = elim (Bool-cases (c == s)) [
      | inl d ↦ rw d (rw e (rw (append_assoc (messages_out c st.trace) q (m ∷ [])) refl))
      | inr d ↦ rw d e
    ]
