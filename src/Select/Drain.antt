-- ===== src/Select/Drain.antt =====
-- What the echo server does with messages that wait, and with a client that leaves.
use pymotw.Prelude.{
  ℕ, zero, suc, ◌+◌, ◌≡◌, refl, sym, ap, if◌then◌else◌, ◌∙◌, String, true, false, some, List, [],
  ◌∷◌, ◌++◌, ◌==◌, lookup, put, text_length, keep, lookup-put_same, arith, Bool-cases, inl, inr,
  length,
}
use mathlib.Core.List.{append_assoc, append-nil}
use mathlib.Core.Path.{subst}
use pymotw.Prelude.Program.{Result, ok, pure, need, each}
use pymotw.Select.Server.{
  World, Server, Ready, Handler, Error, Call, accepted, received, sent, tick, log, check, member,
  remove_first, discard,
}
use pymotw.Select.Echo.{
  getpeername, message_queue, set_queue, remove_output, send, send_next, handle_writable, select,
  handle_ready, turn, serve, has_any,
}
use pymotw.Select.Owes.{messages_out}

member_below :
    (x y : ℕ) (l : List ℕ) → (x == y) ≡ false → member x (y ∷ l) ≡ true → member x l ≡ true
unfolding member
member_below x y l e h = ground arith

pub remove_first-discard :
    (x : ℕ) (l : List ℕ) → member x l ≡ true → remove_first x l ≡ some (discard x l)
unfolding member remove_first discard
remove_first-discard x [] h = cc
remove_first-discard x (y ∷ ys) h = elim (Bool-cases (x == y)) [
  | inl e ↦ ground arith
  | inr e ↦ let ih = remove_first-discard x ys (member_below x y ys e h) in ground arith
]

-- Only s is ready, and only to be written to.
abbrev pub only_writable : ℕ → Ready
only_writable s = record { readable = []; writable = s ∷ []; exceptional = [] }

-- One turn where only s can be written to, and has a message.
abbrev sent_one : ℕ → String → List String → Server → Server
sent_one s m r st = record st {
  message_queues = put s r st.message_queues;
  trace = sent s m (text_length m) ∷ st.trace;
  clock = ((st.clock + 1) + 1) + 1;
}

module _ (w : World) (s : ℕ) where
  send_one :
      (m : String) (r : List String) (st : Server)
      → w.select st.clock st.inputs st.outputs ≡ some (only_writable s)
      → w.getpeername (st.clock + 1) s ≡ true
      → w.send ((st.clock + 1) + 1) s m ≡ some (text_length m)
      → lookup s st.message_queues ≡ some (m ∷ r)
      → turn w st ≡ (ok tt, sent_one s m r st)
  unfolding turn select handle_ready each handle_writable message_queue send_next set_queue
      getpeername send need check tick log
  send_one m r st a b c d = ground arith

  -- One turn where s can be written to and has no message.
  finish_one :
      (rest : List ℕ) (st : Server)
      → w.select st.clock st.inputs st.outputs ≡ some (only_writable s)
      → w.getpeername (st.clock + 1) s ≡ true
      → lookup s st.message_queues ≡ some []
      → remove_first s st.outputs ≡ some rest
      → turn w st ≡ (ok tt, record st { outputs = rest; clock = (st.clock + 1) + 1 })
  unfolding turn select handle_ready each handle_writable message_queue send_next remove_output
      getpeername check tick
  finish_one rest st a b d e = ground arith

-- From some time on the connection s works, and is ready to be written to as long as it is asked for.
abbrev pub Writable : World → ℕ → Type 0
Writable w s =
    ((t : ℕ) (inputs outputs : List ℕ)
      → member s outputs ≡ true
      → w.select t inputs outputs ≡ some (only_writable s))
    × ((t : ℕ) → w.getpeername t s ≡ true)
    × ((t : ℕ) (m : String) → w.send t s m ≡ some (text_length m))

-- What the sockets took of the messages for a connection, in order, since it was accepted.
unfoldable pub taken_out : ℕ → List Call → List String
taken_out c [] = []
taken_out c (accepted j ∷ t) = let rest = taken_out c t in if c == j then [] else rest
taken_out c (received j m ∷ t) = taken_out c t
taken_out c (sent j m taken ∷ t) =
    let rest = taken_out c t in if c == j then rest ++ (keep taken m ∷ []) else rest

keep-text_length : (m : String) → keep (text_length m) m ≡ m
unfolding keep text_length
keep-text_length String.[] = refl
keep-text_length (String.◌∷◌ c m) = ap (λ t. String.◌∷◌ c t) (keep-text_length m)

-- All messages of s have been sent and taken, in order, and nobody waits for it any more.
pub record Drained (s : ℕ) (q : List String) (st : Server) (r : Result Error (Unit {0}) × Server)
    : Type 0 where
  pub returned : r.0 ≡ ok tt
  pub all_sent : messages_out s r.1.trace ≡ messages_out s st.trace ++ q
  pub all_taken : taken_out s r.1.trace ≡ taken_out s st.trace ++ q
  pub emptied : lookup s r.1.message_queues ≡ some []
  pub left_out : r.1.outputs ≡ discard s st.outputs

module _ (w : World) (s : ℕ) where
  serve-suc :
      (one : Handler (Unit {0})) (n : ℕ) (st t : Server)
      → has_any st.inputs ≡ true
      → one st ≡ (ok tt, t)
      → serve one (suc n) st ≡ serve one n t
  unfolding serve
  serve-suc one n st t h e = ground arith

  serve-zero : (one : Handler (Unit {0})) (st : Server) → serve one zero st ≡ (ok tt, st)
  unfolding serve pure
  serve-zero one st = refl

  sent_first :
      (m : String) (r l : List String) (st : Server)
      → l ≡ messages_out s (sent s m (text_length m) ∷ st.trace) ++ r
      → l ≡ messages_out s st.trace ++ (m ∷ r)
  unfolding messages_out
  sent_first m r l st e = let a = append_assoc (messages_out s st.trace) (m ∷ []) r in ground arith

  taken_first :
      (m : String) (r l : List String) (st : Server)
      → l ≡ taken_out s (sent s m (text_length m) ∷ st.trace) ++ r
      → l ≡ taken_out s st.trace ++ (m ∷ r)
  unfolding taken_out
  taken_first m r l st e =
      let a = append_assoc (taken_out s st.trace) (m ∷ []) r in
      let k = keep-text_length m in ground arith

  -- If s is on the outputs and has a queue, there is an input, s alone is ready, and only to be written
  -- to, as long as the server asks for it, and the calls for s succeed and take each message whole, then
  -- one turn for each message of its queue and one more return: all of the queue is sent and taken, in
  -- order and behind what was sent before, the queue is empty, and s is off the outputs.
  pub drain :
      (q : List String) (st : Server)
      → Writable w s
      → has_any st.inputs ≡ true
      → member s st.outputs ≡ true
      → lookup s st.message_queues ≡ some q
      → Drained s q st (serve (turn w) (suc (length q)) st)
  drain [] st h i o l =
      let e =
        finish_one w s (discard s st.outputs) st (h.0 _ _ _ o) (h.1 _) l
          (remove_first-discard s _ o) in
      subst (λ r. Drained s [] st r) (sym (serve-suc (turn w) 0 st _ i e ∙ serve-zero (turn w) _))
        (record {
          returned = refl;
          all_sent = sym (append-nil _);
          all_taken = sym (append-nil _);
          emptied = l;
          left_out = refl;
        })
  drain (m ∷ r) st h i o l =
      let e = send_one w s m r st (h.0 _ _ _ o) (h.1 _) (h.2 _ m) l in
      let ih = drain r (sent_one s m r st) h i o (lookup-put_same s r st.message_queues) in
      subst (λ r'. Drained s (m ∷ r) st r') (sym (serve-suc (turn w) (suc (length r)) st _ i e))
        (record {
          returned = ih.returned;
          all_sent = sent_first m r _ st ih.all_sent;
          all_taken = taken_first m r _ st ih.all_taken;
          emptied = ih.emptied;
          left_out = ih.left_out;
        })
