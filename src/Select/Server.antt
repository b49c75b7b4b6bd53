-- ===== src/Select/Server.antt =====
-- What the echo servers of source/select know: the sockets they wait for, the queues of outgoing
-- messages, and the log of the calls that move data, newest first.
use pymotw.Prelude.{
  ℕ, ◌+◌, String, Bool, true, false, Option, some, none, List, [], ◌∷◌, if◌then◌else◌, ◌==◌,
}
use pymotw.Prelude.Program.{Program, pure, raise, update}

pub data Error : Type 0 where
  -- a failed call of the system, list.remove of a value that is missing, a missing key of a dict
  os_error value_error key_error : Error

pub data Call : Type 0 where
  accepted : ℕ → Call
  received : ℕ → String → Call
  -- a message that was handed to send(), and how much of it the socket took
  sent : ℕ → String → ℕ → Call

-- The sockets that are ready.
pub record Ready : Type 0 where
  pub readable : List ℕ
  pub writable : List ℕ
  pub exceptional : List ℕ

-- The system: what the calls answer, by the number of calls before. A socket is its number. `none`
-- and `false` stand for OSError.
pub record World : Type 0 where
  pub server : ℕ
  pub select : ℕ → List ℕ → List ℕ → Option Ready
  pub accept : ℕ → Option ℕ
  pub recv : ℕ → ℕ → Option String
  pub send : ℕ → ℕ → String → Option ℕ
  pub getpeername : ℕ → ℕ → Bool

pub record Server : Type 0 where
  pub inputs : List ℕ
  pub outputs : List ℕ
  pub message_queues : List (ℕ × List String)
  pub trace : List Call
  pub clock : ℕ

abbrev pub Handler : Type 0 → Type 0
Handler A = Program Server Error A

-- One more call has been made.
unfoldable pub tick : Handler (Unit {0})
unfolding update
tick = update (λ s. record s { clock = s.clock + 1 })

unfoldable pub log : Call → Handler (Unit {0})
unfolding update
log c = update (λ s. record s { trace = c ∷ s.trace })

unfoldable pub check : Bool → Handler (Unit {0})
unfolding pure raise
check b = if b then pure tt else raise os_error

unfoldable pub member : ℕ → List ℕ → Bool
member x [] = false
member x (y ∷ ys) = let rest = member x ys in if x == y then true else rest

-- l.remove(x): the first of them, or ValueError
unfoldable pub remove_first : ℕ → List ℕ → Option (List ℕ)
remove_first x [] = none
remove_first x (y ∷ ys) = elim (x == y) [
  | true ↦ some ys
  | false ↦ elim (remove_first x ys) [ none ↦ none | some zs ↦ some (y ∷ zs) ]
]

-- if s in outputs: outputs.remove(s)
unfoldable pub discard : ℕ → List ℕ → List ℕ
discard x [] = []
discard x (y ∷ ys) = let rest = discard x ys in if x == y then ys else y ∷ rest

unfoldable pub start : World → Server
start w = record {
  inputs = w.server ∷ [];
  outputs = [];
  message_queues = [];
  trace = [];
  clock = 0;
}
