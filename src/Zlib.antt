-- ===== src/Zlib.antt =====
-- The servers of source/zlib/zlib_server.py and source/bz2/bz2_server.py, which send a file as it is
-- compressed. The compressor is an argument: its state, what it gives for a block, and its flush.
mod Sent
mod Examples
use pymotw.Prelude.{
  ℕ, zero, suc, String, Bool, true, false, Option, some, none, List, [], ◌∷◌, ◌++◌, if◌then◌else◌,
  nonempty, keep, skip, text_length,
}

-- A block that gives nothing is not sent.
abbrev send_compressed : String → List String → List String
send_compressed compressed sent = if nonempty compressed then compressed ∷ sent else sent

-- while remaining: the pieces of what the compressor had left, one for each turn
unfoldable pub send_remaining : ℕ → ℕ → String → Option (List String)
unfolding keep skip
send_remaining size zero remaining = none
send_remaining size (suc turns) remaining =
    let rest = send_remaining size turns (skip size remaining) in
    if nonempty remaining
    then elim rest [ none ↦ none | some sent ↦ some (keep size remaining ∷ sent) ]
    else some []

module _ {S : Type 0} (compress : S → String → S × String) (flush : S → String) where
  -- while True: the blocks of the file; the state of the compressor behind them, and what was sent
  unfoldable pub send_blocks : ℕ → ℕ → S → String → Option (S × List String)
  unfolding keep skip
  send_blocks size zero s input = none
  send_blocks size (suc turns) s input =
      let (s', compressed) = compress s (keep size input) in
      let rest = send_blocks size turns s' (skip size input) in
      if nonempty (keep size input)
      then elim rest [ none ↦ none | some (t, sent) ↦ some (t, send_compressed compressed sent) ]
      else some (s, [])

  -- The turns are as many as there are characters, and one to see the end.
  unfoldable pub handle : ℕ → S → String → Option (List String)
  unfolding send_blocks send_remaining text_length
  handle size s file = elim (send_blocks size (suc (text_length file)) s file) [
    | none ↦ none
    | some (t, sent) ↦ elim (send_remaining size (suc (text_length (flush t))) (flush t)) [
      | none ↦ none
      | some pieces ↦ some (sent ++ pieces)
    ]
  ]

  -- ZlibRequestHandler.handle and Bz2RequestHandler.handle
  unfoldable pub zlib_handle : S → String → Option (List String)
  unfolding handle
  zlib_handle s file = handle 64 s file

  unfoldable pub bz2_handle : S → String → Option (List String)
  unfolding handle
  bz2_handle s file = handle 32 s file
