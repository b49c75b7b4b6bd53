-- ===== src/Zlib/Examples.antt =====
-- The servers with a compressor that holds each block back until the next one comes.
use pymotw.Prelude.{
  ℕ, ◌≡◌, refl, sym, ap, ◌∙◌, String, ◌<>◌, Option, some, none, List, [], ◌∷◌, concat, nonempty,
  keep, skip, text_length,
}
use Prim.Native.String.append
use pymotw.Zlib.{zlib_handle, bz2_handle, handle, send_blocks, send_remaining}
use pymotw.Zlib.Sent.{
  SentAll, append_assoc, append-nothing, feed, compressed_all, zlib_handle-SentAll,
}

abbrev delay : String → String → String × String
delay held block = (block, held)

abbrev held_back : String → String
held_back held = held

delayed :
    (held : String) (blocks : List String)
    → compressed_all delay held_back held blocks ≡ held <> concat blocks
unfolding feed concat
delayed held [] = append.nil held ∙ sym (append-nothing held)
delayed held (b ∷ bs) = append_assoc held _ _ ∙ ap (λ t. held <> t) (delayed b bs)

delay_law : (blocks : List String) → compressed_all delay held_back "" blocks ≡ concat blocks
delay_law blocks = delayed "" blocks ∙ append.nil (concat blocks)

zlib_handle-SentAll_example :
    SentAll delay held_back (λ t. t) "Lorem ipsum" (zlib_handle delay held_back "" "Lorem ipsum")
    × SentAll delay held_back (λ t. t) "Lorem ipsum" (bz2_handle delay held_back "" "Lorem ipsum")
zlib_handle-SentAll_example =
    zlib_handle-SentAll delay held_back (λ t. t) "" "Lorem ipsum" delay_law

handle_run : handle delay held_back 4 "" "Lorem ipsum" ≡ some ("Lore" ∷ "m ip" ∷ "sum" ∷ [])
unfolding handle send_blocks send_remaining pymotw.Prelude.keep pymotw.Prelude.skip
    pymotw.Prelude.text_length
handle_run = refl
