-- ===== src/Zlib/Sent.antt =====
-- What the client of the servers of source/zlib/zlib_server.py and source/bz2/bz2_server.py gets.
use pymotw.Prelude.{
  ℕ, zero, suc, ◌≡◌, refl, sym, ap, ◌∙◌, String, ◌<>◌, true, false, Option, some, none, List, [],
  ◌∷◌, ◌++◌, if◌then◌else◌, nonempty, keep, skip, text_length, concat, leb, arith, Bool-cases, inl,
  inr,
}
use mathlib.Core.Path.{subst}
use Prim.Native.String.append
use pymotw.Zlib.{send_remaining, send_blocks, handle, zlib_handle, bz2_handle}

pub append_assoc : (s t u : String) → (s <> t) <> u ≡ s <> (t <> u)
append_assoc String.[] t u = rw (append.nil t) (rw (append.nil (t <> u)) refl)
append_assoc (String.◌∷◌ c s) t u =
    ap (λ v. v <> u) (append.cons c s t)
    ∙ (append.cons c (s <> t) u
        ∙ (ap (λ v. String.◌∷◌ c v) (append_assoc s t u) ∙ sym (append.cons c s (t <> u))))

keep-skip : (n : ℕ) (s : String) → keep n s <> skip n s ≡ s
unfolding keep skip
keep-skip zero s = append.nil s
keep-skip (suc n) String.[] = append.nil ""
keep-skip (suc n) (String.◌∷◌ c s) =
    append.cons c (keep n s) (skip n s) ∙ ap (λ t. String.◌∷◌ c t) (keep-skip n s)

length-skip : (n : ℕ) (s : String) → leb (text_length (skip n s)) (text_length s) ≡ true
unfolding skip text_length
length-skip zero s = ground arith
length-skip (suc n) String.[] = refl
length-skip (suc n) (String.◌∷◌ c s) = let ih = length-skip n s in ground arith

pub append-nothing : (s : String) → s <> "" ≡ s
append-nothing String.[] = append.nil ""
append-nothing (String.◌∷◌ c s) = append.cons c s "" ∙ ap (λ t. String.◌∷◌ c t) (append-nothing s)

concat-append : (l m : List String) → concat (l ++ m) ≡ concat l <> concat m
unfolding concat
concat-append [] m = sym (append.nil (concat m))
concat-append (x ∷ l) m =
    ap (λ t. x <> t) (concat-append l m) ∙ sym (append_assoc x (concat l) (concat m))

-- A turn takes at least one character of what is left.
shorter :
    (k turns : ℕ) (s : String)
    → nonempty s ≡ true
    → leb (text_length s) (suc turns) ≡ true
    → leb (text_length (skip (suc k) s)) turns ≡ true
unfolding skip text_length
shorter k turns String.[] n l = cc
shorter k turns (String.◌∷◌ c s) n l = let h = length-skip k s in ground arith

empty : (s : String) → nonempty s ≡ false → s ≡ ""
empty String.[] h = refl
empty (String.◌∷◌ c s) h = cc

kept_any : (k : ℕ) (s : String) → nonempty (keep (suc k) s) ≡ nonempty s
unfolding keep
kept_any k String.[] = refl
kept_any k (String.◌∷◌ c s) = refl

none_left : (s : String) → leb (text_length s) 0 ≡ true → nonempty s ≡ false
unfolding text_length
none_left String.[] h = refl
none_left (String.◌∷◌ c s) h = ground arith

remaining_end :
    (size turns : ℕ) (s : String) → nonempty s ≡ false → send_remaining size (suc turns) s ≡ some []
unfolding send_remaining
remaining_end size turns s h = ground arith

remaining_step :
    (size turns : ℕ) (s : String) (pieces : List String)
    → nonempty s ≡ true
    → send_remaining size turns (skip size s) ≡ some pieces
    → send_remaining size (suc turns) s ≡ some (keep size s ∷ pieces)
unfolding send_remaining
remaining_step size turns s pieces h e = ground arith

-- All of what is left is sent, in enough turns.
send_remaining-all :
    (k turns : ℕ) (s : String)
    → leb (text_length s) turns ≡ true
    → (pieces : List String) × (send_remaining (suc k) (suc turns) s ≡ some pieces)
      × (concat pieces ≡ s)
unfolding concat
send_remaining-all k zero s l =
    ([], remaining_end (suc k) 0 s (none_left s l), sym (empty s (none_left s l)))
send_remaining-all k (suc turns) s l = elim (Bool-cases (nonempty s)) [
  | inl h ↦
      let (pieces, e, q) = send_remaining-all k turns (skip (suc k) s) (shorter k turns s h l) in
      (
        keep (suc k) s ∷ pieces,
        remaining_step (suc k) (suc turns) s pieces h e,
        ap (λ t. keep (suc k) s <> t) q ∙ keep-skip (suc k) s,
      )
  | inr h ↦ ([], remaining_end (suc k) (suc turns) s h, sym (empty s h))
]

module _ {S : Type 0} (compress : S → String → S × String) (flush : S → String) where
  -- What a compressor gives for blocks, and its state behind them.
  unfoldable pub feed : S → List String → S × String
  feed s [] = (s, "")
  feed s (block ∷ blocks) =
      let (s', compressed) = compress s block in
      let (t, more) = feed s' blocks in (t, compressed <> more)

  -- The blocks are the file, and what is sent is what the compressor gives for them.
  abbrev pub Fed : S → String → Option (S × List String) → Type 0
  Fed s input none = ⊥
  Fed s input (some (t, sent)) =
      (blocks : List String) × (concat blocks ≡ input) × (feed s blocks ≡ (t, concat sent))

  concat_compressed :
      (c : String) (sent : List String)
      → concat (if nonempty c then c ∷ sent else sent) ≡ c <> concat sent
  unfolding concat
  concat_compressed String.[] sent = sym (append.nil (concat sent))
  concat_compressed (String.◌∷◌ c s) sent = refl

  abbrev pub one_more : String → Option (S × List String) → Option (S × List String)
  one_more c none = none
  one_more c (some (t, sent)) = some (t, if nonempty c then c ∷ sent else sent)

  one_more-Fed :
      (s : S) (block rest : String) (o : Option (S × List String))
      → Fed (compress s block).0 rest o
      → Fed s (block <> rest) (one_more (compress s block).1 o)
  unfolding feed concat
  one_more-Fed s block rest none h = h
  one_more-Fed s block rest (some (t, sent)) (blocks, p, q) = (
    block ∷ blocks,
    ap (λ u. block <> u) p,
    ap (λ r. (r.0, (compress s block).1 <> r.1)) q
        ∙ ap (λ u. (t, u)) (sym (concat_compressed (compress s block).1 sent)),
  )

  blocks_end :
      (k turns : ℕ) (s : S) (input : String)
      → nonempty input ≡ false
      → send_blocks compress flush (suc k) (suc turns) s input ≡ some (s, [])
  unfolding send_blocks
  blocks_end k turns s input h = let e = kept_any k input ∙ h in rw e refl

  blocks_step :
      (k turns : ℕ) (s : S) (input : String)
      → nonempty input ≡ true
      → send_blocks compress flush (suc k) (suc turns) s input
        ≡ one_more (compress s (keep (suc k) input)).1 (
            send_blocks compress flush
              (suc k)
              turns
              (compress s (keep (suc k) input)).0
              (skip (suc k) input))
  unfolding send_blocks
  blocks_step k turns s input h = let e = kept_any k input ∙ h in ground arith

  ended :
      (k turns : ℕ) (s : S) (input : String)
      → nonempty input ≡ false
      → Fed s input (send_blocks compress flush (suc k) (suc turns) s input)
  unfolding concat feed
  ended k turns s input h =
      subst (λ o. Fed s input o) (sym (blocks_end k turns s input h))
        ([], sym (empty input h), refl)

  send_blocks-Fed :
      (k turns : ℕ) (s : S) (input : String)
      → leb (text_length input) turns ≡ true
      → Fed s input (send_blocks compress flush (suc k) (suc turns) s input)
  send_blocks-Fed k zero s input l = ended k zero s input (none_left input l)
  send_blocks-Fed k (suc turns) s input l = elim (Bool-cases (nonempty input)) [
    | inl h ↦
        let rest = skip (suc k) input in
        let ih =
          send_blocks-Fed k turns (compress s (keep (suc k) input)).0 rest
            (shorter k turns input h l) in
        subst (λ o. Fed s input o) (sym (blocks_step k (suc turns) s input h))
          (subst
            (λ i. Fed s i (
              one_more (compress s (keep (suc k) input)).1 (
                send_blocks compress flush (suc k) (suc turns) (compress s (keep (suc k) input)).0
                  rest)))
            (keep-skip (suc k) input) (one_more-Fed s (keep (suc k) input) rest _ ih))
    | inr h ↦ ended k (suc turns) s input h
  ]

  -- Everything that a compressor has given for blocks, its flush included.
  abbrev pub compressed_all : S → List String → String
  compressed_all s blocks = (feed s blocks).1 <> flush (feed s blocks).0

  abbrev pub SentAll : (String → String) → String → Option (List String) → Type 0
  SentAll decompress file none = ⊥
  SentAll decompress file (some sent) = decompress (concat sent) ≡ file

  handle_blocks :
      (size : ℕ) (s t : S) (file : String) (sent pieces : List String)
      → send_blocks compress flush size (suc (text_length file)) s file ≡ some (t, sent)
      → send_remaining size (suc (text_length (flush t))) (flush t) ≡ some pieces
      → handle compress flush size s file ≡ some (sent ++ pieces)
  unfolding handle
  handle_blocks size s t file sent pieces e f = ground arith

  handle-SentAll :
      (decompress : String → String) (k : ℕ) (s : S) (file : String)
      → ((blocks : List String) → decompress (compressed_all s blocks) ≡ concat blocks)
      → SentAll decompress file (handle compress flush (suc k) s file)
  handle-SentAll decompress k s file law =
      by_blocks (send_blocks compress flush (suc k) (suc (text_length file)) s file) refl
        (send_blocks-Fed k (text_length file) s file (own_length (text_length file)))
    where
      own_length : (n : ℕ) → leb n n ≡ true
      own_length n = ground arith

      by_blocks :
          (o : Option (S × List String))
          → send_blocks compress flush (suc k) (suc (text_length file)) s file ≡ o
          → Fed s file o
          → SentAll decompress file (handle compress flush (suc k) s file)
      by_blocks none e h = absurd h
      by_blocks (some (t, sent)) e (blocks, p, q) =
          let (pieces, f, g) =
            send_remaining-all k (text_length (flush t)) (flush t) (own_length _) in
          subst (λ o. SentAll decompress file o)
            (sym (handle_blocks (suc k) s t file sent pieces e f))
            (ap decompress (
                concat-append sent pieces
                ∙ (ap (λ u. concat sent <> u) g ∙ ap (λ r. r.1 <> flush r.0) (sym q)))
              ∙ (law blocks ∙ p))

  -- If the output of the compressor for any blocks, with its flush behind, decompresses to the blocks put
  -- together, then both servers come to their end for every file, and what they send, put together,
  -- decompresses to the file.
  pub zlib_handle-SentAll :
      (decompress : String → String) (s : S) (file : String)
      → ((blocks : List String) → decompress (compressed_all s blocks) ≡ concat blocks)
      → SentAll decompress file (zlib_handle compress flush s file)
        × SentAll decompress file (bz2_handle compress flush s file)
  unfolding zlib_handle bz2_handle
  zlib_handle-SentAll decompress s file law =
      (handle-SentAll decompress 63 s file law, handle-SentAll decompress 31 s file law)
