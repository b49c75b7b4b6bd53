-- ===== src/Writer/Balance/Captions.antt =====
-- Captions: what they open in their visit, and close in their departure.

use pymotw.Prelude.{
  ℕ, ◌≡◌, refl, ◌∙◌, ap, Bool, true, false, Option, none, some, length, truthy, inc, dec,
  if◌then◌else◌, is_some, ◌&&◌,
}
use pymotw.Writer.Node.{Node, Kind}
use pymotw.Writer.State.{Translator, Method, gets, update, alloc, pushbody, emit, ◌>>◌, ◌>>=◌}
use pymotw.Writer.Titles.{visit_caption, depart_caption, drop_body, is_figure}
use pymotw.Writer.Balance.Frame.{Frame}
use pymotw.Writer.Balance.Rules.{Good, rules, Start}
use pymotw.Writer.Balance.Moves.{Moves, Moves-bind, Moves-then, Good-Moves, Moves-undo, any_place}
use pymotw.Writer.Balance.Brackets.{Enters, Entered, Moved-Entered, visiting}
use pymotw.Writer.Balance.Counts.{more_captions, less_captions, less-more_captions}
use pymotw.Writer.Balance.Titles.{Outer, switched, Moves-popbody}

-- A caption of a code block has a list of its own; every other one is written where it stands.
abbrev pub captioned : Option (ℕ × ℕ) → Frame → Frame
captioned none a = more_captions a
captioned (some x) a = more_captions (switched x a)

abbrev pub Captions : Option (ℕ × ℕ) → Frame → Type 0
Captions none a = truthy a.in_container_literal_block ≡ false
Captions (some x) a = (truthy a.in_container_literal_block ≡ true) × Outer x a

open_caption : Option Kind → Translator → Method
open_caption parent s =
    if s.in_minipage && is_figure parent
    then emit "\\captionof{figure}{"
    else if is_some s.table && is_figure parent
    then emit "\\sphinxfigcaption{"
    else emit "\\caption{"

Good-open_caption : (parent : Option Kind) (s : Translator) → Good any_place (open_caption parent s)
unfolding open_caption
Good-open_caption parent s = search rules depth 20

pub Enters-visit_caption :
    {held : Bool} (parent : Option Kind) (n : Node)
    → Enters Captions captioned held (visit_caption parent n)
unfolding visit_caption ◌>>◌ ◌>>=◌ gets update alloc pushbody open_caption
Enters-visit_caption {held} parent n = record {
  at = λ s h. go s h (truthy s.in_container_literal_block) refl;
}
  where
    go :
        (s : Translator)
        → Start (visiting held) s
        → (b : Bool) → truthy s.in_container_literal_block ≡ b
        → Entered Captions captioned s (
            (if b
                then (do
                  b ← alloc
                  update (λ t. record t { literal_block_caption = b })
                  pushbody b)
                else open_caption parent (record s { in_caption = inc s.in_caption }))
              (record s { in_caption = inc s.in_caption }))
    go s h true e = (
      some (s.body, length s.buffers),
      (e, refl),
      record { same = refl; notes = h.notes; unmerged = h.unmerged },
    )
    go s h false e = Moved-Entered Captions captioned s none _ e (
        (Good-Moves _ (Good-open_caption parent (record s { in_caption = inc s.in_caption }))).at _
          (record { same = refl; notes = h.notes; unmerged = h.unmerged }))

Moves-close_caption :
    {a c : Frame} (b b' : Bool) (m k : Method)
    → b ≡ b'
    → Moves a c (if b' then m else k)
    → Moves a c (if b then m else k)
Moves-close_caption b b' m k e h = rw e h

abbrev dec_captions : Translator → Translator
dec_captions s = record s { in_caption = dec s.in_caption }

Moves-dec_captions : {a : Frame} → Moves (more_captions a) a (update dec_captions)
Moves-dec_captions =
    Moves-undo more_captions less_captions dec_captions (λ s. refl) (λ s m. m)
      (less-more_captions _) refl

pub Moves-depart_caption :
    {a : Frame} (x : Option (ℕ × ℕ)) (n : Node)
    → Captions x a
    → Moves (captioned x a) a (depart_caption n)
unfolding depart_caption gets ◌>>=◌ drop_body
Moves-depart_caption none n c = record {
  at = λ s h.
      (Moves-then _ _
          (Moves-close_caption _ false drop_body (emit "}")
            (ap (λ f. truthy f.in_container_literal_block) h.same ∙ c)
            (Good-Moves _ (search rules)))
          Moves-dec_captions).at
        s h;
}
Moves-depart_caption {a} (some (o, new)) n c = record {
  at = λ s h.
      (Moves-then _ _
          (Moves-close_caption _ true drop_body (emit "}")
            (ap (λ f. truthy f.in_container_literal_block) h.same ∙ c.0)
            (Moves-bind _ _ (Moves-popbody {a = more_captions a} o new (c.1))
              (λ b. Good-Moves _ (search rules))))
          Moves-dec_captions).at
        s h;
}
