-- ===== src/Writer/Balance/Counts.antt =====
-- The nodes that raise a counter for their children.
use pymotw.Prelude.{◌≡◌, refl, ap, inc, dec, dec-inc}
use pymotw.Writer.Node.{Node}
use pymotw.Writer.State.{Env}
use pymotw.Writer.Desc.{
  visit_desc_addname, depart_desc_addname, visit_desc_name, depart_desc_name, write_option_string,
}
use pymotw.Writer.Lists.{visit_hlist, depart_hlist}
use pymotw.Writer.Inline.{
  visit_literal_emphasis, depart_literal_emphasis, visit_literal_strong, depart_literal_strong,
  visit_literal, depart_literal, visit_collected_footnote, depart_collected_footnote,
}
use pymotw.Writer.Balance.Frame.{Frame}
use pymotw.Writer.Balance.Moves.{Moves, Good-Moves, Moves-then, Moves-bind, Moves-count, Moves-undo}
use pymotw.Writer.Balance.Texts.{text_rules}

abbrev pub more_whitespace : Frame → Frame
more_whitespace a = record a { literal_whitespace = inc a.literal_whitespace }

abbrev pub less_whitespace : Frame → Frame
less_whitespace a = record a { literal_whitespace = dec a.literal_whitespace }

pub less-more_whitespace : (a : Frame) → less_whitespace (more_whitespace a) ≡ a
less-more_whitespace a =
    ap (λ z. record a { literal_whitespace = z }) (dec-inc a.literal_whitespace)

abbrev pub more_contractions : Frame → Frame
more_contractions a = record a { no_contractions = inc a.no_contractions }

abbrev pub less_contractions : Frame → Frame
less_contractions a = record a { no_contractions = dec a.no_contractions }

pub less-more_contractions : (a : Frame) → less_contractions (more_contractions a) ≡ a
less-more_contractions a = ap (λ z. record a { no_contractions = z }) (dec-inc a.no_contractions)

abbrev pub more_both : Frame → Frame
more_both a = record a {
  no_contractions = inc a.no_contractions;
  literal_whitespace = inc a.literal_whitespace;
}

abbrev pub less_both : Frame → Frame
less_both a = record a {
  no_contractions = dec a.no_contractions;
  literal_whitespace = dec a.literal_whitespace;
}

pub less-more_both : (a : Frame) → less_both (more_both a) ≡ a
less-more_both a = λ i. record a {
  no_contractions = dec-inc a.no_contractions i;
  literal_whitespace = dec-inc a.literal_whitespace i;
}

abbrev pub more_compact : Frame → Frame
more_compact a = record a { compact_list = inc a.compact_list }

abbrev pub less_compact : Frame → Frame
less_compact a = record a { compact_list = dec a.compact_list }

pub less-more_compact : (a : Frame) → less_compact (more_compact a) ≡ a
less-more_compact a = ap (λ z. record a { compact_list = z }) (dec-inc a.compact_list)

abbrev pub more_footnotes : Frame → Frame
more_footnotes a = record a { in_footnote = inc a.in_footnote }

abbrev pub less_footnotes : Frame → Frame
less_footnotes a = record a { in_footnote = dec a.in_footnote }

pub less-more_footnotes : (a : Frame) → less_footnotes (more_footnotes a) ≡ a
less-more_footnotes a = ap (λ z. record a { in_footnote = z }) (dec-inc a.in_footnote)

abbrev pub more_terms : Frame → Frame
more_terms a = record a { in_term = inc a.in_term }

abbrev pub less_terms : Frame → Frame
less_terms a = record a { in_term = dec a.in_term }

pub less-more_terms : (a : Frame) → less_terms (more_terms a) ≡ a
less-more_terms a = ap (λ z. record a { in_term = z }) (dec-inc a.in_term)

abbrev pub more_blocks : Frame → Frame
more_blocks a = record a { in_container_literal_block = inc a.in_container_literal_block }

abbrev pub less_blocks : Frame → Frame
less_blocks a = record a { in_container_literal_block = dec a.in_container_literal_block }

pub less-more_blocks : (a : Frame) → less_blocks (more_blocks a) ≡ a
less-more_blocks a =
    ap (λ z. record a { in_container_literal_block = z }) (dec-inc a.in_container_literal_block)

abbrev pub more_captions : Frame → Frame
more_captions a = record a { in_caption = inc a.in_caption }

abbrev pub less_captions : Frame → Frame
less_captions a = record a { in_caption = dec a.in_caption }

pub less-more_captions : (a : Frame) → less_captions (more_captions a) ≡ a
less-more_captions a = ap (λ z. record a { in_caption = z }) (dec-inc a.in_caption)

pub Moves-visit_desc_addname :
    {a : Frame} (n : Node) → Moves a (more_whitespace a) (visit_desc_addname n)
unfolding visit_desc_addname
Moves-visit_desc_addname n =
    Moves-then _ _ (Good-Moves _ (search text_rules))
      (Moves-count more_whitespace _ (λ s. refl) (λ s m. m) refl)

pub Moves-depart_desc_addname :
    {a : Frame} (n : Node) → Moves (more_whitespace a) a (depart_desc_addname n)
unfolding depart_desc_addname
Moves-depart_desc_addname n = Moves-then _ _ (Good-Moves _ (search text_rules)) (
    Moves-undo more_whitespace less_whitespace _ (λ s. refl) (λ s m. m) (less-more_whitespace _)
      refl)

pub Moves-visit_desc_name : {a : Frame} (n : Node) → Moves a (more_both a) (visit_desc_name n)
unfolding visit_desc_name
Moves-visit_desc_name n =
    Moves-then _ _ (Good-Moves _ (search text_rules))
      (Moves-count more_both _ (λ s. refl) (λ s m. m) refl)

pub Moves-depart_desc_name : {a : Frame} (n : Node) → Moves (more_both a) a (depart_desc_name n)
unfolding depart_desc_name
Moves-depart_desc_name n =
    Moves-then _ _ (Good-Moves _ (search text_rules))
      (Moves-undo more_both less_both _ (λ s. refl) (λ s m. m) (less-more_both _) refl)

pub Moves-visit_hlist : {a : Frame} (n : Node) → Moves a (more_compact a) (visit_hlist n)
unfolding visit_hlist
Moves-visit_hlist n =
    Moves-then _ _ (Moves-count more_compact _ (λ s. refl) (λ s m. m) refl)
      (Good-Moves _ (search text_rules))

pub Moves-depart_hlist : {a : Frame} (n : Node) → Moves (more_compact a) a (depart_hlist n)
unfolding depart_hlist
Moves-depart_hlist n =
    Moves-then _ _
      (Moves-undo more_compact less_compact _ (λ s. refl) (λ s m. m) (less-more_compact _) refl)
      (Good-Moves _ (search text_rules))

pub Moves-visit_literal_emphasis :
    {a : Frame} (n : Node) → Moves a (more_contractions a) (visit_literal_emphasis n)
unfolding visit_literal_emphasis
Moves-visit_literal_emphasis n =
    Moves-then _ _ (Good-Moves _ (search text_rules))
      (Moves-count more_contractions _ (λ s. refl) (λ s m. m) refl)

pub Moves-depart_literal_emphasis :
    {a : Frame} (n : Node) → Moves (more_contractions a) a (depart_literal_emphasis n)
unfolding depart_literal_emphasis
Moves-depart_literal_emphasis n = Moves-then _ _ (Good-Moves _ (search text_rules)) (
    Moves-undo more_contractions less_contractions _ (λ s. refl) (λ s m. m)
      (less-more_contractions _) refl)

pub Moves-visit_literal_strong :
    {a : Frame} (n : Node) → Moves a (more_contractions a) (visit_literal_strong n)
unfolding visit_literal_strong
Moves-visit_literal_strong n =
    Moves-then _ _ (Good-Moves _ (search text_rules))
      (Moves-count more_contractions _ (λ s. refl) (λ s m. m) refl)

pub Moves-depart_literal_strong :
    {a : Frame} (n : Node) → Moves (more_contractions a) a (depart_literal_strong n)
unfolding depart_literal_strong
Moves-depart_literal_strong n = Moves-then _ _ (Good-Moves _ (search text_rules)) (
    Moves-undo more_contractions less_contractions _ (λ s. refl) (λ s m. m)
      (less-more_contractions _) refl)

pub Moves-visit_literal : {a : Frame} (n : Node) → Moves a (more_contractions a) (visit_literal n)
unfolding visit_literal
Moves-visit_literal n =
    Moves-then _ _ (Moves-count more_contractions _ (λ s. refl) (λ s m. m) refl)
      (Good-Moves _ (search text_rules))

pub Moves-depart_literal : {a : Frame} (n : Node) → Moves (more_contractions a) a (depart_literal n)
unfolding depart_literal
Moves-depart_literal n =
    Moves-then _ _
      (Moves-undo more_contractions less_contractions _ (λ s. refl) (λ s m. m)
        (less-more_contractions _) refl)
      (Good-Moves _ (search text_rules))

pub Moves-visit_collected_footnote :
    {a : Frame} (n : Node) → Moves a (more_footnotes a) (visit_collected_footnote n)
unfolding visit_collected_footnote
Moves-visit_collected_footnote n =
    Moves-then _ _ (Moves-count more_footnotes _ (λ s. refl) (λ s m. m) refl)
      (Good-Moves _ (search text_rules))

pub Moves-depart_collected_footnote :
    {a : Frame} (n : Node) → Moves (more_footnotes a) a (depart_collected_footnote n)
unfolding depart_collected_footnote
Moves-depart_collected_footnote n =
    Moves-then _ _ (Good-Moves _ (search text_rules)) (
      Moves-undo more_footnotes less_footnotes _ (λ s. refl) (λ s m. m) (less-more_footnotes _)
        refl)

pub Moves-write_option_string :
    {a : Frame} (env : Env) (n : Node) → Moves a a (write_option_string env n)
unfolding write_option_string
Moves-write_option_string env n =
    Moves-then _ _ (Moves-count more_contractions _ (λ s. refl) (λ s m. m) refl) (
      Moves-bind _ _ (Good-Moves _ (search text_rules)) (λ e.
        Moves-then _ _ (Good-Moves _ (search text_rules)) (
          Moves-undo more_contractions less_contractions _ (λ s. refl) (λ s m. m)
            (less-more_contractions _) refl)))
