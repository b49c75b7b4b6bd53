-- ===== src/Transform.antt =====
-- The transform of source/_exts/pearson/writer.py that shows the targets of links: which links it
-- expands, and the numbers that it gives to the footnotes.
mod Numbers
mod Examples
use pymotw.Prelude.{
  ℕ, zero, suc, ◌+◌, String, Bool, true, false, Option, some, none, List, [], ◌∷◌, if◌then◌else◌,
  starts_with, drop_first, ◌=ˢ◌, not, ◌||◌, contains, str, ◌<>◌,
}

-- latex_show_urls: False or 'no', 'footnote', or another true value
pub data ShowUrls : Type 0 where
  no footnote inline_text : ShowUrls

-- uri.startswith(URI_SCHEMES)
unfoldable pub has_scheme : String → Bool
has_scheme uri =
    starts_with "mailto:" uri
    || starts_with "http:" uri
    || starts_with "https:" uri
    || starts_with "ftp:" uri

abbrev drop_chars : ℕ → String → String
drop_chars zero s = s
drop_chars (suc n) s = drop_chars n (drop_first s)

unfoldable pub shown_uri : String → String
shown_uri uri = if starts_with "mailto:" uri then drop_chars 7 uri else uri

-- What comes behind a reference: nothing, a footnote with its reference, or a text.
pub data Expansion : Type 0 where
  as_is : Expansion
  with_footnote with_text : String → Expansion

-- A reference with its uri and its text, inside a topic or not.
unfoldable pub expand_show_url : ShowUrls → String → String → Bool → Expansion
expand_show_url no uri astext in_topic = as_is
expand_show_url footnote uri astext in_topic =
    if has_scheme uri
    then if astext =ˢ shown_uri uri
      then as_is
      else if in_topic
      then as_is
      else with_footnote (shown_uri uri)
    else as_is
expand_show_url inline_text uri astext in_topic =
    if has_scheme uri
    then if astext =ˢ shown_uri uri then as_is else with_text (" (" <> (shown_uri uri <> ")"))
    else as_is

-- The `while True` of `renumber_footnotes` from a value of `startnum`: the number of the label that
-- it stops at. The test is whether another footnote is called by the number.
unfoldable pub next_number : (ℕ → Bool) → ℕ → ℕ → Option ℕ
next_number is_used_number zero startnum = none
next_number is_used_number (suc fuel) startnum =
    let rest = next_number is_used_number fuel (startnum + 1) in
    if is_used_number startnum then rest else some startnum

-- The numbers of `count` automatic footnotes from a value of `startnum` on.
unfoldable pub renumber_footnotes : (ℕ → Bool) → ℕ → ℕ → ℕ → Option (List ℕ)
renumber_footnotes is_used_number fuel zero startnum = some []
renumber_footnotes is_used_number fuel (suc count) startnum =
    elim (next_number is_used_number fuel startnum) [
      | none ↦ none
      | some n ↦ elim (renumber_footnotes is_used_number fuel count (n + 1)) [
        | none ↦ none
        | some ns ↦ some (n ∷ ns)
      ]
    ]
