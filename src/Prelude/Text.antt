-- ===== src/Prelude/Text.antt =====
-- Python's `str`: a text is a list of characters, and `%s` formatting is concatenation.
use Prim.Native.Nat.{ℕ, zero, suc, ◌-◌, ◌+◌, ◌/◌, ◌%◌, Ordering}
use Prim.Native.Char.{Char, code}
use Prim.Native.String.{String, compare, count}
use Prim.Native.String
use mathlib.Core.Bool.{Bool, true, false, ◌&&◌, ◌||◌}
use mathlib.Core.Option.{Option, none, some}
use mathlib.Core.List.{List, [], ◌∷◌, ◌++◌}
use text.Mathlib.Text.{◌==◌}
use pymotw.Prelude.Tests.{if◌then◌else◌, ◌==◌ as nat_eq, ltb}

-- The truth value of a text.
abbrev pub nonempty : String → Bool
nonempty String.[] = false
nonempty (String.◌∷◌ _ _) = true

-- The texts of one character, as `list.extend(text)` adds them.
unfoldable pub chars : String → List String
chars String.[] = []
chars (String.◌∷◌ c s) = String.◌∷◌ c "" ∷ chars s

-- `''.join(pieces)`
unfoldable pub concat : List String → String
concat [] = ""
concat (s ∷ ss) = String.◌++◌ s (concat ss)

-- `separator.join(pieces)`
unfoldable pub join : String → List String → String
join sep [] = ""
join sep (s ∷ []) = s
join sep (s ∷ t ∷ ss) = String.◌++◌ s (String.◌++◌ sep (join sep (t ∷ ss)))

-- `text[1:]`
abbrev pub drop_first : String → String
drop_first String.[] = ""
drop_first (String.◌∷◌ _ s) = s

-- `text[0]`
abbrev pub first? : String → Option String
first? String.[] = none
first? (String.◌∷◌ c _) = some (String.◌∷◌ c "")

-- `text.translate(table)`: the table gives the text that stands for a character.
unfoldable pub translate : (Char → String) → String → String
translate table String.[] = ""
translate table (String.◌∷◌ c s) = String.◌++◌ (table c) (translate table s)

-- Python orders texts by their characters' numbers.
abbrev pub text_le : String → String → Bool
text_le s t = elim (compare s t) [ Ordering.gt ↦ false | _ ↦ true ]

unfoldable pub insert_text : String → List String → List String
insert_text s [] = s ∷ []
insert_text s (t ∷ ts) = if text_le s t then s ∷ t ∷ ts else t ∷ insert_text s ts

-- `sorted(texts)`
unfoldable pub sorted : List String → List String
unfolding insert_text
sorted [] = []
sorted (s ∷ ss) = insert_text s (sorted ss)

-- `text in texts`
unfoldable pub contains : String → List String → Bool
contains s [] = false
contains s (t ∷ ts) = if t == s then true else contains s ts

-- A set of texts in the order of insertion: `texts.add(text)`.
unfoldable pub add : String → List String → List String
unfolding contains
add s ts = if contains s ts then ts else ts ++ (s ∷ [])

-- `texts.update(more)`
unfoldable pub add_all : List String → List String → List String
unfolding add
add_all [] ts = ts
add_all (s ∷ ss) ts = add_all ss (add s ts)

-- `text.startswith(prefix)`, the prefix first.
unfoldable pub starts_with : String → String → Bool
starts_with String.[] s = true
starts_with (String.◌∷◌ p ps) String.[] = false
starts_with (String.◌∷◌ p ps) (String.◌∷◌ c s) = nat_eq (code p) (code c) && starts_with ps s

-- `text.endswith(suffix)`, the suffix first.
unfoldable pub ends_with : String → String → Bool
ends_with suffix String.[] = suffix == ""
ends_with suffix (String.◌∷◌ c s) =
    let rest = ends_with suffix s in if suffix == String.◌∷◌ c s then true else rest

-- `text[n:]`
unfoldable pub skip : ℕ → String → String
skip zero s = s
skip (suc n) String.[] = ""
skip (suc n) (String.◌∷◌ c s) = skip n s

-- `text[:n]`
unfoldable pub keep : ℕ → String → String
keep zero s = ""
keep (suc n) String.[] = ""
keep (suc n) (String.◌∷◌ c s) = String.◌∷◌ c (keep n s)

-- `len(text)`
unfoldable pub text_length : String → ℕ
text_length String.[] = 0
text_length (String.◌∷◌ c s) = suc (text_length s)

replace_from : ℕ → String → String → String → String
replace_from skip old new String.[] = ""
replace_from (suc k) old new (String.◌∷◌ c s) = replace_from k old new s
replace_from zero old new (String.◌∷◌ c s) =
    let found = String.◌++◌ new (replace_from (count old - 1) old new s) in
    let kept = String.◌∷◌ c (replace_from 0 old new s) in
    if starts_with old (String.◌∷◌ c s) then found else kept

-- `text.replace(old, new)` for an `old` that is not empty: from the left, without overlaps.
unfoldable pub replace : String → String → String → String
unfolding replace_from starts_with
replace old new s = replace_from 0 old new s

-- `sub in text`
unfoldable pub has_sub : String → String → Bool
unfolding starts_with
has_sub sub String.[] = starts_with sub ""
has_sub sub (String.◌∷◌ c s) = starts_with sub (String.◌∷◌ c s) || has_sub sub s

-- `text.count(c)` for one character, given by its number.
unfoldable pub count_char : ℕ → String → ℕ
count_char n String.[] = 0
count_char n (String.◌∷◌ c s) = (if nat_eq (code c) n then 1 else 0) + count_char n s

-- The white space of ASCII.
unfoldable pub is_space : ℕ → Bool
is_space n = nat_eq n 32 || (ltb 8 n && ltb n 14) || (ltb 27 n && ltb n 32)

-- `text.lstrip()` over the ASCII white space
unfoldable pub lstrip : String → String
unfolding is_space
lstrip String.[] = ""
lstrip (String.◌∷◌ c s) = if is_space (code c) then lstrip s else String.◌∷◌ c s

-- `text.rstrip()`
unfoldable pub rstrip : String → String
unfolding is_space
rstrip String.[] = ""
rstrip (String.◌∷◌ c s) = elim (rstrip s) [
  | String.[] ↦ if is_space (code c) then "" else String.◌∷◌ c ""
  | String.◌∷◌ d r ↦ String.◌∷◌ c (String.◌∷◌ d r)
]

-- `text.strip()`
unfoldable pub strip : String → String
unfolding lstrip rstrip
strip s = lstrip (rstrip s)

abbrev onto : Char → List String → List String
onto c [] = String.◌∷◌ c "" ∷ []
onto c (w ∷ ws) = String.◌∷◌ c w ∷ ws

-- The words, and before them the one that the text's beginning goes on with, empty at a space.
split_words : String → List String
unfolding is_space
split_words String.[] = "" ∷ []
split_words (String.◌∷◌ c s) =
    let rest = split_words s in if is_space (code c) then "" ∷ rest else onto c rest

abbrev drop_empty : List String → List String
drop_empty [] = []
drop_empty (String.[] ∷ ws) = drop_empty ws
drop_empty (String.◌∷◌ c w ∷ ws) = String.◌∷◌ c w ∷ drop_empty ws

-- `text.split()`
unfoldable pub split : String → List String
unfolding split_words
split s = drop_empty (split_words s)

-- The digit with a value below 16.
abbrev digit_table : List String
digit_table =
    "0" ∷ "1" ∷ "2" ∷ "3" ∷ "4" ∷ "5" ∷ "6" ∷ "7" ∷ "8" ∷ "9" ∷ "a" ∷ "b" ∷ "c" ∷ "d" ∷ "e" ∷ "f"
    ∷ []

abbrev digit_in : List String → ℕ → String
digit_in [] n = ""
digit_in (d ∷ ds) zero = d
digit_in (d ∷ ds) (suc n) = digit_in ds n

abbrev digit : ℕ → String
digit n = digit_in digit_table n

-- On fuel: a number has no more digits than its value plus one.
decimal : ℕ → ℕ → String → String
decimal zero n acc = acc
decimal (suc f) n acc =
    let d = String.◌++◌ (digit (n % 10)) acc in
    let rest = decimal f (n / 10) d in if nat_eq (n / 10) 0 then d else rest

-- `str(n)` of a number that is not negative
unfoldable pub str : ℕ → String
unfolding decimal
str n = decimal (n + 1) n ""

-- The given number of hexadecimal digits.
hex : ℕ → ℕ → String → String
hex zero n acc = acc
hex (suc k) n acc = hex k (n / 16) (String.◌++◌ (digit (n % 16)) acc)

-- `c.encode('ascii', 'backslashreplace')`
unfoldable pub backslashreplace : Char → String
unfolding hex
backslashreplace c =
    if ltb (code c) 128
    then String.◌∷◌ c ""
    else if ltb (code c) 256
    then String.◌++◌ "\\x" (hex 2 (code c) "")
    else if ltb (code c) 65536
    then String.◌++◌ "\\u" (hex 4 (code c) "")
    else String.◌++◌ "\\U" (hex 8 (code c) "")
