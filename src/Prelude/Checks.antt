-- ===== src/Prelude/Checks.antt =====
-- Runs of the text functions.
use mathlib.Core.Path.{◌≡◌, refl}
use mathlib.Core.List.{[], ◌∷◌}
use pymotw.Prelude.Text.{replace, strip, split, str, backslashreplace, translate, sorted, add_all}

replace_run : replace "--" "-{-}" "a---b--" ≡ "a-{-}-b-{-}"
unfolding replace
replace_run = refl

split_run : split " ab  c\n" ≡ "ab" ∷ "c" ∷ []
unfolding split
split_run = refl

strip_run : strip "\t a b \n" ≡ "a b"
unfolding strip
strip_run = refl

str_run : str 1070 ≡ "1070"
unfolding str
str_run = refl

str_zero : str 0 ≡ "0"
unfolding str
str_zero = refl

encode_run : translate backslashreplace "aé€" ≡ "a\\xe9\\u20ac"
unfolding translate backslashreplace
encode_run = refl

sorted_run : sorted (add_all ("b" ∷ "a" ∷ "b" ∷ []) []) ≡ "a" ∷ "b" ∷ []
unfolding sorted add_all
sorted_run = refl
