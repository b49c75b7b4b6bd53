-- ===== src/Front/Formats.antt =====
-- When the formats of the numbered floats can be written.
use pymotw.Prelude.{◌≡◌, refl, String, Bool, true, false, Option, some, none, ◌&&◌, not, is_some}
use pymotw.Writer.State.{Env, Signal, ok, raised}
use pymotw.Front.{Babel, split_format, code_format, after_floats, generate_numfig_format}

abbrev pub is_raised : {A : Type 0} → Signal A → Bool
is_raised (ok a) = false
is_raised (raised e) = true

after_floats-code_format :
    (env : Env) (s : String) (t : Option String) (c : String × Option String)
    → is_raised (after_floats s (code_format env t c)) ≡ (is_some (c.1) && not (is_some t))
unfolding after_floats code_format
after_floats-code_format env s t (before, none) = refl
after_floats-code_format env s none (before, some behind) = refl
after_floats-code_format env s (some t) (before, some behind) = refl

-- Writing the formats of the numbered floats raises just when that of the code blocks has a '%s' and
-- that of the tables has none.
pub is_raised-generate_numfig_format :
    (env : Env) (babel : String) (b : Babel) (figure table codeblock : String)
    → is_raised (generate_numfig_format env babel b figure table codeblock)
      ≡ (is_some ((split_format codeblock).1) && not (is_some ((split_format table).1)))
unfolding generate_numfig_format
is_raised-generate_numfig_format env babel b figure table codeblock =
    after_floats-code_format env _ ((split_format table).1) (split_format codeblock)
