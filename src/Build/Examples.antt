-- ===== src/Build/Examples.antt =====
-- The tasks of pavement.py on single inputs.
use pymotw.Prelude.{
  ◌≡◌, refl, String, Bool, true, false, Option, some, none, List, [], ◌∷◌, has_sub, replace,
}
use pymotw.Build.{
  Env, get_module, module_of_branch, line_cleanups, truncate_lines, ruler, star, dash, equals,
  post_title, is_ruler, all_are,
}
use pymotw.Build.Rulers.{Short, clean, clean-Short}
use pymotw.Build.Posts.{has_sub-post_title}

abbrev env : Env
env = record {
  rundir = λ infile. "/home/me/source/";
  virtual_env = some "/venv";
  python_version = "3.5";
  branch_name = "module/zlib";
  module_file = none;
}

clean-Short_example :
    Short dash (clean (line_cleanups env none) "a.py" (ruler 80 dash))
    × Short equals (clean (line_cleanups env none) "a.py" (ruler 80 dash))
    × Short star (clean (line_cleanups env none) "a.py" (ruler 80 dash))
clean-Short_example = clean-Short env "a.py" (ruler 80 dash)

has_sub-post_title_example :
    (has_sub "zlib" (post_title "zlib" "GNU compression") ≡ true)
    × (has_sub "PyMOTW 3" (post_title "zlib" "GNU compression") ≡ true)
has_sub-post_title_example = has_sub-post_title "zlib" "GNU compression"

title_run : post_title "zlib" "GNU compression" ≡ "zlib - GNU compression — PyMOTW 3"
unfolding post_title pymotw.Prelude.has_sub pymotw.Prelude.starts_with
title_run = refl

truncate_run : truncate_lines "a.py" dash (ruler 70 dash) ≡ ruler 64 dash
unfolding truncate_lines is_ruler all_are pymotw.Prelude.text_length ruler
truncate_run = refl

branch_run : get_module env ("bz2" ∷ []) ≡ some "zlib"
unfolding get_module module_of_branch pymotw.Prelude.starts_with
branch_run = refl
