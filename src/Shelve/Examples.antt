-- ===== src/Shelve/Examples.antt =====
-- The importer on a shelf with a package and a module in it.
use pymotw.Prelude.{◌≡◌, refl, String, ◌<>◌, true, false, some, none, [], ◌∷◌, is_some}
use pymotw.Prelude.Program.{ok, raised, pure, raise}
use pymotw.Shelve.{
  Error, Shelf, World, Interpreter, fetch, source_in, is_found, get_key_name, mk_init_name,
  ends_with, path_or, find_module, get_source, parent_package, load_module,
}
use pymotw.Shelve.Laws.{find_module-get_source, parent_package-append}
use pymotw.Shelve.Loading.{load_module-again, load_module-failed}

abbrev shelf : Shelf
shelf = ("package.__init__", "print()") ∷ ("package.module1", "x = 1") ∷ []

abbrev world : World
world = record {
  open_shelf = λ path. ok shelf;
  path_join = λ path name. path <> ("/" <> name);
  exec = λ source i. pure tt;
}

abbrev interpreter : Interpreter
interpreter = record { maybe_recursing = false; sys_modules = []; objects = []; fresh = 0 }

find_module-get_source_example :
    ((find_module world "s" "package" none interpreter).0 ≡ ok (some "s")
      → (x : String) × ((get_source world "s" "package" interpreter).0 ≡ ok x))
    × ((x : String)
        → (get_source world "s" "package" interpreter).0 ≡ ok x
        → (find_module world "s" "package" none interpreter).0 ≡ ok (some "s"))
unfolding path_or
find_module-get_source_example = find_module-get_source world "s" "package" none interpreter refl

parent_package-append_example : parent_package ("package.sub" <> ("." <> "module1")) ≡ "package.sub"
parent_package-append_example = parent_package-append "package.sub" "module1" refl

load_module-again_example :
    load_module world "s" "package" (load_module world "s" "package" interpreter).1
    ≡ load_module world "s" "package" interpreter
unfolding source_in is_found get_key_name mk_init_name pymotw.Prelude.ends_with fetch pure
load_module-again_example =
    load_module-again world "s" "package" "print()" shelf interpreter refl refl (λ i u. refl)

-- The code of every module raises.
abbrev broken : World
broken = record world { exec = λ source i. raise (Error.other "SyntaxError") }

load_module-failed_example :
    ((load_module broken "s" "package.module1" interpreter).0 ≡ raised (Error.other "SyntaxError"))
    × (is_some (
          fetch "package.module1"
            (load_module broken "s" "package.module1" interpreter).1.sys_modules)
        ≡ true)
unfolding source_in is_found get_key_name mk_init_name pymotw.Prelude.ends_with fetch raise
load_module-failed_example =
    load_module-failed broken "s" "package.module1" "x = 1" shelf interpreter refl refl
      (Error.other "SyntaxError") (λ i u. refl)
