-- ===== src/Shelve.antt =====
-- The importer of source/sys/sys_shelve_importer.py, which finds and loads modules that are kept in a
-- shelf.
mod Laws
mod Loading
mod Examples
use pymotw.Prelude.{
  ℕ, zero, suc, ◌+◌, String, ◌<>◌, Bool, true, false, Option, some, none, List, [], ◌∷◌,
  if◌then◌else◌, ◌==◌, ◌=ˢ◌, lookup, put, nonempty, is_some, or_default, starts_with, ends_with,
  drop_first, join, first?, code,
}
use pymotw.Prelude.Program.{
  Result, ok, raised, Program, pure, raise, gets, update, need, ◌>>=◌, ◌>>◌,
}

pub data Error : Type 0 where
  import_error io_error : Error
  -- what shelve or the code of a module raises
  other : String → Error

-- The keys of an open shelf with their texts.
abbrev pub Shelf : Type 0
Shelf = List (String × String)

unfoldable pub fetch : {A : Type 0} → String → List (String × A) → Option A
fetch k [] = none
fetch k ((j, a) ∷ d) = if k =ˢ j then some a else fetch k d

pub data SearchPath : Type 0 where
  entry : String → SearchPath
  entries : List String → SearchPath

-- The attributes that the loader sets.
pub record Module : Type 0 where
  pub file : Option String
  pub name : String
  pub search_path : Option SearchPath
  pub loader : Option String
  pub package_name : Option String

-- ShelveFinder._maybe_recursing, sys.modules, and the module objects by their number
pub record Interpreter : Type 0 where
  pub maybe_recursing : Bool
  pub sys_modules : List (String × ℕ)
  pub objects : List (ℕ × Module)
  pub fresh : ℕ

abbrev pub Task : Type 0 → Type 0
Task A = Program Interpreter Error A

-- What the importer calls: shelve.open(path, 'r'), whose shelf does not change, os.path.join, and
-- exec(source, mod.__dict__), which may import other modules in turn.
pub record World : Type 0 where
  pub open_shelf : String → Result Error Shelf
  pub path_join : String → String → String
  pub exec : String → ℕ → Task (Unit {0})

unfoldable pub with_shelf : World → String → Task Shelf
with_shelf w path st = (w.open_shelf path, st)

unfoldable pub mk_init_name : String → String
unfolding ends_with
mk_init_name fullname = if ends_with ".__init__" fullname then fullname else fullname <> ".__init__"

unfoldable pub get_key_name : String → Shelf → Option String
unfolding fetch mk_init_name
get_key_name fullname db =
    if is_some (fetch fullname db)
    then some fullname
    else if is_some (fetch (mk_init_name fullname) db)
    then some (mk_init_name fullname)
    else none

-- if key_name: neither None nor an empty name
unfoldable pub is_found : Option String → Bool
is_found none = false
is_found (some key_name) = nonempty key_name

unfoldable pub set_recursing : Bool → Task (Unit {0})
unfolding update
set_recursing b = update (λ st. record st { maybe_recursing = b })

-- The test of the path entry; the flag is reset however it ends.
unfoldable pub try_shelf : World → String → Task (Unit {0})
unfolding ◌>>=◌ ◌>>◌ set_recursing pure raise
try_shelf w path_entry =
    set_recursing true
    >> set_recursing false
    >> elim (w.open_shelf path_entry) [ ok db ↦ pure tt | raised e ↦ raise e ]

-- ShelveFinder.__init__; the finder is its path entry.
unfoldable pub shelve_finder : World → String → Task String
unfolding ◌>>=◌ ◌>>◌ gets raise try_shelf pure
shelve_finder w path_entry = do
  recursing ← gets (λ st. st.maybe_recursing)
  if recursing then raise import_error else (try_shelf w path_entry >> pure path_entry)

-- path or self.path_entry
unfoldable pub path_or : Option String → String → String
path_or path path_entry = if nonempty (or_default "" path) then or_default "" path else path_entry

unfoldable pub found_in : String → String → Result Error Shelf → Result Error (Option String)
unfolding is_found get_key_name
found_in fullname path (raised e) = raised e
found_in fullname path (ok db) =
    ok (if is_found (get_key_name fullname db) then some path else none)

-- The loader that is returned is its path entry.
unfoldable pub find_module : World → String → String → Option String → Task (Option String)
unfolding found_in path_or
find_module w path_entry fullname path st =
    (found_in fullname (path_or path path_entry) (w.open_shelf path_entry), st)

unfoldable pub get_filename : World → String → String → String
get_filename w path_entry fullname = w.path_join path_entry fullname

unfoldable pub source_in : String → Result Error Shelf → Result Error String
unfolding is_found get_key_name fetch
source_in fullname (raised e) = raised import_error
source_in fullname (ok db) =
    if is_found (get_key_name fullname db)
    then elim (fetch (or_default "" (get_key_name fullname db)) db) [
      | none ↦ raised import_error
      | some source ↦ ok source
    ]
    else raised import_error

-- Every exception is turned into an ImportError.
unfoldable pub get_source : World → String → String → Task String
unfolding source_in
get_source w path_entry fullname st = (source_in fullname (w.open_shelf path_entry), st)

abbrev drop_as_many : String → String → String
drop_as_many String.[] s = s
drop_as_many (String.◌∷◌ c p) s = drop_as_many p (drop_first s)

unfoldable pub data_in : String → Result Error Shelf → Result Error String
unfolding fetch
data_in key_name (raised e) = raised io_error
data_in key_name (ok db) = elim (fetch key_name db) [ none ↦ raised io_error | some text ↦ ok text ]

unfoldable pub get_data : World → String → String → Task String
unfolding data_in
get_data w path_entry path st =
    if starts_with path_entry path
    then (
      data_in ("data:" <> drop_first (drop_as_many path_entry path)) (w.open_shelf path_entry),
      st,
    )
    else (raised io_error, st)

unfoldable pub is_package : World → String → String → Task Bool
unfolding ◌>>=◌ with_shelf pure fetch mk_init_name
is_package w path_entry fullname = do
  db ← with_shelf w path_entry
  pure (is_some (fetch (mk_init_name fullname) db))

-- fullname.split('.')
unfoldable pub split_dots : String → List String
split_dots String.[] = "" ∷ []
split_dots (String.◌∷◌ c s) = elim (split_dots s) [
  | [] ↦ []
  | part ∷ parts ↦ if code c == 46 then "" ∷ part ∷ parts else (String.◌∷◌ c part) ∷ parts
]

-- parts[:-1]
unfoldable pub all_but_last : List String → List String
all_but_last [] = []
all_but_last (x ∷ []) = []
all_but_last (x ∷ y ∷ zs) = x ∷ all_but_last (y ∷ zs)

unfoldable pub parent_package : String → String
unfolding join all_but_last split_dots
parent_package fullname = join "." (all_but_last (split_dots fullname))

-- imp.new_module(fullname), put under its name in sys.modules
unfoldable pub new_module : String → Task ℕ
unfolding ◌>>=◌ ◌>>◌ gets update pure
new_module fullname = do
  i ← gets (λ st. st.fresh)
  update (λ st. record st {
    sys_modules = (fullname, i) ∷ st.sys_modules;
    objects =
        (
          i,
          record {
            file = none;
            name = fullname;
            search_path = none;
            loader = none;
            package_name = none;
          },
        )
        ∷ st.objects;
    fresh = st.fresh + 1;
  })
  pure i

unfoldable pub module_of : String → Option ℕ → Task ℕ
unfolding pure new_module
module_of fullname (some i) = pure i
module_of fullname none = new_module fullname

unfoldable pub change : ℕ → (Module → Module) → List (ℕ × Module) → List (ℕ × Module)
change i f [] = []
change i f ((j, m) ∷ os) = let rest = change i f os in (j, if i == j then f m else m) ∷ rest

unfoldable pub set_module : ℕ → (Module → Module) → Task (Unit {0})
unfolding update change
set_module i f = update (λ st. record st { objects = change i f st.objects })

-- The attributes of PEP 302.
unfoldable pub set_properties : World → String → String → ℕ → Task (Unit {0})
unfolding set_module get_filename
set_properties w path_entry fullname i = set_module i (λ m. record {
  file = some (get_filename w path_entry fullname);
  name = fullname;
  search_path = some (entry path_entry);
  loader = some path_entry;
  package_name = m.package_name;
})

unfoldable pub set_package : String → String → Bool → ℕ → Task (Unit {0})
unfolding ◌>>◌ set_module parent_package pure
set_package path_entry fullname packaged i =
    set_module i (λ m. record m {
      package_name = some (if packaged then fullname else parent_package fullname);
    })

unfoldable pub set_path : String → Bool → ℕ → Task (Unit {0})
unfolding set_module pure
set_path path_entry packaged i =
    if packaged
    then set_module i (λ m. record m { search_path = some (entries (path_entry ∷ [])) })
    else pure tt

unfoldable pub load_module : World → String → String → Task ℕ
unfolding ◌>>=◌ ◌>>◌ get_source gets fetch module_of set_properties is_package set_package set_path
    pure
load_module w path_entry fullname = do
  source ← get_source w path_entry fullname
  before ← gets (λ st. fetch fullname st.sys_modules)
  i ← module_of fullname before
  set_properties w path_entry fullname i
  packaged ← is_package w path_entry fullname
  set_package path_entry fullname packaged i
  again ← is_package w path_entry fullname
  set_path path_entry again i
  w.exec source i
  pure i
