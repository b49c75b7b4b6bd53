-- ===== src/Build.antt =====
-- The tasks of pavement.py that decide something: how the output of a program is cleaned, which module
-- a task is about, and what a post for the blog says.
mod Rulers
mod Posts
mod Examples
use pymotw.Prelude.{
  ℕ, zero, suc, Char, String, ◌<>◌, Bool, true, false, Option, some, none, List, [], ◌∷◌,
  if◌then◌else◌, ◌==◌, ltb, ◌&&◌, ◌=ˢ◌, nonempty, or_default, is_some, starts_with, text_length,
  ends_with, drop_first, replace, has_sub, strip, rstrip, code, head?, count_char,
}

-- What the tasks read: the working directory of a file, the environment, Python's version, the
-- branch of git, and the file `module`.
pub record Env : Type 0 where
  pub rundir : String → String
  pub virtual_env : Option String
  pub python_version : String
  pub branch_name : String
  pub module_file : Option String

-- `line.replace("", new)` puts the new text before each character and at the end.
unfoldable pub interleave : String → String → String
interleave new String.[] = new
interleave new (String.◌∷◌ c s) = new <> String.◌∷◌ c (interleave new s)

-- `line.replace(old, new)` for every old text
unfoldable pub replace_any : String → String → String → String
unfolding replace
replace_any String.[] new line = interleave new line
replace_any (String.◌∷◌ c old) new line = replace (String.◌∷◌ c old) new line

unfoldable pub elide_virtual_env : Option String → String → String
elide_virtual_env none line = line
elide_virtual_env (some directory) line = replace_any directory "..." line

unfoldable pub elide_path_prefix : Env → String → String → String
unfolding replace elide_virtual_env
elide_path_prefix env infile line =
    replace ("/Library/Frameworks/Python.framework/Versions/" <> env.python_version) "..."
      (elide_virtual_env env.virtual_env (replace_any (env.rundir infile) "..." line))

unfoldable pub all_are : Char → String → Bool
all_are c String.[] = true
all_are c (String.◌∷◌ d s) = code d == code c && all_are c s

-- c * n
unfoldable pub ruler : ℕ → Char → String
ruler zero c = ""
ruler (suc n) c = String.◌∷◌ c (ruler n c)

-- set(line) == set(c)
unfoldable pub is_ruler : Char → String → Bool
unfolding all_are
is_ruler c line = nonempty line && all_are c line

unfoldable pub truncate_lines : String → Char → String → String
unfolding is_ruler text_length ruler
truncate_lines infile c line =
    if is_ruler c line && ltb 64 (text_length line) then ruler 64 c else line

abbrev pub dash : Char
dash = Char.char 45 tt

abbrev pub equals : Char
equals = Char.char 61 tt

abbrev pub star : Char
star = Char.char 42 tt

abbrev pub Cleanup : Type 0
Cleanup = String → String → String

-- The cleanups that run_script gives to paverutils unless its caller has its own.
unfoldable pub line_cleanups : Env → Option (List Cleanup) → List Cleanup
unfolding elide_path_prefix truncate_lines
line_cleanups env (some own) = own
line_cleanups env none =
    elide_path_prefix env
    ∷ (λ infile line. truncate_lines infile dash line)
    ∷ (λ infile line. truncate_lines infile equals line)
    ∷ (λ infile line. truncate_lines infile star line)
    ∷ []

-- if args: module = args[0]
unfoldable pub module_of_branch : String → Option String → Option String
unfolding starts_with
module_of_branch branch named =
    if starts_with "module/" branch
    then some (
        drop_first
          (drop_first (drop_first (drop_first (drop_first (drop_first (drop_first branch)))))))
    else named

unfoldable pub module_of_file : Option String → Option String → Option String
unfolding rstrip
module_of_file none named = named
module_of_file (some text) named = some (rstrip text)

unfoldable pub get_module : Env → List String → Option String
unfolding module_of_branch module_of_file
get_module env args =
    let named = module_of_branch env.branch_name (head? args) in
    if nonempty (or_default "" named) then named else module_of_file env.module_file named

-- text.rstrip('/')
unfoldable pub rstrip_slash : String → String
rstrip_slash String.[] = ""
rstrip_slash (String.◌∷◌ c s) = elim (rstrip_slash s) [
  | String.[] ↦ if code c == 47 then "" else String.◌∷◌ c ""
  | String.◌∷◌ d r ↦ String.◌∷◌ c (String.◌∷◌ d r)
]

unfoldable pub post_title : String → String → String
unfolding has_sub
post_title module_name title =
    let named = if has_sub module_name title then title else module_name <> (" - " <> title) in
    if has_sub "PyMOTW 3" named then named else named <> " — PyMOTW 3"

unfoldable pub post_body : String → String → String
post_body intro canonical_url =
    "<p>"
    <> (intro
        <> ("</p>\n<p><a href=\""
            <> (canonical_url
                <> ("\">Read more...</a></p>\n"
                    <> ("<p><small>This post is part of the Python Module of the Week series for Python 3. See "
                        <> "<a href=\"https://pymotw.com/3/\">PyMOTW.com</a> for more articles from the series.</small></p>\n")))))

-- The page: the text of its first heading without anchors, and that of its first paragraph, as
-- pyquery gives them. `none` is the NameError of `input_base`.
unfoldable pub gen_blog_post_from_page :
    String → String → String → String → String → Option (String × String)
unfolding ends_with rstrip_slash post_title replace post_body
gen_blog_post_from_page input_file module_name url_base heading paragraph =
    if ends_with "index.html" input_file
    then some (
      post_title module_name heading,
      post_body (replace "\n" " " paragraph)
          (rstrip_slash url_base <> ("/" <> (module_name <> "/"))),
    )
    else none
