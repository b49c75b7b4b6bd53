-- ===== src/Build/Posts.antt =====
-- The posts that the task `blog` of pavement.py makes.
use pymotw.Prelude.{
  Char, ◌≡◌, refl, String, ◌<>◌, true, false, if◌then◌else◌, arith, Bool-cases, inl, inr,
  starts_with, has_sub,
}
use Prim.Native.String.append
use pymotw.Build.{post_title}

starts-append : (p s t : String) → starts_with p s ≡ true → starts_with p (s <> t) ≡ true
unfolding starts_with
starts-append String.[] s t h = refl
starts-append (String.◌∷◌ p ps) String.[] t h = cc
starts-append (String.◌∷◌ p ps) (String.◌∷◌ c s) t h =
    rw (append.cons c s t) (let ih = starts-append ps s t in ground arith)

starts_own : (p : String) → starts_with p p ≡ true
unfolding starts_with
starts_own String.[] = refl
starts_own (String.◌∷◌ c p) = let ih = starts_own p in ground arith

starts-has : (p s : String) → starts_with p s ≡ true → has_sub p s ≡ true
unfolding has_sub
starts-has p String.[] h = h
starts-has p (String.◌∷◌ c s) h = ground arith

has_below :
    (p : String) (c : Char) (s : String)
    → starts_with p (String.◌∷◌ c s) ≡ false
    → has_sub p (String.◌∷◌ c s) ≡ true
    → has_sub p s ≡ true
unfolding has_sub
has_below p c s e h = ground arith

has-append : (p s t : String) → has_sub p s ≡ true → has_sub p (s <> t) ≡ true
unfolding has_sub
has-append p String.[] t h = starts-has p _ (starts-append p "" t h)
has-append p (String.◌∷◌ c s) t h = elim (Bool-cases (starts_with p (String.◌∷◌ c s))) [
  | inl e ↦ starts-has p _ (starts-append p (String.◌∷◌ c s) t e)
  | inr e ↦ rw (append.cons c s t) (let ih = has-append p s t (has_below p c s e h) in ground arith)
]

append-has : (p s t : String) → has_sub p t ≡ true → has_sub p (s <> t) ≡ true
unfolding has_sub
append-has p String.[] t h = rw (append.nil t) h
append-has p (String.◌∷◌ c s) t h =
    rw (append.cons c s t) (let ih = append-has p s t h in ground arith)

named_has :
    (m title : String) → has_sub m (if has_sub m title then title else m <> (" - " <> title)) ≡ true
named_has m title = elim (Bool-cases (has_sub m title)) [
  | inl e ↦ rw e e
  | inr e ↦ rw e (has-append m m _ (starts-has m m (starts_own m)))
]

marked_has :
    (m n mark s : String)
    → has_sub mark s ≡ true
    → has_sub m n ≡ true
    → (has_sub m (if has_sub mark n then n else n <> s) ≡ true)
      × (has_sub mark (if has_sub mark n then n else n <> s) ≡ true)
marked_has m n mark s k h = elim (Bool-cases (has_sub mark n)) [
  | inl e ↦ rw e (h, e)
  | inr e ↦ rw e (has-append m n s h, append-has mark n s k)
]

-- The title of a post contains the name of the module, and it contains the mark of the series.
pub has_sub-post_title :
    (module_name title : String)
    → (has_sub module_name (post_title module_name title) ≡ true)
      × (has_sub "PyMOTW 3" (post_title module_name title) ≡ true)
unfolding post_title has_sub starts_with
has_sub-post_title m title =
    marked_has m (if has_sub m title then title else m <> (" - " <> title)) "PyMOTW 3" " — PyMOTW 3"
      refl (named_has m title)
