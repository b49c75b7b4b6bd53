-- ===== src/Shelve/Loading.antt =====
-- The loader of source/sys/sys_shelve_importer.py on a module that is loaded again, or that fails.
use pymotw.Prelude.{
  ℕ, ◌≡◌, refl, sym, ap, ◌∙◌, String, Bool, true, false, Option, some, none, List, [], ◌∷◌,
  if◌then◌else◌, ◌==◌, is_some, arith, Bool-cases, inl, inr, eq_iff,
}
use pymotw.Prelude.Program.{Result, ok, raised, pure, gets, update, continue, ◌>>=◌, ◌>>◌}
use pymotw.Shelve.{
  Error, Shelf, entry, entries, fetch, World, Interpreter, Module, with_shelf, mk_init_name,
  source_in, get_source, parent_package, load_module, module_of, new_module, change, set_module,
  set_properties, set_package, set_path, is_package, get_filename,
}

-- What loading makes of a module object.
abbrev loaded : World → String → String → Bool → Module → Module
loaded w path_entry fullname packaged m = record {
  file = some (w.path_join path_entry fullname);
  name = fullname;
  search_path = some (if packaged then entries (path_entry ∷ []) else entry path_entry);
  loader = some path_entry;
  package_name = some (if packaged then fullname else parent_package fullname);
}

change-change :
    (i : ℕ) (f g : Module → Module) (os : List (ℕ × Module))
    → change i f (change i g os) ≡ change i (λ m. f (g m)) os
unfolding change
change-change i f g [] = refl
change-change i f g ((j, m) ∷ os) =
    let ih = change-change i f g os in
    elim (Bool-cases (i == j)) [
      | inl e ↦ rw e (ap (λ l. (j, f (g m)) ∷ l) ih)
      | inr e ↦ rw e (ap (λ l. (j, m) ∷ l) ih)
    ]

fetch_own :
    {A : Type 0} (k : String) (a : A) (d : List (String × A)) → fetch k ((k, a) ∷ d) ≡ some a
unfolding fetch
fetch_own k a d = rw ((eq_iff k k).1 refl) refl

module _ (w : World) (path_entry fullname : String) (db : Shelf) where
  abbrev packaged : Bool
  packaged = is_some (fetch (mk_init_name fullname) db)

  abbrev prepared : ℕ → Interpreter → Interpreter
  prepared i u = record u { objects = change i (loaded w path_entry fullname packaged) u.objects }

  twice :
      (i : ℕ) (u : Interpreter) (f g : Module → Module)
      → record u { objects = change i f (change i g u.objects) }
        ≡ record u { objects = change i (λ m. f (g m)) u.objects }
  twice i u f g = ap (λ os. record u { objects = os }) (change-change i f g u.objects)

  set_all :
      (b : Bool) (i : ℕ) (u : Interpreter)
      → (set_properties w path_entry fullname i
            >> (set_package path_entry fullname b i >> set_path path_entry b i))
          u
        ≡ (ok tt, record u { objects = change i (loaded w path_entry fullname b) u.objects })
  unfolding set_properties set_package set_path set_module update pure get_filename ◌>>◌ ◌>>=◌
      continue
  set_all true i u =
      ap (λ v. (ok tt, v))
        (ap
            (λ os. record u {
              objects =
                  change i (λ m. record m { search_path = some (entries (path_entry ∷ [])) }) os;
            })
            (change-change i _ _ u.objects)
          ∙ twice i u _ _)
  set_all false i u = ap (λ v. (ok tt, v)) (twice i u _ _)

  run :
      (source : String) (i : ℕ) (st u : Interpreter)
      → w.open_shelf path_entry ≡ ok db
      → source_in fullname (ok db) ≡ ok source
      → module_of fullname (fetch fullname st.sys_modules) st ≡ (ok i, u)
      → load_module w path_entry fullname st ≡ (w.exec source i >> pure i) (prepared i u)
  unfolding load_module get_source is_package with_shelf gets pure ◌>>◌ ◌>>=◌ continue
      set_properties set_package set_path set_module update get_filename
  run source i st u p q r = let e = set_all packaged i u in ground arith

-- The module object is the one of sys.modules, which has it then.
own_module :
    (fullname : String) (st : Interpreter) (o : Option ℕ)
    → fetch fullname st.sys_modules ≡ o
    → (i : ℕ) × (u : Interpreter) × (module_of fullname o st ≡ (ok i, u))
      × (fetch fullname u.sys_modules ≡ some i)
unfolding module_of new_module update gets pure ◌>>◌ ◌>>=◌ continue
own_module fullname st none e = (st.fresh, _, refl, fetch_own fullname st.fresh st.sys_modules)
own_module fullname st (some i) e = (i, st, refl, e)

present_module :
    (fullname : String) (i : ℕ) (t : Interpreter)
    → fetch fullname t.sys_modules ≡ some i
    → module_of fullname (fetch fullname t.sys_modules) t ≡ (ok i, t)
unfolding module_of pure
present_module fullname i t e = ground arith

module _ (w : World) (path_entry fullname source : String) (db : Shelf) (st : Interpreter)
    (p : w.open_shelf path_entry ≡ ok db) (q : source_in fullname (ok db) ≡ ok source) where
  executed :
      (v : Result Error (Unit {0}))
      → ((i : ℕ) (u : Interpreter) → w.exec source i u ≡ (v, u))
      → (i : ℕ) × (u : Interpreter) × (load_module w path_entry fullname st
          ≡ continue (λ x. pure i) v (prepared w path_entry fullname db i u))
        × (fetch fullname u.sys_modules ≡ some i)
  unfolding ◌>>◌ ◌>>=◌
  executed v x =
      let (i, u, e, f) = own_module fullname st (fetch fullname st.sys_modules) refl in
      (
        i,
        u,
        run w path_entry fullname db source i st u p q e
            ∙ ap (λ r. continue (λ x. pure i) r.0 r.1) (x i _),
        f,
      )

  -- If the shelf opens and has the source of the module, and its code returns and changes nothing in the
  -- interpreter, then loading the module behind a load of it gives the same module object, and leaves the
  -- interpreter, all module objects included, as the first one did.
  pub load_module-again :
      ((i : ℕ) (u : Interpreter) → w.exec source i u ≡ (ok tt, u))
      → load_module w path_entry fullname (load_module w path_entry fullname st).1
        ≡ load_module w path_entry fullname st
  unfolding ◌>>◌ ◌>>=◌ continue pure
  load_module-again x =
      let (i, u, e, f) = executed (ok tt) x in
      let t : Interpreter = prepared w path_entry fullname db i u in
      let again = run w path_entry fullname db source i t t p q (present_module fullname i t f) in
      ap (λ r. load_module w path_entry fullname r.1) e
      ∙ (again
          ∙ (ap (λ r. continue (λ x. pure i) r.0 r.1) (x i (prepared w path_entry fullname db i t))
              ∙ (ap (λ v. (ok i, v)) (twice w path_entry fullname db i u _ _) ∙ sym e)))

  -- If the shelf opens and has the source of the module, and its code raises and changes nothing in the
  -- interpreter, then the load raises the same, and sys.modules has the module all the same.
  pub load_module-failed :
      (error : Error)
      → ((i : ℕ) (u : Interpreter) → w.exec source i u ≡ (raised error, u))
      → ((load_module w path_entry fullname st).0 ≡ raised error)
        × (is_some (fetch fullname (load_module w path_entry fullname st).1.sys_modules) ≡ true)
  unfolding continue
  load_module-failed error x =
      let (i, u, e, f) = executed (raised error) x in
      (ap (λ r. r.0) e, ap (λ r. is_some (fetch fullname r.1.sys_modules)) e ∙ ap is_some f)
