-- ===== src/Kld/Load/Route.antt =====
-- `do_load` of kld.c as a whole, and what of it depends on the search path.
use aquabsd_pkg_repo.Base.{
  ℕ, ◌≡◌, ◌≢◌, refl, sym, Bool, true, false, none, some, List, [], ◌∷◌, ◌++◌, All, ℤ, negsuc,
  if◌then◌else◌, Bool-cases, inl, inr, ◌⊎◌,
}
use mathlib.Core.Path.{subst}
use aquabsd_pkg_repo.Base.Bytes.{Bytes, codes, format, str_chr, str_str, c_string, strsep}
use aquabsd_pkg_repo.Base.Prog.{Outcome, done, ◌>>=◌}
use aquabsd_pkg_repo.Kld.{Linker, Opts, FileId, Process, warn, pathctl}
use aquabsd_pkg_repo.Kld.Load.{load, load_action, load_searched, get_path, get_mib, read_path}
use aquabsd_pkg_repo.Kld.Load.Path.{exists, search_from-Searched}

module _ (L : Linker) where
  -- A file name that is loaded without a look at the search path: one with a slash, one without
  -- ".ko", or one of no file in the current directory.
  abbrev pub IsDirect : Bytes → L.Kernel → Type 0
  IsDirect name k =
      (str_chr b'/' name ≡ true) ⊎ ((str_str name (codes ".ko") ≡ false) ⊎ (L.stat name k ≡ none))

  -- A file of the current directory, by a name that the search path is looked at for.
  abbrev pub IsHere : Bytes → FileId → L.Kernel → Type 0
  IsHere name here k =
      (str_chr b'/' name ≡ false)
      × (str_str name (codes ".ko") ≡ true)
      × (L.stat name k ≡ some here)

  -- do_load of a name that has a slash, has no ".ko" or is not in the current directory goes
  -- straight to kldload, whatever the search path.
  pub load_action-IsDirect :
      (opts : Opts) (name : Bytes) (s : Process L)
      → opts.file ≡ some name
      → IsDirect name s.kernel
      → load_action L opts s ≡ load L opts name s
  unfolding load_action
  load_action-IsDirect opts name s f (inl slash) = rw (f, load_action) (rw slash refl)
  load_action-IsDirect opts name s f (inr (inl ko)) =
      rw (f, load_action)
        (elim (Bool-cases (str_chr b'/' name)) [
          | inl slash ↦ rw slash refl
          | inr plain ↦ rw plain (rw ko refl)
        ])
  load_action-IsDirect opts name s f (inr (inr absent)) =
      rw (f, load_action)
        (elim (Bool-cases (str_chr b'/' name)) [
          | inl slash ↦ rw slash refl
          | inr plain ↦ rw plain (elim (Bool-cases (str_str name (codes ".ko"))) [
            | inl ko ↦ rw ko (rw absent refl)
            | inr other ↦ rw other refl
          ])
        ])

  -- The kernel gives the value of kern.module_path, which is a path.
  abbrev pub HasPath : L.Kernel → List Bytes → Type 0
  HasPath k path =
      (mib : List ℕ) × (len : ℕ) × (value text : Bytes) × (L.sysctlnametomib pathctl k ≡ some mib)
      × (L.sysctl_size mib k ≡ some len)
      × (L.sysctl_data mib len k ≡ some value)
      × (c_string value ≡ some text)
      × (strsep b';' text ≡ path)

  module _ (opts : Opts) (name : Bytes) (here : FileId) (s : Process L) where
    -- The options before the path has been looked up.
    abbrev pub asking : Opts
    asking = record opts { file = some name; mib = [] }

    pub load_action-here :
        IsHere name here s.kernel → load_action L asking s ≡ load_searched L asking name here s
    unfolding load_action
    load_action-here (slash, ko, st) = rw (slash, load_action) (rw ko (rw st refl))

    pub get_path-read :
        (mib : List ℕ) (len : ℕ) (value : Bytes)
        → L.sysctlnametomib pathctl s.kernel ≡ some mib
        → L.sysctl_size mib s.kernel ≡ some len
        → L.sysctl_data mib len s.kernel ≡ some value
        → get_path L asking s ≡ done (record asking { mib = mib; path = some value }) s
    unfolding get_path get_mib read_path
    get_path-read mib len value a b c =
        rw (a, get_path, get_mib, ◌>>=◌) (rw (b, read_path) (rw c refl))

    -- The end of do_load, by whether the search has found an element.
    abbrev pub Ends : Bool → Outcome (Process L) ℤ → Type 0
    Ends found r =
        (opts' : Opts) × (errs : List Bytes) × (opts'.verbose ≡ opts.verbose)
        × (r ≡ (
            if found
            then load L opts' name (record s { stderr = s.stderr ++ errs })
            else done (negsuc 0) (record s {
              stderr =
                  (s.stderr ++ errs)
                  ++ (format (codes "%s is not in module search path") (name ∷ []) ∷ []);
            })))

    load_searched-read :
        (mib : List ℕ) (len : ℕ) (value text : Bytes)
        → L.sysctlnametomib pathctl s.kernel ≡ some mib
        → L.sysctl_size mib s.kernel ≡ some len
        → L.sysctl_data mib len s.kernel ≡ some value
        → c_string value ≡ some text
        → All (λ elem. elem ≢ []) (strsep b';' text)
        → Ends (exists L s.kernel (strsep b';' text)) (load_searched L asking name here s)
    unfolding load_searched warn
    load_searched-read mib len value text a b c d h =
        let (errs, r) = search_from-Searched L name here (strsep b';' text) s h in
        (
          record asking { mib = mib; path = some value },
          errs,
          refl,
          rw (get_path-read mib len value a b c, load_searched, ◌>>=◌)
              (rw d (
                rw (r, ◌>>=◌)
                  (elim (Bool-cases (exists L s.kernel (strsep b';' text))) [
                    | inl present ↦ rw present refl
                    | inr missing ↦ rw missing refl
                  ]))),
        )

    -- do_load of a file of the current directory whose name has ".ko" and no slash, where
    -- kern.module_path can be read and has no empty element: where some element of the path
    -- exists, it goes on to kldload, after warnings at most and with the option -v as given;
    -- where none does, it loads nothing, warns and returns -1.
    pub load_action-IsHere :
        (path : List Bytes)
        → IsHere name here s.kernel
        → HasPath s.kernel path
        → All (λ elem. elem ≢ []) path
        → Ends (exists L s.kernel path) (load_action L asking s)
    load_action-IsHere path is_here (mib, len, value, text, a, b, c, d, e) h =
        subst (λ r. Ends (exists L s.kernel path) r) (sym (load_action-here is_here))
          (subst
            (λ p.
              All (λ elem. elem ≢ []) p
              → Ends (exists L s.kernel p) (load_searched L asking name here s))
            e (load_searched-read mib len value text a b c d) h)
