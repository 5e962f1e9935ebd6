-- ===== src/SettingsTool/Verbose/Printing.antt =====
-- `print_setting` with the option -v: the call of setting_read_descr, and the line.
use aquabsd_pkg_repo.Base.{
  ℕ, ◌≡◌, refl, Bool, true, false, Option, none, some, List, [], ◌∷◌, ◌++◌, if◌then◌else◌, arith,
}
use aquabsd_pkg_repo.Base.Bytes.{Bytes, codes, format, c_string}
use aquabsd_pkg_repo.Base.Prog.{done, exited, ◌>>=◌}
use aquabsd_pkg_repo.Settings.{
  ok, failed, Privilege, Owned, Setting, Sysctl, Process, free_owned, duplicate, malloc, emit_error,
  message, settings_error_str,
}
use aquabsd_pkg_repo.Settings.Heap.{allocated}
use aquabsd_pkg_repo.Settings.Blocks.{Holds, blocks_onto, block_list, count-append}
use aquabsd_pkg_repo.Settings.Fill.{Entry, is_asked, query_sysctl-ok}
use aquabsd_pkg_repo.Settings.Query.{query_sysctl, query_name}
use aquabsd_pkg_repo.Settings.Access.{setting_read_descr, oid_of}
use aquabsd_pkg_repo.Settings.Listing.Adding.{contents_of}
use aquabsd_pkg_repo.SettingsTool.{Opts, print_setting, print, text_of, library_errx, errx}

pub oid_of-contents :
    (x : Setting) (o : Option (List ℕ))
    → contents_of x.oid ≡ o
    → oid_of x ≡ (elim o [ none ↦ [] | some oid ↦ oid ])
unfolding oid_of
oid_of-contents x o e = oid_cases x.oid o e
  where
    oid_cases :
        (p : Option (Owned (List ℕ))) (o : Option (List ℕ))
        → contents_of p ≡ o
        → (elim p [ none ↦ [] | some q ↦ q.value ]) ≡ (elim o [ none ↦ [] | some oid ↦ oid ])
    oid_cases none none e = refl
    oid_cases none (some oid) e = absurd (cc)
    oid_cases (some p) none e = absurd (cc)
    oid_cases (some p) (some oid) e = cc

-- All has been printed, or the program has ended in between with a message.
abbrev pub Printed : {A : Type 0} → Bool → List Bytes → List Bytes → A → Process → Type 0
Printed whole out errs a t = (whole ≡ true) × (t.stdout ≡ out) × (t.stderr ≡ errs)

abbrev pub Cut : Bool → List Bytes → List Bytes → ℕ → Process → Type 0
Cut whole out errs code t =
    (whole ≡ false)
    × (code ≡ 1)
    × (t.stdout ≡ out)
    × ((text : Bytes) × (t.stderr ≡ errs ++ (text ∷ [])))

module _ (K : Sysctl) where
  -- The kernel gives the description of an entry, a text.
  abbrev pub HasText : (Entry → Bytes) → Entry → Type 0
  HasText text_for e =
      (value : Bytes) × (K.sysctl (K.ctl_sysctl ∷ K.ctl_sysctl_oiddescr ∷ e.oid) K.bufsiz
        ≡ ok value)
      × (c_string value ≡ some (text_for e))

  pub described : Setting → ℕ → Bytes → Setting
  described x block text = record x { descr = some (record { block = block; value = text }) }

  pub described-Holds :
      (x : Setting) (bs : List ℕ) (block : ℕ) (text : Bytes) (live : List ℕ)
      → Holds (blocks_onto x bs) live
      → Holds (blocks_onto (described x block text) bs) (block ∷ live)
  unfolding described
  described-Holds x bs block text live h n =
      let o = block_list x.oid ++ bs in
      let c = block_list x.contents ++ o in
      omega (
        arith,
        h n,
        count-append n (block_list x.key) (block_list x.descr ++ c),
        count-append n (block_list x.descr) c,
        count-append n (block_list x.key) (block ∷ c),
      )

  read_descr_ok :
      (x : Setting) (oid : List ℕ) (value text : Bytes) (s : Process)
      → oid_of x ≡ oid
      → K.sysctl (K.ctl_sysctl ∷ K.ctl_sysctl_oiddescr ∷ oid) K.bufsiz ≡ ok value
      → c_string value ≡ some text
      → setting_read_descr K x s ≡ done (some (described x s.next text)) (allocated s)
  unfolding setting_read_descr duplicate malloc described
  read_descr_ok x oid value text s o e c =
      rw
        (
          query_sysctl-ok K K.ctl_sysctl_oiddescr (oid_of x) value s (rw o e),
          setting_read_descr,
          ◌>>=◌,
        )
        (rw c refl)

  read_descr_failed :
      (x : Setting) (errno : ℕ) (s : Process)
      → oid_of x ≡ []
      → s.error_str ≡ none
      → K.sysctl (K.ctl_sysctl ∷ K.ctl_sysctl_oiddescr ∷ []) K.bufsiz ≡ failed errno
      → (p : Owned Bytes) × (setting_read_descr K x s
          ≡ done none (record (allocated s) { error_str = some p }))
  unfolding setting_read_descr query_sysctl emit_error free_owned duplicate malloc
  read_descr_failed x errno s o no_text e = (
    record {
      block = s.next;
      value =
          message (codes "sysctl(query %s): %s") (some (query_name K K.ctl_sysctl_oiddescr))
            (some (K.strerror errno));
    },
    rw (o, setting_read_descr, query_sysctl) (rw (e, ◌>>=◌) (rw no_text refl)),
  )

  -- The line of an entry with its description, and the lines up to the first entry of another
  -- privilege.
  abbrev pub text_line : (Entry → Bytes) → Entry → Bytes
  text_line text_for e = format (codes "%s (%s)") (e.key ∷ text_for e ∷ []) ++ (10 ∷ [])

  abbrev pub text_lines : Privilege → (Entry → Bytes) → List Entry → List Bytes
  text_lines privilege text_for [] = []
  text_lines privilege text_for (e ∷ es) =
      if is_asked K privilege e then text_line text_for e ∷ text_lines privilege text_for es else []

  abbrev pub all_asked : Privilege → List Entry → Bool
  all_asked privilege [] = true
  all_asked privilege (e ∷ es) = if is_asked K privilege e then all_asked privilege es else false

  module _ (opts : Opts) (loud : opts.verbose ≡ true) where
    pub print_verbose :
        (x : Setting) (oid : List ℕ) (value text : Bytes) (p : Owned Bytes) (s : Process)
        → oid_of x ≡ oid
        → K.sysctl (K.ctl_sysctl ∷ K.ctl_sysctl_oiddescr ∷ oid) K.bufsiz ≡ ok value
        → c_string value ≡ some text
        → x.key ≡ some p
        → print_setting K opts x s
          ≡ done (described x s.next text) (record (allocated s) {
            stdout =
                s.stdout ++ ((format (codes "%s (%s)") (p.value ∷ text ∷ []) ++ (10 ∷ [])) ∷ []);
          })
    unfolding print_setting text_of print described
    print_verbose x oid value text p s o e c k =
        rw (loud, print_setting)
          (rw (read_descr_ok x oid value text s o e c, ◌>>=◌) (rw (k, text_of) refl))

    pub print_refused :
        (x : Setting) (errno : ℕ) (s : Process)
        → oid_of x ≡ []
        → s.error_str ≡ none
        → K.sysctl (K.ctl_sysctl ∷ K.ctl_sysctl_oiddescr ∷ []) K.bufsiz ≡ failed errno
        → (t : Process) × (text : Bytes) × (print_setting K opts x s ≡ exited 1 t)
          × (t.stdout ≡ s.stdout)
          × (t.stderr ≡ s.stderr ++ (text ∷ []))
    unfolding print_setting library_errx errx settings_error_str
    print_refused x errno s o no_text e =
        let (p, run) = read_descr_failed x errno s o no_text e in
        (
          record (allocated s) {
            error_str = some p;
            stderr = s.stderr ++ (format (codes "setting_read_descr: %s") (p.value ∷ []) ∷ []);
          },
          format (codes "setting_read_descr: %s") (p.value ∷ []),
          rw (loud, print_setting) (rw (run, ◌>>=◌) refl),
          refl,
          refl,
        )
