-- ===== src/SettingsTool/Tests.antt =====
-- Runs of settings over a kernel with three settings, and the theorems on the option -r at it.
use aquabsd_pkg_repo.Base.{
  ℕ, Bool-cases, inl, inr, ◌≡◌, refl, some, [], ◌∷◌, ◌++◌, arith, if◌then◌else◌, false,
}
use aquabsd_pkg_repo.Base.Bytes.{Bytes, str_eq, str_eq_iff, codes, c_string, format}
use aquabsd_pkg_repo.Base.Decimal.{decimal}
use aquabsd_pkg_repo.Base.Prog.{ok, failed, done, exited, fault}
use aquabsd_pkg_repo.Base.Getopt.{opt, getopt}
use aquabsd_pkg_repo.Settings.{Process, kern, boot, free_owned, duplicate, Sysctl}
use aquabsd_pkg_repo.Settings.Query.{kind_of, type_of, privilege_of, query_sysctl, sysctl_fill}
use aquabsd_pkg_repo.Settings.Listing.{settings_list, stack_add}
use aquabsd_pkg_repo.Settings.Access.{setting_free}
use aquabsd_pkg_repo.Settings.Tests.{
  small, start, ostype, maxfiles, ostype-Described, maxfiles-Described, deep, deep-Described,
}
use aquabsd_pkg_repo.SettingsTool.{main, type_number}
use aquabsd_pkg_repo.SettingsTool.Failing.{Reports, main-Reports}
use aquabsd_pkg_repo.SettingsTool.Whole.{main-Walk, main-string}
use aquabsd_pkg_repo.Settings.Listing.Walk.{end, step}
use aquabsd_pkg_repo.Base.Goes.{Goes, Ends}
use aquabsd_pkg_repo.Settings.Ownership.Tests.{trusted, trusted-IsTrusted}
use aquabsd_pkg_repo.Settings.Ownership.Collecting.{Enumerates}
use aquabsd_pkg_repo.Settings.Fill.{Described}
use aquabsd_pkg_repo.SettingsTool.Verbose.Printing.{Printed, Cut}
use aquabsd_pkg_repo.SettingsTool.Verbose.{main-text}
use aquabsd_pkg_repo.SettingsTool.Parsing.{Reported}
use aquabsd_pkg_repo.SettingsTool.Ending.{main-Succeeds}
use aquabsd_pkg_repo.SettingsTool.Ending.Reading.{HasValues}
use mathlib.Core.Path.{subst}
use aquabsd_pkg_repo.SettingsTool.Order.{main-Swaps}
use aquabsd_pkg_repo.Base.Swaps.{swap}
use aquabsd_pkg_repo.SettingsTool.Refused.{
  main-over, main-wrong_privilege, main-unsupported, main-no_value,
}

main-wrong_privilege_example :
    (t : Process) × (main small 3
        (codes "settings")
        (codes "-b" ∷ codes "-r" ∷ codes "kern.ostype" ∷ [])
        start
      ≡ exited 1 t)
    × (t.stdout ≡ [])
    × (t.stderr ≡ [] ++ (codes "settings_search: Incorrect privileges" ∷ []))
unfolding privilege_of
main-wrong_privilege_example =
    main-wrong_privilege small 3 (codes "settings") boot (codes "kern.ostype") ostype start
      (omega arith) refl ostype-Described refl refl

main-unsupported_example :
    (t : Process) × (main small 3
        (codes "settings")
        (codes "-b" ∷ codes "-r" ∷ codes "kern.maxfiles" ∷ [])
        start
      ≡ exited 1 t)
    × (t.stdout ≡ [])
    × (t.stderr
        ≡ []
          ++ (format
                (codes "Unsupported type: %d")
                (decimal (type_number (type_of small maxfiles.kind maxfiles.fmt)) ∷ [])
              ∷ []))
unfolding privilege_of type_of type_number
main-unsupported_example =
    main-unsupported small 3 (codes "settings") boot (codes "kern.maxfiles") maxfiles start
      (omega arith) refl maxfiles-Described refl (7 ∷ 0 ∷ 0 ∷ 0 ∷ []) refl (4, refl, refl) refl

-- The same kernel, where the values cannot be had once their sizes are known.
abbrev refusing : Sysctl
refusing = record small {
  sysctl = λ name size. if str_eq name ostype.oid then failed 1 else small.sysctl name size;
}

refusing-ostype : Described refusing ostype
unfolding kind_of c_string
refusing-ostype = (_, refl, refl, _, refl, refl)

main-no_value_example :
    main refusing 3 (codes "settings") (codes "-k" ∷ codes "-r" ∷ codes "kern.ostype" ∷ []) start
    ≡ fault
unfolding privilege_of type_of
main-no_value_example =
    main-no_value refusing 3 (codes "settings") kern (codes "kern.ostype") ostype start
      (omega arith) refl refusing-ostype refl refl refl (inr (8, 1, refl, refl))

main-over_example :
    main small 3 (codes "settings") (codes "-k" ∷ codes "-r" ∷ codes "x.y" ∷ []) start ≡ fault
unfolding privilege_of
main-over_example =
    main-over small 3 (codes "settings") kern (codes "x.y") deep start (omega arith) refl
      deep-Described refl refl

main-string_example :
    (t : Process) × (main small 3
        (codes "settings")
        (codes "-k" ∷ codes "-r" ∷ codes "kern.ostype" ∷ [])
        start
      ≡ done 0 t)
    × (t.stdout ≡ [] ++ ((codes "aquaBSD" ++ (10 ∷ [])) ∷ []))
unfolding privilege_of type_of c_string
main-string_example =
    main-string small 3 (codes "settings") kern (codes "kern.ostype") (codes "aquaBSD")
      (codes "aquaBSD" ++ (0 ∷ [])) ostype start (omega arith) refl ostype-Described refl refl
      (8, refl, refl) refl refl

main-Walk_example :
    (t : Process) × (main small 3 (codes "settings") (codes "-k" ∷ []) start ≡ done 0 t)
    × (t.stdout ≡ (codes "kern.ostype" ++ (10 ∷ [])) ∷ (codes "kern.maxfiles" ++ (10 ∷ [])) ∷ [])
    × (t.stderr ≡ [])
main-Walk_example =
    main-Walk small 3 (codes "settings") kern start (omega arith)
      (step refl ostype-Described (step refl maxfiles-Described (end refl))) (refl, (refl, tt))
      (omega arith)

-- The same kernel, where the walk ends with another error than the one that means its end.
abbrev failing : Sysctl
failing = record small { enoent = 45 }

main-Reports_example :
    Reports failing 2 refl start (main failing 3 (codes "settings") (codes "-b" ∷ []) start)
main-Reports_example =
    main-Reports failing 2 refl 3 (codes "settings") boot start (omega arith) refl
      (step refl ostype-Described (step refl maxfiles-Described (end refl))) (refl, (refl, tt))
      (omega arith)

main_lists :
    (t : Process) × (main small 3 (codes "settings") (codes "-k" ∷ []) start ≡ done 0 t)
    × (t.stdout ≡ (codes "kern.ostype" ++ (10 ∷ [])) ∷ (codes "kern.maxfiles" ++ (10 ∷ [])) ∷ [])
unfolding main getopt settings_list query_sysctl c_string stack_add free_owned duplicate sysctl_fill
    setting_free
main_lists = (_, refl, refl)

main-Swaps_example :
    main small 3 (codes "settings") (codes "-v" ∷ codes "-k" ∷ []) start
    ≡ main small 3 (codes "settings") (codes "-kv" ∷ []) start
unfolding getopt
main-Swaps_example =
    main-Swaps small (codes "settings") 3 (codes "-v" ∷ codes "-k" ∷ []) (codes "-kv" ∷ []) start
      (swap (opt b'v' []) (opt b'k' []) [] (λ e. omega arith))

trusted-HasValues : HasValues trusted
unfolding c_string kind_of
trusted-HasValues = record {
  sized = λ oid len e. elim (Bool-cases (str_eq ostype.oid oid)) [
    | inl here ↦
        subst (λ o. (value : Bytes) × (trusted.sysctl o len ≡ ok value))
          ((str_eq_iff ostype.oid oid).0 here) (codes "aquaBSD" ++ (0 ∷ []), refl)
    | inr other_one ↦ let unknown = rw other_one at e in absurd cc
  ];
  text = λ oid answer kind fmt e decoded k. elim (Bool-cases (str_eq ostype.oid oid)) [
    | inl here ↦
        subst
          (λ o.
            (len : ℕ) × (value : Bytes) × (text : Bytes) × (trusted.sysctl_size o ≡ ok len)
            × (trusted.sysctl o len ≡ ok value)
            × (c_string value ≡ some text))
          ((str_eq_iff ostype.oid oid).0 here)
          (8, codes "aquaBSD" ++ (0 ∷ []), codes "aquaBSD", refl, refl, refl)
    | inr other_one ↦ let unknown = rw other_one at e in absurd cc
  ];
}

main-Succeeds_example :
    Goes
      (λ code t. code ≡ 0)
      Reported
      (Enumerates trusted 2 (1 ∷ []))
      (main trusted 2
        (codes "settings")
        (codes "-kv" ∷ codes "-r" ∷ codes "kern.ostype" ∷ [])
        start)
main-Succeeds_example =
    main-Succeeds trusted trusted-IsTrusted trusted-HasValues 2 (codes "settings")
      (codes "-kv" ∷ codes "-r" ∷ codes "kern.ostype" ∷ []) start
      (record {
        told = tt;
        owned = λ n. omega arith;
        once = λ n. omega arith;
        unused = λ n le. refl;
      })

-- The kernel with three settings, and a text for each but none for an empty OID.
abbrev telling : Sysctl
telling = record small {
  sysctl = λ name size.
      if str_eq name (0 ∷ 5 ∷ ostype.oid)
      then ok (codes "text" ++ (0 ∷ []))
      else if str_eq name (0 ∷ 5 ∷ maxfiles.oid)
      then ok (codes "text" ++ (0 ∷ []))
      else small.sysctl name size;
}

telling-ostype : Described telling ostype
unfolding kind_of c_string
telling-ostype = (_, refl, refl, _, refl, refl)

telling-maxfiles : Described telling maxfiles
unfolding kind_of c_string
telling-maxfiles = (_, refl, refl, _, refl, refl)

abbrev line_of : Bytes → Bytes
line_of key = format (codes "%s (%s)") (key ∷ codes "text" ∷ []) ++ (10 ∷ [])

-- The second setting has the other privilege.
main-text_example :
    Ends
      (λ code t. (code ≡ 0) × Printed false (line_of (codes "kern.ostype") ∷ []) [] code t)
      (Cut false (line_of (codes "kern.ostype") ∷ []) [])
      (main telling 3 (codes "settings") (codes "-v" ∷ codes "-k" ∷ []) start)
unfolding privilege_of c_string
main-text_example =
    main-text telling 3 (codes "settings") (λ e. codes "text") 2 refl kern start (omega arith)
      (step refl telling-ostype (step refl telling-maxfiles (end refl))) (refl, (refl, tt))
      (omega arith) ((_, refl, refl), ((_, refl, refl), tt)) refl
