-- ===== src/Kld/Tests.antt =====
-- A kernel with two files, the first of two modules, and the theorems on kld at it.
use aquabsd_pkg_repo.Base.{
  ◌≡◌, refl, true, false, some, none, [], ◌∷◌, ◌++◌, if◌then◌else◌, ◌==◌, pos, negsuc, arith, inl,
  inr, Option, All, ap, ◌≢◌, ◌⊎◌,
}
use mathlib.Core.List.{flat_map}
use aquabsd_pkg_repo.Base.Bytes.{c_string, strsep, codes, str_eq, strtoul, Bytes}
use aquabsd_pkg_repo.Base.Decimal.{decimal}
use aquabsd_pkg_repo.Base.Getopt.{getopt, opt}
use aquabsd_pkg_repo.Base.Prog.{done, running, fault}
use aquabsd_pkg_repo.Kld.{
  usage, ok, failed, Linker, ModuleStat, KldFileStat, Opts, defaults, Process, do_unload,
}
use aquabsd_pkg_repo.Kld.Listing.Rounds.{end, link}
use aquabsd_pkg_repo.Kld.Listing.Chain.{module_out, module_errs}
use aquabsd_pkg_repo.Kld.Load.{kld_path}
use aquabsd_pkg_repo.Kld.Load.Path.{kld_path-eq-elem, exists}
use aquabsd_pkg_repo.Kld.Main.{parse, parse_one, set_id, main}
use aquabsd_pkg_repo.Kld.Main.Verbose.{SameRun, main-SameRun}
use mathlib.Core.Path.{subst}
use aquabsd_pkg_repo.Base.Goes.{Goes}
use aquabsd_pkg_repo.Kld.Listing.Ending.{Reported, Stuck}
use aquabsd_pkg_repo.Kld.Load.Ending.{HasNoEmpty}
use aquabsd_pkg_repo.Kld.Main.Ending.{Ended, main-Ended}
use aquabsd_pkg_repo.Kld.Main.Modules.{main-modules, main_stuck}
use aquabsd_pkg_repo.Kld.Main.Empty.{main-empty_element}
use aquabsd_pkg_repo.Kld.Main.Loading.{Loaded, main-loads}
use aquabsd_pkg_repo.Kld.Main.Order.{main_reordered}
use aquabsd_pkg_repo.Base.Swaps.{swap}
use aquabsd_pkg_repo.Kld.Main.Files.{heading_text, row, main-files}
use aquabsd_pkg_repo.Kld.Main.Unloading.{main-unloads, main-unloads_nothing}

abbrev file_one : KldFileStat
file_one = record {
  id = pos 1;
  refs = pos 9;
  address = 0x200000;
  size = 4096;
  name = codes "kernel";
  pathname = codes "/boot/kernel/kernel";
}

abbrev file_two : KldFileStat
file_two = record {
  id = pos 2;
  refs = pos 1;
  address = 0x800000;
  size = 512;
  name = codes "drm.ko";
  pathname = codes "/boot/modules/drm.ko";
}

abbrev module_five : ModuleStat
module_five = record { id = pos 5; name = codes "cpu"; ulongval = 0 }

abbrev small : Linker
small = record {
  Kernel = Unit;
  kldfind = λ file k. if str_eq file (codes "kernel") then pos 1 else negsuc 0;
  kldnext = λ id k. elim id [
    | pos n ↦ (if n == 0 then pos 1 else if n == 1 then pos 2 else pos 0)
    | negsuc n ↦ negsuc 0
  ];
  kldfirstmod =
      λ id k. elim id [ pos n ↦ (if n == 1 then pos 5 else negsuc 0) | negsuc n ↦ negsuc 0 ];
  modfnext = λ id k. elim id [ pos n ↦ (if n == 5 then pos 6 else pos 0) | negsuc n ↦ negsuc 0 ];
  modstat =
      λ id k. elim id [ pos n ↦ (if n == 5 then some module_five else none) | negsuc n ↦ none ];
  kldstat = λ id k. elim id [
    | pos n ↦ (if n == 1 then some file_one else if n == 2 then some file_two else none)
    | negsuc n ↦ none
  ];
  kldload = λ name k. (ok (pos 3), k);
  kldunloadf = λ id force k. (if force then ok tt else failed 16, k);
  stat = λ path k.
      if str_eq path (codes "drm.ko")
      then some (record { st_dev = 7; st_ino = 7 })
      else if str_eq path (codes "/boot/modules")
      then some (record { st_dev = 1; st_ino = 2 })
      else none;
  sysctlnametomib = λ name k. some (0 ∷ 9 ∷ []);
  sysctl_size = λ mib k. some 14;
  sysctl_data = λ mib len k. some (codes "/boot/modules" ++ (0 ∷ []));
  humanize_number = λ n. codes "4K";
  getprogname = codes "kld";
  eexist = 17;
  enoexec = 8;
}

abbrev start : Process small
start = record { stdout = []; stderr = []; kernel = tt }

abbrev of_kernel : Opts
of_kernel = record defaults { file = some (codes "kernel") }

main-modules_example :
    main small 3 (codes "-n" ∷ codes "kernel" ∷ []) start
    ≡ done 0 (record start {
      stdout =
          (codes " id name" ++ (10 ∷ []))
          ∷ flat_map (module_out small of_kernel tt) (pos 5 ∷ pos 6 ∷ []);
      stderr = flat_map (module_errs small of_kernel tt) (pos 5 ∷ pos 6 ∷ []);
    })
unfolding getopt parse parse_one
main-modules_example =
    main-modules small 3 (codes "-n" ∷ codes "kernel" ∷ []) of_kernel start refl refl refl
      (pos 5 ∷ pos 6 ∷ []) (link (λ h. cc) tt (link (λ h. cc) tt end)) (omega arith)

main-files_example :
    main small 3 (codes "-hv" ∷ codes "-h" ∷ []) start
    ≡ done 0 (record start {
      stdout = heading_text true ∷ row small true true file_one ∷ row small true true file_two ∷ [];
    })
unfolding getopt
main-files_example =
    main-files small 3 (codes "-hv" ∷ codes "-h" ∷ []) (pos 1 ∷ pos 2 ∷ []) start
      (inr (inr (inl refl)), (inr (inr (inr refl)), (inr (inr (inl refl)), tt)))
      (link (λ h. cc) (file_one, refl) (link (λ h. cc) (file_two, refl) end)) (omega arith)

-- A file that the kernel does not have.
abbrev of_nine : Opts
of_nine = record defaults { id = pos 9 }

main_stuck_example : main small 1000 (codes "-i" ∷ codes "9" ∷ []) start ≡ running
unfolding getopt parse parse_one set_id strtoul
main_stuck_example =
    main_stuck small 1000 (codes "-i" ∷ codes "9" ∷ []) of_nine start refl refl refl 0 refl refl

kld_path-eq-elem_example :
    kld_path (codes "/boot/modules") (codes "drm.ko") ≡ some (codes "/boot/modules")
kld_path-eq-elem_example = kld_path-eq-elem (codes "/boot/modules") (codes "drm.ko") (λ h. cc)

-- The same kernel, with an empty element in the path.
abbrev gappy : Linker
gappy = record small { sysctl_data = λ mib len k. some (codes "/none;;/boot/modules" ++ (0 ∷ [])) }

abbrev gappy_start : Process gappy
gappy_start = record { stdout = []; stderr = []; kernel = tt }

main-empty_element_example :
    ((exists gappy tt (codes "/none" ∷ []) ≡ true)
      × Loaded gappy 3
          (codes "drm.ko")
          true
          gappy_start
          (main gappy 3 (codes "-l" ∷ codes "-n" ∷ codes "drm.ko" ∷ []) gappy_start))
    ⊎ ((exists gappy tt (codes "/none" ∷ []) ≡ false)
        × (main gappy 3 (codes "-l" ∷ codes "-n" ∷ codes "drm.ko" ∷ []) gappy_start ≡ fault))
unfolding c_string strsep
main-empty_element_example =
    main-empty_element gappy (codes "drm.ko") (record { st_dev = 7; st_ino = 7 }) gappy_start 3
      (codes "/none" ∷ []) (codes "/boot/modules" ∷ []) (refl, refl, refl)
      (_, _, _, _, refl, refl, refl, refl, refl) ((λ h. cc), tt)

main-unloads_example :
    main small 3 (codes "-uf" ∷ codes "-i" ∷ decimal 4294967297 ∷ []) start ≡ done 0 start
main-unloads_example = main-unloads small 3 true 4294967297 start (omega arith) (omega arith)

main-unloads_nothing_example :
    main small 3 (codes "-u" ∷ codes "-i" ∷ decimal 4294967295 ∷ []) start ≡ usage small start
main-unloads_nothing_example =
    main-unloads_nothing small 3 false 4294967295 start (omega arith) (omega arith)

main-loads_example :
    (t : Process small) × (main small 3 (codes "-l" ∷ codes "-n" ∷ codes "drm.ko" ∷ []) start
      ≡ done 0 t)
    × (t.kernel ≡ tt)
    × (t.stdout ≡ [])
unfolding c_string strsep
main-loads_example = main-loads small 3 (codes "drm.ko") start true (
    inr (
      record { st_dev = 7; st_ino = 7 },
      codes "/boot/modules" ∷ [],
      (refl, refl, refl),
      (_, _, _, _, refl, refl, refl, refl, refl),
      ((λ h. cc), tt),
      refl,
    ))

main_reordered_example :
    main small 3 (codes "-f" ∷ codes "-u" ∷ codes "-i" ∷ codes "1" ∷ []) start
    ≡ main small 3 (codes "-uf" ∷ codes "-i" ∷ codes "1" ∷ []) start
unfolding getopt
main_reordered_example =
    main_reordered small 3 (codes "-f" ∷ codes "-u" ∷ codes "-i" ∷ codes "1" ∷ [])
      (codes "-uf" ∷ codes "-i" ∷ codes "1" ∷ []) start
      (swap (opt b'f' []) (opt b'u' []) (opt b'i' (codes "1") ∷ []) (λ e. omega arith))

main-SameRun_example :
    SameRun small
      (main small 3 (codes "-u" ∷ codes "-i" ∷ codes "1" ∷ []) start)
      (main small 3 (codes "-v" ∷ codes "-u" ∷ codes "-i" ∷ codes "1" ∷ []) start)
unfolding getopt parse parse_one set_id strtoul
main-SameRun_example =
    main-SameRun small 3 (codes "-u" ∷ codes "-i" ∷ codes "1" ∷ [])
      (record defaults { action = do_unload; id = pos 1 }) file_one start refl refl refl refl

main_forces : main small 3 (codes "-uf" ∷ codes "-n" ∷ codes "kernel" ∷ []) start ≡ done 0 start
unfolding main getopt
main_forces = refl

-- The value of the path, by what the kernel gives.
abbrev value_or : Bytes → Option Bytes → Bytes
value_or d none = d
value_or d (some value) = value

abbrev IsFull : Bytes → Type 0
IsFull value = (path : Bytes) × (c_string value ≡ some path) × All (λ e. e ≢ []) (strsep b';' path)

small-HasNoEmpty : HasNoEmpty small
unfolding c_string strsep
small-HasNoEmpty mib len k value named sized e =
    subst IsFull (ap (value_or []) e) (codes "/boot/modules", refl, ((λ h. cc), tt))

main-Ended_example :
    Goes
      (Ended small small-HasNoEmpty 3)
      (Reported small)
      (Stuck small 3 tt)
      (main small 3 (codes "-l" ∷ codes "-n" ∷ codes "drm.ko" ∷ []) start)
main-Ended_example =
    main-Ended small small-HasNoEmpty 3 (codes "-l" ∷ codes "-n" ∷ codes "drm.ko" ∷ []) start
