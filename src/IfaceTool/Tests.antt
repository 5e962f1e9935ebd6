-- ===== src/IfaceTool/Tests.antt =====
-- Runs of iface on a kernel with two links, and the theorems on it there.
use aquabsd_pkg_repo.Base.{
  some, false, ◌<◌, ◌==◌, if◌then◌else◌, ℕ, ◌+◌, ◌≡◌, refl, true, [], ◌∷◌, ◌++◌, pos, negsuc, arith,
  none, List, Bool, All,
}
use mathlib.Core.Path.{subst}
use aquabsd_pkg_repo.Base.Bits.{bit}
use aquabsd_pkg_repo.Base.Bytes.{Bytes, codes}
use aquabsd_pkg_repo.Base.Getopt.{getopt}
use aquabsd_pkg_repo.Base.Prog.{done, fault}
use aquabsd_pkg_repo.Iface.{
  Net, ok, Iface, Ifaces, Process, loop, addr, iface_list, iface_get_flags, iface_error_str,
  iface_get_inet, read_name,
}
use aquabsd_pkg_repo.Iface.Machine.{
  is_open, still-HasDescriptors, still-Keeps, net, still, moving, start, entries, machine, open_one,
  em0,
}
use aquabsd_pkg_repo.IfaceTool.{defaults, parse, parse_one, find_from, main, flag_of}
use aquabsd_pkg_repo.Iface.Listing.{links}
use aquabsd_pkg_repo.IfaceTool.Ending.{Clean, main-Clean}
use aquabsd_pkg_repo.IfaceTool.Parsing.{Reported}
use aquabsd_pkg_repo.Base.Goes.{Ends}
use aquabsd_pkg_repo.IfaceTool.Several.{word_of, added}
use aquabsd_pkg_repo.IfaceTool.Letters.{AllStand, nothing, one_more}
use aquabsd_pkg_repo.IfaceTool.Whole.{new_word, Written, main-adds, main-removes}
use aquabsd_pkg_repo.IfaceTool.Dangling.{main-dangling}
use aquabsd_pkg_repo.IfaceTool.Find.{IsShort, Readable, Found, find_iface-Found}

-- The array that `iface_list` returns, by where `realloc` puts it.
abbrev lo0 : ℕ → Iface
lo0 block = record {
  name = record { block = block; index = 1 };
  kind = loop;
  dgram_sock = pos 4;
  ifr = record { ifr_name = codes "lo0"; ifr_ifru = addr 2 };
}

abbrev still_list : Ifaces
still_list = record { block = 4096; elems = em0 ∷ lo0 4096 ∷ [] }

abbrev first : Iface
first = record em0 { name = record { block = 4097; index = 0 } }

abbrev moving_list : Ifaces
moving_list = record { block = 4098; elems = first ∷ lo0 4098 ∷ [] }

abbrev listed : (realloc : ℕ → ℕ) → Process (net realloc)
listed realloc = record (start realloc) { kernel = open_one 4 (open_one 3 machine) }

entries-IsShort : All (IsShort still) (links still entries)
unfolding links
entries-IsShort = (omega arith, (omega arith, tt))

find_iface-Found_example :
    Found still
      (codes "lo0")
      still_list.elems
      0
      (start (λ n. 4096))
      (find_from still still_list (codes "lo0") 0 still_list.elems (start (λ n. 4096)))
unfolding iface_list
find_iface-Found_example =
    find_iface-Found still entries still_list (start (λ n. 4096)) (listed (λ n. 4096)) refl refl
      (codes "lo0") (start (λ n. 4096)) (λ m n. refl) entries-IsShort

main-dangling_example : main moving (codes "-i" ∷ codes "em0" ∷ []) (start (λ n. 4096 + n)) ≡ fault
unfolding iface_list getopt parse parse_one
main-dangling_example =
    main-dangling moving (codes "-i" ∷ codes "em0" ∷ [])
      (record defaults { name = some (codes "em0") }) (codes "em0") entries moving_list first
      (lo0 4098 ∷ []) (start (λ n. 4096 + n)) (listed (λ n. 4096 + n)) refl refl refl refl refl
      (λ e. omega arith)

-- The kernel, with flags that stay the same.
abbrev fixed : Net
fixed = record still { ioctl_get = λ sock name k. ok (0x8843, 0) }

abbrev fixed_start : Process fixed
fixed_start = record { error_str = none; stdout = []; stderr = []; kernel = machine }

abbrev up_line : Bytes → Bytes
up_line name = name ++ (9 ∷ codes "127.0.0.1") ++ (9 ∷ codes "up") ++ (10 ∷ [])

main_stat :
    (t : Process still) × (main still (codes "-i" ∷ codes "em0" ∷ []) (start (λ n. 4096))
      ≡ done 0 t)
    × (t.stdout ≡ (codes "em0" ++ (9 ∷ codes "127.0.0.1") ++ (9 ∷ codes "up") ++ (10 ∷ [])) ∷ [])
unfolding main getopt iface_list iface_error_str iface_get_flags iface_get_inet
main_stat = (_, refl, refl)

main-Clean_example :
    Ends
      (Clean still is_open still-HasDescriptors still-Keeps machine refl)
      (Reported still)
      (main still (codes "-i" ∷ codes "em0" ∷ codes "-r" ∷ codes "u" ∷ []) (start (λ n. 4096)))
main-Clean_example =
    main-Clean still is_open still-HasDescriptors still-Keeps machine refl (start (λ n. 4096))
      (codes "-i" ∷ codes "em0" ∷ codes "-r" ∷ codes "u" ∷ []) refl (λ m n. refl)
      (λ listing e.
        let same : entries ≡ listing = cc in
        subst (λ es. All (IsShort still) (links still es)) same entries-IsShort)

still_list-Readable : Readable still still_list still_list.elems
unfolding read_name
still_list-Readable = (refl, (refl, tt))

-- `-a g -r d` adds two flags, and `-r g -r u` is to remove them.
abbrev additions : List (Bool × Bytes)
additions = (true, codes "d") ∷ []

adding : AllStand still true ((false, codes "g") ∷ additions) (2 ∷ 0 ∷ [])
unfolding flag_of
adding =
    one_more (pos 4, refl, refl, omega arith) (one_more (negsuc 0, refl, refl, omega arith) nothing)

main-adds_example :
    ((k : ℕ)
      → k < 16
      → bit k (new_word (word_of true 0 (2 ∷ 0 ∷ [])) 0x8843) ≡ added k (2 ∷ 0 ∷ []) (bit k 0x8843))
    × Written still still_list.elems em0
        (new_word (word_of true 0 (2 ∷ 0 ∷ [])) 0x8843, 0)
        (listed (λ n. 4096))
        (main still
          (codes "-i" ∷ codes "em0" ∷ codes "-a" ∷ codes "g" ∷ codes "-r" ∷ codes "d" ∷ [])
          (start (λ n. 4096)))
unfolding iface_list
main-adds_example =
    main-adds still (codes "em0") (false, codes "g") additions 2 (0 ∷ []) (start (λ n. 4096))
      (listed (λ n. 4096)) still_list 0 em0 0x8843 0 refl still_list-Readable refl refl refl
      (omega arith) adding

abbrev removals : List (Bool × Bytes)
removals = (true, codes "u") ∷ []

removing : AllStand still false ((true, codes "g") ∷ removals) (2 ∷ 0 ∷ [])
unfolding flag_of
removing =
    one_more (pos 4, refl, refl, omega arith) (one_more (pos 1, refl, refl, omega arith) nothing)

main-removes_example :
    ((k : ℕ)
      → k < 16
      → bit k (new_word (word_of false 0 (2 ∷ 0 ∷ [])) 0x8843)
        ≡ (if k == 0 then 0 else bit k 0x8843))
    × Written still still_list.elems em0
        (new_word (word_of false 0 (2 ∷ 0 ∷ [])) 0x8843, 0)
        (listed (λ n. 4096))
        (main still
          (codes "-i" ∷ codes "em0" ∷ codes "-r" ∷ codes "g" ∷ codes "-r" ∷ codes "u" ∷ [])
          (start (λ n. 4096)))
unfolding iface_list
main-removes_example =
    main-removes still (codes "em0") (true, codes "g") removals 2 (0 ∷ []) (start (λ n. 4096))
      (listed (λ n. 4096)) still_list 0 em0 0x8843 0 refl still_list-Readable refl refl refl
      (omega arith) removing
