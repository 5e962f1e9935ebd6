-- ===== src/Settings/Tests.antt =====
-- A kernel with three settings, and the theorems on libsettings at it.
use aquabsd_pkg_repo.Base.{
  ℕ, ◌≡◌, refl, true, none, some, List, [], ◌∷◌, ◌++◌, if◌then◌else◌, map, pos, negsuc, arith,
}
use aquabsd_pkg_repo.Base.Bytes.{codes, str_eq, c_string}
use aquabsd_pkg_repo.Base.Prog.{done, Returns}
use aquabsd_pkg_repo.Settings.{
  Reply, ok, failed, boot, kern, Setting, blank, Sysctl, Process, loadavg,
}
use aquabsd_pkg_repo.Settings.Query.{kind_of, query_name, type_of}
use aquabsd_pkg_repo.Settings.Query.Types.{Distinct, all_numbers, type_of-number}
use aquabsd_pkg_repo.Settings.Heap.{Quiet, allocated}
use aquabsd_pkg_repo.Settings.Fill.{Entry, Described, setting_for, behind}
use aquabsd_pkg_repo.Settings.Listing.{Stack, settings_of, settings_list}
use aquabsd_pkg_repo.Settings.Listing.Adding.{view, shown, HoldsAll}
use aquabsd_pkg_repo.Settings.Listing.Walk.{end, step, settings_list-Walk}
use aquabsd_pkg_repo.Settings.Search.{settings_search}
use aquabsd_pkg_repo.Settings.Search.Found.{
  key_at, settings_search-Described, setting_free-settings_search,
}
use aquabsd_pkg_repo.Settings.Access.{setting_read, setting_free}
use aquabsd_pkg_repo.Settings.Access.Read.{setting_read-Returns}

-- A table of answers; ENOENT where it has none.
abbrev pub answer : {A : Type 0} → List (List ℕ × A) → List ℕ → Reply A
answer [] name = failed 2
answer ((n, a) ∷ rest) name = if str_eq n name then ok a else answer rest name

abbrev pub ostype : Entry
ostype = record { oid = 1 ∷ 1 ∷ []; key = codes "kern.ostype"; kind = 0x80000003; fmt = codes "A" }

abbrev pub maxfiles : Entry
maxfiles = record {
  oid = 1 ∷ 5 ∷ [];
  key = codes "kern.maxfiles";
  kind = 0xc0080002;
  fmt = codes "I";
}

abbrev pub deep : Entry
deep = record {
  oid = 9 ∷ 1 ∷ 1 ∷ 1 ∷ 1 ∷ 1 ∷ 1 ∷ [];
  key = codes "x.y";
  kind = 0x80000003;
  fmt = codes "A";
}

abbrev pub small : Sysctl
small = record {
  sysctl_ints = λ name value size.
      answer
        (((0 ∷ 7 ∷ 1 ∷ []) ++ [], ostype.oid)
          ∷ (0 ∷ 7 ∷ 1 ∷ 1 ∷ [], maxfiles.oid)
          ∷ ((0 ∷ 3 ∷ []) ++ ostype.key, ostype.oid)
          ∷ ((0 ∷ 3 ∷ []) ++ maxfiles.key, maxfiles.oid)
          ∷ ((0 ∷ 3 ∷ []) ++ deep.key, deep.oid)
          ∷ [])
        (name ++ value);
  sysctl = λ name size.
      answer
        ((0 ∷ 1 ∷ ostype.oid, ostype.key ++ (0 ∷ []))
          ∷ (0 ∷ 1 ∷ maxfiles.oid, maxfiles.key ++ (0 ∷ []))
          ∷ (0 ∷ 1 ∷ deep.oid, deep.key ++ (0 ∷ []))
          ∷ (0 ∷ 4 ∷ ostype.oid, 3 ∷ 0 ∷ 0 ∷ 128 ∷ b'A' ∷ 0 ∷ [])
          ∷ (0 ∷ 4 ∷ maxfiles.oid, 2 ∷ 0 ∷ 8 ∷ 192 ∷ b'I' ∷ 0 ∷ [])
          ∷ (0 ∷ 4 ∷ deep.oid, 3 ∷ 0 ∷ 0 ∷ 128 ∷ b'A' ∷ 0 ∷ [])
          ∷ (ostype.oid, codes "aquaBSD" ++ (0 ∷ []))
          ∷ (maxfiles.oid, 7 ∷ 0 ∷ 0 ∷ 0 ∷ [])
          ∷ [])
        name;
  sysctl_size = λ name. answer ((ostype.oid, 8) ∷ (maxfiles.oid, 4) ∷ []) name;
  strerror = λ errno. codes "error";
  enoent = 2;
  bufsiz = 1024;
  ctl_maxname = 24;
  ctl_sysctl = 0;
  ctl_kern = 1;
  ctl_sysctl_name = 1;
  ctl_sysctl_nextnoskip = 7;
  ctl_sysctl_name2oid = 3;
  ctl_sysctl_oidfmt = 4;
  ctl_sysctl_oiddescr = 5;
  ctlflag_tun = 0x80000;
  ctlflag_wr = 0x40000000;
  ctltype = 15;
  ctltype_opaque = 5;
  ctltype_node = 1;
  ctltype_string = 3;
  ctltype_int = 2;
  ctltype_uint = 6;
  ctltype_long = 7;
  ctltype_ulong = 8;
  ctltype_s8 = 12;
  ctltype_s16 = 13;
  ctltype_s32 = 14;
  ctltype_s64 = 4;
  ctltype_u8 = 10;
  ctltype_u16 = 11;
  ctltype_u32 = 15;
  ctltype_u64 = 9;
}

abbrev pub start : Process
start = record { error_str = none; next = 0; live = []; stdout = []; stderr = [] }

pub ostype-Described : Described small ostype
unfolding kind_of c_string
ostype-Described = (_, refl, refl, _, refl, refl)

pub maxfiles-Described : Described small maxfiles
unfolding kind_of c_string
maxfiles-Described = (_, refl, refl, _, refl, refl)

pub deep-Described : Described small deep
unfolding kind_of c_string
deep-Described = (_, refl, refl, _, refl, refl)

query_name_of_fmt : query_name small 4 ≡ codes "CTL_SYSCTL_OIDFMT"
unfolding query_name
query_name_of_fmt = refl

settings_list-Walk_example :
    (listed : Stack) × (t : Process) × (settings_list small 3 true kern (negsuc 0) start
      ≡ done (some listed) t)
    × (map view (settings_of listed) ≡ map (shown small kern) (ostype ∷ maxfiles ∷ []))
    × HoldsAll listed t
    × Quiet start t
settings_list-Walk_example =
    settings_list-Walk small 3 kern (negsuc 0) start (omega arith)
      (step refl ostype-Described (step refl maxfiles-Described (end refl))) (refl, (refl, tt))
      (omega arith)

settings_search-Described_example :
    settings_search small (codes "kern.ostype") kern (negsuc 0) start
    ≡ done
        (some (setting_for small kern ostype 0 (key_at small (codes "kern.ostype") 1) 2))
        (behind small kern ostype (allocated (allocated start)))
settings_search-Described_example =
    settings_search-Described small (codes "kern.ostype") kern (negsuc 0) ostype start (omega arith)
      refl ostype-Described refl

setting_free-settings_search_example :
    (setting : Setting) × (t u : Process) × (settings_search small
        (codes "kern.maxfiles")
        boot
        (negsuc 0)
        start
      ≡ done (some setting) t)
    × (setting_free (some setting) t ≡ done (pos 0) u)
    × (u.live ≡ setting.self ∷ [])
setting_free-settings_search_example =
    setting_free-settings_search small (codes "kern.maxfiles") boot (negsuc 0) maxfiles start
      (omega arith) refl maxfiles-Described refl

abbrev named : Setting
named = setting_for small kern ostype 0 (key_at small (codes "kern.ostype") 1) 2

setting_read-Returns_example :
    Returns
      (λ r t.
        (r.0 ≡ pos 0) × Quiet start t × (r.1.key ≡ (blank 0).key) × (r.1.kind ≡ (blank 0).kind))
      (setting_read small (blank 0) start)
setting_read-Returns_example = setting_read-Returns small (blank 0) start

small-Distinct : Distinct (all_numbers small)
small-Distinct = ground arith

type_of-number_example : type_of small 0xc0080005 (codes "S,loadavg") ≡ loadavg
type_of-number_example =
    type_of-number small small-Distinct 0xc0080005 (codes "S,loadavg") loadavg refl refl
