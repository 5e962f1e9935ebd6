-- ===== src/IfaceTool/Dangling.antt =====
-- `iface -i NAME` where `realloc` has moved the array of libiface, into which the names point.
use aquabsd_pkg_repo.Base.{◌≡◌, ◌≢◌, refl, false, some, List, ◌∷◌, length}
use aquabsd_pkg_repo.Base.Bytes.{Bytes, codes}
use aquabsd_pkg_repo.Base.Getopt.{getopt}
use aquabsd_pkg_repo.Base.Prog.{done, fault, ◌>>=◌}
use aquabsd_pkg_repo.Iface.{Net, ok, Ifaddrs, Iface, Ifaces, Process, iface_list, iface_error_str}
use aquabsd_pkg_repo.IfaceTool.{Opts, defaults, parse, find_iface, finish, list_and_finish, main}
use aquabsd_pkg_repo.IfaceTool.Find.{find_iface-fault}

module _ (N : Net) where
  finish-fault :
      (opts : Opts) (name : Bytes) (s : Process N)
      → opts.name ≡ some name
      → find_iface N name opts s ≡ fault
      → finish N opts s ≡ fault
  unfolding finish
  finish-fault opts name s e f = rw (e, ◌>>=◌) (rw (f, ◌>>=◌) refl)

  -- Where iface accepts its arguments and one of them is -i, and iface_list returns an array of one
  -- or more interfaces, which `realloc` has put at another address than an array of a single one:
  -- main reads freed memory, whatever the name that is asked for and the other options.
  pub main-dangling :
      (args : List Bytes) (opts : Opts) (name : Bytes) (entries : List Ifaddrs) (arr : Ifaces)
      (x : Iface) (rest : List Iface) (s u : Process N)
      → parse N (getopt (codes "a:r:i:") args) defaults s ≡ done opts s
      → opts.name ≡ some name
      → N.getifaddrs s.kernel ≡ ok entries
      → iface_list N false false s ≡ done (some arr) u
      → arr.elems ≡ x ∷ rest
      → N.realloc 1 ≢ N.realloc (length (x ∷ rest))
      → main N args s ≡ fault
  unfolding main list_and_finish iface_error_str find_iface
  main-dangling args opts name entries arr x rest s u parsed named got listed e moved =
      rw (parsed, ◌>>=◌)
        (rw (listed, ◌>>=◌)
          (finish-fault (record opts { ifaces = arr }) name u named
            (rw (find_iface-fault N entries arr s u got listed x rest name u e moved, ◌>>=◌) refl)))
