-- ===== src/IfaceTool/Stat.antt =====
-- What `do_stat` of iface.c prints.
use mathlib.Core.List.{append-nil, append_assoc}
use aquabsd_pkg_repo.Base.{ℕ, ◌≡◌, refl, sym, ap, ◌∙◌, some, List, [], ◌∷◌, ◌++◌, All, pos, map}
use aquabsd_pkg_repo.Base.Prog.{done, ◌>>=◌, >>=-done}
use aquabsd_pkg_repo.Iface.{
  Net, Reply, ok, failed, Iface, Ifaces, Process, read_name, u32_of_short, iface_error_str,
}
use aquabsd_pkg_repo.Iface.Flags.{get_flags_run}
use aquabsd_pkg_repo.IfaceTool.{stat_all, stat_iface, stat_line, print}
use aquabsd_pkg_repo.IfaceTool.Find.{Readable}
use aquabsd_pkg_repo.Base.Bytes.{Bytes}

module _ (N : Net) (k : N.Kernel) where
  -- The kernel gives the flags of an interface.
  abbrev pub HasFlags : Iface → Type 0
  HasFlags iface =
      (low high : ℕ) × (N.ioctl_get iface.dgram_sock iface.ifr.ifr_name k ≡ ok (low, high))

  -- The line of an interface, by the flags that the kernel gives.
  abbrev pub line_of : Iface → Reply (ℕ × ℕ) → Bytes
  line_of iface (ok (low, high)) = stat_line N iface iface.ifr.ifr_name (u32_of_short low)
  line_of iface (failed errno) = []

  abbrev pub line : Iface → Bytes
  line iface = line_of iface (N.ioctl_get iface.dgram_sock iface.ifr.ifr_name k)

  stat_iface-HasFlags :
      (arr : Ifaces) (iface : Iface) (s : Process N)
      → s.kernel ≡ k
      → read_name N arr iface ≡ some iface.ifr.ifr_name
      → HasFlags iface
      → stat_iface N arr iface s
        ≡ done (pos 0) (record s { stdout = s.stdout ++ (line iface ∷ []) })
  unfolding stat_iface iface_error_str print
  stat_iface-HasFlags arr iface s same named (low, high, e) =
      let here : N.ioctl_get iface.dgram_sock iface.ifr.ifr_name s.kernel ≡ ok (low, high) =
        ap (N.ioctl_get iface.dgram_sock iface.ifr.ifr_name) same ∙ e in
      rw (get_flags_run N iface s low high here, stat_iface, iface_error_str, ◌>>=◌)
        (rw named (rw e refl))

  -- Where every name of the array can be read and the kernel gives the flags of every interface,
  -- do_stat over the array prints for each interface, in order, the line with its name, its
  -- address and whether its flags say that it is up, and returns 0.
  pub stat_all-HasFlags :
      (arr : Ifaces) (xs : List Iface) (s : Process N)
      → s.kernel ≡ k
      → Readable N arr xs
      → All HasFlags xs
      → stat_all N arr xs s ≡ done (pos 0) (record s { stdout = s.stdout ++ map line xs })
  unfolding stat_all
  stat_all-HasFlags arr [] s same r h =
      λ j. done (pos 0) (record s { stdout = sym (append-nil s.stdout) j })
  stat_all-HasFlags arr (x ∷ xs) s same (r, rs) (h, hs) =
      let t : Process N = record s { stdout = s.stdout ++ (line x ∷ []) } in
      >>=-done (stat_iface N arr x) (λ rv. stat_all N arr xs) (stat_iface-HasFlags arr x s same r h)
      ∙ stat_all-HasFlags arr xs t same rs hs
      ∙ ap (λ o. done (pos 0) (record s { stdout = o }))
          (append_assoc s.stdout (line x ∷ []) (map line xs))
