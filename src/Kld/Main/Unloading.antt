-- ===== src/Kld/Main/Unloading.antt =====
-- `kld -u -i ID` from the words of the command line to what the kernel is asked for.
use mathlib.Core.List.{append-nil}
use aquabsd_pkg_repo.Base.{
  ℕ, ◌%◌, ◌^◌, ◌<◌, ◌≤◌, ◌≡◌, refl, sym, ap, Bool, true, false, List, [], ◌∷◌, ◌++◌, ℤ, pos, negsuc,
  arith, inl, inr, ◌-◌,
}
use aquabsd_pkg_repo.Base.Bytes.{Bytes, codes, format}
use aquabsd_pkg_repo.Base.Decimal.{decimal, int_text}
use aquabsd_pkg_repo.Base.Getopt.{getopt}
use aquabsd_pkg_repo.Base.Prog.{Outcome, done, ◌>>=◌, Reply-cases}
use aquabsd_pkg_repo.Base.Words.{int_of_u32}
use aquabsd_pkg_repo.Kld.{
  Reply, ok, failed, Linker, Opts, do_unload, defaults, Process, usage, warn,
}
use aquabsd_pkg_repo.Kld.Main.{parse, parse_one, main}
use aquabsd_pkg_repo.Kld.Main.Id.{set_id-decimal}
use aquabsd_pkg_repo.Kld.Unload.{unload, unload_action}

module _ (L : Linker) (fuel : ℕ) where
  -- `-u`, or `-uf` to force it
  abbrev pub unload_word : Bool → Bytes
  unload_word false = codes "-u"
  unload_word true = codes "-uf"

  abbrev unloading : Bool → ℤ → Opts
  unloading force id = record defaults { action = do_unload; force = force; id = id }

  main-parsed :
      (force : Bool) (n : ℕ) (s : Process L)
      → n < 2 ^ 64
      → parse L
          (getopt (codes "dfhi:lm:n:uv") (unload_word force ∷ codes "-i" ∷ decimal n ∷ []))
          defaults
          s
        ≡ done (unloading force (int_of_u32 n)) s
  unfolding parse parse_one getopt
  main-parsed false n s h =
      rw (set_id-decimal L n (record defaults { action = do_unload }) s h, ◌>>=◌) refl
  main-parsed true n s h =
      rw (set_id-decimal L n (record defaults { action = do_unload; force = true }) s h, ◌>>=◌) refl

  -- The status of the program, and what it says, by the kernel's answer.
  abbrev pub unload_status : Reply (Unit {0}) → ℕ
  unload_status (ok u) = 0
  unload_status (failed errno) = 1

  abbrev pub unload_message : ℕ → Reply (Unit {0}) → List Bytes
  unload_message id (ok u) = []
  unload_message id (failed errno) =
      format (codes "can't unload file id %d") (int_text (pos id) ∷ []) ∷ []

  unload_ok :
      (opts : Opts) (s : Process L) (u : Unit {0})
      → (L.kldunloadf opts.id opts.force s.kernel).0 ≡ ok u
      → unload L opts s
        ≡ done (pos 0) (record s { kernel = (L.kldunloadf opts.id opts.force s.kernel).1 })
  unfolding unload
  unload_ok opts s u e = rw (e, unload) refl

  unload_failed :
      (opts : Opts) (s : Process L) (errno : ℕ)
      → (L.kldunloadf opts.id opts.force s.kernel).0 ≡ failed errno
      → unload L opts s
        ≡ done (negsuc 0) (record s {
          stderr =
              s.stderr ++ (format (codes "can't unload file id %d") (int_text opts.id ∷ []) ∷ []);
          kernel = (L.kldunloadf opts.id opts.force s.kernel).1;
        })
  unfolding unload warn
  unload_failed opts s errno e = rw (e, unload) refl

  said_nothing :
      (s : Process L) (k : L.Kernel)
      → ◌≡◌ {A = Outcome (Process L) ℕ}
          (done 0 (record s { kernel = k }))
          (done 0 (record s { stderr = s.stderr ++ []; kernel = k }))
  said_nothing s k =
      ap (λ (o : List Bytes). done 0 (record s { stderr = o; kernel = k }))
        (sym (append-nil s.stderr))

  -- `kld -u -i N` and `kld -uf -i N`, for a number below 2^64 that is below 2^31 modulo 2^32: main
  -- asks the kernel to unload the file with the number modulo 2^32, by force just with -f, and
  -- changes the kernel in no other way. It returns 0 where the kernel does so; where it refuses,
  -- main says on the error stream that the file cannot be unloaded, and returns 1.
  pub main-unloads :
      (force : Bool) (n : ℕ) (s : Process L)
      → n < 2 ^ 64
      → n % 2 ^ 32 < 2 ^ 31
      → main L fuel (unload_word force ∷ codes "-i" ∷ decimal n ∷ []) s
        ≡ done (unload_status (L.kldunloadf (pos (n % 2 ^ 32)) force s.kernel).0) (record s {
          stderr =
              s.stderr
              ++ unload_message (n % 2 ^ 32) (L.kldunloadf (pos (n % 2 ^ 32)) force s.kernel).0;
          kernel = (L.kldunloadf (pos (n % 2 ^ 32)) force s.kernel).1;
        })
  unfolding main unload_action
  main-unloads force n s h small =
      let m = n % 2 ^ 32 in
      let id : int_of_u32 n ≡ pos m = ground arith in
      rw (main-parsed force n s h, ◌>>=◌)
        (rw id (elim (Reply-cases (L.kldunloadf (pos m) force s.kernel).0) [
          | inl (u, e) ↦
              rw (unload_ok (unloading force (pos m)) s u e, unload_action, ◌>>=◌)
                (rw e (said_nothing s (L.kldunloadf (pos m) force s.kernel).1))
          | inr (errno, e) ↦
              rw (unload_failed (unloading force (pos m)) s errno e, unload_action, ◌>>=◌)
                (rw e refl)
        ]))

  -- `kld -u -i N` and `kld -uf -i N`, for a number below 2^64 that is 2^31 or more modulo 2^32: the
  -- number is accepted and main ends with the usage message, without a call of the kernel.
  pub main-unloads_nothing :
      (force : Bool) (n : ℕ) (s : Process L)
      → n < 2 ^ 64
      → 2 ^ 31 ≤ n % 2 ^ 32
      → main L fuel (unload_word force ∷ codes "-i" ∷ decimal n ∷ []) s ≡ usage L s
  unfolding main unload_action usage
  main-unloads_nothing force n s h large =
      let id : int_of_u32 n ≡ negsuc (2 ^ 32 - 1 - n % 2 ^ 32) = ground arith in
      rw (main-parsed force n s h, ◌>>=◌) (rw id refl)
