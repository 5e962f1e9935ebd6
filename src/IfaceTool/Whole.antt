-- ===== src/IfaceTool/Whole.antt =====
-- `iface -i NAME` with options -a and -r, from the words of the command line to the flags that the
-- kernel is given.
use aquabsd_pkg_repo.Base.{
  ℕ, ◌^◌, ◌<◌, ◌≡◌, refl, ap, ◌∙◌, Bool, true, false, some, List, [], ◌∷◌, ◌++◌, ◌==◌,
  if◌then◌else◌, false, pos, ◌⊎◌, inl, inr, get_elem?,
}
use aquabsd_pkg_repo.Base.Bits.{bit}
use aquabsd_pkg_repo.Base.Bytes.{Bytes, codes, format}
use aquabsd_pkg_repo.Base.Words.{int_of_u32}
use aquabsd_pkg_repo.Base.Prog.{Outcome, done, exited, ◌>>=◌}
use aquabsd_pkg_repo.Iface.{
  Reply-cases, ok, failed, Net, emit_error, Iface, Ifaces, Process, new_flags, u32_of_short,
  close_all, iface_error_str, iface_list, iface_free,
}
use aquabsd_pkg_repo.Iface.Flags.{bit-u32_of_short, set_flags_run, set_flags_refused}
use aquabsd_pkg_repo.IfaceTool.{
  Opts, do_set_flag, find_iface, write_flag, errx, finish, list_and_finish, main,
}
use aquabsd_pkg_repo.IfaceTool.Find.{Readable, FirstAt, find_from-FirstAt}
use aquabsd_pkg_repo.IfaceTool.Several.{
  word_of, added, lowest, bit-new_flags-added, bit-new_flags-removed,
}
use aquabsd_pkg_repo.IfaceTool.Letters.{AllStand, AllStand-small, words, collected, parsed}

-- The word that iface_set_flags makes of the options and of the flags that the kernel gives.
abbrev pub new_word : ℕ → ℕ → ℕ
new_word flag low = new_flags (int_of_u32 flag) (u32_of_short low)

module _ (N : Net) where
  -- What the two calls of the program may do: the word is written and the sockets are closed, or
  -- the kernel has refused it.
  abbrev pub Written : List Iface → Iface → ℕ × ℕ → Process N → Outcome (Process N) ℕ → Type 0
  Written ifaces x flags u r =
      ((k' : N.Kernel) × (N.ioctl_set x.dgram_sock x.ifr.ifr_name flags u.kernel ≡ ok k')
        × (r ≡ done 0 (record u { kernel = close_all N ifaces k' })))
      ⊎ ((e : ℕ) × (N.ioctl_set x.dgram_sock x.ifr.ifr_name flags u.kernel ≡ failed e)
          × (t : Process N) × (r ≡ exited 1 t)
          × (t.kernel ≡ u.kernel))

  module _ (arr : Ifaces) (i : ℕ) (x : Iface) (opts : Opts) (name : Bytes) (u : Process N)
      (readable : Readable N arr arr.elems) (first : FirstAt name arr.elems i)
      (at : get_elem? arr.elems i ≡ some x) (low high : ℕ)
      (got : N.ioctl_get x.dgram_sock x.ifr.ifr_name u.kernel ≡ ok (low, high)) where
    -- The options once the array is there, and once the interface has been found.
    abbrev ready : Opts
    ready = record opts { action = do_set_flag; name = some name; ifaces = arr }

    abbrev chosen : Opts
    chosen = record ready { iface = some i }

    write_flag-run :
        (k' : N.Kernel)
        → N.ioctl_set x.dgram_sock x.ifr.ifr_name (new_word opts.flag low, high) u.kernel ≡ ok k'
        → write_flag N chosen u ≡ done (pos 0) (record u { kernel = k' })
    unfolding write_flag iface_error_str
    write_flag-run k' set =
        rw (at, write_flag)
          (rw (set_flags_run N x (int_of_u32 opts.flag) u low high k' got set, ◌>>=◌) refl)

    abbrev refusal : ℕ → Bytes
    refusal e = format (codes "SIOCSIFFLAGS ioctl failed: %s") (N.strerror e ∷ [])

    write_flag-refused :
        (e : ℕ)
        → N.ioctl_set x.dgram_sock x.ifr.ifr_name (new_word opts.flag low, high) u.kernel ≡ failed e
        → (t : Process N) × (write_flag N chosen u ≡ exited 1 t) × (t.kernel ≡ u.kernel)
    unfolding write_flag iface_error_str emit_error errx
    write_flag-refused e set = (
      record u {
        error_str = some (refusal e);
        stderr = u.stderr ++ (format (codes "iface_set_flags: %s") (refusal e ∷ []) ∷ []);
      },
      rw (at, write_flag)
          (rw (set_flags_refused N x (int_of_u32 opts.flag) u low high e got set, ◌>>=◌) refl),
      refl,
    )

    find_iface-run : find_iface N name ready u ≡ done chosen u
    unfolding find_iface
    find_iface-run = rw (find_from-FirstAt N arr name i u readable first, find_iface, ◌>>=◌) refl

    finish-run :
        (k' : N.Kernel)
        → N.ioctl_set x.dgram_sock x.ifr.ifr_name (new_word opts.flag low, high) u.kernel ≡ ok k'
        → finish N ready u ≡ done 0 (record u { kernel = close_all N arr.elems k' })
    unfolding finish iface_free
    finish-run k' set = rw (find_iface-run, ◌>>=◌) (rw (write_flag-run k' set, ◌>>=◌) refl)

    finish-refused :
        (e : ℕ)
        → N.ioctl_set x.dgram_sock x.ifr.ifr_name (new_word opts.flag low, high) u.kernel ≡ failed e
        → (t : Process N) × (finish N ready u ≡ exited 1 t) × (t.kernel ≡ u.kernel)
    unfolding finish
    finish-refused e set =
        let (t, run, same) = write_flag-refused e set in
        (t, rw (find_iface-run, ◌>>=◌) (rw (run, ◌>>=◌) refl), same)

    finish-Written : Written arr.elems x (new_word opts.flag low, high) u (finish N ready u)
    finish-Written =
        elim (Reply-cases
          (N.ioctl_set x.dgram_sock x.ifr.ifr_name (new_word opts.flag low, high) u.kernel)) [
            | inl (k', set) ↦ inl (k', set, finish-run k' set)
            | inr (e, set) ↦ let (t, run, same) = finish-refused e set in inr (e, set, t, run, same)
          ]

  module _ (name : Bytes) (o : Bool × Bytes) (os : List (Bool × Bytes)) (j : ℕ) (js : List ℕ)
      (s u : Process N) (arr : Ifaces) (i : ℕ) (x : Iface) (low high : ℕ)
      (listed : iface_list N false false s ≡ done (some arr) u)
      (readable : Readable N arr arr.elems) (first : FirstAt name arr.elems i)
      (at : get_elem? arr.elems i ≡ some x)
      (got : N.ioctl_get x.dgram_sock x.ifr.ifr_name u.kernel ≡ ok (low, high))
      (fits : low < 2 ^ 16) where
    main-Written :
        (adds : Bool)
        → AllStand N adds (o ∷ os) (j ∷ js)
        → Written arr.elems x
            (new_word (word_of adds 0 (j ∷ js)) low, high)
            u
            (main N (words name (o ∷ os)) s)
    unfolding main list_and_finish iface_error_str
    main-Written adds stand =
        rw (parsed N adds name s stand, ◌>>=◌, Written)
          (rw (listed, ◌>>=◌, Written)
            (finish-Written arr i x (collected name (word_of adds 0 (j ∷ js))) name u readable first
              at low high got))

    -- `iface -i NAME` with one or more options -a and -r that all stand for adding the flag at a
    -- place below 16: where iface_list returns an array whose names can be read, in which NAME is
    -- the name of an interface, and the kernel gives the flags of the first such interface as a word
    -- of 16 bits, main asks the kernel to give that interface a word in which all these flags are
    -- set and every other of the 16 is as it was. Where the kernel does so, main closes the sockets
    -- of the array and returns 0; where the kernel refuses, main ends the process with status 1 and
    -- leaves the kernel as it was.
    pub main-adds :
        AllStand N true (o ∷ os) (j ∷ js)
        → ((k : ℕ)
            → k < 16
            → bit k (new_word (word_of true 0 (j ∷ js)) low) ≡ added k (j ∷ js) (bit k low))
          × Written arr.elems x
              (new_word (word_of true 0 (j ∷ js)) low, high)
              u
              (main N (words name (o ∷ os)) s)
    main-adds stand = (
      λ k h.
          bit-new_flags-added (j ∷ js) k (u32_of_short low) (AllStand-small N true stand) h
          ∙ ap (added k (j ∷ js)) (bit-u32_of_short k low h fits),
      main-Written true stand,
    )

    -- `iface -i NAME` with one or more options -a and -r that all stand for removing the flag at a
    -- place below 16: where iface_list returns an array whose names can be read, in which NAME is
    -- the name of an interface, and the kernel gives the flags of the first such interface as a word
    -- of 16 bits, main asks the kernel to give that interface a word in which the flag at the lowest
    -- of these places is cleared and every other of the 16 is as it was, the other flags that are to
    -- be removed included. Where the kernel does so, main closes the sockets of the array and
    -- returns 0; where the kernel refuses, main ends the process with status 1 and leaves the kernel
    -- as it was.
    pub main-removes :
        AllStand N false (o ∷ os) (j ∷ js)
        → ((k : ℕ)
            → k < 16
            → bit k (new_word (word_of false 0 (j ∷ js)) low)
              ≡ (if k == lowest j js then 0 else bit k low))
          × Written arr.elems x
              (new_word (word_of false 0 (j ∷ js)) low, high)
              u
              (main N (words name (o ∷ os)) s)
    main-removes stand = (
      λ k h.
          bit-new_flags-removed j js k (u32_of_short low) (AllStand-small N false stand) h
          ∙ ap (λ b. if k == lowest j js then 0 else b) (bit-u32_of_short k low h fits),
      main-Written false stand,
    )
