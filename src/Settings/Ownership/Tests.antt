-- ===== src/Settings/Ownership/Tests.antt =====
-- A kernel with one setting that libsettings can trust, and a history of calls on it.
use mathlib.Core.Path.{subst}
use aquabsd_pkg_repo.Base.{
  ℕ, ◌*◌, ◌≡◌, refl, ap, true, false, some, List, [], ◌∷◌, ◌++◌, All, ltb, Bool-cases, inl, inr,
  pos, arith,
}
use aquabsd_pkg_repo.Base.Bytes.{Bytes, codes, c_string, str_eq}
use aquabsd_pkg_repo.Base.Prog.{Reply, ok, failed}
use aquabsd_pkg_repo.Base.Goes.{Runs}
use aquabsd_pkg_repo.Settings.{kern, Sysctl}
use aquabsd_pkg_repo.Settings.Query.{kind_of, bytes_of}
use aquabsd_pkg_repo.Settings.Tests.{answer, small, start, ostype}
use aquabsd_pkg_repo.Settings.Ownership.Finding.{IsTrusted}
use aquabsd_pkg_repo.Settings.Ownership.History.{
  Call, search, list, read, describe, release, SomeLoops, SoundFor, perform_each,
  perform_each-SoundFor,
}

-- The names that `sysctl_ints` is asked, with the new value behind them, and those of `sysctl`.
abbrev oids : List (List ℕ × List ℕ)
oids = (0 ∷ 7 ∷ 1 ∷ [], ostype.oid) ∷ ((0 ∷ 3 ∷ []) ++ ostype.key, ostype.oid) ∷ []

abbrev values : List (List ℕ × Bytes)
values =
    (0 ∷ 1 ∷ ostype.oid, ostype.key ++ (0 ∷ []))
    ∷ (0 ∷ 4 ∷ ostype.oid, 3 ∷ 0 ∷ 0 ∷ 128 ∷ b'A' ∷ 0 ∷ [])
    ∷ (0 ∷ 5 ∷ ostype.oid, codes "The system" ++ (0 ∷ []))
    ∷ (ostype.oid, codes "aquaBSD" ++ (0 ∷ []))
    ∷ []

abbrev pub trusted : Sysctl
trusted = record small {
  sysctl_ints = λ name value size. answer oids (name ++ value);
  sysctl = λ name size. answer values name;
  sysctl_size = λ name. answer ((ostype.oid, 8) ∷ []) name;
}

abbrev reply_or : {A : Type 0} → A → Reply A → A
reply_or d (ok a) = a
reply_or d (failed errno) = d

answer-All :
    {A : Type 0} (P : A → Type 0) (table : List (List ℕ × A)) (name : List ℕ) (a : A)
    → All (λ row. P row.1) table
    → answer table name ≡ ok a
    → P a
answer-All P [] name a h e = absurd (cc)
answer-All P ((n, b) ∷ rest) name a (p, h) e = elim (Bool-cases (str_eq n name)) [
  | inl here ↦ subst P (ap (reply_or b) (rw here at e)) p
  | inr later ↦ answer-All P rest name a h (rw later at e)
]

abbrev Fine : Bytes → Type 0
Fine value =
    ((text : Bytes) × (c_string value ≡ some text))
    × ((kind : ℕ) × (fmt : Bytes) × (kind_of value ≡ some (kind, fmt)))

values-Fine : All (λ row. Fine row.1) values
unfolding c_string kind_of
values-Fine = (
  ((_, refl), (_, _, refl)),
  (((_, refl), (_, _, refl)), (((_, refl), (_, _, refl)), (((_, refl), (_, _, refl)), tt))),
)

pub trusted-IsTrusted : IsTrusted trusted
trusted-IsTrusted = record {
  named = λ oid value e. (answer-All Fine values (0 ∷ 1 ∷ oid) value values-Fine e).0;
  described = λ oid value e. (answer-All Fine values (0 ∷ 5 ∷ oid) value values-Fine e).0;
  formatted = λ oid value e. (answer-All Fine values (0 ∷ 4 ∷ oid) value values-Fine e).1;
  short = λ name new oid e.
      answer-All (λ oid. ltb (4 * 24) (4 * bytes_of oid) ≡ false) oids (name ++ new) oid
        (refl, (refl, tt)) e;
}

abbrev history : List Call
history =
    search ostype.key kern (pos 0)
    ∷ read 0
    ∷ describe 0
    ∷ read 0
    ∷ search (codes "x") kern (pos 0)
    ∷ list 5 true kern (pos 0)
    ∷ release 0
    ∷ release 0
    ∷ []

perform_each-SoundFor_example :
    Runs (SomeLoops history) (SoundFor trusted) (perform_each trusted history [] start)
perform_each-SoundFor_example =
    perform_each-SoundFor trusted trusted-IsTrusted history [] start (record {
      told = tt;
      owned = λ n. omega arith;
      once = λ n. omega arith;
      unused = λ n le. refl;
    })
