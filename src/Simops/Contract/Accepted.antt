-- ===== src/Simops/Contract/Accepted.antt =====
-- The contract runtime passes the check of a launch.
use Prim.Native.String.{◌++◌ as ◌<>◌}
use mathlib.Core.Path.{subst}
use radiant_prj.Common.{
  ◌+◌, String, ◌≡◌, refl, sym, ap, ◌∙◌, Bool, if◌then◌else◌, true, false, ◌==◌, ◌||◌, inl, inr,
  List, [], ◌∷◌, map, In, All, length, arith, eq_iff, Bool-cases, some, Option, none,
}
use radiant_prj.Common.Error.{Error, ok, ok_inj, >>=-ok}
use radiant_prj.Common.Dict.{
  Dict, lookup, insert, has, lookup-insert, lookup-insert_self, has-insert, length-insert,
}
use radiant_prj.Common.Text.{trim_space}
use radiant_prj.Simops.Types.{Time, RunRecord, WorkerRecord}
use radiant_prj.Simops.Config.{Config}
use radiant_prj.Simops.Profile.{
  allowed_worker, build_run_connection_profile, build_run_worker_connection_profile,
  build_run_worker_connection_profiles,
}
use radiant_prj.Simops.Connection.{Profile}
use radiant_prj.Simops.LaunchCheck.{
  planned_worker, planned_worker_records, expected_kinds, check_launched, check_all_launched,
  validate_launched_workers,
}
use radiant_prj.Simops.Request.Checked.{Distinct}
use radiant_prj.Simops.Runtime.{Call}
use radiant_prj.Simops.Contract.{contract_worker, contract_launch, contract_spooler}

-- The kind that an identifier stands for.
kind_of : String → String
kind_of id =
    if id == "scheduler-01"
    then "scheduler"
    else if id == "storage-01"
    then "storage"
    else if id == "burst-01"
    then "burst"
    else "fabric"

-- What is said of an allowed kind.
abbrev IsNamed : String → Type 0
IsNamed k = (kind_of (k <> "-01") ≡ k) × (trim_space (k <> "-01") ≡ k <> "-01")

IsNamed-or :
    (k text : String) {b : Bool}
    → IsNamed text
    → (b ≡ true → IsNamed k)
    → (b || k == text) ≡ true
    → IsNamed k
IsNamed-or k text n rest h = elim (Bool-cases (k == text)) [
  | inl e ↦ let q : k ≡ text = ground (arith, eq_iff k text) in subst IsNamed (sym q) n
  | inr e ↦ rest (ground arith)
]

allowed-IsNamed : (k : String) → allowed_worker k ≡ true → IsNamed k
unfolding allowed_worker kind_of trim_space
allowed-IsNamed k h =
    IsNamed-or k "fabric" (refl, refl)
      (IsNamed-or k "burst" (refl, refl)
        (IsNamed-or k "storage" (refl, refl)
          (λ e.
            let q : k ≡ "scheduler" = ground (arith, eq_iff k "scheduler") in
            subst IsNamed (sym q) (refl, refl))))
      h

-- Allowed kinds are told apart by the identifiers of their workers.
id-inj :
    (k l : String)
    → allowed_worker k ≡ true
    → allowed_worker l ≡ true
    → k <> "-01" ≡ l <> "-01"
    → k ≡ l
id-inj k l a b e = sym (allowed-IsNamed k a).0 ∙ ap kind_of e ∙ (allowed-IsNamed l b).0

module _ {V : Type 0} where
  -- No worker of these kinds has an entry.
  abbrev Absent : Dict V → List String → Type 0
  Absent m ks = All (λ k. has (k <> "-01") m ≡ false) ks

  Absent-insert :
      (k : String) (v : V) (m : Dict V) (ks : List String)
      → allowed_worker k ≡ true
      → All (λ l. allowed_worker l ≡ true) ks
      → (In k ks → ⊥)
      → Absent m ks
      → Absent (insert (k <> "-01") v m) ks
  Absent-insert k v m [] a as' n h = tt
  Absent-insert k v m (l ∷ ks) a as' n h = (
    ground (
      arith,
      has-insert (k <> "-01") (l <> "-01") v m,
      eq_iff (k <> "-01") (l <> "-01"),
      id-inj k l a as'.0,
    ),
    Absent-insert k v m ks a as'.1 (λ i. n (inr i)) h.1,
  )

Absent-empty : (V : Type 0) (ks : List String) → Absent {V = V} [] ks
unfolding has lookup
Absent-empty V [] = tt
Absent-empty V (k ∷ ks) = (refl, Absent-empty V ks)

-- The kind is planned.
abbrev Expects : Dict String → String → Type 0
Expects m k = lookup (k <> "-01") m ≡ some k

module _ (r : RunRecord) (now : Time) where
  expected_keeps :
      (k : String) (ks : List String) (m : Dict String)
      → allowed_worker k ≡ true
      → All (λ l. allowed_worker l ≡ true) ks
      → Expects m k
      → Expects (expected_kinds (map (planned_worker r now) ks) m) k
  unfolding expected_kinds planned_worker
  expected_keeps k [] m a as' h = h
  expected_keeps k (l ∷ ks) m a as' h = expected_keeps k ks (insert (l <> "-01") l m) a as'.1 (
      ground (
        arith,
        lookup-insert (l <> "-01") (k <> "-01") l m,
        eq_iff (l <> "-01") (k <> "-01"),
        id-inj l k as'.0 a,
      ))

  expected-All :
      (ks : List String) (m : Dict String)
      → All (λ l. allowed_worker l ≡ true) ks
      → All (Expects (expected_kinds (map (planned_worker r now) ks) m)) ks
  unfolding expected_kinds planned_worker
  expected-All [] m a = tt
  expected-All (k ∷ ks) m a = (
    expected_keeps k ks (insert (k <> "-01") k m) a.0 a.1 (lookup-insert_self (k <> "-01") k m),
    expected-All ks (insert (k <> "-01") k m) a.1,
  )

  expected_length :
      (ks : List String) (m : Dict String)
      → All (λ l. allowed_worker l ≡ true) ks
      → Distinct ks
      → Absent m ks
      → length (expected_kinds (map (planned_worker r now) ks) m) ≡ length ks + length m
  unfolding expected_kinds planned_worker
  expected_length [] m a d h = omega arith
  expected_length (k ∷ ks) m a d h = omega (
    arith,
    expected_length ks (insert (k <> "-01") k m) a.1 d.1 (Absent-insert k k m ks a.0 a.1 d.0 h.1),
    length-insert (k <> "-01") k m h.0,
  )

-- The workers are those of the kinds, in their order.
abbrev Named : List String → List WorkerRecord → Type 0
Named [] [] = Unit
Named (k ∷ ks) (w ∷ ws) = ((w.worker_id ≡ k <> "-01") × (w.worker_kind ≡ k)) × Named ks ws
Named _ _ = ⊥

check_named :
    (expected : Dict String) (seen : Dict (Unit {0})) (k : String) (w : WorkerRecord)
    → (w.worker_id ≡ k <> "-01") × (w.worker_kind ≡ k)
    → Expects expected k
    → has (k <> "-01") seen ≡ false
    → check_launched expected seen w ≡ ok tt
unfolding check_launched
check_named expected seen k w n e h = ground (arith, eq_iff k k)

check-All-Named :
    (expected : Dict String) (seen : Dict (Unit {0})) (ks : List String) (ws : List WorkerRecord)
    → Named ks ws
    → All (λ l. allowed_worker l ≡ true) ks
    → Distinct ks
    → All (Expects expected) ks
    → Absent seen ks
    → (seen' : Dict (Unit {0})) × (check_all_launched expected seen ws ≡ ok seen')
      × (length seen' ≡ length ks + length seen)
unfolding check_all_launched
check-All-Named expected seen [] [] n a d e h = (seen, refl, omega arith)
check-All-Named expected seen [] (w ∷ ws) n a d e h = absurd n
check-All-Named expected seen (k ∷ ks) [] n a d e h = absurd n
check-All-Named expected seen (k ∷ ks) (w ∷ ws) n a d e h =
    let one = check_named expected seen k w n.0 e.0 h.0 in
    let id = n.0.0 in
    let (seen', r, l) =
      check-All-Named expected (insert (k <> "-01") tt seen) ks ws n.1 a.1 d.1 e.1
        (Absent-insert k tt seen ks a.0 a.1 d.0 h.1) in
    (seen', ground arith, omega (arith, length-insert (k <> "-01") tt seen h.0))

profile_named :
    (cfg : Config) (run : RunRecord) (k : String) (p : Profile)
    → build_run_worker_connection_profile cfg run k ≡ ok p
    → (allowed_worker k ≡ true) × (p.worker_id ≡ trim_space (k <> "-01")) × (p.worker_kind ≡ k)
unfolding build_run_worker_connection_profile build_run_connection_profile
profile_named cfg run k p h = ground arith

profiles-Named :
    (cfg : Config) (run r : RunRecord) (mode : String) (now : Time) (ks : List String)
    (ps : List Profile)
    → build_run_worker_connection_profiles cfg run ks ≡ ok ps
    → All (λ l. allowed_worker l ≡ true) ks × Named ks (map (contract_worker mode now r) ps)
unfolding build_run_worker_connection_profiles contract_worker
profiles-Named cfg run r mode now [] [] h = (tt, tt)
profiles-Named cfg run r mode now [] (p ∷ ps) h = cc
profiles-Named cfg run r mode now (k ∷ ks) ps h =
    let (p, a, g) = >>=-ok (build_run_worker_connection_profile cfg run k) _ h in
    let (qs, b, e) = >>=-ok (build_run_worker_connection_profiles cfg run ks) _ g in
    let (allowed, id, kind) = profile_named cfg run k p a in
    let (as', n) = profiles-Named cfg run r mode now ks qs b in
    let q : ps ≡ p ∷ qs = sym (ok_inj e) in
    subst
      (λ l.
        All (λ x. allowed_worker x ≡ true) (k ∷ ks)
        × Named (k ∷ ks) (map (contract_worker mode now r) l))
      (sym q) ((allowed, as'), ((id ∙ (allowed-IsNamed k allowed).1, kind), n))

-- If the profiles of a run's kinds, which are distinct, can be built, and the context of the call is not
-- done, then the workers that the contract runtime returns for them pass the check against the planned
-- workers.
pub contract_launch_accepted :
    (context_error : List Call → Option Error) (cfg : Config) (run r : RunRecord) (mode : String)
    (now : Time) (kinds : List String) (ps : List Profile) (calls : List Call)
    → context_error calls ≡ none
    → build_run_worker_connection_profiles cfg run kinds ≡ ok ps
    → Distinct kinds
    → validate_launched_workers
        (planned_worker_records r kinds now)
        ((contract_spooler context_error mode now).start_run_profiles calls run ps).workers
      ≡ ok tt
unfolding contract_spooler contract_launch validate_launched_workers planned_worker_records
contract_launch_accepted context_error cfg run r mode now kinds ps calls live h d =
    let (a, n) = profiles-Named cfg run run mode now kinds ps h in
    let (seen, x, l) =
      check-All-Named (expected_kinds (map (planned_worker r now) kinds) []) [] kinds
        (map (contract_worker mode now run) ps) n a d (expected-All r now kinds [] a)
        (Absent-empty Unit kinds) in
    let m = expected_length r now kinds [] a d (Absent-empty String kinds) in ground arith
