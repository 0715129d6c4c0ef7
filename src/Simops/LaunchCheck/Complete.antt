-- ===== src/Simops/LaunchCheck/Complete.antt =====
-- What a launch that passes the check has.
use radiant_prj.Common.{
  ◌+◌, String, ◌≡◌, false, inl, inr, some, List, [], ◌∷◌, length, All, Option-cases, arith, eq_iff,
}
use radiant_prj.Common.Error.{ok, Result-cases}
use radiant_prj.Common.Dict.{Dict, lookup, insert, has, has-insert, length-insert}
use radiant_prj.Simops.Types.{WorkerRecord}
use radiant_prj.Simops.LaunchCheck.{
  expected_kinds, check_launched, check_all_launched, validate_launched_workers,
}

-- No two workers have one identifier.
abbrev pub DistinctIds : List WorkerRecord → Type 0
DistinctIds [] = Unit
DistinctIds (w ∷ ws) = All (λ x. (x.worker_id ≡ w.worker_id) → ⊥) ws × DistinctIds ws

-- The worker was planned with that kind.
abbrev pub IsPlanned : Dict String → WorkerRecord → Type 0
IsPlanned expected w = lookup w.worker_id expected ≡ some w.worker_kind

unseen-insert :
    (w : WorkerRecord) (seen : Dict (Unit {0})) (ws : List WorkerRecord)
    → All (λ x. has x.worker_id (insert w.worker_id tt seen) ≡ false) ws
    → All (λ x. has x.worker_id seen ≡ false) ws × All (λ x. (x.worker_id ≡ w.worker_id) → ⊥) ws
unseen-insert w seen [] a = (tt, tt)
unseen-insert w seen (x ∷ ws) (f, a) =
    let (a', n) = unseen-insert w seen ws a in
    let law = has-insert w.worker_id x.worker_id tt seen in
    (
      (ground (arith, eq_iff w.worker_id x.worker_id), a'),
      (λ e. ground (arith, eq_iff w.worker_id x.worker_id), n),
    )

check_inv :
    (expected : Dict String) (seen : Dict (Unit {0})) (w : WorkerRecord)
    → check_launched expected seen w ≡ ok tt
    → IsPlanned expected w × (has w.worker_id seen ≡ false)
unfolding check_launched
check_inv expected seen w h = elim (Option-cases (lookup w.worker_id expected)) [
  | inl e ↦ absurd (ground arith)
  | inr (kind, e) ↦ ground (arith, eq_iff kind w.worker_kind)
]

check-All_inv :
    (expected : Dict String) (seen seen' : Dict (Unit {0})) (ws : List WorkerRecord)
    → check_all_launched expected seen ws ≡ ok seen'
    → All (IsPlanned expected) ws
      × All (λ x. has x.worker_id seen ≡ false) ws
      × DistinctIds ws
      × (length seen' ≡ length ws + length seen)
unfolding check_all_launched
check-All_inv expected seen seen' [] h = (tt, tt, tt, ground arith)
check-All_inv expected seen seen' (w ∷ ws) h =
    let first : check_launched expected seen w ≡ ok tt = ground arith in
    let rest : check_all_launched expected (insert w.worker_id tt seen) ws ≡ ok seen' =
      ground arith in
    let (p, f) = check_inv expected seen w first in
    let (ps, fs, d, n) = check-All_inv expected (insert w.worker_id tt seen) seen' ws rest in
    let (fs', a) = unseen-insert w seen ws fs in
    ((p, ps), (f, fs'), (a, d), omega (arith, length-insert w.worker_id tt seen f))

-- The workers of a launch that is accepted have distinct identifiers, each is planned with the kind
-- that it has, and there are as many of them as planned identifiers.
pub launched_workers_checked :
    (planned launched : List WorkerRecord)
    → validate_launched_workers planned launched ≡ ok tt
    → All (IsPlanned (expected_kinds planned [])) launched
      × DistinctIds launched
      × (length launched ≡ length (expected_kinds planned []))
unfolding validate_launched_workers
launched_workers_checked planned launched h =
    let expected = expected_kinds planned [] in
    elim (Result-cases (check_all_launched expected [] launched)) [
      | inl (e, r) ↦ absurd (ground arith)
      | inr (seen, r) ↦
          let (ps, _, d, n) = check-All_inv expected [] seen launched r in (ps, d, ground arith)
    ]
