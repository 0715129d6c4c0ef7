-- ===== src/Simops/Request/Checked.antt =====
-- What a request that is accepted has.
use mathlib.Core.Path.{subst}
use radiant_prj.Common.{
  suc, ◌≤◌, String, ◌≡◌, refl, sym, ap, Bool, true, false, inl, inr, ◌==◌, List, [], ◌∷◌, length,
  All, In, Bool-cases, ◌||◌, is_empty, if◌then◌else◌, arith, eq_iff,
}
use radiant_prj.Common.Error.{ok, ok_inj, Result-cases}
use radiant_prj.Common.Dict.{Dict, has, insert, has-insert}
use radiant_prj.Common.Text.{trim_space}
use radiant_prj.Simops.Types.{ℤ, RunRequest}
use radiant_prj.Simops.Profile.{allowed_worker}
use radiant_prj.Simops.Request.{
  normalize_kinds, normalize_worker_kinds, default_simops_workers, with_defaults,
  normalize_run_request, allowed_scenario, allowed_work_script, allowed_launch_mode,
  limit_in_bounds, default_text, default_limit,
}

-- No entry stands twice.
abbrev pub Distinct : List String → Type 0
Distinct [] = Unit
Distinct (x ∷ xs) = (In x xs → ⊥) × Distinct xs

abbrev IsFresh : Dict (Unit {0}) → String → Type 0
IsFresh seen k = (allowed_worker k ≡ true) × (has k seen ≡ false)

-- What is fresh after `w` was seen is fresh, and is not `w`.
IsFresh-insert :
    (w : String) (seen : Dict (Unit {0})) (k : String)
    → IsFresh (insert w tt seen) k
    → IsFresh seen k × (w ≡ k → ⊥)
IsFresh-insert w seen k (a, f) = ground (arith, has-insert w k tt seen, eq_iff w k)

All-IsFresh-insert :
    (w : String) (seen : Dict (Unit {0})) (ks : List String)
    → All (IsFresh (insert w tt seen)) ks
    → All (IsFresh seen) ks × (In w ks → ⊥)
All-IsFresh-insert w seen [] a = (tt, λ i. i)
All-IsFresh-insert w seen (k ∷ ks) (f, a) =
    let (f', n) = IsFresh-insert w seen k f in
    let (a', m) = All-IsFresh-insert w seen ks a in
    ((f', a'), λ i. elim i [ inl e ↦ n e | inr j ↦ m j ])

kinds_inv :
    (seen : Dict (Unit {0})) (v : String) (raw ks : List String)
    → normalize_kinds seen (v ∷ raw) ≡ ok ks
    → (rest : List String) × (normalize_kinds (insert (trim_space v) tt seen) raw ≡ ok rest)
      × (ks ≡ trim_space v ∷ rest)
      × IsFresh seen (trim_space v)
unfolding normalize_kinds
kinds_inv seen v raw ks h =
    elim (Result-cases (normalize_kinds (insert (trim_space v) tt seen) raw)) [
      | inl (e, r) ↦ absurd (ground arith)
      | inr (rest, r) ↦ (rest, r, ground arith, ground arith)
    ]

kinds-IsFresh :
    (seen : Dict (Unit {0})) (raw ks : List String)
    → normalize_kinds seen raw ≡ ok ks
    → All (IsFresh seen) ks × Distinct ks × (length ks ≡ length raw)
unfolding normalize_kinds
kinds-IsFresh seen [] [] h = (tt, tt, refl)
kinds-IsFresh seen [] (k ∷ ks) h = cc
kinds-IsFresh seen (v ∷ raw) ks h =
    let (rest, r, e, f) = kinds_inv seen v raw ks h in
    let (a, d, n) = kinds-IsFresh (insert (trim_space v) tt seen) raw rest r in
    let (a', m) = All-IsFresh-insert (trim_space v) seen rest a in
    subst (λ l. All (IsFresh seen) l × Distinct l × (length l ≡ suc (length raw))) (sym e)
      ((f, a'), (m, d), ap suc n)

All-allowed :
    (seen : Dict (Unit {0})) (ks : List String)
    → All (IsFresh seen) ks
    → All (λ k. allowed_worker k ≡ true) ks
All-allowed seen [] a = tt
All-allowed seen (k ∷ ks) a = (a.0.0, All-allowed seen ks a.1)

pub apart : (a b : String) → (a == b) ≡ false → a ≡ b → ⊥
apart a b h e = ground (arith, eq_iff a b)

four-Distinct : Distinct default_simops_workers
four-Distinct = (
  λ i. ground (
    arith,
    apart "scheduler" "storage" refl,
    apart "scheduler" "burst" refl,
    apart "scheduler" "fabric" refl,
  ),
  (
    λ i. ground (arith, apart "storage" "burst" refl, apart "storage" "fabric" refl),
    (λ i. ground (arith, apart "burst" "fabric" refl), (λ i. i, tt)),
  ),
)

-- The worker kinds of an accepted request are one to four allowed kinds, no two of which are equal.
-- There are as many as the request names, or four if it names none.
pub worker_kinds_checked :
    (raw ks : List String)
    → normalize_worker_kinds raw ≡ ok ks
    → All (λ k. allowed_worker k ≡ true) ks
      × Distinct ks
      × (1 ≤ length ks)
      × (length ks ≤ 4)
      × (length ks ≡ (if is_empty raw then 4 else length raw))
unfolding normalize_worker_kinds allowed_worker
worker_kinds_checked [] ks h =
    subst
      (λ l.
        All (λ k. allowed_worker k ≡ true) l
        × Distinct l
        × (1 ≤ length l)
        × (length l ≤ 4)
        × (length l ≡ 4))
      (ok_inj h) ((refl, (refl, (refl, (refl, tt)))), four-Distinct, omega arith, omega arith, refl)
worker_kinds_checked (v ∷ raw) ks h =
    let g : normalize_kinds [] (v ∷ raw) ≡ ok ks = ground arith in
    let (a, d, n) = kinds-IsFresh [] (v ∷ raw) ks g in
    (All-allowed [] ks a, d, ground arith, ground arith, n)

-- A text that is one of some, each of which is kept, is kept.
kept_or :
    (d v text : String) (b : Bool)
    → default_text d text ≡ text
    → (b ≡ true → default_text d v ≡ v)
    → (b || v == text) ≡ true
    → default_text d v ≡ v
kept_or d v text b k rest h = elim (Bool-cases (v == text)) [
  | inl e ↦
      let q : v ≡ text = ground (arith, eq_iff v text) in
      subst (λ x. default_text d x ≡ x) (sym q) k
  | inr e ↦ rest (ground arith)
]

-- A text that is the only one of its kind is kept.
kept_one :
    (d v text : String) → default_text d text ≡ text → (v == text) ≡ true → default_text d v ≡ v
kept_one d v text k h = kept_or d v text false k (λ e. absurd (ground arith)) (ground arith)

kept_scenario : (d v : String) → allowed_scenario v ≡ true → default_text d v ≡ v
unfolding allowed_scenario default_text trim_space
kept_scenario d v h =
    kept_or d v "fabric-warning" _ refl
      (kept_or d v "cloud-burst" _ refl (
        kept_or d v "checkpoint-pressure" _ refl
          (kept_or d v "scheduler-drift" _ refl (kept_one d v "nominal" refl))))
      h

kept_work_script : (d v : String) → allowed_work_script v ≡ true → default_text d v ≡ v
unfolding allowed_work_script default_text trim_space
kept_work_script d v h = kept_or d v "module-rerun" _ refl (kept_scenario d v) h

kept_launch_mode : (d v : String) → allowed_launch_mode v ≡ true → default_text d v ≡ v
unfolding allowed_launch_mode default_text trim_space
kept_launch_mode d v h =
    kept_or d v "auto" _ refl (kept_or d v "spawn" _ refl (kept_one d v "resident" refl)) h

kept_source : (d v : String) → (v == "frontend" || v == "work-script") ≡ true → default_text d v ≡ v
unfolding default_text trim_space
kept_source d v h = kept_or d v "work-script" _ refl (kept_one d v "frontend" refl) h

accepted_parts :
    (mode : String) (q r : RunRequest)
    → normalize_run_request mode q ≡ ok r
    → (r ≡ with_defaults mode q)
      × (allowed_scenario r.scenario_id ≡ true)
      × ((r.source == "frontend" || r.source == "work-script") ≡ true)
      × (allowed_work_script r.work_script ≡ true)
      × (allowed_launch_mode r.launch_mode ≡ true)
      × (limit_in_bounds r.runtime_limit_sec ≡ true)
unfolding normalize_run_request
accepted_parts mode q r h = ground arith

kept_limit : (n : ℤ) → limit_in_bounds n ≡ true → default_limit n ≡ n
unfolding limit_in_bounds default_limit
kept_limit (ℤ.pos n) h = ground arith
kept_limit (ℤ.negsuc n) h = cc

-- A request that is accepted has a supported scenario, work script and launch mode and a limit from 1
-- to 3600 seconds, and to normalise it again, with the key as it was given, changes nothing, whatever
-- the default for the launch mode is then.
pub run_request_checked :
    (mode mode' : String) (q r : RunRequest)
    → normalize_run_request mode q ≡ ok r
    → (allowed_scenario r.scenario_id ≡ true)
      × (allowed_work_script r.work_script ≡ true)
      × (allowed_launch_mode r.launch_mode ≡ true)
      × (limit_in_bounds r.runtime_limit_sec ≡ true)
      × (normalize_run_request mode' (record r { idempotency_key = q.idempotency_key }) ≡ ok r)
unfolding normalize_run_request with_defaults
run_request_checked mode mode' q r h =
    let (e, a, b, c, d, l) = accepted_parts mode q r h in
    let k1 = kept_scenario "scheduler-drift" r.scenario_id a in
    let k2 = kept_source "frontend" r.source b in
    let k3 = kept_work_script r.scenario_id r.work_script c in
    let k4 = kept_launch_mode mode' r.launch_mode d in
    let k5 = kept_limit r.runtime_limit_sec l in (a, c, d, l, ground arith)
