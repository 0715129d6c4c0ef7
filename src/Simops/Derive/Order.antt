-- ===== src/Simops/Derive/Order.antt =====
-- Go iterates over the map of workers in an unspecified order.
use mathlib.Core.Logic.{∥∥₁_elim, ∥∥₁_map}
use mathlib.Core.Path.{subst, ap₂}
use mathlib.Core.List.{Perm, Permᴰ, append_assoc, append-nil}
use mathlib.Core.List.Permᴰ
use radiant_prj.Common.{◌≡◌, refl, ◌∙◌, sym, ap, Bool, ◌||◌, List, [], ◌∷◌, ◌++◌, any, arith}
use radiant_prj.Simops.Types.{
  DegradationEvidence, RunState, RunPhase, ConditionStatus, WorkerRecord,
}
use radiant_prj.Simops.Derive.{Tally, count_worker, tally, no_tally, verdict, derive_run_state}
use radiant_prj.Simops.Derive.Verdict.{
  evidence, phase_of, status_of, is_failing, is_stopped, is_executing, is_open, is_impaired,
  derive_verdict,
}

or_swap : (a b c : Bool) → (a || (b || c)) ≡ (b || (a || c))
or_swap a b c = ground arith

any-permᴰ :
    (p : WorkerRecord → Bool) {ws vs : List WorkerRecord} → Permᴰ ws vs → any p ws ≡ any p vs
any-permᴰ p Permᴰ.nil = refl
any-permᴰ p (Permᴰ.cons {b = b} {l₁ = l₁} e h) =
    ap (λ x. p x || any p l₁) e ∙ ap (λ x. p b || x) (any-permᴰ p h)
any-permᴰ p (Permᴰ.swap {a = a} {b = b} {l = l} e f) =
    or_swap (p a) (p b) (any p l) ∙ (cc (ap p e, ap p f))
any-permᴰ p (Permᴰ.trans h k) = any-permᴰ p h ∙ any-permᴰ p k

abbrev logged : WorkerRecord → List DegradationEvidence
logged w = w.state.condition.degradations

perm_of_eq : {xs ys : List DegradationEvidence} → xs ≡ ys → Permᴰ xs ys
perm_of_eq {xs} e = subst (λ l. Permᴰ xs l) e (Permᴰ.refl xs)

swap_prefix : (xs ys zs : List DegradationEvidence) → Permᴰ (xs ++ (ys ++ zs)) (ys ++ (xs ++ zs))
swap_prefix xs ys zs = Permᴰ.trans (perm_of_eq (sym (append_assoc xs ys zs))) (
    Permᴰ.trans (Permᴰ.append_right zs (Permᴰ.append_comm xs ys))
      (perm_of_eq (append_assoc ys xs zs)))

evidence-permᴰ : {ws vs : List WorkerRecord} → Permᴰ ws vs → Permᴰ (evidence ws) (evidence vs)
unfolding evidence
evidence-permᴰ Permᴰ.nil = Permᴰ.nil
evidence-permᴰ (Permᴰ.cons {b = b} {l₁ = l₁} e h) =
    Permᴰ.trans (perm_of_eq (ap (λ x. logged x ++ evidence l₁) e))
      (Permᴰ.append_left (logged b) (evidence-permᴰ h))
evidence-permᴰ (Permᴰ.swap {a = a} {b = b} {l = l} e f) =
    Permᴰ.trans (swap_prefix (logged a) (logged b) (evidence l))
      (perm_of_eq (ap₂ (λ x y. logged x ++ (logged y ++ evidence l)) f e))
evidence-permᴰ (Permᴰ.trans h k) = Permᴰ.trans (evidence-permᴰ h) (evidence-permᴰ k)

count_worker-degradations :
    (w : WorkerRecord) (t : Tally) (es : List DegradationEvidence)
    → (count_worker w.state t).degradations ++ es ≡ t.degradations ++ (logged w ++ es)
unfolding count_worker
count_worker-degradations w t es = ground (arith, append_assoc t.degradations (logged w) es)

tally-degradations :
    (ws : List WorkerRecord) (t : Tally) → (tally ws t).degradations ≡ t.degradations ++ evidence ws
unfolding tally evidence count_worker
tally-degradations [] t = rw append-nil
tally-degradations (w ∷ ws) t =
    tally-degradations ws (count_worker w.state t) ∙ count_worker-degradations w t (evidence ws)

degradations-derive :
    (current : RunState) (ws : List WorkerRecord)
    → (derive_run_state current ws).condition.degradations ≡ evidence ws
unfolding derive_run_state verdict
degradations-derive current ws = ground (arith, tally-degradations ws no_tally)

phase_of-permᴰ : {ws vs : List WorkerRecord} → Permᴰ ws vs → phase_of ws ≡ phase_of vs
unfolding phase_of
phase_of-permᴰ h =
    rw (
      any-permᴰ is_failing h,
      any-permᴰ is_stopped h,
      any-permᴰ is_executing h,
      any-permᴰ is_open h,
    )

status_of-permᴰ : {ws vs : List WorkerRecord} → Permᴰ ws vs → status_of ws ≡ status_of vs
unfolding status_of
status_of-permᴰ h = rw (any-permᴰ is_failing h, any-permᴰ is_impaired h)

RunPhase-set : IsSet RunPhase
RunPhase-set = hlevel

ConditionStatus-set : IsSet ConditionStatus
ConditionStatus-set = hlevel

-- Whatever the order of the workers, the derived phase and status are the same, and the evidence is
-- the same up to order.
pub derive-perm :
    (current : RunState) {ws vs : List WorkerRecord}
    → Perm ws vs
    → ((derive_run_state current ws).phase ≡ (derive_run_state current vs).phase)
      × ((derive_run_state current ws).condition.status
          ≡ (derive_run_state current vs).condition.status)
      × Perm
          (derive_run_state current ws).condition.degradations
          (derive_run_state current vs).condition.degradations
derive-perm current {ws} {vs} p = (
  ∥∥₁_elim p (RunPhase-set _ _)
      (λ h. (derive_verdict current ws).0 ∙ phase_of-permᴰ h ∙ sym (derive_verdict current vs).0),
  ∥∥₁_elim p (ConditionStatus-set _ _)
      (λ h. (derive_verdict current ws).1 ∙ status_of-permᴰ h ∙ sym (derive_verdict current vs).1),
  rw (degradations-derive current ws, degradations-derive current vs) (∥∥₁_map p evidence-permᴰ),
)
