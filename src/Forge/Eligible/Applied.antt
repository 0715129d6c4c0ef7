-- ===== src/Forge/Eligible/Applied.antt =====
-- An outcome that the evaluation applies, traced back to its evidence.
use radiant_prj.Common.{
  String, ◌≡◌, refl, Bool, true, false, none, some, inl, inr, arith, eq_iff, Bool-cases,
  Option-cases,
}
use radiant_prj.Common.Error.{Result, ok, err, Result-cases}
use radiant_prj.Simops.Types.{Time, Lifecycle, RunRecord}
use radiant_prj.Simops.Store.{get_run}
use radiant_prj.Workbench.Types.{ValueLineage, ResultValue, result_schema_version}
use radiant_prj.Forge.Types.{
  GameOutcome, ResultArtifact, Evidence, ForgeRecord, eligible_artifact_kind, eligible_media_type,
  artifact_committed, integrity_verified,
}
use radiant_prj.Forge.Judgment.{Judgment, judge, lineage_eligible, game_outcome}
use radiant_prj.Forge.Manager.{
  ForgeManager, ForgeWorld, save_answer, record_decision, decided, applied_record, apply_judgment,
  apply_evidence, read_eligibility, evaluate_run, evaluate, is_result_artifact_not_found,
}
use radiant_prj.Forge.Eligible.{Binds, IsAllowed, lineage_eligible_sound}

-- The evidence has all its parts, and they allow the outcome.
abbrev pub IsEligible : ForgeRecord → Evidence → ResultValue → ValueLineage → Type 0
IsEligible r e v l =
    IsAllowed e.artifact r.simulation_recipe
    × (e.expected_value ≡ some v)
    × (e.lineage ≡ some l)
    × Binds l r e.artifact

-- What the outcome of a request rests on: its run, and the evidence of that run.
abbrev pub AppliedFrom : ForgeManager → ForgeRecord → ForgeWorld → GameOutcome → Type 0
AppliedFrom m r w o =
    (run : RunRecord) × (read : RunRecord → Result Evidence) × (e : Evidence) × (v : ResultValue)
    × (l : ValueLineage) × (get_run r.run_id w.simops.store ≡ ok run)
    × (run.lifecycle ≡ Lifecycle.complete)
    × (m.eligibility ≡ some read)
    × (read run ≡ ok e)
    × IsEligible r e v l
    × (o ≡ game_outcome m.digest r e.artifact v l)

judge_sound :
    (r : ForgeRecord) (e : Evidence) {a : ResultArtifact} {v : ResultValue} {l : ValueLineage}
    → judge r e ≡ Judgment.eligible a v l
    → (e.artifact ≡ a) × IsEligible r e v l
unfolding judge
judge_sound r e {a} {v} {l} h =
    let x = e.artifact in
    let same : e.artifact ≡ a = ground arith in
    let lineage : lineage_eligible l r x ≡ true = ground arith in
    (
      same,
      (
        (
          ground (arith, eq_iff x.status artifact_committed),
          ground arith,
          ground (arith, eq_iff x.kind eligible_artifact_kind),
          ground (arith, eq_iff x.media_type eligible_media_type),
          ground (arith, eq_iff x.schema_version result_schema_version),
          ground (arith, eq_iff x.recipe r.simulation_recipe),
          ground (arith, eq_iff x.integrity integrity_verified),
        ),
        ground arith,
        ground arith,
        lineage_eligible_sound l r x lineage,
      ),
    )

module _ (m : ForgeManager) (now : Time) (r : ForgeRecord) (fresh : r.outcome ≡ none)
    {r' : ForgeRecord} {c : Bool} {w' : ForgeWorld} {o : GameOutcome}
    (applied : r'.outcome ≡ some o) where
  saved_record :
      (q : ForgeRecord) (d : Bool) (w : ForgeWorld) → save_answer q d w ≡ (ok (r', c), w') → r' ≡ q
  unfolding save_answer
  saved_record q d w h = ground arith

  decided_nothing :
      (decision : _) (text a l : String) (w : ForgeWorld)
      → record_decision m now r decision text a l w ≡ (ok (r', c), w')
      → ⊥
  unfolding record_decision decided
  decided_nothing decision text a l w h =
      let e = saved_record (decided m now r decision text a l) false w h in ground arith

  judged_applies :
      (j : Judgment) (w : ForgeWorld)
      → apply_judgment m now r j w ≡ (ok (r', c), w')
      → (a : ResultArtifact) × (v : ResultValue) × (l : ValueLineage) × (j
          ≡ Judgment.eligible a v l)
        × (o ≡ game_outcome m.digest r a v l)
  unfolding apply_judgment applied_record
  judged_applies (Judgment.refused d text a l) w h = absurd (decided_nothing d text a l w h)
  judged_applies (Judgment.eligible a v l) w h =
      let e = saved_record _ false w h in (a, v, l, refl, ground arith)

  evidence_applies :
      (x : Result Evidence) (w : ForgeWorld)
      → apply_evidence m now r x w ≡ (ok (r', c), w')
      → (e : Evidence) × (v : ResultValue) × (l : ValueLineage) × (x ≡ ok e)
        × IsEligible r e v l
        × (o ≡ game_outcome m.digest r e.artifact v l)
  unfolding apply_evidence
  evidence_applies (ok e) w h =
      let (a, v, l, p, q) = judged_applies (judge r e) w h in
      let (same, eligible) = judge_sound r e p in (e, v, l, refl, eligible, ground arith)
  evidence_applies (err e) w h = elim (Bool-cases (is_result_artifact_not_found e)) [
    | inl p ↦ absurd (decided_nothing _ _ "" "" w (rw p at h))
    | inr p ↦ absurd (ground arith)
  ]

  run_applies :
      (run : RunRecord) (lifecycle : Lifecycle) (w : ForgeWorld)
      → evaluate_run m now r run lifecycle w ≡ (ok (r', c), w')
      → (lifecycle ≡ Lifecycle.complete) × (read_eligibility m now r run w ≡ (ok (r', c), w'))
  unfolding evaluate_run
  run_applies run Lifecycle.complete w h = (refl, h)
  run_applies run Lifecycle.failed w h = absurd (decided_nothing _ _ "" "" w h)
  run_applies run Lifecycle.stopped w h = absurd (decided_nothing _ _ "" "" w h)
  run_applies run _ w h = let e = saved_record _ false w h in absurd (ground arith)

-- If the evaluation of a request without an outcome answers with one, then the request's run was
-- found and is complete, and the eligibility store gave evidence of that run: a committed, complete,
-- verified artifact on the allowlist with the request's recipe, the expected value, and a lineage
-- that binds the session, the reactor, the run, the recipe and the artifact. The outcome is the one
-- made of them.
pub evaluate_applies_eligible :
    (m : ForgeManager) (now : Time) (r : ForgeRecord) (w : ForgeWorld) {r' : ForgeRecord} {c : Bool}
    {w' : ForgeWorld} {o : GameOutcome}
    → evaluate m now r w ≡ (ok (r', c), w')
    → r.outcome ≡ none
    → r'.outcome ≡ some o
    → AppliedFrom m r w o
unfolding evaluate read_eligibility
evaluate_applies_eligible m now r w {r'} {c} {w'} {o} h fresh applied =
    elim (Result-cases (get_run r.run_id w.simops.store)) [
      | inl (e, p) ↦ absurd (ground arith)
      | inr (run, p) ↦
          let at : evaluate_run m now r run run.lifecycle w ≡ (ok (r', c), w') = ground arith in
          let (complete, q) = run_applies m now r fresh applied run run.lifecycle w at in
          elim (Option-cases m.eligibility) [
            | inl n ↦ absurd (ground arith)
            | inr (read, n) ↦
                let given : apply_evidence m now r (read run) w ≡ (ok (r', c), w') = ground arith in
                let (e, v, l, s, eligible, made) =
                  evidence_applies m now r fresh applied (read run) w given in
                (run, read, e, v, l, p, complete, n, s, eligible, made)
          ]
    ]
