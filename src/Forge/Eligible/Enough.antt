-- ===== src/Forge/Eligible/Enough.antt =====
-- Evidence that is enough for an outcome.
use radiant_prj.Common.{
  String, ◌≡◌, refl, ap, ◌∙◌, Bool, true, false, ◌==◌, none, some, List, [], ◌∷◌, inl, inr, arith,
  eq_iff,
}
use radiant_prj.Common.Error.{Result, ok}
use radiant_prj.Common.Text.{trim_space}
use radiant_prj.Common.Dict.{lookup, insert}
use radiant_prj.Simops.Types.{Time, Lifecycle, RunRecord}
use radiant_prj.Simops.Store.{get_run}
use radiant_prj.Workbench.Types.{
  TwinLineageInput, TwinLineageArtifact, ValueLineage, ResultValue, ResultFrame,
  result_schema_version, lineage_schema_version, value_simulated,
}
use radiant_prj.Forge.Types.{
  ResultArtifact, Evidence, ForgeRecord, eligible_artifact_kind, eligible_media_type,
  artifact_committed, integrity_verified, Decision,
}
use radiant_prj.Forge.Store.{save_request, keeps_outcome, stored_outcome, forge_store_key}
use radiant_prj.Forge.Judgment.{
  Judgment, judge, lineage_eligible, names_source, links_artifact, game_outcome,
}
use radiant_prj.Forge.Manager.{
  ForgeManager, ForgeWorld, save_answer, applied_record, apply_judgment, apply_evidence,
  read_eligibility, evaluate_run, evaluate,
}
use radiant_prj.Forge.Eligible.{Binds, Names, Links}
use radiant_prj.Forge.Eligible.Applied.{IsEligible}

names_source_complete :
    (kind identity : String) (is : List TwinLineageInput)
    → Names kind identity is
    → names_source kind identity is ≡ true
unfolding names_source
names_source_complete kind identity [] (j, within, p, q) = absurd within
names_source_complete kind identity (i ∷ is) (j, inl e, p, q) = ground (
  arith,
  ap (λ x. x.source_kind) e,
  ap (λ x. x.source_id) e,
  eq_iff i.source_kind kind,
  eq_iff i.source_id identity,
)
names_source_complete kind identity (i ∷ is) (j, inr within, p, q) =
    ground (arith, names_source_complete kind identity is (j, within, p, q))

links_artifact_complete :
    (a : ResultArtifact) (ls : List TwinLineageArtifact) → Links a ls → links_artifact a ls ≡ true
unfolding links_artifact
links_artifact_complete a [] (k, within, p, q) = absurd within
links_artifact_complete a (l ∷ ls) (k, inl e, p, q) = ground (
  arith,
  ap (λ x. x.artifact_id) e,
  ap (λ x. x.media_type) e,
  eq_iff l.artifact_id a.artifact_id,
  eq_iff l.media_type a.media_type,
)
links_artifact_complete a (l ∷ ls) (k, inr within, p, q) =
    ground (arith, links_artifact_complete a ls (k, within, p, q))

lineage_eligible_complete :
    (l : ValueLineage) (r : ForgeRecord) (a : ResultArtifact)
    → Binds l r a
    → (trim_space l.lineage_id == "") ≡ false
    → lineage_eligible l r a ≡ true
unfolding lineage_eligible
lineage_eligible_complete l r a (schema, basis, session, reactor, run, recipe, linked) named =
    ground (
      arith,
      eq_iff l.schema_version lineage_schema_version,
      eq_iff l.value_basis value_simulated,
      names_source_complete _ _ _ session,
      names_source_complete _ _ _ reactor,
      names_source_complete _ _ _ run,
      names_source_complete _ _ _ recipe,
      links_artifact_complete a _ linked,
    )

judge_complete :
    (r : ForgeRecord) (e : Evidence) (f : ResultFrame) (v : ResultValue) (l : ValueLineage)
    → IsEligible r e v l
    → e.result ≡ some f
    → (trim_space l.lineage_id == "") ≡ false
    → judge r e ≡ Judgment.eligible e.artifact v l
unfolding judge
judge_complete r e f v l (allowed, has_value, has_lineage, binds) has_frame named =
    let x = e.artifact in
    ground (
      arith,
      allowed,
      eq_iff x.status artifact_committed,
      eq_iff x.kind eligible_artifact_kind,
      eq_iff x.media_type eligible_media_type,
      eq_iff x.schema_version result_schema_version,
      eq_iff x.recipe r.simulation_recipe,
      eq_iff x.integrity integrity_verified,
      lineage_eligible_complete l r x binds named,
    )

-- A save under a key without an outcome is made.
save_answer-ok :
    (r : ForgeRecord) (c : Bool) (w : ForgeWorld)
    → stored_outcome (lookup (forge_store_key r.game_session_id r.idempotency_key) w.store.records)
      ≡ none
    → (w' : ForgeWorld) × (save_answer r c w ≡ (ok (r, c), w'))
      × (save_request r w.store ≡ ok w'.store)
unfolding save_answer save_request keeps_outcome
save_answer-ok r c w fresh =
    let key = forge_store_key r.game_session_id r.idempotency_key in
    (
      record w { store = record { records = insert key r w.store.records } },
      ground arith,
      ground arith,
    )

-- If the run of a request is complete, no outcome is stored under the request's key, and the
-- eligibility store gives evidence that allows the outcome, with a result and a lineage that has a
-- name, then the evaluation answers with a record that has the outcome made of the evidence, decides
-- outcome_applied, and stores the record.
pub evaluate_applies :
    (m : ForgeManager) (now : Time) (r : ForgeRecord) (w : ForgeWorld) (run : RunRecord)
    (read : RunRecord → Result Evidence) (e : Evidence) (f : ResultFrame) (v : ResultValue)
    (l : ValueLineage)
    → get_run r.run_id w.simops.store ≡ ok run
    → run.lifecycle ≡ Lifecycle.complete
    → stored_outcome (lookup (forge_store_key r.game_session_id r.idempotency_key) w.store.records)
      ≡ none
    → m.eligibility ≡ some read
    → read run ≡ ok e
    → IsEligible r e v l
    → e.result ≡ some f
    → (trim_space l.lineage_id == "") ≡ false
    → (r' : ForgeRecord) × (w' : ForgeWorld) × (evaluate m now r w ≡ (ok (r', false), w'))
      × (r'.outcome ≡ some (game_outcome m.digest r e.artifact v l))
      × (r'.decision ≡ Decision.outcome_applied)
      × (save_request r' w.store ≡ ok w'.store)
unfolding evaluate evaluate_run read_eligibility apply_evidence apply_judgment applied_record
evaluate_applies m now r w run read e f v l found complete fresh reader evidence eligible framed
      named =
    let judged = judge_complete r e f v l eligible framed named in
    let r' = applied_record m now r e.artifact v l in
    let (w', answered, stored) = save_answer-ok r' false w fresh in
    let same : evaluate m now r w ≡ save_answer r' false w =
      ground (arith, found, complete, reader, evidence, judged) in
    (r', w', same ∙ answered, refl, refl, stored)
