-- ===== src/Twin/Publisher.antt =====
-- backend/slurm-gateway/internal/gateway/twin_state_publication.go: orderedTwinStatePublisher.
pub mod Resumed
use radiant_prj.Common.{String, Bool, true, false, not, Option, none, some}
use radiant_prj.Common.Error.{Error, Result, ok, err, error_is}
use radiant_prj.Twin.Types.{
  ProjectionPosition, Publication, PublicationRecovery, PublicationStage, Outcome, PublicationError,
}
use radiant_prj.Twin.Validation.{twin_publication_id, validate_publication}

-- TwinStatePublicationStore and TwinStatePublicationEventLog. `W` is what both may change; the
-- context of a call is part of it.
pub record Ports (W : Type 0) : Type 0 where
  pub save_publication : Publication → W → Result Bool × W
  pub get_publication : String → W → Result Publication
  pub acknowledge_publication : String → W → Option Error × W
  pub publish_state : Publication → W → Option Error × W

abbrev pub is_workbench_not_found : Error → Bool
is_workbench_not_found e = error_is (λ f. elim f [ Error.workbench_not_found ↦ true | _ ↦ false ]) e

abbrev failed_at : PublicationStage → Outcome → Error → Option PublicationError
failed_at stage o e = some (record { stage = stage; outcome = o; cause = e })

abbrev pub delivered_outcome : Outcome → Outcome
delivered_outcome o = record o { delivered = true; recovery = PublicationRecovery.complete }

module _ {W : Type 0} where
  -- localTwinStatePublicationEventLog, which saves once more; the context is asked as a function of `W`.
  unfoldable pub local_publish_state :
      (W → Option Error) → (Publication → W → Result Bool × W) → Publication → W → Option Error × W
  local_publish_state context_error save p w = elim (context_error w) [
    | some e ↦ (some e, w)
    | none ↦ elim (save p w).0 [ err e ↦ (some e, (save p w).1) | ok _ ↦ (none, (save p w).1) ]
  ]

  -- The end of both methods: a publication that is not acknowledged is given to the event log.
  unfoldable pub deliver :
      Ports W → Outcome → Publication → W → Outcome × Option PublicationError × W
  deliver ports o p w = elim p.acknowledged [
    | true ↦ (delivered_outcome o, none, w)
    | false ↦ elim (ports.publish_state p w).0 [
      | some e ↦ (o, failed_at PublicationStage.event_delivery o e, (ports.publish_state p w).1)
      | none ↦ (delivered_outcome o, none, (ports.publish_state p w).1)
    ]
  ]

  -- The outcome and whether the publication was found.
  unfoldable pub resume_publication :
      (String → String)
      → Ports W
      → ProjectionPosition
      → W
      → Outcome × Bool × Option PublicationError × W
  unfolding deliver
  resume_publication digest ports source w =
      let id = twin_publication_id digest source in
      let o : Outcome = record {
        publication_id = id;
        persisted = false;
        duplicate = true;
        delivered = false;
        recovery = PublicationRecovery.retry_same_publication;
      } in
      elim (ports.get_publication id w) [
        | err e ↦ elim (is_workbench_not_found e) [
          | true ↦ (record o { duplicate = false }, false, none, w)
          | false ↦ (o, false, failed_at PublicationStage.persistence o e, w)
        ]
        | ok p ↦ let (final, failure, w') = deliver ports o p w in (final, true, failure, w')
      ]

  unfoldable pub acknowledge :
      (String → String) → Ports W → ProjectionPosition → W → Option Error × W
  acknowledge digest ports source w =
      ports.acknowledge_publication (twin_publication_id digest source) w

  -- What follows the save.
  unfoldable pub after_save : Ports W → String → Bool → W → Outcome × Option PublicationError × W
  unfolding deliver
  after_save ports id written w =
      let o : Outcome = record {
        publication_id = id;
        persisted = written;
        duplicate = not written;
        delivered = false;
        recovery = PublicationRecovery.retry_same_publication;
      } in
      elim (ports.get_publication id w) [
        | err e ↦ (o, failed_at PublicationStage.persistence o e, w)
        | ok p ↦ deliver ports o p w
      ]

  unfoldable pub publish_twin :
      (String → String) → Ports W → Publication → W → Outcome × Option PublicationError × W
  unfolding after_save
  publish_twin digest ports p w =
      let o : Outcome = record {
        publication_id = p.publication_id;
        persisted = false;
        duplicate = false;
        delivered = false;
        recovery = PublicationRecovery.retry_same_publication;
      } in
      elim (validate_publication digest p) [
        | err e ↦ (o, failed_at PublicationStage.persistence o e, w)
        | ok _ ↦ elim (ports.save_publication p w).0 [
          | err e ↦ (o, failed_at PublicationStage.persistence o e, (ports.save_publication p w).1)
          | ok written ↦ after_save ports p.publication_id written (ports.save_publication p w).1
        ]
      ]
