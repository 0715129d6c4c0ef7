-- ===== src/Twin/Tests.antt =====
-- A state of the twin, and a store with an event log that refuses the first call.
use radiant_prj.Common.{
  ℕ, zero, suc, String, ◌≡◌, refl, true, false, not, Option, none, some, [], ◌∷◌, All,
}
use radiant_prj.Common.Error.{Error, ok, err}
use radiant_prj.Common.Dict.{Dict, lookup, insert, has}
use radiant_prj.Common.Text.{show_ℕ, trim_space}
use radiant_prj.Simops.Types.{ℤ}
use radiant_prj.Workbench.Types.{ValueLineage}
use radiant_prj.Twin.Types.{
  TwinValue, TwinState, ProjectionPosition, Publication, PublicationRecovery, PublicationStage,
  Outcome, PublicationError,
}
use radiant_prj.Twin.Validation.{twin_publication_id, new_publication, validate_publication}
use radiant_prj.Twin.Validation.Sound.{HasLineage, validated_lineage}
use radiant_prj.Twin.Publisher.{Ports, resume_publication, publish_twin}
use radiant_prj.Twin.Publisher.Resumed.{failed_delivery_resumed}

abbrev position : ProjectionPosition
position = record { topic = "scada.frames"; partition = ℤ.pos 2; offset = ℤ.pos 17 }

abbrev value_lineage : ValueLineage
value_lineage = record {
  schema_version = "digital-twin.lineage.v1";
  lineage_id = "LIN-1";
  value_id = "VAL-1";
  value_basis = "imputed";
  inputs = [];
  processing_steps = [];
  artifacts = [];
}

abbrev imputed_value : TwinValue
imputed_value = record {
  value_id = "VAL-1";
  label = "margin";
  value_basis = "imputed";
  unit = "K";
  value = "{}";
  confidence = record { numerator = ℤ.pos 1; exponent = 1 };
  freshness = record { age_sec = ℤ.pos 0; status = "fresh" };
  lineage_id = "LIN-1";
  source_ids = [];
}

abbrev twin_state : TwinState
twin_state = record {
  schema_version = "digital-twin.state.v1";
  twin_id = "TWIN-1";
  as_of = 5;
  entities = record { entity_id = "E1"; display_name = "Core"; values = imputed_value ∷ [] } ∷ [];
}

abbrev digest : String → String
digest s = s

abbrev publication : Publication
publication = new_publication digest position "twin.state" twin_state (value_lineage ∷ [])

-- The store, and how often the event log refuses.
record Memory : Type 0 where
  stored : Dict Publication
  refusals : ℕ

abbrev log_answer : ℕ → Option Error
log_answer zero = none
log_answer (suc n) = some (Error.message "broker down")

abbrev fewer : ℕ → ℕ
fewer zero = zero
fewer (suc n) = n

abbrev ports : Ports Memory
ports = record {
  save_publication = λ p w. (
    ok (not (has p.publication_id w.stored)),
    record w { stored = insert p.publication_id p w.stored },
  );
  get_publication =
      λ id w. elim (lookup id w.stored) [ none ↦ err Error.workbench_not_found | some p ↦ ok p ];
  acknowledge_publication = λ id w. (none, w);
  publish_state = λ p w. (log_answer w.refusals, record w { refusals = fewer w.refusals });
}

abbrev before : Memory
before = record { stored = []; refusals = 1 }

abbrev after : Memory
after = record { stored = (publication.publication_id, publication) ∷ []; refusals = 0 }

abbrev undelivered : Outcome
undelivered = record {
  publication_id = publication.publication_id;
  persisted = true;
  duplicate = false;
  delivered = false;
  recovery = PublicationRecovery.retry_same_publication;
}

abbrev refused : PublicationError
refused = record {
  stage = PublicationStage.event_delivery;
  outcome = undelivered;
  cause = Error.message "broker down";
}

validated_lineage_example :
    (publication.publication_id ≡ twin_publication_id digest position)
    × All (λ e. All (HasLineage (value_lineage ∷ [])) e.values) twin_state.entities
unfolding new_publication validate_publication twin_publication_id show_ℕ trim_space has insert
validated_lineage_example = validated_lineage digest publication refl

failed_delivery_resumed_example :
    (c : Publication) × (ports.get_publication publication.publication_id after ≡ ok c)
    × (resume_publication digest ports position after ≡ (
      record {
        publication_id = publication.publication_id;
        persisted = false;
        duplicate = true;
        delivered = true;
        recovery = PublicationRecovery.complete;
      },
      true,
      none,
      after,
    ))
unfolding new_publication publish_twin lookup insert has validate_publication show_ℕ trim_space
failed_delivery_resumed_example =
    failed_delivery_resumed digest ports publication undelivered refused before after refl refl
      (λ q id v. refl) (λ q. refl)
