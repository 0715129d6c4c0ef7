-- ===== src/Twin/Publisher/Resumed.antt =====
-- A delivery that failed is made up by a resume.
use radiant_prj.Common.{String, ◌≡◌, Bool, true, false, none, some, inl, inr, arith}
use radiant_prj.Common.Error.{ok, Result-cases}
use radiant_prj.Twin.Types.{
  ProjectionPosition, Publication, PublicationRecovery, PublicationStage, Outcome, PublicationError,
}
use radiant_prj.Twin.Validation.{twin_publication_id, validate_publication}
use radiant_prj.Twin.Validation.Sound.{validated_id}
use radiant_prj.Twin.Publisher.{Ports, deliver, resume_publication, after_save, publish_twin}

module _ {W : Type 0} where
  deliver_failed :
      (ports : Ports W) (o final : Outcome) (p : Publication) (e : PublicationError) (w w1 : W)
      → deliver ports o p w ≡ (final, some e, w1)
      → (p.acknowledged ≡ false) × (w1 ≡ (ports.publish_state p w).1)
  unfolding deliver
  deliver_failed ports o final p e w w1 h = ground arith

  after_save_failed :
      (ports : Ports W) (id : String) (written : Bool) (o : Outcome) (e : PublicationError)
      (w w1 : W)
      → after_save ports id written w ≡ (o, some e, w1)
      → e.stage ≡ PublicationStage.event_delivery
      → (c : Publication) × (ports.get_publication id w ≡ ok c)
        × (c.acknowledged ≡ false)
        × (w1 ≡ (ports.publish_state c w).1)
  unfolding after_save
  after_save_failed ports id written o e w w1 h at =
      elim (Result-cases (ports.get_publication id w)) [
        | inl (f, got) ↦ ground arith
        | inr (c, got) ↦
            let (a, b) = deliver_failed ports _ o c e w w1 (rw (after_save, got) at h) in
            (c, got, a, b)
      ]

  publish_failed :
      (digest : String → String) (ports : Ports W) (p : Publication) (o : Outcome)
      (e : PublicationError) (w w1 : W)
      → publish_twin digest ports p w ≡ (o, some e, w1)
      → e.stage ≡ PublicationStage.event_delivery
      → (p.publication_id ≡ twin_publication_id digest p.source)
        × (v : W) × (c : Publication) × (ports.get_publication p.publication_id v ≡ ok c)
        × (c.acknowledged ≡ false)
        × (w1 ≡ (ports.publish_state c v).1)
  unfolding publish_twin
  publish_failed digest ports p o e w w1 h at =
      elim (Result-cases (validate_publication digest p)) [
        | inl (f, bad) ↦ ground arith
        | inr (u, valid) ↦ elim (Result-cases (ports.save_publication p w).0) [
          | inl (f, bad) ↦ ground arith
          | inr (written, saved) ↦
              let v = (ports.save_publication p w).1 in
              let (c, got, open_, moved) =
                after_save_failed ports p.publication_id written o e v w1
                  (rw (publish_twin, valid, saved) at h) at in
              (validated_id digest p valid, v, c, got, open_, moved)
        ]
      ]

  resume_delivers :
      (digest : String → String) (ports : Ports W) (source : ProjectionPosition) (c : Publication)
      (w : W)
      → ports.get_publication (twin_publication_id digest source) w ≡ ok c
      → c.acknowledged ≡ false
      → (ports.publish_state c w).0 ≡ none
      → resume_publication digest ports source w ≡ (
        record {
          publication_id = twin_publication_id digest source;
          persisted = false;
          duplicate = true;
          delivered = true;
          recovery = PublicationRecovery.complete;
        },
        true,
        none,
        (ports.publish_state c w).1,
      )
  unfolding resume_publication deliver
  resume_delivers digest ports source c w got open_ accepted = ground arith

  -- When a publish fails as the event log refuses the publication, if the event log does not change what
  -- the store has and accepts every publication then, a resume at the same source is a success:
  -- it finds the stored publication, gives that one to the event log, and answers that the publication
  -- is delivered and complete.
  pub failed_delivery_resumed :
      (digest : String → String) (ports : Ports W) (p : Publication) (o : Outcome)
      (e : PublicationError) (w w1 : W)
      → publish_twin digest ports p w ≡ (o, some e, w1)
      → e.stage ≡ PublicationStage.event_delivery
      → ((q : Publication) (id : String) (v : W)
          → ports.get_publication id (ports.publish_state q v).1 ≡ ports.get_publication id v)
      → ((q : Publication) → (ports.publish_state q w1).0 ≡ none)
      → (c : Publication) × (ports.get_publication p.publication_id w1 ≡ ok c)
        × (resume_publication digest ports p.source w1 ≡ (
          record {
            publication_id = p.publication_id;
            persisted = false;
            duplicate = true;
            delivered = true;
            recovery = PublicationRecovery.complete;
          },
          true,
          none,
          (ports.publish_state c w1).1,
        ))
  failed_delivery_resumed digest ports p o e w w1 h at kept accepted =
      let (id, v, c, got, open_, moved) = publish_failed digest ports p o e w w1 h at in
      let stored : ports.get_publication p.publication_id w1 ≡ ok c =
        rw (moved, kept c p.publication_id v) got in
      (
        c,
        stored,
        rw (id) (resume_delivers digest ports p.source c w1 (rw (id) at stored) open_ (accepted c)),
      )
