-- ===== src/Simops/Outbox.antt =====
-- backend/slurm-gateway/internal/gateway/simops_run_lifecycle.go: dispatchSimopsPublicationIntents.
-- The store's clock is read once. The proofs are in the module below.
pub mod Once
use radiant_prj.Common.{
  String, Bool, true, false, Option, none, some, List, [], ◌∷◌, ◌++◌, if◌then◌else◌,
}
use radiant_prj.Common.Error.{Error, Result, ok, err, join_all}
use radiant_prj.Simops.Types.{Time, PublicationState, PublicationIntent}
use radiant_prj.Simops.Store.{Store}
use radiant_prj.Simops.Store.Intents.{
  list_publication_intents, mark_publication_intent_published, mark_publication_intent_failed,
}
use radiant_prj.Simops.Runtime.{EventLog}

abbrev pub is_published : PublicationState → Bool
is_published PublicationState.published = true
is_published _ = false

-- What follows the answer of Publish.
unfoldable pub settle_intent : Time → PublicationIntent → Option Error × Store → List Error × Store
settle_intent now i (some e, s) = elim (mark_publication_intent_failed i.intent_id e now s) [
  | err m ↦ (Error.wrapped "mark publication intent failed" m ∷ [], s)
  | ok s' ↦ (Error.wrapped "publish intent %s" e ∷ [], s')
]
settle_intent now i (none, s) = elim (mark_publication_intent_published i.intent_id i.event now s) [
  | err m ↦ (Error.wrapped "mark publication intent published" m ∷ [], s)
  | ok s' ↦ ([], s')
]

unfoldable pub dispatch_intent : EventLog → Time → PublicationIntent → Store → List Error × Store
unfolding settle_intent
dispatch_intent log now i s =
    if is_published i.state then ([], s) else settle_intent now i (log.publish i.event s)

unfoldable pub dispatch_intents :
    EventLog → Time → List PublicationIntent → Store → List Error × Store
dispatch_intents log now [] s = ([], s)
dispatch_intents log now (i ∷ is) s =
    let (errors, s1) = dispatch_intent log now i s in
    let (more, s2) = dispatch_intents log now is s1 in (errors ++ more, s2)

unfoldable pub dispatch_publication_intents :
    EventLog → Time → String → Store → Option Error × Store
dispatch_publication_intents log now run_id s = elim (list_publication_intents run_id s) [
  | err e ↦ (some e, s)
  | ok intents ↦ let (errors, s') = dispatch_intents log now intents s in (join_all errors, s')
]
