-- ===== src/Simops/Runtime.antt =====
-- What the run control calls and does not implement itself: the worker runtime (SimopsSpooler of
-- backend/slurm-gateway/internal/gateway/simops_adapters.go) and the event log (SimopsEventLog).
-- They are interfaces of the program. An implementation answers as it likes, by the calls that were
-- made before; a world is the store with the list of those calls. Deadlines and cancellation of a
-- context show only in the answers.
use radiant_prj.Common.{String, Bool, true, false, ◌||◌, Option, none, some, List, [], ◌∷◌, ◌++◌}
use radiant_prj.Common.Error.{Error, Result, ok, err, error_text}
use radiant_prj.Simops.Types.{RunRecord, WorkerRecord, SpoolCommand, ObservedWorkerLifecycle, Event}
use radiant_prj.Simops.Connection.{Profile}
use radiant_prj.Simops.Store.{Store}
use radiant_prj.Simops.Store.Intents.{save_event}

pub data Call : Type 0 where
  start_call stop_call cleanup_call sync_call : String → List Profile → Call

pub record World : Type 0 where
  pub store : Store
  pub calls : List Call

-- StartRunProfiles returns workers and commands beside its error.
pub record Launch : Type 0 where
  pub workers : List WorkerRecord
  pub commands : List SpoolCommand
  pub error : Option Error

pub record Spooler : Type 0 where
  pub start_run_profiles : List Call → RunRecord → List Profile → Launch
  pub stop_run_profiles : List Call → String → List Profile → Option Error
  pub cleanup_run_profiles : List Call → String → List Profile → Option Error
  pub sync_run_profiles :
      List Call → RunRecord → List Profile → Result (List ObservedWorkerLifecycle)

-- Publish may write to the store.
pub record EventLog : Type 0 where
  pub publish : Event → Store → Option Error × Store

saved : Store → Result Store → Option Error × Store
saved s (ok s') = (none, s')
saved s (err e) = (some e, s)

-- Publish of MemorySimopsEventLog: the error of the context if it is done, then whether there is a store.
unfoldable pub memory_publish : Option Error → Bool → Event → Store → Option Error × Store
unfolding saved
memory_publish (some e) has_store event s = (some e, s)
memory_publish none false event s = (none, s)
memory_publish none true event s = saved s (save_event event s)

-- MemorySimopsEventLog, with what the context's Err answers.
unfoldable pub memory_event_log : Option Error → Bool → EventLog
unfolding memory_publish
memory_event_log context_error has_store = record {
  publish = memory_publish context_error has_store;
}

-- errorText
unfoldable pub text_of : Option Error → String
text_of none = ""
text_of (some e) = error_text e

is_confirmed : Error → Bool
is_confirmed (Error.confirmed e) = true
is_confirmed (Error.wrapped m e) = is_confirmed e
is_confirmed (Error.joined e f) = is_confirmed e || is_confirmed f
is_confirmed _ = false

-- isConfirmedRuntimeFailure: `errors.As` looks through wrapped and joined errors.
unfoldable pub is_confirmed_runtime_failure : Option Error → Bool
unfolding is_confirmed
is_confirmed_runtime_failure none = false
is_confirmed_runtime_failure (some e) = is_confirmed e

-- One call of the spooler, written down.
unfoldable pub record_call : Call → World → World
record_call c w = record w { calls = w.calls ++ c ∷ [] }
