-- ===== src/Simops/Types.antt =====
-- backend/slurm-gateway/internal/gateway/simops_types.go and the types of simops_state.go,
-- simops_store.go, simops_delivery.go and simops_run_lifecycle.go.
-- A named string type with constants is a data type; `unset` is its zero value, the empty text.
-- `time.Time` is the number of nanoseconds since the zero time, which is 0, and UTC() keeps it.
-- A `*T` that may be nil is an `Option`. JSON text is carried as a `String`.
use radiant_prj.Common.{ℕ, String, Option, List, Bool}
use radiant_prj.Common.Dict.{Dict}

-- Go's `int`. `negsuc n` is -(n + 1).
pub data ℤ : Type 0 where
  pos : ℕ → ℤ
  negsuc : ℕ → ℤ

abbrev pub Time : Type 0
Time = ℕ

pub data Lifecycle : Type 0 where
  unset created starting streaming degraded complete failed stopped : Lifecycle

-- string(lifecycle)
unfoldable pub lifecycle_text : Lifecycle → String
lifecycle_text Lifecycle.unset = ""
lifecycle_text Lifecycle.created = "created"
lifecycle_text Lifecycle.starting = "starting"
lifecycle_text Lifecycle.streaming = "streaming"
lifecycle_text Lifecycle.degraded = "degraded"
lifecycle_text Lifecycle.complete = "complete"
lifecycle_text Lifecycle.failed = "failed"
lifecycle_text Lifecycle.stopped = "stopped"

pub data ActiveExecution : Type 0 where
  unset unobserved uncertain active_observed absent_observed terminal_observed : ActiveExecution

pub data RunPhase : Type 0 where
  unset admitted launching running stopping completed failed stopped : RunPhase

pub data WorkerPhase : Type 0 where
  unset planned launching executing completed failed stopped : WorkerPhase

pub data LaunchDisposition : Type 0 where
  unset unattempted attempted_absent launched rejected : LaunchDisposition

pub data ConditionStatus : Type 0 where
  unset nominal degraded failed : ConditionStatus

pub data CleanupDisposition : Type 0 where
  unset not_requested requested in_progress completed incomplete failed : CleanupDisposition

pub data FailureStage : Type 0 where
  unset none launch execution stop cleanup : FailureStage

pub data ObservedWorkerState : Type 0 where
  unset pending active succeeded failed missing image_pull_failed stopped : ObservedWorkerState

unfoldable pub observed_text : ObservedWorkerState → String
observed_text ObservedWorkerState.unset = ""
observed_text ObservedWorkerState.pending = "pending"
observed_text ObservedWorkerState.active = "active"
observed_text ObservedWorkerState.succeeded = "succeeded"
observed_text ObservedWorkerState.failed = "failed"
observed_text ObservedWorkerState.missing = "missing"
observed_text ObservedWorkerState.image_pull_failed = "image-pull-failed"
observed_text ObservedWorkerState.stopped = "stopped"

pub record DegradationEvidence : Type 0 where
  pub code : String
  pub source : String
  pub message : String
  pub observed_at : Time

pub record OperationalCondition : Type 0 where
  pub status : ConditionStatus
  pub degradations : List DegradationEvidence

pub record WorkerState : Type 0 where
  pub phase : WorkerPhase
  pub launch_disposition : LaunchDisposition
  pub active_execution : ActiveExecution
  pub condition : OperationalCondition
  pub failure_stage : FailureStage
  pub cleanup : CleanupDisposition

pub record RunState : Type 0 where
  pub phase : RunPhase
  pub condition : OperationalCondition
  pub cleanup : CleanupDisposition
  pub launch_observation_deadline : Time

pub record ObservedWorkerLifecycle : Type 0 where
  pub run_id : String
  pub worker_id : String
  pub worker_kind : String
  pub state : ObservedWorkerState
  pub runtime : String
  pub runtime_id : String
  pub reason : String
  pub message : String
  pub exit_code : Option ℤ
  pub observed_at : Time
  pub labels : Dict String

pub record RunRequest : Type 0 where
  pub scenario_id : String
  pub source : String
  pub work_script : String
  pub launch_mode : String
  pub worker_kinds : List String
  pub runtime_limit_sec : ℤ
  pub idempotency_key : String

pub record RunRecord : Type 0 where
  pub run_id : String
  pub scenario_id : String
  pub lifecycle : Lifecycle
  pub state : RunState
  pub source : String
  pub work_script : String
  pub launch_mode : String
  pub runtime_limit_sec : ℤ
  pub idempotency_key : String
  pub submitted_by : String
  pub ingest_token : String
  pub created_at : Time
  pub updated_at : Time

-- `frames` only grows by 0 or 1, so it is a natural number.
pub record WorkerRecord : Type 0 where
  pub run_id : String
  pub worker_id : String
  pub worker_kind : String
  pub lifecycle : Lifecycle
  pub state : WorkerState
  pub observed_lifecycle : ObservedWorkerState
  pub observed_reason : String
  pub observed_message : String
  pub runtime : String
  pub runtime_id : String
  pub observed_exit_code : Option ℤ
  pub observed_at : Option Time
  pub launch_mode : String
  pub endpoint : String
  pub frames : ℕ
  pub updated_at : Time
  pub labels : Dict String

pub record SpoolCommand : Type 0 where
  pub command_id : String
  pub run_id : String
  pub worker_id : String
  pub mode : String
  pub state : Lifecycle
  pub message : String
  pub metadata : Dict String
  pub created_at : Time
  pub updated_at : Time

pub record ArtifactRecord : Type 0 where
  pub artifact_id : String
  pub run_id : String
  pub kind : String
  pub media_type : String
  pub location : String
  pub iceberg_table : String
  pub status : String
  pub created_at : Time

pub record TelemetryFrame : Type 0 where
  pub schema_version : String
  pub run_id : String
  pub scenario_id : String
  pub worker_id : String
  pub worker_kind : String
  pub sequence : ℕ
  pub emitted_at : String
  pub received_at : String
  pub payload_type : String
  pub stream_quality : String
  pub payload : String

pub record Event : Type 0 where
  pub run_id : String
  pub worker_id : String
  pub event_type : String
  pub lifecycle : Lifecycle
  pub frame : String
  pub occurred_at : Time
  pub redpanda_topic : String
  pub redpanda_partition : ℤ
  pub redpanda_offset : ℤ

pub data PublicationState : Type 0 where
  pending published failed : PublicationState

pub record PublicationIntent : Type 0 where
  pub intent_id : String
  pub run_id : String
  pub event : Event
  pub state : PublicationState
  pub attempts : ℕ
  pub last_error : String
  pub created_at : Time
  pub updated_at : Time
  pub published_at : Option Time

pub record StopTransition : Type 0 where
  pub run_id : String
  pub cleanup : CleanupDisposition
  pub stop_failure : String
  pub stop_confirmed : Bool
  pub cleanup_failure : String
  pub cleanup_confirmed : Bool
  pub occurred_at : Time

pub record StopOutcome : Type 0 where
  pub run : RunRecord
  pub workers : List WorkerRecord
  pub intent : Option PublicationIntent

pub data DeliveryAttemptState : Type 0 where
  pending unknown resolved : DeliveryAttemptState

pub record DeliveryCoordinate : Type 0 where
  pub topic : String
  pub partition : ℤ
  pub offset : ℤ

pub record DeliveryAttemptRequest : Type 0 where
  pub run_id : String
  pub target : String
  pub coordinates : List DeliveryCoordinate

pub record VerifiedDeliveryEvidence : Type 0 where
  pub attempt_id : String
  pub assurance : String
  pub coordinates : List DeliveryCoordinate
  pub reconciliation : String
  pub observed_at : Time

pub record DeliveryAttempt : Type 0 where
  pub attempt_id : String
  pub run_id : String
  pub target : String
  pub location : String
  pub coordinates : List DeliveryCoordinate
  pub state : DeliveryAttemptState
  pub reason : String
  pub evidence : Option VerifiedDeliveryEvidence
  pub created_at : Time
  pub updated_at : Time
