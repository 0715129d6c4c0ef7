-- ===== src/Simops/Ingest/Passed.antt =====
-- What the ingest handler lets through.
use radiant_prj.Common.{
  ℕ, String, ◌≡◌, refl, true, false, ◌⊎◌, inl, inr, ◌==◌, ◌==ℕ◌, some, List, [], ◌∷◌, length, All,
  is_empty, arith, eq_iff,
}
use radiant_prj.Common.Error.{Error, Result, ok, Result-cases}
use radiant_prj.Common.Dict.{lookup}
use radiant_prj.Common.Text.{matches_run_id}
use radiant_prj.Simops.Types.{Time, RunRecord, TelemetryFrame}
use radiant_prj.Simops.Profile.{allowed_worker}
use radiant_prj.Simops.Store.{Store, get_run}
use radiant_prj.Simops.Runtime.{EventLog}
use radiant_prj.Simops.Request.{validate_telemetry_frame}
use radiant_prj.Simops.Ingest.{
  Answer, get_record_for_write, get_record_for_ingest, accepts_ingest, ingest_frame, ingest_frames,
  ingest, count_frames,
}

-- What a frame that is let through has.
pub record IsValidFrame (run : RunRecord) (f : TelemetryFrame) : Type 0 where
  pub run_id : f.run_id ≡ run.run_id
  pub scenario_id : f.scenario_id ≡ run.scenario_id
  pub worker_kind : allowed_worker f.worker_kind ≡ true
  pub sequence : (f.sequence ==ℕ 0) ≡ false

frame_valid :
    (run : RunRecord) (f : TelemetryFrame)
    → validate_telemetry_frame run f ≡ ok tt
    → IsValidFrame run f
unfolding validate_telemetry_frame
frame_valid run f h = record {
  run_id = ground (arith, eq_iff f.run_id run.run_id);
  scenario_id = ground (arith, eq_iff f.scenario_id run.scenario_id);
  worker_kind = ground arith;
  sequence = ground arith;
}

Answer-cases {ℓ} :
    {A : Type ℓ} (x : Answer A)
    → ((status : ℕ) × (e : Error) × (x ≡ Answer.refused status e))
      ⊎ ((a : A) × (x ≡ Answer.answered a))
Answer-cases (Answer.refused status e) = inl (status, e, refl)
Answer-cases (Answer.answered a) = inr (a, refl)

answered_frame_valid :
    (log : EventLog) (marshal : TelemetryFrame → String) (run : RunRecord) (run_id : String)
    (now : Time) (f : TelemetryFrame) (s : Store) (u : Unit {0})
    → (ingest_frame log marshal run run_id now f s).0 ≡ Answer.answered u
    → IsValidFrame run f
unfolding ingest_frame
answered_frame_valid log marshal run run_id now f s u h =
    elim (Result-cases (validate_telemetry_frame run f)) [
      | inl (e, x) ↦ absurd (ground arith)
      | inr (tt, x) ↦ frame_valid run f x
    ]

frames_valid :
    (log : EventLog) (marshal : TelemetryFrame → String) (run : RunRecord) (run_id : String)
    (now : Time) (fs : List TelemetryFrame) (s : Store) (u : Unit {0})
    → (ingest_frames log marshal run run_id now fs s).0 ≡ Answer.answered u
    → All (IsValidFrame run) fs
unfolding ingest_frames
frames_valid log marshal run run_id now [] s u h = tt
frames_valid log marshal run run_id now (f ∷ fs) s u h =
    let one = ingest_frame log marshal run run_id now f s in
    elim (Answer-cases one.0) [
      | inl (status, e, x) ↦ absurd (ground arith)
      | inr (v, x) ↦ (
        answered_frame_valid log marshal run run_id now f s v x,
        frames_valid log marshal run run_id now fs one.1 u (ground arith),
      )
    ]

record_for_ingest :
    (run_id : String) (s : Store) (run : RunRecord)
    → get_record_for_ingest run_id s ≡ Answer.answered run
    → (matches_run_id run_id ≡ true)
      × (lookup run_id s.runs ≡ some run)
      × (accepts_ingest run.lifecycle ≡ true)
unfolding get_record_for_ingest get_record_for_write get_run
record_for_ingest run_id s run h = (ground arith, ground arith, ground arith)

-- If the ingest handler answers without an error, then the run's identifier is well formed, the store
-- has the run, which is starting, streaming or degraded; the token is the run's and is not empty; the
-- body was decoded to at least one frame, and every frame names the run and its scenario, an allowed
-- worker kind and a positive sequence number; and the answer is the number of frames.
pub ingest_checked :
    (log : EventLog) (marshal : TelemetryFrame → String) (now : Time) (run_id token : String)
    (decoded : Result (List TelemetryFrame)) (s : Store) (n : ℕ)
    → (ingest log marshal now run_id token decoded s).0 ≡ Answer.answered n
    → (run : RunRecord) × (fs : List TelemetryFrame) × (decoded ≡ ok fs)
      × (lookup run_id s.runs ≡ some run)
      × (matches_run_id run_id ≡ true)
      × (accepts_ingest run.lifecycle ≡ true)
      × (token ≡ run.ingest_token)
      × ((token == "") ≡ false)
      × (is_empty fs ≡ false)
      × All (IsValidFrame run) fs
      × (n ≡ length fs)
unfolding ingest count_frames
ingest_checked log marshal now run_id token decoded s n h =
    elim (Answer-cases (get_record_for_ingest run_id s)) [
      | inl (status, e, x) ↦ absurd (ground arith)
      | inr (run, x) ↦ elim (Result-cases decoded) [
        | inl (e, y) ↦ absurd (ground arith)
        | inr (fs, y) ↦
            let answer = (ingest_frames log marshal run run_id now fs s).0 in
            elim (Answer-cases answer) [
              | inl (status, e, z) ↦ absurd (ground arith)
              | inr (u, z) ↦
                  let (a, b, c) = record_for_ingest run_id s run x in
                  (
                    run,
                    fs,
                    y,
                    b,
                    a,
                    c,
                    ground (arith, eq_iff token run.ingest_token),
                    ground arith,
                    ground arith,
                    frames_valid log marshal run run_id now fs s u z,
                    ground arith,
                  )
            ]
      ]
    ]
