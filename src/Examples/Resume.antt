-- ===== src/Examples/Resume.antt =====
-- src/loop_engineering/v2_resume.py on one recovered work.
use loop_engineering.Prelude.{String, ◌≡◌, refl, List, none, some, [], ◌∷◌}
use loop_engineering.Prelude.{
  string_eq, nat_eq, option_eq, ◌==◌, if◌then◌else◌, any, In, here, there,
}
use loop_engineering.WorkState.{
  WorkRecord, WorkCheckpoint, WorkTaskPacket, EffectAttempt, RecoveredWork,
}
use loop_engineering.V2Resume.{
  V2ResumeStatus, EffectReadbackStatus, WorkDefinitionStatus, ResumePorts, ResumeAction,
  upsert_work, record_effect_outcome, resume, complete_recovery, same_work, settle, outcome_text,
}
use loop_engineering.V2Resume.Readiness.{CanResume, ready_iff}
use loop_engineering.V2Resume.Recorded.{Settles}
use loop_engineering.V2Resume.Outcomes.{IsReadBack, outcome-IsReadBack, finalize_settled}

abbrev stored : WorkRecord
stored = record {
  identity = "work-7";
  repository = "owner/name";
  issue_number = 7;
  issue_revision = "r1";
  lifecycle = "ACTIVE";
  selected_transition = some "IMPLEMENT";
  active_lineage_identity = some "lineage";
  latest_task_packet_identity = some "packet";
  latest_checkpoint_identity = some "checkpoint";
}

abbrev packet : WorkTaskPacket
packet = record {
  identity = "packet";
  work_identity = "work-7";
  generation = 2;
  transition = "IMPLEMENT";
  status = "ISSUED";
  canonical_design_identities = [];
  external_target_identities = [];
}

abbrev checkpoint : WorkCheckpoint
checkpoint = record {
  identity = "checkpoint";
  work_identity = "work-7";
  run_identity = "run";
  checkpoint_kind = "SAFE_POINT";
  resumable_state = "READY";
  next_action = "IMPLEMENT";
  task_packet_identity = some "packet";
  external_target_identities = [];
  evidence_identities = [];
}

abbrev pub attempt : String → EffectAttempt
attempt key = record {
  idempotency_key = key;
  work_identity = "work-7";
  kind = "PUSH";
  target_identity = "branch:work/7";
  status = "INTENT_RECORDED";
  request_identity = none;
  packet_generation = some 2;
  expected_preconditions = ("head", "abc") ∷ [];
  expected_effect = ("head", "def") ∷ [];
}

abbrev quiet : RecoveredWork
quiet = record {
  work = stored;
  task_packet = some packet;
  checkpoint = some checkpoint;
  pending_effects = [];
}

abbrev busy : RecoveredWork
busy = record quiet {
  task_packet = some (record packet { status = "STARTED" });
  pending_effects = attempt "e1" ∷ attempt "e2" ∷ [];
}

-- The first effect took place, any other did not.
abbrev seen : EffectAttempt → EffectReadbackStatus
seen a =
    if a.idempotency_key == "e1"
    then EffectReadbackStatus.confirmed
    else EffectReadbackStatus.no_effect

abbrev ports : RecoveredWork → ResumePorts
ports recovered = record {
  recover = λ id. some recovered;
  synchronize = λ w. record {
    status = WorkDefinitionStatus.ready;
    synchronized = some (record w { lifecycle = "RUNNING" });
  };
  readback = seen;
}

ready_test : (resume (ports quiet) "work-7").0.status ≡ V2ResumeStatus.ready
unfolding resume complete_recovery same_work settle any string_eq option_eq nat_eq
ready_test = refl

finalize_test : (resume (ports busy) "work-7").0.status ≡ V2ResumeStatus.finalize_required
unfolding resume complete_recovery same_work settle any string_eq option_eq nat_eq
finalize_test = refl

recorded_test : In (record_effect_outcome "e2" "NO_EFFECT") (resume (ports busy) "work-7").1
unfolding resume complete_recovery same_work settle outcome_text any string_eq option_eq nat_eq
recorded_test = there (there (here refl))

ready_iff_example : CanResume (ports quiet) "work-7"
ready_iff_example = (ready_iff (ports quiet) "work-7").0 ready_test

outcome-IsReadBack_example :
    (r : RecoveredWork) × (some busy ≡ some r)
    × IsReadBack (ports busy) r.pending_effects "e2" "NO_EFFECT"
outcome-IsReadBack_example = outcome-IsReadBack (ports busy) "work-7" "e2" "NO_EFFECT" recorded_test

finalize_settled_example :
    (r : RecoveredWork) × (w : WorkRecord) × (outcomes : List ResumeAction) × (some busy ≡ some r)
    × (((ports busy).synchronize r.work).synchronized ≡ some w)
    × ((resume (ports busy) "work-7").1 ≡ upsert_work w ∷ outcomes)
    × Settles (ports busy) r.pending_effects outcomes
finalize_settled_example = finalize_settled (ports busy) "work-7" finalize_test
