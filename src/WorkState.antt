-- ===== src/WorkState.antt =====
-- src/loop_engineering/work_state.py: the rows of the work state, as the decisions read them.
use loop_engineering.Prelude.{ℕ, String, Option, List}

pub record WorkRecord : Type 0 where
  pub identity : String
  pub repository : String
  pub issue_number : ℕ
  pub issue_revision : String
  pub lifecycle : String
  pub selected_transition : Option String
  pub active_lineage_identity : Option String
  pub latest_task_packet_identity : Option String
  pub latest_checkpoint_identity : Option String

pub record WorkCheckpoint : Type 0 where
  pub identity : String
  pub work_identity : String
  pub run_identity : String
  pub checkpoint_kind : String
  pub resumable_state : String
  pub next_action : String
  pub task_packet_identity : Option String
  pub external_target_identities : List String
  pub evidence_identities : List String

pub record WorkTaskPacket : Type 0 where
  pub identity : String
  pub work_identity : String
  pub generation : ℕ
  pub transition : String
  pub status : String
  pub canonical_design_identities : List String
  pub external_target_identities : List String

pub record EffectAttempt : Type 0 where
  pub idempotency_key : String
  pub work_identity : String
  pub kind : String
  pub target_identity : String
  pub status : String
  pub request_identity : Option String
  pub packet_generation : Option ℕ
  pub expected_preconditions : List (String × String)
  pub expected_effect : List (String × String)

pub record RecoveredWork : Type 0 where
  pub work : WorkRecord
  pub task_packet : Option WorkTaskPacket
  pub checkpoint : Option WorkCheckpoint
  pub pending_effects : List EffectAttempt
