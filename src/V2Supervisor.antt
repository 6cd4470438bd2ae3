-- ===== src/V2Supervisor.antt =====
-- src/loop_engineering/v2_supervisor.py: which work the V2 loop takes up next, and by which
-- transition. `digest` is `json.dumps` followed by `hashlib.sha256(...).hexdigest()`.
pub mod Transitions
pub mod Decisions
use mathlib.Core.Option
use loop_engineering.Prelude.{
  ℕ, String, ◌<>◌, Bool, true, false, ◌&&◌, ◌||◌, not, Option, none, some, List, [], ◌∷◌,
}
use loop_engineering.Prelude.{
  ◌==◌, ◌!=◌, string_eq, option_eq, nat_eq, Eq, if◌then◌else◌, contains, any, all, keep, first,
  is_nil, is_empty, is_some, truthy, length, from_keys,
}
use loop_engineering.Selection.{SelectionKey, priority_rank, progress_rank, least}

pub data EvidenceState : Type 0 where
  not_run pending pass fail request_changes not_required : EvidenceState

pub data V2Transition : Type 0 where
  design implement verify review human_verify repair integrate complete_work : V2Transition

pub data V2SupervisorDisposition : Type 0 where
  continue yield_external intervention_required complete_goal : V2SupervisorDisposition

pub record V2WorkObservation : Type 0 where
  pub work_identity : String
  pub issue_number : ℕ
  pub issue_revision : String
  pub issue_state : String
  pub lifecycle : String
  pub project_status : Option String
  pub priority : Option String
  pub dependency_states : List String
  pub acceptance_digest : Option String
  pub selected_transition : Option String
  pub canonical_design_identities : List String
  pub active_lineage_identity : Option String
  pub exact_head_sha : Option String
  pub verification_state : EvidenceState
  pub verification_identity : Option String
  pub ci_state : EvidenceState
  pub ci_identity : Option String
  pub review_state : EvidenceState
  pub review_identity : Option String
  pub human_verification_required : Bool
  pub human_verification_state : EvidenceState
  pub human_verification_identity : Option String
  pub merged : Bool
  pub unresolved_conflict : Bool
  pub latest_packet_identity : Option String
  pub latest_checkpoint_identity : Option String

-- `V2WorkObservation.dependency_ready`
unfoldable pub dependency_ready : V2WorkObservation → Bool
dependency_ready work = all (λ state. state == "CLOSED") work.dependency_states

-- `V2WorkObservation.terminal`
unfoldable pub terminal : V2WorkObservation → Bool
terminal work =
    work.lifecycle == "COMPLETED"
    && work.issue_state == "CLOSED"
    && work.project_status == some "Done"

pub record V2SupervisorDecision : Type 0 where
  pub disposition : V2SupervisorDisposition
  pub work_identity : Option String
  pub transition : Option V2Transition
  pub schedule_key : Option String
  pub detail : String

-- The last tests of `derive_transition`, one function for each kind of evidence.
by_human : Bool → EvidenceState → Option V2Transition
by_human false state = some integrate
by_human true not_run = some human_verify
by_human true not_required = some human_verify
by_human true pending = none
by_human true pass = some integrate
by_human true _ = some repair

by_review : EvidenceState → Option V2Transition → Option V2Transition
by_review fail rest = some repair
by_review request_changes rest = some repair
by_review not_run rest = some review
by_review pending rest = none
by_review pass rest = rest
by_review not_required rest = some repair

by_ci : EvidenceState → Option V2Transition → Option V2Transition
by_ci fail rest = some repair
by_ci not_run rest = none
by_ci pending rest = none
by_ci pass rest = rest
by_ci _ rest = some repair

by_verification : EvidenceState → Option V2Transition → Option V2Transition
by_verification fail rest = some repair
by_verification not_run rest = some verify
by_verification pending rest = none
by_verification pass rest = rest
by_verification _ rest = some repair

by_evidence : V2WorkObservation → Option V2Transition
unfolding by_human by_review by_ci by_verification
by_evidence work = by_verification work.verification_state (
    by_ci work.ci_state (
      by_review work.review_state
        (by_human work.human_verification_required work.human_verification_state)))

unfoldable pub derive_transition : V2WorkObservation → Option V2Transition
unfolding terminal by_evidence
derive_transition work =
    if work.unresolved_conflict || not (dependency_ready work)
    then none
    else if terminal work
    then none
    else if work.merged
    then some complete_work
    else if work.lifecycle == "COMPLETED" || work.issue_state == "CLOSED"
    then none
    else if not (truthy work.acceptance_digest)
    then none
    else if is_nil work.canonical_design_identities
    then some design
    else if work.selected_transition == some "DESIGN"
    then some implement
    else if not (is_some work.exact_head_sha)
    then some implement
    else by_evidence work

-- `EvidenceState.value`
evidence_value : EvidenceState → String
evidence_value not_run = "NOT_RUN"
evidence_value pending = "PENDING"
evidence_value pass = "PASS"
evidence_value fail = "FAIL"
evidence_value request_changes = "REQUEST_CHANGES"
evidence_value not_required = "NOT_REQUIRED"

-- `V2Transition.value`
unfoldable pub transition_value : V2Transition → String
transition_value design = "DESIGN"
transition_value implement = "IMPLEMENT"
transition_value verify = "VERIFY"
transition_value review = "REVIEW"
transition_value human_verify = "HUMAN_VERIFY"
transition_value repair = "REPAIR"
transition_value integrate = "INTEGRATE"
transition_value complete_work = "COMPLETE_WORK"

-- The dictionary that `schedule_key` serialises.
pub record V2ScheduleState : Type 0 where
  pub goal_revision : String
  pub work_identity : String
  pub issue_revision : String
  pub issue_state : String
  pub lifecycle : String
  pub selected_transition : Option String
  pub project_status : Option String
  pub priority : Option String
  pub dependency_states : List String
  pub acceptance_digest : Option String
  pub canonical_design_identities : List String
  pub active_lineage_identity : Option String
  pub exact_head_sha : Option String
  pub verification : String × Option String
  pub ci : String × Option String
  pub review : String × Option String
  pub human_verification : String × Option String
  pub latest_packet_identity : Option String
  pub latest_checkpoint_identity : Option String
  pub transition : String

unfoldable pub schedule_state : String → V2WorkObservation → V2Transition → V2ScheduleState
unfolding evidence_value transition_value
schedule_state goal_revision work transition = record {
  goal_revision = goal_revision;
  work_identity = work.work_identity;
  issue_revision = work.issue_revision;
  issue_state = work.issue_state;
  lifecycle = work.lifecycle;
  selected_transition = work.selected_transition;
  project_status = work.project_status;
  priority = work.priority;
  dependency_states = work.dependency_states;
  acceptance_digest = work.acceptance_digest;
  canonical_design_identities = work.canonical_design_identities;
  active_lineage_identity = work.active_lineage_identity;
  exact_head_sha = work.exact_head_sha;
  verification = (evidence_value work.verification_state, work.verification_identity);
  ci = (evidence_value work.ci_state, work.ci_identity);
  review = (evidence_value work.review_state, work.review_identity);
  human_verification =
      (evidence_value work.human_verification_state, work.human_verification_identity);
  latest_packet_identity = work.latest_packet_identity;
  latest_checkpoint_identity = work.latest_checkpoint_identity;
  transition = transition_value transition;
}

-- `_selection_key`
unfoldable pub selection_key : V2WorkObservation → SelectionKey
unfolding priority_rank progress_rank
selection_key work = record {
  priority = priority_rank work.priority;
  progress = progress_rank work.project_status;
  issue = work.issue_number;
}

abbrev pub actionable : V2WorkObservation → Bool
actionable work = is_some (derive_transition work)

abbrev pub is_candidate : V2WorkObservation → Bool
is_candidate work = actionable work && not work.unresolved_conflict

abbrev pub best_candidate : List V2WorkObservation → Option V2WorkObservation
best_candidate works = least selection_key (keep is_candidate works)

current_or_best : List V2WorkObservation → Option V2WorkObservation → Option V2WorkObservation
current_or_best works none = best_candidate works
current_or_best works (some current) =
    if actionable current then some current else best_candidate works

-- `_select`: the current work if it is actionable, else the first candidate.
unfoldable pub select : List V2WorkObservation → Option String → Option V2WorkObservation
unfolding current_or_best
select works current =
    current_or_best works (first (λ work. some work.work_identity == current) works)

decision :
    V2SupervisorDisposition
    → Option String
    → Option V2Transition
    → Option String
    → String
    → V2SupervisorDecision
decision disposition work transition key detail = record {
  disposition = disposition;
  work_identity = work;
  transition = transition;
  schedule_key = key;
  detail = detail;
}

-- `len({work.work_identity for work in works}) != len(works)`: an identity stands twice.
unfoldable pub has_duplicate_identity : List V2WorkObservation → Bool
has_duplicate_identity [] = false
has_duplicate_identity (work ∷ works) =
    any (λ other. other.work_identity == work.work_identity) works || has_duplicate_identity works

pub record V2Request : Type 0 where
  pub goal_revision : String
  pub works : List V2WorkObservation
  pub current_work_identity : Option String
  pub dispatched_schedule_keys : List String
  pub pending_effect : Bool
  pub goal_acceptance_complete : Bool

decide_idle : V2Request → V2SupervisorDecision
unfolding decision
decide_idle r =
    if any (λ work. work.unresolved_conflict) r.works
    then decision intervention_required none none none "UNRESOLVED_WORK_CONFLICT"
    else if not (is_nil r.works)
        && all terminal r.works
        && not r.pending_effect
        && r.goal_acceptance_complete
    then decision complete_goal none none none "GOAL_COMPLETION_EVIDENCE_COMPLETE"
    else decision yield_external none none none "NO_ACTIONABLE_WORK"

module _ (digest : V2ScheduleState → String) where
  unfoldable pub schedule_key : String → V2WorkObservation → V2Transition → String
  unfolding schedule_state
  schedule_key goal_revision work transition =
      "schedule:" <> digest (schedule_state goal_revision work transition)

  decide_transition : V2Request → V2WorkObservation → V2Transition → V2SupervisorDecision
  unfolding decision
  decide_transition r work transition =
      let key = schedule_key r.goal_revision work transition in
      if contains r.dispatched_schedule_keys key
      then decision yield_external (some work.work_identity) (some transition) (some key)
          "DUPLICATE_SCHEDULE_SUPPRESSED"
      else decision continue (some work.work_identity) (some transition) (some key)
          "ACTIONABLE_WORK_SELECTED"

  -- `decisions[selected.work_identity]`, which is the transition derived for that work, since no
  -- identity stands twice; `none` is the AssertionError of `assert transition is not None`.
  decide_selected : V2Request → Option V2WorkObservation → Option V2SupervisorDecision
  unfolding decide_transition decide_idle
  decide_selected r none = some (decide_idle r)
  decide_selected r (some work) = Option.map (decide_transition r work) (derive_transition work)

  -- `V2Supervisor.decide`
  unfoldable pub decide : V2Request → Option V2SupervisorDecision
  unfolding decide_selected
  decide r =
      if is_empty r.goal_revision
      then some (decision intervention_required none none none "GOAL_REVISION_INVALID")
      else if has_duplicate_identity r.works
      then some (decision intervention_required none none none "WORK_IDENTITY_CONFLICT")
      else decide_selected r (select r.works r.current_work_identity)
