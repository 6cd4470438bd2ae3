-- ===== src/MissionSupervisor/Safety.antt =====
-- What a decision of the mission supervisor guarantees.
use loop_engineering.Prelude.{
  String, Bool, true, false, ◌≡◌, ◌≢◌, refl, ◌↔◌, inl, inr, Option, none, some, List, [], ◌∷◌,
  arith,
}
use loop_engineering.Prelude.{is_nil, In, All, Bool-cases, keep-In}
use loop_engineering.Models.{
  continue, intervention_required, mission_complete, WorkSnapshot, ObservationEpoch,
  SupervisorDecision, LoopEngineConfig, TaskPacket,
}
use loop_engineering.Reconciliation.{reconcile_global, reconcile_work}
use loop_engineering.Reconciliation.Clean.{
  IsSettled, IsClean, reconcile_global-eq-nil, reconcile_work-eq-nil,
}
use loop_engineering.Scheduler.{
  ScheduleState, select_work, schedule_key, is_duplicate, is_candidate,
}
use loop_engineering.Scheduler.Choice.{IsChoice, select_work-IsChoice, select_work-eq-none}
use loop_engineering.MissionSupervisor.{
  selectable_epoch, decide_selected, decide_work, decide_primary, packet,
}

is_nil-eq {ℓ} : {A : Type ℓ} (xs : List A) → is_nil xs ≡ true → xs ≡ []
is_nil-eq [] h = refl
is_nil-eq (x ∷ xs) h = cc

module _ (digest : ScheduleState → String) (config : LoopEngineConfig) where
  -- What is known of the epoch and of the work of a decision to continue.
  pub record MayContinue (epoch : ObservationEpoch) (d : SupervisorDecision) : Type 0 where
    pub settled : IsSettled epoch config
    pub work : WorkSnapshot
    pub selected : d.selected_work_id ≡ some work.issue_number
    pub observed : In work epoch.works
    pub candidate : is_candidate work ≡ true
    pub clean : IsClean epoch work.issue_number
    pub preferred : IsChoice (selectable_epoch epoch) work
    pub unscheduled :
        is_duplicate epoch (schedule_key digest (selectable_epoch epoch) work "IMPLEMENT") ≡ false
    pub packet :
        (p : TaskPacket) × (d.task_packet ≡ some p)
        × (p.schedule_key ≡ schedule_key digest (selectable_epoch epoch) work "IMPLEMENT")

  module _ (epoch : ObservationEpoch) where
    abbrev no_conflict : Bool
    no_conflict = is_nil (reconcile_global epoch config)

    IsSettled-of : no_conflict ≡ true → IsSettled epoch config
    IsSettled-of h = (reconcile_global-eq-nil epoch config).0 (is_nil-eq _ h)

    decide-selected :
        no_conflict ≡ true
        → decide_primary digest config epoch
          ≡ decide_selected digest config epoch (select_work (selectable_epoch epoch))
    unfolding decide_primary
    decide-selected h = rw h

    decide-conflict :
        no_conflict ≡ false
        → (decide_primary digest config epoch).disposition ≡ intervention_required
    unfolding decide_primary
    decide-conflict h = rw h

    continue_selected :
        (o : Option WorkSnapshot)
        → (decide_selected digest config epoch o).disposition ≡ continue
        → (w : WorkSnapshot) × (o ≡ some w)
          × (is_duplicate
                (selectable_epoch epoch)
                (schedule_key digest (selectable_epoch epoch) w "IMPLEMENT")
              ≡ false)
          × ((decide_selected digest config epoch o).selected_work_id ≡ some w.issue_number)
          × ((p : TaskPacket) × ((decide_selected digest config epoch o).task_packet ≡ some p)
              × (p.schedule_key ≡ schedule_key digest (selectable_epoch epoch) w "IMPLEMENT"))
    unfolding decide_selected decide_work packet
    continue_selected none h = ground arith
    continue_selected (some w) h =
        elim (Bool-cases (
          is_duplicate (selectable_epoch epoch)
            (schedule_key digest (selectable_epoch epoch) w "IMPLEMENT"))) [
              | inl dup ↦ absurd (ground arith)
              | inr fresh ↦ (
                w,
                refl,
                fresh,
                ground arith,
                (
                  packet config (selectable_epoch epoch) w
                      (schedule_key digest (selectable_epoch epoch) w "IMPLEMENT"),
                  ground arith,
                  refl,
                ),
              )
            ]

    IsClean-of :
        {w : WorkSnapshot}
        → IsChoice (selectable_epoch epoch) w
        → In w epoch.works × IsClean epoch w.issue_number
    unfolding selectable_epoch
    IsClean-of {w} c =
        let (m, quiet) =
          keep-In (λ v. is_nil (reconcile_work epoch v.issue_number)) epoch.works c.observed in
        (m, (reconcile_work-eq-nil epoch w.issue_number).0 (is_nil-eq _ quiet))

    -- A decision to continue is made only in a settled epoch, for an observed work that is a candidate,
    -- without conflicts of its own, first in the order of selection among such works or the mission's
    -- current work; its schedule key is not in the checkpoint, and the task packet carries that key.
    pub continue_safe :
        (decide_primary digest config epoch).disposition ≡ continue
        → MayContinue epoch (decide_primary digest config epoch)
    unfolding is_duplicate
    continue_safe h = elim (Bool-cases no_conflict) [
      | inr conflict ↦ absurd (ground (arith, decide-conflict conflict))
      | inl quiet ↦
          let same = decide-selected quiet in
          let (w, chosen, fresh, named, packed) =
            continue_selected (select_work (selectable_epoch epoch)) (rw same at h) in
          let choice = select_work-IsChoice (selectable_epoch epoch) chosen in
          let (seen, clean) = IsClean-of choice in
          record {
            settled = IsSettled-of quiet;
            work = w;
            selected = rw same named;
            observed = seen;
            candidate = choice.candidate;
            clean = clean;
            preferred = choice;
            unscheduled = unfold selectable_epoch in fresh;
            packet = rw same packed;
          }
    ]

    selected_disposition :
        (o : Option WorkSnapshot)
        → (decide_selected digest config epoch o).disposition ≢ intervention_required
    unfolding decide_selected decide_work
    selected_disposition none h = ground arith
    selected_disposition (some w) h = ground arith

    complete_selected :
        (o : Option WorkSnapshot)
        → ((decide_selected digest config epoch o).disposition ≡ mission_complete)
          ↔ ((o ≡ none) × (epoch.mission.root_completion_evidence_complete ≡ true))
    unfolding decide_selected decide_work
    complete_selected none = (λ h. (refl, ground arith), λ h. ground arith)
    complete_selected (some w) = (λ h. absurd (ground arith), λ h. ground arith)

    -- The supervisor asks for an intervention exactly in an epoch that is not settled.
    pub intervention_iff :
        ((decide_primary digest config epoch).disposition ≡ intervention_required)
        ↔ ¬ IsSettled epoch config
    intervention_iff = elim (Bool-cases no_conflict) [
      | inl quiet ↦ (
        λ h. absurd (selected_disposition _ (rw (decide-selected quiet) at h)),
        λ unsettled. absurd (unsettled (IsSettled-of quiet)),
      )
      | inr conflict ↦ (
        λ h s. ground (arith, (reconcile_global-eq-nil epoch config).1 s),
        λ unsettled. decide-conflict conflict,
      )
    ]

    -- The mission is reported complete exactly in a settled epoch in which no work without conflicts is
    -- a candidate, and whose mission has complete evidence.
    pub mission_complete_iff :
        ((decide_primary digest config epoch).disposition ≡ mission_complete) ↔ (
          IsSettled epoch config
          × All (λ w. is_candidate w ≡ false) (selectable_epoch epoch).works
          × (epoch.mission.root_completion_evidence_complete ≡ true))
    mission_complete_iff = elim (Bool-cases no_conflict) [
      | inl quiet ↦ (
        λ h.
            let (idle, evidence) = (complete_selected _).0 (rw (decide-selected quiet) at h) in
            (IsSettled-of quiet, (select_work-eq-none (selectable_epoch epoch)).0 idle, evidence),
        λ h.
            rw (decide-selected quiet)
              ((complete_selected _).1 ((select_work-eq-none (selectable_epoch epoch)).1 h.1, h.2)),
      )
      | inr conflict ↦ (
        λ h. absurd (ground (arith, decide-conflict conflict)),
        λ h. absurd (ground (arith, (reconcile_global-eq-nil epoch config).1 h.0)),
      )
    ]
