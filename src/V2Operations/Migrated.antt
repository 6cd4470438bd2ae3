-- ===== src/V2Operations/Migrated.antt =====
-- When a packet is issued through src/loop_engineering/v2_operations.py.
use Prim.Native.Char.{Char}
use loop_engineering.Prelude.{
  ℕ, String, Bool, true, false, ◌≡◌, refl, inl, inr, Option, none, some, arith,
}
use loop_engineering.Prelude.{string_eq, nat_eq, Bool-cases}
use loop_engineering.WorkState.{WorkRecord}
use loop_engineering.V2Resume.{same_work, WorkDefinitionStatus, ready, WorkDefinitionResult}
use loop_engineering.V2Resume.Readiness.{SameWork, same_work-SameWork}
use loop_engineering.V2EffectReadback.{Digit}
use loop_engineering.WorkStore.{Store}
use loop_engineering.WorkStore.Plan.{V2PacketPlan}
use loop_engineering.WorkStore.Cutover.{is_cutover}
use loop_engineering.WorkStore.Execution.{work_record}
use loop_engineering.WorkStore.Issue.{V2PacketIssueResult, issue_packet as issue_in_store}
use loop_engineering.V2Operations.{
  packet_issued, V2OperationResult, after_issue, packet_result, issue_defined, issue_on, issue_cut,
  issue_packet,
}

module _ (repository : String) (synchronize : WorkRecord → WorkDefinitionResult)
    (sha256 : String → String) (digit_of : Char → Digit) (generation : ℕ) (plan : V2PacketPlan)
    (run : String) (s t : Store) where
  -- The definition of the work was ready and of the same work, and the store issued a new packet.
  pub record IssuesNew (work : String) (current synchronized : WorkRecord) (r : V2PacketIssueResult)
      : Type 0 where
    pub cut : is_cutover repository s ≡ some true
    pub found : work_record work s ≡ some (some current)
    pub own : current.repository ≡ repository
    pub defined : (synchronize current).status ≡ ready
    pub given : (synchronize current).synchronized ≡ some synchronized
    pub same : SameWork current synchronized
    pub stored :
        issue_in_store sha256 digit_of synchronized generation plan run s ≡ some (t, some r)
    pub fresh : r.already_issued ≡ false

  after_issue-new :
      (work : String) (o : Option (Store × Option V2PacketIssueResult)) (result : V2OperationResult)
      → after_issue work s o ≡ (t, result)
      → result.status ≡ packet_issued
      → (r : V2PacketIssueResult) × (o ≡ some (t, some r))
        × (r.already_issued ≡ false)
        × (result.packet_identity ≡ some r.packet.identity)
  unfolding after_issue packet_result
  after_issue-new work none result h new = absurd (ground arith)
  after_issue-new work (some (u, none)) result h new = absurd (ground arith)
  after_issue-new work (some (u, some r)) result h new =
      (r, ground arith, ground arith, ground arith)

  module _ (work : String) (result : V2OperationResult) (new : result.status ≡ packet_issued)
      (current : WorkRecord) (cut : is_cutover repository s ≡ some true)
      (found : work_record work s ≡ some (some current))
      (own : current.repository ≡ repository) where
    defined_new :
        (status : WorkDefinitionStatus) (o : Option WorkRecord)
        → (synchronize current).status ≡ status
        → (synchronize current).synchronized ≡ o
        → issue_defined repository synchronize sha256 digit_of current generation plan run status o
            s
          ≡ (t, result)
        → (synchronized : WorkRecord) × (r : V2PacketIssueResult) × IssuesNew work current
            synchronized r
          × (result.packet_identity ≡ some r.packet.identity)
    unfolding issue_defined
    defined_new ready (some synchronized) is given h =
        elim (Bool-cases (same_work current synchronized)) [
          | inl same ↦
              let (r, stored, fresh, named) =
                after_issue-new current.identity
                  (issue_in_store sha256 digit_of synchronized generation plan run s) result
                  (ground arith) new in
              (
                synchronized,
                r,
                record {
                  cut = cut;
                  found = found;
                  own = own;
                  defined = is;
                  given = given;
                  same = (same_work-SameWork current synchronized).0 same;
                  stored = stored;
                  fresh = fresh;
                },
                named,
              )
          | inr other ↦ absurd (ground arith)
        ]
    defined_new status o is given h = absurd (ground arith)

  found_new :
      (work : String) (result : V2OperationResult) (o : Option (Option WorkRecord))
      → result.status ≡ packet_issued
      → is_cutover repository s ≡ some true
      → work_record work s ≡ o
      → issue_on repository synchronize sha256 digit_of work generation plan run s o ≡ (t, result)
      → (current : WorkRecord) × (synchronized : WorkRecord) × (r : V2PacketIssueResult) × IssuesNew
          work current synchronized r
        × (result.packet_identity ≡ some r.packet.identity)
  unfolding issue_on
  found_new work result none new cut found h = absurd (ground arith)
  found_new work result (some none) new cut found h = absurd (ground arith)
  found_new work result (some (some current)) new cut found h =
      elim (string_eq.dec current.repository repository) [
        | yes own ↦
            let (synchronized, r, issues, named) =
              defined_new work result new current cut found own (synchronize current).status
                (synchronize current).synchronized refl refl (ground arith) in
            (current, synchronized, r, issues, named)
        | no other ↦ absurd (ground arith)
      ]

  cut_new :
      (work : String) (result : V2OperationResult) (o : Option Bool)
      → result.status ≡ packet_issued
      → is_cutover repository s ≡ o
      → issue_cut repository synchronize sha256 digit_of work generation plan run s o ≡ (t, result)
      → (current : WorkRecord) × (synchronized : WorkRecord) × (r : V2PacketIssueResult) × IssuesNew
          work current synchronized r
        × (result.packet_identity ≡ some r.packet.identity)
  unfolding issue_cut
  cut_new work result none new cut h = absurd (ground arith)
  cut_new work result (some false) new cut h = absurd (ground arith)
  cut_new work result (some true) new cut h =
      found_new work result (work_record work s) new cut refl h

  -- An answer PACKET_ISSUED of the service comes only in a repository that is cut over, for a recorded work
  -- of that repository whose definition is ready and is of the same work, and with a packet that the store
  -- has newly issued for the definition, whose identity it answers.
  pub issue_packet-IssuesNew :
      (work : String) (result : V2OperationResult)
      → issue_packet repository synchronize sha256 digit_of work generation plan run s ≡ (t, result)
      → result.status ≡ packet_issued
      → (current : WorkRecord) × (synchronized : WorkRecord) × (r : V2PacketIssueResult) × IssuesNew
          work current synchronized r
        × (result.packet_identity ≡ some r.packet.identity)
  unfolding issue_packet
  issue_packet-IssuesNew work result h new =
      cut_new work result (is_cutover repository s) new refl h
