-- ===== src/WorkStore/Keeping.antt =====
-- What each statement of src/loop_engineering/v2_execution_state.py keeps of the packets and the works that
-- point to them.
use mathlib.Core.Path.{subst}
use loop_engineering.Prelude.{◌∙◌, String, true, ◌≡◌, refl, sym, ap, some, List, arith}
use loop_engineering.Prelude.{string_eq, nat_eq, option_eq, In}
use loop_engineering.WorkState.{WorkRecord, WorkTaskPacket}
use loop_engineering.WorkStore.{PacketRow, Store, find_work, update_works, update_packets}
use loop_engineering.WorkStore.Rows.{find-update, find-update_other, updated_row, update-In}
use loop_engineering.WorkStore.Steps.{is_open, IsKept}

-- Every work is still there, with its latest packet.
abbrev pub Follows : List WorkRecord → List WorkRecord → Type 0
Follows works works' =
    (id : String) (w : WorkRecord)
    → find_work id works ≡ some w
    → (w' : WorkRecord) × (find_work id works' ≡ some w')
      × (w'.latest_task_packet_identity ≡ w.latest_task_packet_identity)

pub update-Follows :
    (identity : String) (change : WorkRecord → WorkRecord) (works : List WorkRecord)
    → ((w : WorkRecord) → w.identity ≡ identity → (change w).identity ≡ identity)
    → ((w : WorkRecord)
        → find_work identity works ≡ some w
        → (change w).latest_task_packet_identity ≡ w.latest_task_packet_identity)
    → Follows works (update_works identity change works)
update-Follows identity change works kept same id w found = elim (string_eq.dec id identity) [
  | yes e ↦
      let here : find_work identity works ≡ some w =
        subst (λ i. find_work i works ≡ some w) e found in
      let f = find-update identity change works kept in
      let found' : find_work identity (update_works identity change works) ≡ some (change w) =
        ground arith in
      (
        change w,
        subst (λ i. find_work i (update_works identity change works) ≡ some (change w)) (sym e)
            found',
        same w here,
      )
  | no differ ↦ (w, find-update_other identity id change works kept differ ∙ found, refl)
]

-- The packets are as they were, and the works still point to them.
pub follow-IsKept :
    (s t : Store) → IsKept s → t.packets ≡ s.packets → Follows s.works t.works → IsKept t
follow-IsKept s t kept packets follows = record {
  unique = λ p q m n e. kept.unique p q (subst (In p) packets m) (subst (In q) packets n) e;
  latest = λ p m live.
      let (w, found, points) = kept.latest p (subst (In p) packets m) live in
      let (w', found', same) = follows p.packet.work_identity w found in
      (w', found', same ∙ points);
}

module _ (identity : String) (change : WorkTaskPacket → WorkTaskPacket) where
  row-identity :
      ((p : WorkTaskPacket) → (change p).identity ≡ p.identity)
      → (p : PacketRow) → (updated_row identity change p).packet.identity ≡ p.packet.identity
  unfolding updated_row
  row-identity same p = let e = same p.packet in ground arith

  row-work :
      ((p : WorkTaskPacket) → (change p).work_identity ≡ p.work_identity)
      → (p : PacketRow)
      → (updated_row identity change p).packet.work_identity ≡ p.packet.work_identity
  unfolding updated_row
  row-work same p = let e = same p.packet in ground arith

  was_live :
      (p : PacketRow)
      → (p.packet.identity ≡ identity
          → is_open (record p { packet = change p.packet }) ≡ true
          → is_open p ≡ true)
      → is_open (updated_row identity change p) ≡ true
      → is_open p ≡ true
  unfolding updated_row
  was_live p closes live = elim (string_eq.dec p.packet.identity identity) [
    | yes e ↦ closes e (ground arith)
    | no n ↦ ground arith
  ]

-- An update that keeps the packets' identities and works, and opens no packet.
pub update-IsKept :
    (s : Store) (identity : String) (change : WorkTaskPacket → WorkTaskPacket)
    (works : List WorkRecord)
    → IsKept s
    → ((p : WorkTaskPacket) → (change p).identity ≡ p.identity)
    → ((p : WorkTaskPacket) → (change p).work_identity ≡ p.work_identity)
    → ((p : PacketRow)
        → In p s.packets
        → p.packet.identity ≡ identity
        → is_open (record p { packet = change p.packet }) ≡ true
        → is_open p ≡ true)
    → Follows s.works works
    → (t : Store) → t.packets ≡ update_packets identity change s.packets
    → t.works ≡ works
    → IsKept t
update-IsKept s identity change works kept same_id same_work closes follows t packets is_works =
    record {
      unique = λ p q m n e.
          let (p0, pm, pe) = update-In identity change s.packets (subst (In p) packets m) in
          let (q0, qm, qe) = update-In identity change s.packets (subst (In q) packets n) in
          let base = kept.unique p0 q0 pm qm (
            sym (row-identity identity change same_id p0)
            ∙ sym (ap (λ (r : PacketRow). r.packet.identity) pe)
            ∙ e
            ∙ ap (λ (r : PacketRow). r.packet.identity) qe
            ∙ row-identity identity change same_id q0) in
          pe ∙ ap (updated_row identity change) base ∙ sym qe;
      latest = λ p m live.
          let (p0, pm, pe) = update-In identity change s.packets (subst (In p) packets m) in
          let open0 =
            was_live identity change p0 (closes p0 pm) (subst (λ r. is_open r ≡ true) pe live) in
          let (w, found, points) = kept.latest p0 pm open0 in
          let (w', found', still) = follows p0.packet.work_identity w found in
          (
            w',
            subst (λ i. find_work i t.works ≡ some w')
                (sym (row-work identity change same_work p0)
                  ∙ sym (ap (λ (r : PacketRow). r.packet.work_identity) pe))
                (subst (λ ws. find_work p0.packet.work_identity ws ≡ some w') (sym is_works)
                  found'),
            still
                ∙ points
                ∙ ap some (
                    sym (row-identity identity change same_id p0)
                    ∙ sym (ap (λ (r : PacketRow). r.packet.identity) pe)),
          );
    }
