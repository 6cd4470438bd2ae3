-- ===== src/WorkStore/Rows.antt =====
-- What a statement leaves in the tables of src/loop_engineering/work_state.py, found by key.
use mathlib.Core.Option
use mathlib.Core.Path.{subst}
use loop_engineering.Prelude.{
  ◌⊎◌, ◌≤◌, ◌∙◌, String, ℕ, Bool, true, false, ◌≡◌, refl, inl, inr, Option, none, some, List, [],
  ◌∷◌, ◌++◌, arith, ◌≢◌,
}
use loop_engineering.Prelude.{
  ◌⊎◌, ◌≤◌, ◌∙◌, ◌==◌, string_eq, first, any, keep, Bool-cases, In, here, there, count,
  if◌then◌else◌,
}
use loop_engineering.WorkState.{WorkRecord, WorkTaskPacket}
use loop_engineering.WorkStore.Recovery.{by_identity}
use loop_engineering.WorkStore.{
  PacketRow, find_work, find_packet, clashes, has_clash, update_works, update_packets,
}

-- The row of a work after an update of it.
pub find-update :
    (identity : String) (change : WorkRecord → WorkRecord) (works : List WorkRecord)
    → ((w : WorkRecord) → w.identity ≡ identity → (change w).identity ≡ identity)
    → find_work identity (update_works identity change works)
      ≡ Option.map change (find_work identity works)
unfolding find_work update_works first
find-update identity change [] kept = refl
find-update identity change (w ∷ works) kept = elim (Bool-cases (w.identity == identity)) [
  | inl same ↦ let e = kept w (ground arith) in ground arith
  | inr other ↦ ground (arith, find-update identity change works kept)
]

-- The row of another work.
pub find-update_other :
    (identity other : String) (change : WorkRecord → WorkRecord) (works : List WorkRecord)
    → ((w : WorkRecord) → w.identity ≡ identity → (change w).identity ≡ identity)
    → other ≢ identity
    → find_work other (update_works identity change works) ≡ find_work other works
unfolding find_work update_works first
find-update_other identity other change [] kept differ = refl
find-update_other identity other change (w ∷ works) kept differ =
    let rest = find-update_other identity other change works kept differ in
    elim (Bool-cases (w.identity == identity)) [
      | inl same ↦ let e = kept w (ground arith) in ground arith
      | inr apart ↦ ground arith
    ]

-- A row at the end is found when no row before it has its key.
pub first-append {ℓ} :
    {A : Type ℓ} (p : A → Bool) (xs : List A) (x : A)
    → any p xs ≡ false
    → p x ≡ true
    → first p (xs ++ (x ∷ [])) ≡ some x
unfolding first any
first-append p [] x missing hit = ground arith
first-append p (y ∷ ys) x missing hit = ground (arith, first-append p ys x (ground arith) hit)

pub keep-none {ℓ} : {A : Type ℓ} (p : A → Bool) (xs : List A) → any p xs ≡ false → keep p xs ≡ []
unfolding keep any
keep-none p [] missing = refl
keep-none p (x ∷ xs) missing = ground (arith, keep-none p xs (ground arith))

pub keep-append {ℓ} :
    {A : Type ℓ} (p : A → Bool) (xs : List A) (x : A)
    → any p xs ≡ false
    → p x ≡ true
    → keep p (xs ++ (x ∷ [])) ≡ x ∷ []
unfolding keep any
keep-append p [] x missing hit = ground arith
keep-append p (y ∷ ys) x missing hit = ground (arith, keep-append p ys x (ground arith) hit)

-- No packet of the identity, where there is none that clashes with it.
pub clash-none :
    (identity work : String) (generation : ℕ) (packets : List PacketRow)
    → has_clash identity work generation packets ≡ false
    → any (λ (p : PacketRow). p.packet.identity == identity) packets ≡ false
unfolding has_clash clashes any
clash-none identity work generation [] missing = refl
clash-none identity work generation (p ∷ ps) missing =
    ground (arith, clash-none identity work generation ps (ground arith))

-- The packet of an identity after an update of it.
pub find-update_packet :
    (identity : String) (change : WorkTaskPacket → WorkTaskPacket) (packets : List PacketRow)
    → ((p : WorkTaskPacket) → (change p).identity ≡ p.identity)
    → find_packet identity (update_packets identity change packets)
      ≡ Option.map
          (λ (p : PacketRow). record p { packet = change p.packet })
          (find_packet identity packets)
unfolding find_packet update_packets first
find-update_packet identity change [] kept = refl
find-update_packet identity change (p ∷ ps) kept =
    elim (Bool-cases (p.packet.identity == identity)) [
      | inl same ↦ let e = kept p.packet in ground arith
      | inr other ↦ ground (arith, find-update_packet identity change ps kept)
    ]

-- The packet of another identity.
pub find-update_other_packet :
    (identity other : String) (change : WorkTaskPacket → WorkTaskPacket) (packets : List PacketRow)
    → ((p : WorkTaskPacket) → (change p).identity ≡ p.identity)
    → other ≢ identity
    → find_packet other (update_packets identity change packets) ≡ find_packet other packets
unfolding find_packet update_packets first
find-update_other_packet identity other change [] kept differ = refl
find-update_other_packet identity other change (p ∷ ps) kept differ =
    let rest = find-update_other_packet identity other change ps kept differ in
    elim (Bool-cases (p.packet.identity == identity)) [
      | inl same ↦ let e = kept p.packet in ground arith
      | inr apart ↦ ground arith
    ]

-- What is found has the key.
pub found-identity :
    (identity : String) (works : List WorkRecord) (w : WorkRecord)
    → find_work identity works ≡ some w
    → w.identity ≡ identity
unfolding find_work first
found-identity identity [] w found = absurd (ground arith)
found-identity identity (v ∷ works) w found = elim (Bool-cases (v.identity == identity)) [
  | inl same ↦ ground arith
  | inr other ↦ found-identity identity works w (ground arith)
]

pub found-packet :
    (identity : String) (packets : List PacketRow) (p : PacketRow)
    → find_packet identity packets ≡ some p
    → p.packet.identity ≡ identity
unfolding find_packet first
found-packet identity [] p found = absurd (ground arith)
found-packet identity (q ∷ packets) p found = elim (Bool-cases (q.packet.identity == identity)) [
  | inl same ↦ ground arith
  | inr other ↦ found-packet identity packets p (ground arith)
]

-- What an optional identity finds is found under it.
pub by_identity-some {ℓ} :
    {A : Type ℓ} (find : String → Option A) (o : Option String) (a : A)
    → by_identity find o ≡ some a
    → (id : String) × (o ≡ some id) × (find id ≡ some a)
unfolding by_identity
by_identity-some find none a h = absurd (ground arith)
by_identity-some find (some id) a h = (id, refl, h)

-- A row of the packets after an update of them.
unfoldable pub updated_row : String → (WorkTaskPacket → WorkTaskPacket) → PacketRow → PacketRow
updated_row identity change p =
    if p.packet.identity == identity then record p { packet = change p.packet } else p

pub update-In :
    (identity : String) (change : WorkTaskPacket → WorkTaskPacket) (packets : List PacketRow)
    {p : PacketRow}
    → In p (update_packets identity change packets)
    → (q : PacketRow) × In q packets × (p ≡ updated_row identity change q)
unfolding update_packets updated_row
update-In identity change [] m = elim m [ ]
update-In identity change (q ∷ packets) {p} m =
    by_test (Bool-cases (q.packet.identity == identity)) m (update-In identity change packets)
  where
    Found : Type 0
    Found = (o : PacketRow) × In o (q ∷ packets) × (p ≡ updated_row identity change o)

    in_row :
        (r : PacketRow)
        → r ≡ updated_row identity change q
        → In p (r ∷ update_packets identity change packets)
        → (In p (update_packets identity change packets)
            → (o : PacketRow) × In o packets × (p ≡ updated_row identity change o))
        → Found
    in_row r e (here same) rest = (q, here refl, same ∙ e)
    in_row r e (there later) rest = let (o, m, f) = rest later in (o, there m, f)

    by_test :
        (q.packet.identity == identity ≡ true) ⊎ (q.packet.identity == identity ≡ false)
        → In p (update_packets identity change (q ∷ packets))
        → (In p (update_packets identity change packets)
            → (o : PacketRow) × In o packets × (p ≡ updated_row identity change o))
        → Found
    by_test (inl same) h rest =
        in_row (record q { packet = change q.packet }) (ground arith)
          (subst (In p) (ground arith) h) rest
    by_test (inr other) h rest = in_row q (ground arith) (subst (In p) (ground arith) h) rest

-- A member of a list with one more at its end.
pub append-In {ℓ} :
    {A : Type ℓ} (xs : List A) (x : A) {y : A} → In y (xs ++ (x ∷ [])) → In y xs ⊎ (y ≡ x)
append-In [] x (here e) = inr e
append-In [] x (there m) = elim m [ ]
append-In (z ∷ xs) x (here e) = inl (here e)
append-In (z ∷ xs) x (there m) = elim (append-In xs x m) [ inl l ↦ inl (there l) | inr e ↦ inr e ]

pub find-append :
    (identity : String) (works : List WorkRecord) (w v : WorkRecord)
    → find_work identity works ≡ some w
    → find_work identity (works ++ (v ∷ [])) ≡ some w
unfolding find_work first
find-append identity [] w v found = absurd (ground arith)
find-append identity (u ∷ works) w v found = elim (Bool-cases (u.identity == identity)) [
  | inl same ↦ ground arith
  | inr other ↦ ground (arith, find-append identity works w v (ground arith))
]

pub count-none {ℓ} :
    {A : Type ℓ} (p : A → Bool) (xs : List A) (x : A)
    → any p xs ≡ false
    → count p (xs ++ (x ∷ [])) ≤ 1
unfolding count any
count-none p [] x missing = ground arith
count-none p (y ∷ xs) x missing = ground (arith, count-none p xs x (ground arith))

pub count-append {ℓ} :
    {A : Type ℓ} (p : A → Bool) (xs : List A) (x : A)
    → p x ≡ false
    → count p (xs ++ (x ∷ [])) ≡ count p xs
unfolding count
count-append p [] x miss = ground arith
count-append p (y ∷ xs) x miss = ground (arith, count-append p xs x miss)
