-- ===== src/Membership/Contact.antt =====
-- The histories of a membership map: a node's clock moves on, and heartbeats, hearsay, departures
-- and pruning come in any order. What the two stamps of an entry mean is an invariant of these.
use xchannel_net.Base.{
  ℕ, ◌-◌, ◌≤◌, ◌≡◌, refl, inl, inr, true, Option, none, some, [], List, ◌∷◌, Bytes, arith, ◌==◌,
  Bool-cases,
}
use xchannel_net.Base.Equality.{Eq}
use xchannel_net.Base.NodeMap.{
  NodeMap, lookup, insert, remove, lookup-insert, lookup-remove, Distinct, insert-Distinct,
}
use xchannel_net.Identity.{NodeId}
use xchannel_net.Membership.{
  Member, Membership, elapsed, is_fresh, new, record_direct, learn, learned, retire, retire_member,
  live_addr_of, fresh_addr, silent_for, silence, contact_age, forget_stale, remove_each,
}
use xchannel_net.Membership.Stale.{remove_each-Distinct}

-- What can happen to a membership map, each with the arguments of its method.
pub data Event (A : Type 0) : Type 0 where
  heard : NodeId → A → A → Bytes → Event A
  told : NodeId → A → A → Bytes → Event A
  left : NodeId → Event A
  pruned : ℕ → Event A

module _ {A : Type 0} ⦃e : Eq A⦄ where
  unfoldable pub apply : ℕ → Event A → Membership A → Membership A
  apply now (heard node addr control_addr name) s =
      (record_direct now node addr control_addr name s).0
  apply now (told node addr control_addr name) s = (learn node addr control_addr name s).0
  apply now (left node) s = (retire now node s).0
  apply now (pruned timeout) s = (forget_stale now timeout s).0

  -- Reached at a time: from the empty map, by events at times that do not go back.
  pub data Reached : ℕ → Membership A → Type 0 where
    start : (now : ℕ) → Reached now new
    event :
        {now later : ℕ} {s : Membership A} (v : Event A)
        → now ≤ later
        → Reached now s
        → Reached later (apply later v s)

-- A node that counts as seen was in contact then or later, and no contact is in the future.
abbrev pub Dated : ℕ → Option ℕ → Option ℕ → Type 0
Dated now none none = Unit {0}
Dated now none (some c) = c ≤ now
Dated now (some t) none = ⊥
Dated now (some t) (some c) = (t ≤ c) × (c ≤ now)

Dated-later : (now later : ℕ) (t c : Option ℕ) → now ≤ later → Dated now t c → Dated later t c
Dated-later now later none none h d = tt
Dated-later now later none (some c) h d = omega arith
Dated-later now later (some t) none h d = d
Dated-later now later (some t) (some c) h d = omega arith

abbrev pub DatedMember : {A : Type 0} → ℕ → Option (Member A) → Type 0
DatedMember now none = Unit {0}
DatedMember now (some m) = Dated now m.last_seen m.last_contact

pub record IsDated {A : Type 0} (now : ℕ) (s : Membership A) : Type 0 where
  pub distinct : Distinct s.members
  pub dated : (n : NodeId) → DatedMember now (lookup n s.members)

DatedMember-later :
    {A : Type 0} (now later : ℕ) (o : Option (Member A))
    → now ≤ later
    → DatedMember now o
    → DatedMember later o
DatedMember-later now later none h d = tt
DatedMember-later now later (some m) h d = Dated-later now later m.last_seen m.last_contact h d

later-IsDated :
    {A : Type 0} (now later : ℕ) (s : Membership A) → now ≤ later → IsDated now s → IsDated later s
later-IsDated now later s h d = record {
  distinct = d.distinct;
  dated = λ n. DatedMember-later now later (lookup n s.members) h (d.dated n);
}

insert-IsDated :
    {A : Type 0} (now : ℕ) (node : NodeId) (m : Member A) (s : Membership A)
    → IsDated now s
    → Dated now m.last_seen m.last_contact
    → IsDated now (record { members = insert node m s.members })
insert-IsDated now node m s d h = record {
  distinct = insert-Distinct node m s.members d.distinct;
  dated = λ n.
      rw (lookup-insert node n m s.members)
        (elim (Bool-cases (node == n)) [ inl same ↦ rw same h | inr other ↦ rw other (d.dated n) ]);
}

remove_each-dated :
    {A : Type 0} (now : ℕ) (ns : List NodeId) (m : NodeMap (Member A))
    → ((n : NodeId) → DatedMember now (lookup n m))
    → (n : NodeId) → DatedMember now (lookup n (remove_each ns m))
unfolding remove_each
remove_each-dated now [] m h n = h n
remove_each-dated now (k ∷ ns) m h n = remove_each-dated now ns (remove k m) fewer n
  where
    fewer : (j : NodeId) → DatedMember now (lookup j (remove k m))
    fewer j =
        rw (lookup-remove k j m)
          (elim (Bool-cases (k == j)) [ inl same ↦ rw same tt | inr other ↦ rw other (h j) ])

module _ {A : Type 0} ⦃e : Eq A⦄ where
  retire_member-IsDated :
      (now : ℕ) (node : NodeId) (s : Membership A) (o : Option (Member A))
      → IsDated now s
      → IsDated now (retire_member now node s o).0
  unfolding retire_member
  retire_member-IsDated now node s none d = d
  retire_member-IsDated now node s (some m) d = insert-IsDated now node _ s d (omega arith)

  apply-IsDated :
      (now : ℕ) (v : Event A) (s : Membership A) → IsDated now s → IsDated now (apply now v s)
  unfolding apply
  apply-IsDated now (heard node addr control_addr name) s d =
      unfold record_direct in insert-IsDated now node _ s d (omega arith)
  apply-IsDated now (told node addr control_addr name) s d =
      unfold learn in
      insert-IsDated now node _ s d (told_dates (lookup node s.members) (d.dated node))
    where
      told_dates :
          (o : Option (Member A))
          → DatedMember now o
          → Dated now
              (learned o addr control_addr name).last_seen
              (learned o addr control_addr name).last_contact
      told_dates none h = unfold learned in tt
      told_dates (some m) h = unfold learned in h
  apply-IsDated now (left node) s d =
      unfold retire in retire_member-IsDated now node s (lookup node s.members) d
  apply-IsDated now (pruned timeout) s d =
      unfold forget_stale in
      record {
        distinct = remove_each-Distinct (forget_stale now timeout s).1 s.members d.distinct;
        dated = remove_each-dated now (forget_stale now timeout s).1 s.members d.dated;
      }

  -- The invariant holds in every history.
  pub Reached-IsDated : {now : ℕ} {s : Membership A} → Reached now s → IsDated now s
  Reached-IsDated (start now) = unfold new lookup in record { distinct = tt; dated = λ n. tt }
  Reached-IsDated (event {now} {later} {s} v h r) =
      apply-IsDated later v s (later-IsDated now later s h (Reached-IsDated r))

dated_silence :
    {A : Type 0} (now timeout : ℕ) (o : Option (Member A)) (a : A)
    → DatedMember now o
    → fresh_addr now timeout o ≡ some a
    → (d : ℕ) × (silence now o ≡ some d) × (d ≤ timeout)
unfolding fresh_addr silence is_fresh
dated_silence now timeout none a d h = cc
dated_silence now timeout (some m) a d h = go m.last_seen m.last_contact d (ground arith)
  where
    go :
        (t c : Option ℕ)
        → Dated now t c
        → is_fresh now timeout t ≡ true
        → (d : ℕ) × (contact_age now c ≡ some d) × (d ≤ timeout)
    go none c d h = cc
    go (some t) none d h = absurd d
    go (some t) (some c) d h = (now - c, unfold contact_age elapsed in refl, ground arith)

module _ {A : Type 0} ⦃e : Eq A⦄ where
  -- In every history of heartbeats, hearsay, departures and pruning over a clock that does not go
  -- back, a node that counts as live at a timeout has not been silent for longer than the timeout.
  pub live_silence :
      {now : ℕ} {s : Membership A} (timeout : ℕ) (node : NodeId) (a : A)
      → Reached now s
      → live_addr_of now node timeout s ≡ some a
      → (d : ℕ) × (silent_for now node s ≡ some d) × (d ≤ timeout)
  unfolding live_addr_of silent_for
  live_silence {now} {s} timeout node a r h =
      dated_silence now timeout (lookup node s.members) a ((Reached-IsDated r).dated node) h
