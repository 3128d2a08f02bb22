-- ===== src/Membership/Laws.antt =====
-- What each method of the membership map does to the answers of the others.
use xchannel_net.Base.{
  ℕ, ◌-◌, ◌≡◌, refl, ap, ◌∙◌, inl, inr, ◌↔◌, false, Option, none, some, Bytes, arith, leb, ◌==◌,
  if◌then◌else◌, Option-cases,
}
use xchannel_net.Base.Equality.{Eq}
use xchannel_net.Base.NodeMap.{lookup, insert, lookup-insert}
use xchannel_net.Identity.{NodeId}
use xchannel_net.Membership.{
  Member, Membership, is_fresh, is_novel, record_direct, learn, retire, retire_member, addr_of,
  live_addr_of, fresh_addr, silent_for,
}

module _ {A : Type 0} ⦃e : Eq A⦄ where
  -- A heartbeat makes its node live at the address it gave for as long as the timeout allows from
  -- then on, and leaves every other node as live as before.
  pub live_addr_of-record_direct :
      (now later timeout : ℕ) (node other : NodeId) (addr control_addr : A) (name : Bytes)
      (s : Membership A)
      → live_addr_of later other timeout (record_direct now node addr control_addr name s).0 ≡ (
          if node == other
          then (if leb (later - now) timeout then some addr else none)
          else live_addr_of later other timeout s)
  unfolding live_addr_of record_direct is_fresh
  live_addr_of-record_direct now later timeout node other addr control_addr name s =
      ap (fresh_addr later timeout) (lookup-insert node other _ s.members) ∙ ground arith

  -- Hearsay about a node makes no node live, nor any less so; it moves the address of a node that
  -- was live.
  pub live_addr_of-learn :
      (now timeout : ℕ) (node other : NodeId) (addr control_addr : A) (name : Bytes)
      (s : Membership A)
      → live_addr_of now other timeout (learn node addr control_addr name s).0 ≡ (
          if node == other
          then elim (live_addr_of now other timeout s) [ none ↦ none | some old ↦ some addr ]
          else live_addr_of now other timeout s)
  unfolding live_addr_of learn is_fresh
  live_addr_of-learn now timeout node other addr control_addr name s =
      ap (fresh_addr now timeout) (lookup-insert node other _ s.members) ∙ ground arith

  -- After a node said it was leaving it is not live at any timeout, its address is still known,
  -- and its silence counts from that moment; other nodes are as before.
  pub retire_lem :
      (now later timeout : ℕ) (node other : NodeId) (s : Membership A)
      → let s' = (retire now node s).0 in
        (live_addr_of later other timeout s'
          ≡ (if node == other then none else live_addr_of later other timeout s))
        × (addr_of other s' ≡ addr_of other s)
        × (silent_for later other s' ≡ (
            if node == other
            then elim (addr_of node s) [ none ↦ none | some a ↦ some (later - now) ]
            else silent_for later other s))
  unfolding live_addr_of retire is_fresh addr_of silent_for
  retire_lem now later timeout node other s = elim (Option-cases (lookup node s.members)) [
    | inl absent ↦ rw (absent, retire_member) (ground arith, ground arith, ground arith)
    | inr (m, known) ↦
        let after =
          lookup-insert node other (record m { last_seen = none; last_contact = some now })
            s.members in
        simp (known, retire_member, after) (ground arith, ground arith, ground arith)
  ]

  is_novel_lem :
      (o : Option (Member A)) (addr control_addr : A)
      → (is_novel o addr control_addr ≡ false)
        ↔ ((m : Member A) × (o ≡ some m) × (m.addr ≡ addr) × (m.control_addr ≡ control_addr))
  unfolding is_novel
  is_novel_lem none addr control_addr = ((λ h. cc), (λ p. cc (p.1)))
  is_novel_lem (some m) addr control_addr = (
    (λ h. (
      m,
      refl,
      ground (arith, e.beq_iff m.addr addr),
      ground (arith, e.beq_iff m.control_addr control_addr),
    )),
    (λ p.
        ground
          (arith, p.1, p.2, p.3, e.beq_iff m.addr addr, e.beq_iff m.control_addr control_addr)),
  )

  -- A report of a node, by itself or by hearsay, is no news exactly when the node is known with
  -- both its addresses as reported.
  pub novel_lem :
      (now : ℕ) (node : NodeId) (addr control_addr : A) (name : Bytes) (s : Membership A)
      → let Known =
          (m : Member A) × (lookup node s.members ≡ some m)
          × (m.addr ≡ addr)
          × (m.control_addr ≡ control_addr) in
        (((record_direct now node addr control_addr name s).1 ≡ false) ↔ Known)
        × (((learn node addr control_addr name s).1 ≡ false) ↔ Known)
  unfolding record_direct learn
  novel_lem now node addr control_addr name s = (
    is_novel_lem (lookup node s.members) addr control_addr,
    is_novel_lem (lookup node s.members) addr control_addr,
  )

  -- Once a node has reported itself, hearing the same addresses again, by a heartbeat or by
  -- hearsay, is no news.
  pub heard_twice :
      (now later : ℕ) (node : NodeId) (addr control_addr : A) (name again : Bytes)
      (s : Membership A)
      → let s' = (record_direct now node addr control_addr name s).0 in
        ((record_direct later node addr control_addr again s').1 ≡ false)
        × ((learn node addr control_addr again s').1 ≡ false)
  unfolding record_direct learn
  heard_twice now later node addr control_addr name again s = (known, known)
    where
      seen : Member A
      seen = record {
        addr = addr;
        control_addr = control_addr;
        name = name;
        last_seen = some now;
        last_contact = some now;
      }

      known : is_novel (lookup node (insert node seen s.members)) addr control_addr ≡ false
      known =
          (is_novel_lem (lookup node (insert node seen s.members)) addr control_addr).1
            (seen, lookup-insert node node seen s.members ∙ ground arith, refl, refl)
