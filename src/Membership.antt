-- ===== src/Membership.antt =====
-- xchannel-net-core/src/membership.rs: which nodes are known, where, and since when they were heard
-- from. `Instant::now()` is an argument of each method, in any unit, and a duration is a number of
-- that unit; `elapsed` is 0 when the clock has not moved past the stamp, as in the standard library.
-- `SocketAddr` is the standard library's type, a parameter with its `==`.
pub mod Laws
pub mod Stale
pub mod Contact
mod Examples
use xchannel_net.Base.{
  ℕ, ◌-◌, ◌+◌, Bool, true, false, not, Option, none, some, List, [], ◌∷◌, Bytes, ◌||◌, ◌&&◌, leb,
  ltb, if◌then◌else◌, length,
}
use xchannel_net.Base.Equality.{Eq}
use xchannel_net.Base.NodeMap.{NodeMap, lookup, insert, keep, remove, keys}
use xchannel_net.Identity.{NodeId}

pub record Member (A : Type 0) : Type 0 where
  pub addr : A
  pub control_addr : A
  pub name : Bytes
  pub last_seen : Option ℕ
  pub last_contact : Option ℕ

pub record Membership (A : Type 0) : Type 0 where
  pub members : NodeMap (Member A)

unfoldable pub elapsed : ℕ → ℕ → ℕ
elapsed now t = now - t

-- `last_seen.is_some_and(|t| t.elapsed() <= timeout)`
unfoldable pub is_fresh : ℕ → ℕ → Option ℕ → Bool
unfolding elapsed
is_fresh now timeout none = false
is_fresh now timeout (some t) = leb (elapsed now t) timeout

-- `last_seen.is_none_or(|t| now.duration_since(t) > timeout)`
unfoldable pub is_stale : ℕ → ℕ → Option ℕ → Bool
unfolding elapsed
is_stale now timeout none = true
is_stale now timeout (some t) = ltb timeout (elapsed now t)

-- `is_some`
is_stamped : Option ℕ → Bool
is_stamped none = false
is_stamped (some t) = true

unless_empty : Bytes → Option Bytes
unless_empty [] = none
unless_empty (b ∷ bs) = some (b ∷ bs)

contact_age : ℕ → Option ℕ → Option ℕ
contact_age now none = none
contact_age now (some t) = some (elapsed now t)

module _ {A : Type 0} where
  pub new : Membership A
  new = record { members = [] }

  directory_of : NodeMap (Member A) → List (NodeId × A × A × Bytes)
  directory_of [] = []
  directory_of ((n, m) ∷ rest) = (n, m.addr, m.control_addr, m.name) ∷ directory_of rest

  pub directory : Membership A → List (NodeId × A × A × Bytes)
  unfolding directory_of
  directory s = directory_of s.members

  label_of : Option (Member A) → Option Bytes
  unfolding unless_empty
  label_of none = none
  label_of (some m) = unless_empty m.name

  pub name_of : NodeId → Membership A → Option Bytes
  unfolding label_of
  name_of node s = label_of (lookup node s.members)

  retire_member : ℕ → NodeId → Membership A → Option (Member A) → Membership A × Bool
  retire_member now node s none = (s, false)
  retire_member now node s (some m) = (
    record {
      members = insert node (record m { last_seen = none; last_contact = some now }) s.members;
    },
    is_stamped m.last_seen,
  )

  pub retire : ℕ → NodeId → Membership A → Membership A × Bool
  unfolding retire_member
  retire now node s = retire_member now node s (lookup node s.members)

  peers_of : NodeMap (Member A) → List (NodeId × A)
  peers_of [] = []
  peers_of ((n, m) ∷ rest) = (n, m.control_addr) ∷ peers_of rest

  pub known_peers : Membership A → List (NodeId × A)
  unfolding peers_of
  known_peers s = peers_of s.members

  pub option_addr : Option (Member A) → Option A
  option_addr none = none
  option_addr (some m) = some m.addr

  pub addr_of : NodeId → Membership A → Option A
  unfolding option_addr
  addr_of node s = option_addr (lookup node s.members)

  -- `filter(|m| ...).map(|m| m.addr)`
  fresh_addr : ℕ → ℕ → Option (Member A) → Option A
  fresh_addr now timeout none = none
  fresh_addr now timeout (some m) = if is_fresh now timeout m.last_seen then some m.addr else none

  pub live_addr_of : ℕ → NodeId → ℕ → Membership A → Option A
  unfolding fresh_addr
  live_addr_of now node timeout s = fresh_addr now timeout (lookup node s.members)

  silence : ℕ → Option (Member A) → Option ℕ
  unfolding contact_age
  silence now none = none
  silence now (some m) = contact_age now m.last_contact

  pub silent_for : ℕ → NodeId → Membership A → Option ℕ
  unfolding silence
  silent_for now node s = silence now (lookup node s.members)

  pub live_members : ℕ → ℕ → Membership A → List NodeId
  live_members now timeout s = keys (keep (λ m. is_fresh now timeout m.last_seen) s.members)

  -- `for n in &stale { self.members.remove(n); }`
  pub remove_each : List NodeId → NodeMap (Member A) → NodeMap (Member A)
  remove_each [] m = m
  remove_each (n ∷ ns) m = remove_each ns (remove n m)

  pub forget_stale : ℕ → ℕ → Membership A → Membership A × List NodeId
  unfolding remove_each
  forget_stale now timeout s =
      let stale = keys (keep (λ (m : Member A). is_stale now timeout m.last_seen) s.members) in
      (record { members = remove_each stale s.members }, stale)

  pub len : Membership A → ℕ
  len s = length s.members

  pub is_empty : Membership A → Bool
  is_empty s = if leb (length s.members) 0 then true else false

module _ {A : Type 0} ⦃e : Eq A⦄ where
  pub differs : A → A → Bool
  differs a b = not (e.beq a b)

  -- `is_none_or(|m| m.addr != addr || m.control_addr != control_addr)`
  pub is_novel : Option (Member A) → A → A → Bool
  unfolding differs
  is_novel none addr control_addr = true
  is_novel (some m) addr control_addr = differs m.addr addr || differs m.control_addr control_addr

  -- `record`: a node that was heard from directly.
  pub record_direct : ℕ → NodeId → A → A → Bytes → Membership A → Membership A × Bool
  unfolding is_novel
  record_direct now node addr control_addr name s = (
    record {
      members =
          insert node
            (record {
              addr = addr;
              control_addr = control_addr;
              name = name;
              last_seen = some now;
              last_contact = some now;
            })
            s.members;
    },
    is_novel (lookup node s.members) addr control_addr,
  )

  learned : Option (Member A) → A → A → Bytes → Member A
  learned (some m) addr control_addr name = record m {
    addr = addr;
    control_addr = control_addr;
    name = name;
  }
  learned none addr control_addr name = record {
    addr = addr;
    control_addr = control_addr;
    name = name;
    last_seen = none;
    last_contact = none;
  }

  pub learn : NodeId → A → A → Bytes → Membership A → Membership A × Bool
  unfolding learned is_novel
  learn node addr control_addr name s = (
    record {
      members = insert node (learned (lookup node s.members) addr control_addr name) s.members;
    },
    is_novel (lookup node s.members) addr control_addr,
  )

  -- `find(|(_, m)| m.control_addr == control)`
  node_among : A → NodeMap (Member A) → Option NodeId
  node_among control [] = none
  node_among control ((n, m) ∷ rest) =
      if e.beq m.control_addr control then some n else node_among control rest

  pub node_at : A → Membership A → Option NodeId
  unfolding node_among
  node_at control s = node_among control s.members
