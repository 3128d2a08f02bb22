-- ===== src/Registry/Lifecycle.antt =====
-- Withdrawal of a name, and what stays withdrawn.
use xchannel_net.Base.{
  ℕ, ◌≤◌, ◌≡◌, ◌≢◌, refl, sym, ap, ◌∙◌, ◌⊎◌, inl, inr, true, false, Option, none, some, List, [],
  ◌∷◌, arith, bytes_eq, bytes_eq→eq, bytes_eq_refl, Bool-cases, Option-cases, subst, ◌==◌, All,
  if◌then◌else◌,
}
use xchannel_net.Base.NameMap.{lookup}
use xchannel_net.Identity.{ChannelIdentity, ChannelName, NodeId, resolve_collision}
use xchannel_net.Identity.Order.{resolve_buried, resolve_stale}
use xchannel_net.Registry.{
  Registry, winner_of, merge_tracked, merge, get, get_raw, live_only, bury, deregister,
  deregister_entry, reap, reap_entry,
}
use xchannel_net.Registry.Merge.{
  IsWellFormed, name-get_raw, merge_tracked-IsWellFormed, get_raw-merge_tracked,
}
use xchannel_net.Registry.Converge.{merge_all}

-- The tombstone that withdraws an entry.
abbrev pub tombstone : ChannelIdentity → ChannelIdentity
tombstone id = record id { deleted = true }

pub get-raw : (r : Registry) (n : ChannelName) → get r n ≡ live_only (get_raw r n)
unfolding get get_raw
get-raw r n = refl

-- What a withdrawal of the live entry `c` leaves: its tombstone under its name, the rest as it was.
pub record Buried (r : Registry) (n : ChannelName) (c : ChannelIdentity)
    (out : Registry × Option ChannelIdentity) : Type 0 where
  pub answer : out.1 ≡ some (tombstone c)
  pub raw :
      (m : ChannelName)
      → get_raw out.0 m ≡ (if bytes_eq n m then some (tombstone c) else get_raw r m)
  pub hidden : get out.0 n ≡ none
  pub well_formed : IsWellFormed out.0

bury-winner :
    (r : Registry) (n : ChannelName) (c : ChannelIdentity)
    → IsWellFormed r
    → get_raw r n ≡ some c
    → c.deleted ≡ false
    → winner_of (get_raw r c.name) (tombstone c) ≡ tombstone c
unfolding winner_of
bury-winner r n c w e live =
    ap (λ (o : Option ChannelIdentity). winner_of o (tombstone c))
      (ap (get_raw r) (name-get_raw n c w e) ∙ e)
    ∙ resolve_buried c live

bury-Buried :
    (r : Registry) (n : ChannelName) (c : ChannelIdentity)
    → IsWellFormed r
    → get_raw r n ≡ some c
    → c.deleted ≡ false
    → Buried r n c (bury r c)
unfolding bury merge
bury-Buried r n c w e live = record {
  answer = answer;
  raw = raw;
  hidden = hidden;
  well_formed = merge_tracked-IsWellFormed r (tombstone c) w;
}
  where
    named : c.name ≡ n
    named = name-get_raw n c w e

    answer : some (merge_tracked r (tombstone c)).1.winner ≡ some (tombstone c)
    answer = unfold merge_tracked get_raw in ap some (bury-winner r n c w e live)

    raw :
        (m : ChannelName)
        → get_raw (merge_tracked r (tombstone c)).0 m
          ≡ (if bytes_eq n m then some (tombstone c) else get_raw r m)
    raw m =
        ground (arith, get_raw-merge_tracked r (tombstone c) m w, bury-winner r n c w e live, named)

    hidden : get (merge_tracked r (tombstone c)).0 n ≡ none
    hidden =
        unfold live_only in
        (ground (arith, get-raw (merge_tracked r (tombstone c)).0 n, raw n, bytes_eq_refl n))

-- In a well-formed registry, a deregistration by the owner of a live entry answers with its
-- tombstone and leaves that under the name, hidden from lookups and with the rest as it was; for a
-- name that is absent or another's it answers with nothing and changes nothing.
pub deregister_lem :
    (r : Registry) (n : ChannelName) (owner : NodeId)
    → IsWellFormed r
    → ((c : ChannelIdentity) × (get r n ≡ some c)
        × (c.owner ≡ owner)
        × Buried r n c (deregister r n owner))
      ⊎ (((get r n ≡ none) ⊎ ((c : ChannelIdentity) × (get r n ≡ some c) × (c.owner ≢ owner)))
          × (deregister r n owner ≡ (r, none)))
unfolding deregister get live_only
deregister_lem r n owner w = elim (Option-cases (lookup n r.channels)) [
  | inl e ↦ inr (inl (ground arith), rw (e, deregister_entry))
  | inr (c, e) ↦ elim (Bool-cases c.deleted) [
    | inl gone ↦ inr (inl (ground arith), rw (e, deregister_entry, gone))
    | inr live ↦ elim (Bool-cases (c.owner == owner)) [
      | inl own ↦ inl (
        c,
        ground arith,
        ground arith,
        simp (e, deregister_entry, live, own) (bury-Buried r n c w (unfold get_raw in e) live),
      )
      | inr other ↦ inr (inr (c, ground arith, ground arith), rw (e, deregister_entry, live, other))
    ]
  ]
]

-- In a well-formed registry, reaping a live entry answers with its tombstone and leaves that under
-- the name, whoever the owner; reaping an absent name answers with nothing and changes nothing.
pub reap_lem :
    (r : Registry) (n : ChannelName)
    → IsWellFormed r
    → ((c : ChannelIdentity) × (get r n ≡ some c) × Buried r n c (reap r n))
      ⊎ ((get r n ≡ none) × (reap r n ≡ (r, none)))
unfolding reap get live_only
reap_lem r n w = elim (Option-cases (lookup n r.channels)) [
  | inl e ↦ inr (ground arith, rw (e, reap_entry))
  | inr (c, e) ↦ elim (Bool-cases c.deleted) [
    | inl gone ↦ inr (ground arith, rw (e, reap_entry, gone))
    | inr live ↦ inl (
      c,
      ground arith,
      simp (e, reap_entry, live) (bury-Buried r n c w (unfold get_raw in e) live),
    )
  ]
]

-- Held under the name: a tombstone of the given epoch.
abbrev pub IsGone : Registry → ChannelName → ℕ → Type 0
IsGone r n epoch =
    (t : ChannelIdentity) × (get_raw r n ≡ some t) × (t.deleted ≡ true) × (t.epoch ≡ epoch)

-- No identity of that name is of a newer epoch.
abbrev pub NoneNewer : ChannelName → ℕ → List ChannelIdentity → Type 0
NoneNewer n epoch ds = All (λ (d : ChannelIdentity). d.name ≡ n → d.epoch ≤ epoch) ds

merge_tracked-IsGone :
    (r : Registry) (n : ChannelName) (d : ChannelIdentity) (epoch : ℕ)
    → IsWellFormed r
    → IsGone r n epoch
    → (d.name ≡ n → d.epoch ≤ epoch)
    → IsGone (merge_tracked r d).0 n epoch
unfolding winner_of
merge_tracked-IsGone r n d epoch w (t, held, dead, at) h = elim (Bool-cases (bytes_eq d.name n)) [
  | inl same ↦
      let e : d.name ≡ n = bytes_eq→eq d.name n same in
      let won : get_raw (merge_tracked r d).0 n ≡ some (resolve_collision t d) =
        get_raw-merge_tracked r d n w
        ∙ rw same
            (ap (λ (o : Option ChannelIdentity). some (winner_of o d)) (ap (get_raw r) e ∙ held)) in
      let stale = resolve_stale t d dead (subst (λ k. d.epoch ≤ k) (sym at) (h e)) in
      (resolve_collision t d, won, stale.0, stale.1 ∙ at)
  | inr other ↦ (t, get_raw-merge_tracked r d n w ∙ rw other held, dead, at)
]

merge_all-IsGone :
    (ds : List ChannelIdentity) (r : Registry) (n : ChannelName) (epoch : ℕ)
    → IsWellFormed r
    → IsGone r n epoch
    → NoneNewer n epoch ds
    → IsGone (merge_all r ds) n epoch
unfolding merge_all
merge_all-IsGone [] r n epoch w g h = g
merge_all-IsGone (d ∷ ds) r n epoch w g h =
    merge_all-IsGone ds (merge_tracked r d).0 n epoch (merge_tracked-IsWellFormed r d w)
      (merge_tracked-IsGone r n d epoch w g h.0) h.1

-- In a well-formed registry that holds a tombstone of some epoch under a name, the name stays
-- absent through any sequence of merges in which no identity of that name has a higher epoch.
pub tombstone_terminal :
    (ds : List ChannelIdentity) (r : Registry) (n : ChannelName) (epoch : ℕ)
    → IsWellFormed r
    → IsGone r n epoch
    → NoneNewer n epoch ds
    → get (merge_all r ds) n ≡ none
unfolding get live_only get_raw
tombstone_terminal ds r n epoch w g h = ground (arith, merge_all-IsGone ds r n epoch w g h)
