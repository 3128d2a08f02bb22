-- ===== src/Node/Gossip/Exchange.antt =====
-- Two nodes and one identity: what the first answers settles the second.
use xchannel_net.Base.{
  ℕ, ◌≡◌, inl, inr, refl, sym, ap, ◌∙◌, true, false, some, List, [], ◌∷◌, map, arith, Bool-cases,
  if◌then◌else◌,
}
use xchannel_net.Base.NodeMap.{lookup, insert}
use xchannel_net.Identity.{ChannelIdentity, ChannelName}
use xchannel_net.Identity.Order.{Le, SameKey}
use xchannel_net.Registry.{Registry, Merged, merge_tracked, get_raw}
use xchannel_net.Registry.Merge.{IsWellFormed, merge_tracked-IsWellFormed, name-get_raw}
use xchannel_net.Registry.Held.{winner_held, winner_changed, kept_above, higher_wins, reported_once}
use xchannel_net.Registry.Converge.{Agree}
use xchannel_net.Membership.{Membership}
use xchannel_net.Node.Gossip.{
  Local, Gathered, nothing, Arrival, Config, same_key, lost_to, or_default, push, merge_and_publish,
  sort_out, ingest_one, ingest,
}
use xchannel_net.Node.Gossip.Settle.{lost_to_self}

tied_keys : (a b : ChannelIdentity) → lost_to a b ≡ false → SameKey a b
unfolding lost_to same_key
tied_keys a b h = record {
  epoch = ground arith;
  deleted = ground arith;
  registered_at_nanos = ground arith;
  owner = ground arith;
}

key_refl : (a : ChannelIdentity) → SameKey a a
key_refl a = record { epoch = refl; deleted = refl; registered_at_nanos = refl; owner = refl }

key_sym : {a b : ChannelIdentity} → SameKey a b → SameKey b a
key_sym k = record {
  epoch = sym k.epoch;
  deleted = sym k.deleted;
  registered_at_nanos = sym k.registered_at_nanos;
  owner = sym k.owner;
}

SameKey-lost_to : (a b : ChannelIdentity) → SameKey a b → lost_to a b ≡ false
unfolding lost_to same_key
SameKey-lost_to a b k = ground arith

-- What a link is answered with for one identity.
abbrev answer_of : ChannelIdentity → Merged → List ChannelIdentity
answer_of id m = if m.changed then [] else if lost_to id m.winner then m.winner ∷ [] else []

sort_out-answer :
    (from : ℕ) (id : ChannelIdentity) (m : Merged)
    → or_default (lookup from (sort_out from id m nothing).to_reply) ≡ answer_of id m
unfolding sort_out push or_default lookup insert
sort_out-answer from id m = elim (Bool-cases m.changed) [
  | inl moved ↦ rw moved refl
  | inr still ↦ rw still (elim (Bool-cases (lost_to id m.winner)) [
    | inl lost ↦ rw lost (ground arith)
    | inr tied ↦ rw tied refl
  ])
]

-- The two registries agree on a name, and the second node has nothing to answer.
abbrev pub Settled : ChannelName → Registry → Local × Gathered → Type 0
Settled n r (t, g) = Agree (get_raw r n) (get_raw t.registry n) × (g.to_reply ≡ [])

module _ {A : Type 0} where
  -- The arrivals that the answers of one node on a link are for the other.
  abbrev pub answers : ℕ → (ChannelIdentity → Arrival A) → Gathered → List (Arrival A)
  answers from bring g = map bring (or_default (lookup from g.to_reply))

  answers-ingest :
      (c : Config) (s : Local) (x : Arrival A) (bring : ChannelIdentity → Arrival A)
      → answers x.from bring (ingest c (s, nothing) (x ∷ [])).1
        ≡ map bring (answer_of x.id (merge_tracked s.registry x.id).1)
  unfolding ingest ingest_one merge_and_publish
  answers-ingest c s x bring =
      ap (map bring) (sort_out-answer x.from x.id (merge_tracked s.registry x.id).1)

  -- An answer settles the node that gets it: it takes what it was told, and answers nothing.
  settles :
      (c : Config) (t : Local) (x : Arrival A) (id : ChannelIdentity)
      → IsWellFormed t.registry
      → get_raw t.registry x.id.name ≡ some id
      → Le id x.id
      → lost_to id x.id ≡ true
      → (get_raw (ingest c (t, nothing) (x ∷ [])).0.registry x.id.name ≡ some x.id)
        × ((ingest c (t, nothing) (x ∷ [])).1.to_reply ≡ [])
  unfolding ingest ingest_one merge_and_publish sort_out
  settles c t x id w held le lost = (winner_held t.registry x.id w ∙ ap some won, quiet)
    where
      won : (merge_tracked t.registry x.id).1.winner ≡ x.id
      won =
          higher_wins t.registry x.id id held le
            (λ k. reported_once lost (SameKey-lost_to id x.id k))

      quiet :
          (if (merge_tracked t.registry x.id).1.changed
            then []
            else if lost_to x.id (merge_tracked t.registry x.id).1.winner
            then push x.from (merge_tracked t.registry x.id).1.winner []
            else [])
          ≡ []
      quiet = rw (won, lost_to_self x.id) (ground arith)

  abbrev pub arrive : ℕ → Membership A → ℕ → ChannelIdentity → Arrival A
  arrive from membership now id = record {
    from = from;
    id = id;
    membership = membership;
    now = now;
  }

  answered :
      (c : Config) (t : Local) (r : Registry) (m : Merged) (id : ChannelIdentity) (back : ℕ)
      (seen : Membership A) (now : ℕ)
      → IsWellFormed t.registry
      → get_raw t.registry id.name ≡ some id
      → get_raw r id.name ≡ some m.winner
      → m.winner.name ≡ id.name
      → (m.changed ≡ true → m.winner ≡ id)
      → (m.changed ≡ false → Le id m.winner)
      → Settled id.name r (ingest c (t, nothing) (map (arrive back seen now) (answer_of id m)))
  unfolding ingest
  answered c t r m id back seen now w held kept named moved above = elim (Bool-cases m.changed) [
    | inl e ↦ rw (e, kept, held, moved e) (key_refl id, refl)
    | inr e ↦ elim (Bool-cases (lost_to id m.winner)) [
      | inl lost ↦
          let (takes, quiet) =
            settles c t (arrive back seen now m.winner) id w (ap (get_raw t.registry) named ∙ held)
              (above e) lost in
          rw (e, lost, kept, sym (ap (get_raw _) named) ∙ takes) (key_refl m.winner, quiet)
      | inr tied ↦ rw (e, tied, kept, held) (key_sym (tied_keys id m.winner tied), refl)
    ]
  ]

  -- When a well-formed registry takes in an identity that another well-formed registry holds, and
  -- that node takes in what it is answered, the two agree under the name on the epoch, the
  -- tombstone, the registration time and the owner, and the second answers nothing.
  pub exchange_lem :
      (c d : Config) (s t : Local) (x : Arrival A) (back : ℕ) (seen : Membership A) (now : ℕ)
      → IsWellFormed s.registry
      → IsWellFormed t.registry
      → get_raw t.registry x.id.name ≡ some x.id
      → let u = ingest c (s, nothing) (x ∷ []) in
        Settled x.id.name u.0.registry
          (ingest d (t, nothing) (answers x.from (arrive back seen now) u.1))
  unfolding ingest ingest_one merge_and_publish
  exchange_lem c d s t x back seen now ws wt held =
      let r = (merge_tracked s.registry x.id).0 in
      let kept = winner_held s.registry x.id ws in
      rw (answers-ingest c s x (arrive back seen now)) (
        answered d t r (merge_tracked s.registry x.id).1 x.id back seen now wt held kept
          (name-get_raw x.id.name _ (merge_tracked-IsWellFormed s.registry x.id ws) kept)
          (winner_changed s.registry x.id ws) (kept_above s.registry x.id ws))
