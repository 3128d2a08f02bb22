-- ===== src/Membership/Stale.antt =====
-- Who is listed as live, and what forgetting the stale entries leaves.
use xchannel_net.Base.{
  ℕ, ◌≡◌, refl, ap, ◌∙◌, ◌⊎◌, inl, inr, ◌↔◌, Bool, not, Option, none, some, List, [], ◌∷◌, IsIn,
  arith, ◌==◌, Bool-cases,
}
use xchannel_net.Base.NodeMap.{
  NodeMap, lookup, keep, remove, keys, lookup-remove, lookup-keep, keys-lookup, Distinct,
  remove-Distinct, filter_option,
}
use xchannel_net.Identity.{NodeId}
use xchannel_net.Membership.{
  Member, Membership, is_fresh, is_stale, addr_of, option_addr, live_addr_of, fresh_addr,
  live_members, forget_stale, remove_each,
}

stale-fresh :
    (now timeout : ℕ) (t : Option ℕ) → is_stale now timeout t ≡ not (is_fresh now timeout t)
unfolding is_stale is_fresh
stale-fresh now timeout none = refl
stale-fresh now timeout (some t) = ground arith

module _ {A : Type 0} where
  fresh_member :
      (now timeout : ℕ) (o : Option (Member A)) (a : A)
      → fresh_addr now timeout o ≡ some a
      → (m : Member A) × (filter_option (λ x. is_fresh now timeout x.last_seen) o ≡ some m)
  unfolding fresh_addr
  fresh_member now timeout none a h = cc
  fresh_member now timeout (some m) a h = (m, ground arith)

  -- When no node stands twice in the map, the live members are exactly the nodes that have a live
  -- address at the timeout.
  pub live_members_lem :
      (now timeout : ℕ) (node : NodeId) (s : Membership A)
      → Distinct s.members
      → IsIn node (live_members now timeout s)
        ↔ ((a : A) × (live_addr_of now node timeout s ≡ some a))
  unfolding live_members live_addr_of
  live_members_lem now timeout node s d = (there, back)
    where
      fresh : Member A → Bool
      fresh m = is_fresh now timeout m.last_seen

      listed :
          IsIn node (keys (keep fresh s.members))
          ↔ ((m : Member A) × (lookup node (keep fresh s.members) ≡ some m))
      listed = keys-lookup node (keep fresh s.members)

      kept : lookup node (keep fresh s.members) ≡ filter_option fresh (lookup node s.members)
      kept = lookup-keep fresh node s.members d

      there :
          IsIn node (keys (keep fresh s.members))
          → (a : A) × (fresh_addr now timeout (lookup node s.members) ≡ some a)
      there i = let t = listed.0 i in (t.0.addr, ground (arith, kept, t.1))

      back :
          ((a : A) × (fresh_addr now timeout (lookup node s.members) ≡ some a))
          → IsIn node (keys (keep fresh s.members))
      back (a, h) =
          let t = fresh_member now timeout (lookup node s.members) a h in listed.1 (t.0, kept ∙ t.1)

  pub remove_each-Distinct :
      (ns : List NodeId) (m : NodeMap (Member A)) → Distinct m → Distinct (remove_each ns m)
  unfolding remove_each
  remove_each-Distinct [] m d = d
  remove_each-Distinct (n ∷ ns) m d = remove_each-Distinct ns (remove n m) (remove-Distinct n m d)

  lookup-remove_each_in :
      (ns : List NodeId) (n : NodeId) (m : NodeMap (Member A))
      → IsIn n ns ⊎ (lookup n m ≡ none)
      → lookup n (remove_each ns m) ≡ none
  unfolding remove_each
  lookup-remove_each_in [] n m (inl i) = absurd i
  lookup-remove_each_in [] n m (inr h) = h
  lookup-remove_each_in (k ∷ ns) n m (inl (inl h)) =
      lookup-remove_each_in ns n (remove k m) (inr (lookup-remove k n m ∙ ground arith))
  lookup-remove_each_in (k ∷ ns) n m (inl (inr i)) = lookup-remove_each_in ns n (remove k m) (inl i)
  lookup-remove_each_in (k ∷ ns) n m (inr h) =
      lookup-remove_each_in ns n (remove k m) (inr (lookup-remove k n m ∙ ground arith))

  lookup-remove_each_out :
      (ns : List NodeId) (n : NodeId) (m : NodeMap (Member A))
      → ¬ IsIn n ns
      → lookup n (remove_each ns m) ≡ lookup n m
  unfolding remove_each
  lookup-remove_each_out [] n m h = refl
  lookup-remove_each_out (k ∷ ns) n m h =
      lookup-remove_each_out ns n (remove k m) (λ i. h (inr i))
      ∙ lookup-remove k n m
      ∙ elim (Bool-cases (k == n)) [
        | inl same ↦ absurd (h (inl (ground arith)))
        | inr other ↦ rw other
      ]

  -- What a key that is listed as stale is bound to.
  stale_listed :
      (now timeout : ℕ) (node : NodeId) (s : Membership A)
      → Distinct s.members
      → IsIn node (forget_stale now timeout s).1 ↔ (
          (m : Member A) × (filter_option
              (λ x. is_stale now timeout x.last_seen)
              (lookup node s.members)
            ≡ some m))
  unfolding forget_stale
  stale_listed now timeout node s d =
      rw (← lookup-keep (λ (x : Member A). is_stale now timeout x.last_seen) node s.members d)
        (keys-lookup node (keep (λ x. is_stale now timeout x.last_seen) s.members))

  filter_stale :
      (now timeout : ℕ) (o : Option (Member A))
      → ((m : Member A) × (filter_option (λ x. is_stale now timeout x.last_seen) o ≡ some m))
        ↔ ((a : A) × (option_addr o ≡ some a) × (fresh_addr now timeout o ≡ none))
  unfolding option_addr fresh_addr
  filter_stale now timeout none = ((λ p. cc (p.1)), (λ p. cc (p.1)))
  filter_stale now timeout (some m) = (
    (λ p. (m.addr, refl, ground (arith, stale-fresh now timeout m.last_seen, p.1))),
    (λ p. (m, ground (arith, stale-fresh now timeout m.last_seen, p.2))),
  )

  forgotten :
      (now timeout : ℕ) (node : NodeId) (s : Membership A) (o : Option (Member A))
      → Distinct s.members
      → lookup node s.members ≡ o
      → option_addr (lookup node (forget_stale now timeout s).0.members) ≡ fresh_addr now timeout o
  unfolding forget_stale option_addr fresh_addr
  forgotten now timeout node s none d h =
      ap option_addr (lookup-remove_each_in (forget_stale now timeout s).1 node s.members (inr h))
  forgotten now timeout node s (some m) d h = elim (Bool-cases (is_fresh now timeout m.last_seen)) [
    | inl fresh ↦ rw fresh (
        ap option_addr (
          lookup-remove_each_out (forget_stale now timeout s).1 node s.members (λ i.
            let t = (stale_listed now timeout node s d).0 i in
            ground (arith, t.1, h, fresh, stale-fresh now timeout m.last_seen))
          ∙ h))
    | inr old ↦ rw old (
        ap option_addr (
          lookup-remove_each_in (forget_stale now timeout s).1 node s.members (
            inl (
              (stale_listed now timeout node s d).1
                (m, rw h (ground (arith, old, stale-fresh now timeout m.last_seen)))))))
  ]

  -- When no node stands twice in the map, forgetting the stale nodes leaves known, with its
  -- address, exactly what was live at the timeout, and names exactly the other known nodes.
  pub forget_stale_lem :
      (now timeout : ℕ) (node : NodeId) (s : Membership A)
      → Distinct s.members
      → (addr_of node (forget_stale now timeout s).0 ≡ live_addr_of now node timeout s)
        × (IsIn node (forget_stale now timeout s).1
            ↔ ((a : A) × (addr_of node s ≡ some a) × (live_addr_of now node timeout s ≡ none)))
  unfolding addr_of live_addr_of
  forget_stale_lem now timeout node s d = (
    forgotten now timeout node s (lookup node s.members) d refl,
    (
      (λ i.
          (filter_stale now timeout (lookup node s.members)).0
            ((stale_listed now timeout node s d).0 i)),
      (λ p.
          (stale_listed now timeout node s d).1
            ((filter_stale now timeout (lookup node s.members)).1 p)),
    ),
  )
