-- ===== src/Mux/Engine/Members/Retire.antt =====
-- The end of a topic: a retired mux has no member left and does nothing any more.
use mathlib.Core.List.{map}
use xchannel_net.Base.{
  ℕ, zero, suc, ◌≡◌, refl, sym, ap, ◌∙◌, subst, Bool, true, false, Option, none, some, List, [],
  ◌∷◌, Bytes, bytes_eq_refl, if◌then◌else◌, arith,
}
use xchannel_net.Identity.{ChannelName}
use xchannel_net.Replication.{Io, done, failed, retired, Logs}
use xchannel_net.Mux.{msg_type_terminal}
use xchannel_net.Mux.Recover.{Member}
use xchannel_net.Mux.Engine.{Topics, Act, Slot, Mux}
use xchannel_net.Mux.Engine.Respects.{
  SameKeys, same_keys-IsKept, keys, Respects, Respects-bind, Respects-if, Respects-still,
  Respects-commit_record, Respects-emit_slot_table, Respects-emit_member_closed,
}
use xchannel_net.Mux.Engine.Writes.{bind_done}
use xchannel_net.Mux.Engine.Merge.{rounds_of, remove_at}
use xchannel_net.Mux.Engine.Merge.Respects.{Respects-slot, Respects-merge_one}
use xchannel_net.Mux.Engine.Members.{
  position, drain, remove_slot, remove_member, remove_all, retire, finish, add_member,
}

module _ (l : Logs) (x : Topics) where
  pub finish-finished : (s : Mux l x) → s.finished ≡ true → finish l x s ≡ (done tt, s)
  unfolding finish
  finish-finished s f = rw f refl

  pub add_member-finished :
      (name : ChannelName) (epoch : ℕ) (path : Bytes) (s : Mux l x)
      → s.finished ≡ true
      → add_member l x name epoch path s ≡ (failed retired, s)
  unfolding add_member
  add_member-finished name epoch path s f = rw f refl

  pub remove_member-no_slots :
      (name : ChannelName) (epoch : ℕ) (s : Mux l x)
      → s.slots ≡ []
      → remove_member l x name epoch s ≡ (done false, s)
  unfolding remove_member position
  remove_member-no_slots name epoch s e = rw e refl

  same_after :
      {A : Type 0} (m : Act (Mux l x) A) (s s' : Mux l x) (a : A)
      → Respects l x (SameKeys l x) (same_keys-IsKept l x) m
      → m s ≡ (done a, s')
      → keys l x s' ≡ keys l x s
  unfolding SameKeys
  same_after {A} m s s' a h e =
      subst (λ (r : Io A × Mux l x). keys l x r.1 ≡ keys l x s) e (h.kept s)

  Respects-drain :
      (rounds i : ℕ) → Respects l x (SameKeys l x) (same_keys-IsKept l x) (drain l x rounds i)
  unfolding drain
  Respects-drain zero i = Respects-still l x (SameKeys l x) (same_keys-IsKept l x) (λ s. refl)
  Respects-drain (suc rounds) i =
      Respects-bind l x (SameKeys l x) (same_keys-IsKept l x)
        (Respects-merge_one l x (SameKeys l x) (same_keys-IsKept l x) i)
        (λ more.
          Respects-if l x (SameKeys l x) (same_keys-IsKept l x) more (λ _. Respects-drain rounds i)
            (λ _. Respects-still l x (SameKeys l x) (same_keys-IsKept l x) (λ s. refl)))

  -- All but the first.
  tail : List Member → List Member
  tail [] = []
  tail (m ∷ ms) = ms

  without_first :
      (s : Mux l x) → keys l x (record s { slots = remove_at l x 0 s.slots }) ≡ tail (keys l x s)
  unfolding keys remove_at tail
  without_first s = front s.slots
    where
      key : Slot l x → Member
      key v = record { name = v.name; epoch = v.epoch }

      front : (ss : List (Slot l x)) → map key (remove_at l x 0 ss) ≡ tail (map key ss)
      front [] = refl
      front (v ∷ ss) = refl

  remove_slot_lem :
      (s s' : Mux l x) (b : Bool)
      → remove_slot l x 0 s ≡ (done b, s')
      → keys l x s' ≡ tail (keys l x s)
  unfolding remove_slot
  remove_slot_lem s s' b e =
      let (v, s1, e1, r1) = bind_done l x _ _ s s' b e in
      let (_, s2, e2, r2) = bind_done l x _ _ s1 s' b r1 in
      let (d, s3, e3, r3) = bind_done l x _ _ s2 s' b r2 in
      let (_, s4, e4, r4) = bind_done l x _ _ s3 s' b r3 in
      let (_, s5, e5, r5) = bind_done l x _ _ s4 s' b r4 in
      let (_, s6, e6, r6) = bind_done l x _ _ s5 s' b r5 in
      ap (λ (r : Io Bool × Mux l x). keys l x r.1) (sym r6)
      ∙ same_after _ s5 s6 tt (Respects-emit_slot_table l x _ (same_keys-IsKept l x)) e6
      ∙ ap (λ (r : Io (Unit {0}) × Mux l x). keys l x r.1) (sym e5)
      ∙ without_first s4
      ∙ ap tail (
          same_after _ s3 s4 tt (Respects-emit_member_closed l x _ (same_keys-IsKept l x) _) e4
          ∙ same_after _ s2 s3 d (Respects-slot l x _ (same_keys-IsKept l x) 0) e3
          ∙ same_after _ s1 s2 tt (Respects-drain (rounds_of l x v) 0) e2
          ∙ same_after _ s s1 v (Respects-slot l x _ (same_keys-IsKept l x) 0) e1)

  first : Member → List Member → Member
  first m [] = m
  first m (k ∷ ks) = k

  position_first :
      (name : ChannelName) (epoch : ℕ) (ms : List Member) (ss : List (Slot l x))
      → map (λ (v : Slot l x). record { name = v.name; epoch = v.epoch }) ss
        ≡ record { name = name; epoch = epoch } ∷ ms
      → position l x name epoch ss ≡ some 0
  unfolding position first
  position_first name epoch ms [] k = absurd cc
  position_first name epoch ms (v ∷ ss) k =
      let h : record { name = v.name; epoch = v.epoch } ≡ record { name = name; epoch = epoch } =
        ap (first (record { name = name; epoch = epoch })) k in
      rw (ap (λ (m : Member). m.name) h, ap (λ (m : Member). m.epoch) h, bytes_eq_refl name)
        (ground arith)

  remove_found :
      (name : ChannelName) (epoch : ℕ) (ms : List Member) (s : Mux l x)
      → keys l x s ≡ record { name = name; epoch = epoch } ∷ ms
      → remove_member l x name epoch s ≡ remove_slot l x 0 s
  unfolding remove_member keys
  remove_found name epoch ms s k =
      ap
        (λ (p : Option ℕ). elim p as (λ _. Io Bool × Mux l x) [
          | none ↦ (done false, s)
          | some pos ↦ remove_slot l x pos s
        ])
        (position_first name epoch ms s.slots k)

  -- The first slot's member is found at the front.
  remove_first :
      (name : ChannelName) (epoch : ℕ) (ms : List Member) (s s' : Mux l x) (b : Bool)
      → keys l x s ≡ record { name = name; epoch = epoch } ∷ ms
      → remove_member l x name epoch s ≡ (done b, s')
      → keys l x s' ≡ ms
  unfolding tail
  remove_first name epoch ms s s' b k e =
      remove_slot_lem s s' b (subst (λ r. r ≡ (done b, s')) (remove_found name epoch ms s k) e)
      ∙ ap tail k

  remove_all_lem :
      (ss : List (Slot l x)) (s s' : Mux l x)
      → keys l x s ≡ map (λ (v : Slot l x). record { name = v.name; epoch = v.epoch }) ss
      → remove_all l x ss s ≡ (done tt, s')
      → keys l x s' ≡ []
  unfolding remove_all
  remove_all_lem [] s s' k e = ap (λ (r : Io (Unit {0}) × Mux l x). keys l x r.1) (sym e) ∙ k
  remove_all_lem (v ∷ ss) s s' k e =
      let (b, s1, e1, r1) = bind_done l x _ _ s s' tt e in
      remove_all_lem ss s1 s' (remove_first v.name v.epoch _ s s1 b k e1) r1

  key_of : Slot l x → Member
  key_of v = record { name = v.name; epoch = v.epoch }

  no_slots : (ss : List (Slot l x)) → map key_of ss ≡ [] → ss ≡ []
  no_slots [] e = refl
  no_slots (v ∷ ss) e = absurd cc

  retire_lem :
      (s s' : Mux l x)
      → retire l x s.slots s ≡ (done tt, s')
      → (s'.finished ≡ true) × (s'.slots ≡ [])
  unfolding retire keys key_of
  retire_lem s s' e =
      let (_, s1, e1, r1) = bind_done l x _ _ s s' tt e in
      let (_, s2, e2, r2) = bind_done l x _ _ s1 s' tt r1 in
      let k = remove_all_lem s.slots s s1 refl e1 in
      let k' =
        same_after _ s1 s2 tt
          (Respects-commit_record l x _ (same_keys-IsKept l x) msg_type_terminal []) e2 in
      (
        ap (λ (r : Io (Unit {0}) × Mux l x). r.1.finished) (sym r2),
        ap (λ (r : Io (Unit {0}) × Mux l x). r.1.slots) (sym r2) ∙ no_slots s2.slots (k' ∙ k),
      )

  -- A retirement that succeeds leaves the mux finished, with no member.
  pub finish_lem :
      (s s' : Mux l x)
      → s.finished ≡ false
      → finish l x s ≡ (done tt, s')
      → (s'.finished ≡ true) × (s'.slots ≡ [])
  unfolding finish
  finish_lem s s' f e =
      retire_lem s s' (
        subst (λ (b : Bool). (if b then (done tt, s) else retire l x s.slots s) ≡ (done tt, s')) f
          e)
