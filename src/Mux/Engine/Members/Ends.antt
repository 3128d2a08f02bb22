-- ===== src/Mux/Engine/Members/Ends.antt =====
-- Removing a member and retiring a topic end, on logs to which nothing is appended meanwhile.
use xchannel_net.Base.{
  ℕ, zero, suc, ◌<◌, ◌≢◌, sym, subst, inl, inr, Bool, true, false, Option, none, some, List, [],
  ◌∷◌, length, if◌then◌else◌, arith,
}
use xchannel_net.Identity.{ChannelName}
use xchannel_net.Replication.{Io, done, failed, blocked, Logs, ReplicationSource}
use xchannel_net.Mux.{msg_type_terminal}
use xchannel_net.Mux.Engine.{
  Topics, ◌>>=◌, give, modify, Slot, Mux, commit_record, emit_slot_table, emit_member_closed,
}
use xchannel_net.Mux.Engine.Merge.{slot, rounds_of, merge_one, poll}
use xchannel_net.Mux.Engine.Merge.Ends.{
  IsPatient, NeverWaits, Returns, Returns-bind, Fewer, Rest, Ends, nothing_below, slot_cases,
  slot-Returns, bind_at, failed_at, merge_one-Returns, poll-Ends, commit_record-Returns,
  emit_slot_table-Returns, SlotsOf,
}
use xchannel_net.Mux.Engine.Members.{
  position, drain, remove_slot, remove_member, remove_all, retire, finish,
}

module _ (l : Logs) (x : Topics) where
  slot-Ends : (i : ℕ) (s : Mux l x) → Ends l x (slot l x i s)
  unfolding Returns Fewer
  slot-Ends i s = elim (slot_cases l x i s) [
    | inl (n, (v, e, h)) ↦ subst (Ends l x) (sym (slot-Returns l x i s v e)) tt
    | inr e ↦ subst (Ends l x) (sym e) tt
  ]

  drain-Ends :
      IsPatient l x
      → NeverWaits l x
      → (rounds i n : ℕ) (s : Mux l x) → n < rounds
      → Fewer l x i (suc n) tt s
      → Ends l x (drain l x rounds i s)
  unfolding drain Returns Fewer Rest
  drain-Ends p nw zero i n s le h = absurd (omega arith)
  drain-Ends p nw (suc rounds) i n s le h =
      Returns-bind l x (merge_one l x i) _ s (Rest l x i n) (λ _ _. Unit {0})
        (merge_one-Returns l x p nw i n s h)
        (λ more s' r. either n more s' le r (drain-Ends p nw rounds i))
    where
      either :
          (n : ℕ) (more : Bool) (s' : Mux l x)
          → n < suc rounds
          → Rest l x i n more s'
          → ((m : ℕ) (s : Mux l x)
              → m < rounds
              → Fewer l x i (suc m) tt s
              → Ends l x (drain l x rounds i s))
          → Ends l x ((if more then drain l x rounds i else give tt) s')
      either n false s' le r k = tt
      either zero true s' le r k = absurd (nothing_below l x i s' r)
      either (suc m) true s' le r k = k m s' (omega arith) r

  table_and_done :
      NeverWaits l x → (s : Mux l x) → Ends l x ((emit_slot_table l x >>= λ _. give true) s)
  unfolding Returns
  table_and_done nw s =
      Returns-bind l x (emit_slot_table l x) _ s (SlotsOf l x s) (λ _ _. Unit {0})
        (emit_slot_table-Returns l x nw s) (λ _ s' _. tt)

  remove_slot-Ends :
      IsPatient l x → NeverWaits l x → (pos : ℕ) (s : Mux l x) → Ends l x (remove_slot l x pos s)
  unfolding remove_slot Returns Fewer rounds_of emit_member_closed
  remove_slot-Ends p nw pos s = elim (slot_cases l x pos s) [
    | inl (n, (v, e, h)) ↦
        subst (Ends l x) (sym (bind_at l x (slot l x pos) _ s s v (slot-Returns l x pos s v e))) (
          Returns-bind l x (drain l x (rounds_of l x v) pos) _ s (λ _ _. Unit {0}) (λ _ _. Unit {0})
            (drain-Ends p nw (rounds_of l x v) pos
              (length (Logs.ahead l (ReplicationSource.reader v.source))) s
              (p.enough (ReplicationSource.reader v.source)) (v, e, omega arith))
            (λ _ s1 _.
              Returns-bind l x (slot l x pos) _ s1 (λ _ _. Unit {0}) (λ _ _. Unit {0})
                (slot-Ends pos s1)
                (λ d s2 _.
                  Returns-bind l x (emit_member_closed l x _) _ s2 (SlotsOf l x s2)
                    (λ _ _. Unit {0}) (commit_record-Returns l x nw _ _ s2)
                    (λ _ s3 _.
                      Returns-bind l x (modify _) _ s3 (λ _ _. Unit {0}) (λ _ _. Unit {0}) tt
                        (λ _ s4 _. table_and_done nw s4)))))
    | inr e ↦ failed_at l x (slot l x pos) _ s e
  ]

  remove_member-Ends :
      IsPatient l x
      → NeverWaits l x
      → (name : ChannelName) (epoch : ℕ) (s : Mux l x) → Ends l x (remove_member l x name epoch s)
  unfolding remove_member Returns
  remove_member-Ends p nw name epoch s = found (position l x name epoch s.slots)
    where
      found :
          (p : Option ℕ)
          → Ends l x (elim p as (λ _. Io Bool × Mux l x) [
            | none ↦ (done false, s)
            | some pos ↦ remove_slot l x pos s
          ])
      found none = tt
      found (some pos) = remove_slot-Ends p nw pos s

  remove_all-Ends :
      IsPatient l x
      → NeverWaits l x
      → (ss : List (Slot l x)) (s : Mux l x) → Ends l x (remove_all l x ss s)
  unfolding remove_all Returns
  remove_all-Ends p nw [] s = tt
  remove_all-Ends p nw (v ∷ ss) s =
      Returns-bind l x (remove_member l x v.name v.epoch) _ s (λ _ _. Unit {0}) (λ _ _. Unit {0})
        (remove_member-Ends p nw v.name v.epoch s) (λ _ s' _. remove_all-Ends p nw ss s')

  retire-Ends :
      IsPatient l x
      → NeverWaits l x
      → (ss : List (Slot l x)) (s : Mux l x) → Ends l x (retire l x ss s)
  unfolding retire Returns
  retire-Ends p nw ss s =
      Returns-bind l x (remove_all l x ss) _ s (λ _ _. Unit {0}) (λ _ _. Unit {0})
        (remove_all-Ends p nw ss s)
        (λ _ s1 _.
          Returns-bind l x (commit_record l x msg_type_terminal []) _ s1 (SlotsOf l x s1)
            (λ _ _. Unit {0}) (commit_record-Returns l x nw msg_type_terminal [] s1) (λ _ s2 _. tt))

  finish-Ends : IsPatient l x → NeverWaits l x → (s : Mux l x) → Ends l x (finish l x s)
  unfolding finish Returns
  finish-Ends p nw s = either s.finished
    where
      either : (b : Bool) → Ends l x (if b then (done tt, s) else retire l x s.slots s)
      either true = tt
      either false = retire-Ends p nw s.slots s

  not_blocked : {A : Type 0} (r : Io A × Mux l x) → Ends l x r → r.0 ≢ blocked
  unfolding Returns
  not_blocked (done a, s) h e = absurd cc
  not_blocked (failed q, s) h e = absurd cc
  not_blocked (blocked, s) h e = absurd h

  -- When nothing is appended to the members' logs meanwhile, a loop over a log is followed for
  -- more rounds than records are ahead in it, and the calls of the topic's writer return, a poll,
  -- the removal of a member and the retirement of the topic come to an answer.
  pub ends_lem :
      (s : Mux l x) (name : ChannelName) (epoch : ℕ)
      → IsPatient l x
      → NeverWaits l x
      → ((poll l x s).0 ≢ blocked)
        × ((remove_member l x name epoch s).0 ≢ blocked)
        × ((finish l x s).0 ≢ blocked)
  ends_lem s name epoch p nw = (
    not_blocked (poll l x s) (poll-Ends l x p nw s),
    not_blocked (remove_member l x name epoch s) (remove_member-Ends p nw name epoch s),
    not_blocked (finish l x s) (finish-Ends p nw s),
  )
