-- ===== src/Mux/Engine/Merge/Respects.antt =====
-- What a merge respects.
use mathlib.Core.List.{map}
use xchannel_net.Base.{
  ℕ, zero, suc, ◌+◌, ◌≡◌, refl, ap, Bool, true, false, ◌||◌, leb, Option, none, some, List, [], ◌∷◌,
  Bytes, length, if◌then◌else◌, arith,
}
use xchannel_net.Wire.{RecordFrame}
use xchannel_net.Replication.{Io, done, failed, blocked, io_error, Logs, ReplicationSource}
use xchannel_net.Mux.{Provenance, frame_data, is_control, slot_table_refresh}
use xchannel_net.Mux.Recover.{Member}
use xchannel_net.Mux.Engine.{Topics, Act, Slot, Mux, give, emit_slot_table}
use xchannel_net.Mux.Engine.Respects.{
  IsKept, keys, Respects, Respects-bind, Respects-still, Respects-at, Respects-if,
  Respects-commit_record, Respects-emit_slot_table, Respects-roll_if_full,
}
use xchannel_net.Mux.Engine.Merge.{
  slot_at, update_at, set_slot, slot, provenance, reject, refresh, write_data, too_long,
  merge_payload, merge_frame, next_of, merge_next, merge_loop, merge_one, merge_batch,
  merge_members, poll, rounds_of,
}

module _ (l : Logs) (x : Topics) (R : Mux l x → Mux l x → Type 0) (k : IsKept l x R) where
  pub Respects-slot : (i : ℕ) → Respects l x R k (slot l x i)
  unfolding slot
  Respects-slot i = Respects-still l x R k (λ s. found s (slot_at l x i s.slots))
    where
      answer : Mux l x → Option (Slot l x) → Io (Slot l x) × Mux l x
      answer s v = elim v as (λ _. Io (Slot l x) × Mux l x) [
        | none ↦ (failed io_error, s)
        | some v ↦ (done v, s)
      ]

      found : (s : Mux l x) (v : Option (Slot l x)) → keys l x (answer s v).1 ≡ keys l x s
      found s none = refl
      found s (some v) = refl

  -- A change of a slot that leaves its name and its epoch.
  Respects-set_slot :
      (i : ℕ) (f : Slot l x → Slot l x)
      → ((v : Slot l x) → ((f v).name ≡ v.name) × ((f v).epoch ≡ v.epoch))
      → Respects l x R k (set_slot l x i f)
  unfolding set_slot keys update_at
  Respects-set_slot i f e = Respects-still l x R k (λ s. same i s.slots)
    where
      key : Slot l x → Member
      key v = record { name = v.name; epoch = v.epoch }

      same : (i : ℕ) (ss : List (Slot l x)) → map key (update_at l x i f ss) ≡ map key ss
      same i [] = refl
      same zero (v ∷ ss) = let q = e v in rw (q.0, q.1) refl
      same (suc i) (v ∷ ss) = ap (◌∷◌ (key v)) (same i ss)

  Respects-refresh : Respects l x R k (refresh l x)
  unfolding refresh
  Respects-refresh = Respects-at l x R k (λ s. (
    if leb slot_table_refresh s.since_slot_table then emit_slot_table l x else give tt,
    Respects-if l x R k (leb slot_table_refresh s.since_slot_table)
        (λ _. Respects-emit_slot_table l x R k) (λ _. Respects-still l x R k (λ s. refl)),
    either (leb slot_table_refresh s.since_slot_table) s,
  ))
    where
      either :
          (b : Bool) (s : Mux l x)
          → (if b then emit_slot_table l x s else (done tt, s))
            ≡ (if b then emit_slot_table l x else give tt) s
      either true s = refl
      either false s = refl

  Respects-write_data :
      (i : ℕ) (f : RecordFrame) (p : Provenance) (body : Bytes)
      → is_control f.msg_type ≡ false
      → Respects l x R k (write_data l x i f (frame_data p body))
  unfolding write_data keys
  Respects-write_data i f p body e = Respects-bind l x R k (Respects-roll_if_full l x R k) (λ _.
      Respects-bind l x R k (Respects-commit_record l x R k _ _) (λ _.
        Respects-bind l x R k (Respects-set_slot i _ (λ v. (refl, refl))) (λ _.
          Respects-bind l x R k (Respects-still l x R k (λ s. refl)) (λ _.
            Respects-bind l x R k Respects-refresh (λ _. Respects-still l x R k (λ s. refl))))))

  Respects-reject : (i : ℕ) (f : RecordFrame) → Respects l x R k (reject l x i f)
  unfolding reject
  Respects-reject i f = Respects-set_slot i _ (λ v. (refl, refl))

  not_control : (a b : Bool) → (a || b) ≡ false → a ≡ false
  not_control a b e = ground arith

  Respects-merge_frame :
      (i : ℕ) (f : RecordFrame) (again : Act (Mux l x) Bool)
      → Respects l x R k again
      → Respects l x R k (merge_frame l x i f again)
  unfolding merge_frame merge_payload
  Respects-merge_frame i f again h = Respects-bind l x R k (Respects-slot i) (λ s.
      Respects-bind l x R k (Respects-still l x R k (λ s. refl)) (λ g.
        Respects-if l x R k
          (is_control f.msg_type || too_long l x g (frame_data (provenance l x s f) f.payload))
          (λ _. Respects-bind l x R k (Respects-reject i f) (λ _. h))
          (λ e. Respects-write_data i f (provenance l x s f) f.payload (
            not_control (is_control f.msg_type)
              (too_long l x g (frame_data (provenance l x s f) f.payload)) e))))

  Respects-next_of :
      (i : ℕ) (r : Io (Option RecordFrame × ReplicationSource l))
      → Respects l x R k (next_of l x i r)
  unfolding next_of
  Respects-next_of i (done (f, source)) =
      Respects-bind l x R k (Respects-set_slot i _ (λ v. (refl, refl)))
        (λ _. Respects-still l x R k (λ s. refl))
  Respects-next_of i (failed q) = Respects-still l x R k (λ s. refl)
  Respects-next_of i blocked = Respects-still l x R k (λ s. refl)

  Respects-merge_next :
      (i : ℕ) (again : Act (Mux l x) Bool) (next : Option RecordFrame)
      → Respects l x R k again
      → Respects l x R k (merge_next l x i again next)
  unfolding merge_next
  Respects-merge_next i again none h = Respects-still l x R k (λ s. refl)
  Respects-merge_next i again (some f) h = Respects-merge_frame i f again h

  Respects-merge_loop : (rounds i : ℕ) → Respects l x R k (merge_loop l x rounds i)
  unfolding merge_loop
  Respects-merge_loop zero i = Respects-still l x R k (λ s. refl)
  Respects-merge_loop (suc rounds) i = Respects-bind l x R k (Respects-slot i) (λ s.
      Respects-bind l x R k (Respects-next_of i _)
        (λ next. Respects-merge_next i _ next (Respects-merge_loop rounds i)))

  pub Respects-merge_one : (i : ℕ) → Respects l x R k (merge_one l x i)
  unfolding merge_one
  Respects-merge_one i =
      Respects-bind l x R k (Respects-slot i) (λ s. Respects-merge_loop (rounds_of l x s) i)

  Respects-merge_batch : (calls i merged : ℕ) → Respects l x R k (merge_batch l x calls i merged)
  unfolding merge_batch
  Respects-merge_batch zero i merged = Respects-still l x R k (λ s. refl)
  Respects-merge_batch (suc calls) i merged = Respects-bind l x R k (Respects-merge_one i) (λ more.
      Respects-if l x R k more (λ _. Respects-merge_batch calls i (merged + 1))
        (λ _. Respects-still l x R k (λ s. refl)))

  Respects-merge_members :
      (batch n i merged : ℕ) → Respects l x R k (merge_members l x batch n i merged)
  unfolding merge_members
  Respects-merge_members batch zero i merged = Respects-still l x R k (λ s. refl)
  Respects-merge_members batch (suc n) i merged =
      Respects-bind l x R k (Respects-merge_batch batch i merged)
        (λ merged'. Respects-merge_members batch n (i + 1) merged')

  pub Respects-poll : Respects l x R k (poll l x)
  unfolding poll
  Respects-poll = Respects-at l x R k (λ s. (
    if s.finished then give 0 else merge_members l x s.max_batch_per_member (length s.slots) 0 0,
    Respects-if l x R k s.finished (λ _. Respects-still l x R k (λ s. refl))
        (λ _. Respects-merge_members s.max_batch_per_member (length s.slots) 0 0),
    either s.finished s,
  ))
    where
      either :
          (b : Bool) (s : Mux l x)
          → (if b
              then (done 0, s)
              else merge_members l x s.max_batch_per_member (length s.slots) 0 0 s)
            ≡ (if b then give 0 else merge_members l x s.max_batch_per_member (length s.slots) 0 0)
                s
      either true s = refl
      either false s = refl
