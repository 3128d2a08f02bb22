-- ===== src/Mux/Engine/Members.antt =====
-- Members: attached where they left off, drained when they leave, and the topic's end.
pub mod Retire
pub mod Ends
use mathlib.Core.List.{map}
use xchannel_net.Base.{
  ℕ, zero, suc, ◌+◌, Bool, true, false, ◌&&◌, Option, none, some, List, [], ◌∷◌, ◌++◌, Bytes,
  bytes_eq, ◌==◌, ltb, if◌then◌else◌,
}
use xchannel_net.Identity.{ChannelName}
use xchannel_net.Replication.{
  done, failed, retired, refs_exhausted, Logs, open_source, skip_to, head,
}
use xchannel_net.Mux.{msg_type_terminal}
use xchannel_net.Mux.Recover.{cursor_of}
use xchannel_net.Mux.Engine.{
  Topics, Act, ◌>>=◌, give, wait, try_io, modify, Slot, Mux, commit_record, emit_slot_table,
  emit_topic_gap, emit_member_regressed, emit_member_closed,
}
use xchannel_net.Mux.Engine.Merge.{slot, remove_at, rounds_of, merge_one}

-- What `add_member` records of a discontinuity.
pub data Mark : Type 0 where
  unbroken : Mark
  gap regressed : ℕ → ℕ → Mark

unfoldable pub wanted : Option ℕ → ℕ
wanted none = 0
wanted (some highest) = highest + 1

-- Where to resume, and the mark.
unfoldable pub resume_at : (want earliest last : ℕ) → ℕ × Mark
resume_at want earliest last =
    if ltb want earliest
    then (earliest, gap want earliest)
    else if ltb last want
    then (last, regressed want last)
    else (want, unbroken)

module _ (l : Logs) (x : Topics) where
  -- The index of the first slot with this name and epoch.
  unfoldable pub position : ChannelName → ℕ → List (Slot l x) → Option ℕ
  position name epoch [] = none
  position name epoch (s ∷ ss) =
      if bytes_eq s.name name && (s.epoch == epoch)
      then some 0
      else elim (position name epoch ss) [ none ↦ none | some i ↦ some (suc i) ]

  unfoldable pub has_member : ChannelName → ℕ → (Mux l x) → Bool
  has_member name epoch m = elim (position name epoch m.slots) [ none ↦ false | some i ↦ true ]

  unfoldable pub members : (Mux l x) → List (ChannelName × ℕ × ℕ)
  members m = map (λ (s : (Slot l x)). (s.name, s.epoch, s.cursor)) m.slots

  -- `while self.merge_one(pos)? {}`, which no bound is set to, followed for a number of rounds.
  unfoldable pub drain : ℕ → ℕ → Act (Mux l x) (Unit {0})
  drain zero i = wait
  drain (suc rounds) i = do more ← merge_one l x i; if more then drain rounds i else give tt

  unfoldable pub remove_slot : ℕ → Act (Mux l x) Bool
  remove_slot pos = do
    s ← slot l x pos
    _ ← drain (rounds_of l x s) pos
    drained ← slot l x pos
    _ ←
        emit_member_closed l x
          (record { member_ref = drained.member_ref; final_index = drained.cursor })
    _ ← modify (λ m. record m { slots = remove_at l x pos m.slots })
    _ ← emit_slot_table l x
    give true

  unfoldable pub remove_member : ChannelName → ℕ → Act (Mux l x) Bool
  remove_member name epoch s = elim (position name epoch s.slots) [
    | none ↦ (done false, s)
    | some pos ↦ remove_slot pos s
  ]

  unfoldable pub remove_all : List (Slot l x) → Act (Mux l x) (Unit {0})
  remove_all [] = give tt
  remove_all (s ∷ ss) = do _ ← remove_member s.name s.epoch; remove_all ss

  -- Every member drained and closed, then the terminal marker.
  unfoldable pub retire : List (Slot l x) → Act (Mux l x) (Unit {0})
  retire ss = do
    _ ← remove_all ss
    _ ← commit_record l x msg_type_terminal []
    modify (λ m. record m { finished = true })

  unfoldable pub finish : Act (Mux l x) (Unit {0})
  finish s = if s.finished then (done tt, s) else retire s.slots s

  unfoldable pub emit_mark : ℕ → Mark → Act (Mux l x) (Unit {0})
  emit_mark member_ref unbroken = give tt
  emit_mark member_ref (gap from resumed_at) =
      emit_topic_gap l x (record { member_ref = member_ref; from = from; resumed_at = resumed_at })
  emit_mark member_ref (regressed expected last) =
      emit_member_regressed l x
        (record { member_ref = member_ref; expected = expected; head = last })

  -- `self.next_ref.checked_add(1)` on 16 bits.
  unfoldable pub take_ref : Act (Mux l x) ℕ
  take_ref s =
      if ltb (s.next_ref + 1) 65536
      then (done s.next_ref, record s { next_ref = s.next_ref + 1 })
      else (failed refs_exhausted, s)

  unfoldable pub attach : ChannelName → ℕ → Bytes → Act (Mux l x) (Unit {0})
  attach name epoch path = do
    member_ref ← take_ref
    (source, earliest) ← try_io (open_source l path)
    last ← try_io (head l source)
    recovered ← λ s. (done (cursor_of (record { name = name; epoch = epoch }) s.recovered), s)
    (start, mark) ← give (resume_at (wanted recovered) earliest last)
    ready ← try_io (skip_to l start source)
    _ ← modify (λ s. record s {
      slots =
          s.slots
          ++ record {
            member_ref = member_ref;
            name = name;
            epoch = epoch;
            source = ready;
            cursor = start;
            rejected = 0;
          }
            ∷ [];
    })
    _ ← emit_slot_table l x
    emit_mark member_ref mark

  unfoldable pub add_member : ChannelName → ℕ → Bytes → Act (Mux l x) (Unit {0})
  add_member name epoch path s =
      if s.finished
      then (failed retired, s)
      else if has_member name epoch s
      then (done tt, s)
      else attach name epoch path s
