-- ===== src/Mux/Engine/Merge.antt =====
-- Merging: one record of one member, a batch of each, and a poll over all of them.
pub mod Respects
pub mod Bounds
pub mod Ends
pub mod Exact
pub mod Written
pub mod Read
use xchannel_net.Base.{
  ℕ, zero, suc, ◌+◌, Bool, true, false, ◌&&◌, ◌||◌, Option, none, some, List, [], ◌∷◌, Bytes,
  length, ltb, leb, if◌then◌else◌,
}
use xchannel_net.Wire.{RecordFrame}
use xchannel_net.Replication.{
  Io, done, failed, blocked, io_error, Logs, ReplicationSource, try_next_frame,
}
use xchannel_net.Mux.{TopicGeometry, Provenance, frame_data, is_control, slot_table_refresh}
use xchannel_net.Mux.Engine.{
  Topics, Act, ◌>>=◌, give, fail, wait, modify, Slot, Mux, commit_record, emit_slot_table,
  roll_if_full,
}

module _ (l : Logs) (x : Topics) where
  -- `self.slots[i]`, and an assignment to it.
  unfoldable pub slot_at : ℕ → List (Slot l x) → Option (Slot l x)
  slot_at i [] = none
  slot_at zero (s ∷ ss) = some s
  slot_at (suc i) (s ∷ ss) = slot_at i ss

  unfoldable pub update_at : ℕ → ((Slot l x) → (Slot l x)) → List (Slot l x) → List (Slot l x)
  update_at i f [] = []
  update_at zero f (s ∷ ss) = f s ∷ ss
  update_at (suc i) f (s ∷ ss) = s ∷ update_at i f ss

  unfoldable pub remove_at : ℕ → List (Slot l x) → List (Slot l x)
  remove_at i [] = []
  remove_at zero (s ∷ ss) = ss
  remove_at (suc i) (s ∷ ss) = s ∷ remove_at i ss

  unfoldable pub set_slot : ℕ → ((Slot l x) → (Slot l x)) → Act (Mux l x) (Unit {0})
  set_slot i f = modify (λ s. record s { slots = update_at i f s.slots })

  -- An index past the end panics; no caller passes one.
  unfoldable pub slot : ℕ → Act (Mux l x) (Slot l x)
  slot i s = elim (slot_at i s.slots) [ none ↦ (failed io_error, s) | some v ↦ (done v, s) ]

  -- A record that can never be merged: its type is reserved, or it is too long with its provenance.
  unfoldable pub reject : ℕ → RecordFrame → Act (Mux l x) (Unit {0})
  reject i f = set_slot i (λ s. record s { rejected = s.rejected + 1; cursor = f.index + 1 })

  unfoldable pub provenance : (Slot l x) → RecordFrame → Provenance
  provenance s f = record {
    member_ref = s.member_ref;
    member_index = f.index;
    orig_user_meta = f.user_meta;
  }

  -- The secondary bound on how old the last table may be.
  unfoldable pub refresh : Act (Mux l x) (Unit {0})
  refresh s =
      if leb slot_table_refresh s.since_slot_table then emit_slot_table l x s else (done tt, s)

  unfoldable pub write_data : ℕ → RecordFrame → Bytes → Act (Mux l x) Bool
  write_data i f payload = do
    _ ← roll_if_full l x
    _ ← commit_record l x f.msg_type payload
    _ ← set_slot i (λ s. record s { cursor = f.index + 1 })
    _ ← modify (λ s. record s { since_slot_table = s.since_slot_table + 1 })
    _ ← refresh
    give true

  unfoldable pub too_long : TopicGeometry → Bytes → Bool
  too_long g payload = ltb 0 g.mtu && ltb g.mtu (length payload)

  -- What becomes of a record that was read; `again` is the loop's next round.
  unfoldable pub merge_payload :
      ℕ → RecordFrame → Act (Mux l x) Bool → TopicGeometry → Bytes → Act (Mux l x) Bool
  merge_payload i f again g payload =
      if is_control f.msg_type || too_long g payload
      then (reject i f >>= λ _. again)
      else write_data i f payload

  unfoldable pub merge_frame : ℕ → RecordFrame → Act (Mux l x) Bool → Act (Mux l x) Bool
  merge_frame i f again = do
    s ← slot i
    g ← λ m. (done m.geometry, m)
    merge_payload i f again g (frame_data (provenance s f) f.payload)

  -- `try_next_frame` on slot `i`: the source has moved on whatever becomes of the record.
  unfoldable pub next_of :
      ℕ → Io (Option RecordFrame × ReplicationSource l) → Act (Mux l x) (Option RecordFrame)
  next_of i (done (f, source)) = set_slot i (λ s. record s { source = source }) >>= λ _. give f
  next_of i (failed q) = fail q
  next_of i blocked = wait

  unfoldable pub merge_next : ℕ → Act (Mux l x) Bool → Option RecordFrame → Act (Mux l x) Bool
  merge_next i again none = give false
  merge_next i again (some f) = merge_frame i f again

  -- The loop of `merge_one`, which no bound is set to, followed for a number of rounds.
  unfoldable pub merge_loop : ℕ → ℕ → Act (Mux l x) Bool
  merge_loop zero i = wait
  merge_loop (suc rounds) i = do
    s ← slot i
    next ← next_of i (try_next_frame l s.source)
    merge_next i (merge_loop rounds i) next

  -- The rounds for which a loop over this member's log is followed.
  unfoldable pub rounds_of : (Slot l x) → ℕ
  rounds_of s = Logs.patience l (ReplicationSource.reader s.source)

  unfoldable pub merge_one : ℕ → Act (Mux l x) Bool
  merge_one i = do s ← slot i; merge_loop (rounds_of s) i

  -- `max_batch` calls for one member, ended by the first that finds nothing; the count so far.
  unfoldable pub merge_batch : (calls i : ℕ) → ℕ → Act (Mux l x) ℕ
  merge_batch zero i merged = give merged
  merge_batch (suc calls) i merged = do
    more ← merge_one i
    if more then merge_batch calls i (merged + 1) else give merged

  -- The members from index `i` on, `n` of them.
  unfoldable pub merge_members : (batch n i : ℕ) → ℕ → Act (Mux l x) ℕ
  merge_members batch zero i merged = give merged
  merge_members batch (suc n) i merged = do
    merged' ← merge_batch batch i merged
    merge_members batch n (i + 1) merged'

  unfoldable pub poll : Act (Mux l x) ℕ
  poll s =
      if s.finished
      then (done 0, s)
      else merge_members s.max_batch_per_member (length s.slots) 0 0 s
