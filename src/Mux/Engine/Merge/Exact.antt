-- ===== src/Mux/Engine/Merge/Exact.antt =====
-- What `merge_one` does, told without its loop: from the records ahead of the member and from what the
-- topic holds.
use xchannel_net.Base.{
  ℕ, ◌+◌, ◌≤◌, ◌<◌, ◌≡◌, ◌⊎◌, Bool, true, false, ◌&&◌, List, [], ◌∷◌, ◌++◌, length, ltb, leb,
  if◌then◌else◌,
}
use xchannel_net.Replication.{Message, Item, Logs, Entry, ReplicationSource}
use xchannel_net.Mux.{TopicGeometry, frame_data, reserved_msg_type_min, slot_table_refresh}
use xchannel_net.Mux.Engine.{Topics, Slot, Mux}
use xchannel_net.Mux.Engine.Writes.{written, table_of, opening}
use xchannel_net.Mux.Engine.Merge.{update_at}

-- A record that a topic of this geometry never takes: of a reserved type, or too long behind the 18
-- bytes of its provenance.
abbrev pub IsRefused : TopicGeometry → Message → Type 0
IsRefused g m =
    (reserved_msg_type_min ≤ m.message_type) ⊎ ((0 < g.mtu) × (g.mtu < 18 + length m.payload))

module _ (l : Logs) (x : Topics) where
  -- The member's source past the next record.
  abbrev pub moved : Slot l x → ReplicationSource l
  moved v = record {
    reader = Logs.advance l (ReplicationSource.reader v.source);
    next_index = v.source.next_index + 1;
  }

  -- The member after its next record was refused, and after it was merged.
  abbrev pub counted : Slot l x → Slot l x
  counted v = record v {
    source = moved v;
    cursor = v.source.next_index + 1;
    rejected = v.rejected + 1;
  }

  abbrev pub consumed : Slot l x → Slot l x
  consumed v = record v { source = moved v; cursor = v.source.next_index + 1 }

  -- The member's record as the topic holds it.
  abbrev pub data_of : Slot l x → Message → Item
  data_of v m = written l x m.message_type (
      frame_data
        (record {
          member_ref = v.member_ref;
          member_index = v.source.next_index;
          orig_user_meta = m.user_meta;
        })
        m.payload)

  -- The tables of a long time without one, when this is how many records came since the last.
  abbrev pub closing : ℕ → TopicGeometry → List (Slot l x) → List Item
  closing since g vs = if leb slot_table_refresh since then table_of l x g vs ∷ [] else []

  -- How many records came since the last table, with this one.
  abbrev pub since_table : Mux l x → ℕ
  since_table s =
      (if ltb 0 s.geometry.file_roll_size && leb s.geometry.file_roll_size s.bytes_in_segment
        then 0
        else s.since_slot_table)
      + 1

  -- `Merges i v s b s'`: from the state `s`, in which `v` is the member at index `i`, one merge
  -- answers `b` in the state `s'`.
  pub data Merges (i : ℕ) : Slot l x → Mux l x → Bool → Mux l x → Type 0 where
    -- Nothing is ahead, and nothing changes.
    caught_up :
        (v : Slot l x) (s : Mux l x)
        → Logs.ahead l (ReplicationSource.reader v.source) ≡ []
        → Merges i v s false s
    -- The next record is refused and counted, and the merge goes on behind it.
    passed_over :
        (v : Slot l x) (s s' : Mux l x) (b : Bool) (e : Entry) (es : List Entry)
        → Logs.ahead l (ReplicationSource.reader v.source) ≡ e ∷ es
        → IsRefused s.geometry e.1
        → Merges i (counted v) (record s { slots = update_at l x i (λ _. counted v) s.slots }) b s'
        → Merges i v s b s'
    -- The next record is added to the topic, behind a new segment with its table when the current
    -- one is full, and before a table when it is time for one.
    merged :
        (v : Slot l x) (s s' : Mux l x) (e : Entry) (es : List Entry)
        → Logs.ahead l (ReplicationSource.reader v.source) ≡ e ∷ es
        → ¬ IsRefused s.geometry e.1
        → Topics.content x s'.topic
          ≡ Topics.content x s.topic
            ++ (opening l x s s.slots
                ++ data_of v e.1 ∷ closing (since_table s) s.geometry s'.slots)
        → s'.slots ≡ update_at l x i (λ _. consumed v) s.slots
        → s'.geometry ≡ s.geometry
        → Merges i v s true s'
