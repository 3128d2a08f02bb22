-- ===== src/Mux/Engine/Merge/Written.antt =====
-- What `write_data` leaves when it succeeds, and which records get as far as that.
use mathlib.Core.List.{map, append_assoc}
use xchannel_net.Base.{
  ℕ, zero, suc, ◌+◌, ◌≡◌, refl, sym, ap, ◌∙◌, subst, Bool, true, false, ◌||◌, Option, none, some,
  List, [], ◌∷◌, ◌++◌, Bytes, length, leb, if◌then◌else◌, arith,
}
use xchannel_net.Wire.{RecordFrame}
use xchannel_net.Replication.{Io, done, failed, blocked, Message, Item, Logs, ReplicationSource}
use xchannel_net.Mux.{
  TopicGeometry, Provenance, to_prefix, frame_data, msg_type_slot_table, is_control,
  slot_table_refresh,
}
use xchannel_net.Mux.Table.{SlotEntry, encode_slot_table}
use xchannel_net.Codec.{le_bytes}
use xchannel_net.Mux.Engine.{Topics, emit_slot_table, Slot, Mux}
use xchannel_net.Mux.Engine.Writes.{
  bind_done, no_growth, written, table_of, opening, Grows, join_growth, commit_record-Grows,
  emit_slot_table-Grows, roll_if_full-Grows,
}
use xchannel_net.Mux.Engine.Merge.{slot_at, update_at, set_slot, refresh, write_data, too_long}
use xchannel_net.Mux.Engine.Merge.Exact.{IsRefused, closing, since_table}

module _ (l : Logs) (x : Topics) where
  pub update_twice :
      (i : ℕ) (f g : Slot l x → Slot l x) (ss : List (Slot l x)) (v : Slot l x)
      → slot_at l x i ss ≡ some v
      → update_at l x i g (update_at l x i f ss) ≡ update_at l x i (λ _. g (f v)) ss
  unfolding slot_at update_at
  update_twice i f g [] v e = refl
  update_twice zero f g (s ∷ ss) v e = cc
  update_twice (suc i) f g (s ∷ ss) v e = ap (◌∷◌ s) (update_twice i f g ss v e)

  pub update_same :
      (i : ℕ) (ss : List (Slot l x)) (v : Slot l x)
      → slot_at l x i ss ≡ some v
      → update_at l x i (λ s. record s { source = v.source }) ss ≡ ss
  unfolding slot_at update_at
  update_same i [] v e = refl
  update_same zero (s ∷ ss) v e =
      ap (λ (o : Option (Slot l x)). record s { source = or_source s o } ∷ ss) (sym e)
    where
      or_source : Slot l x → Option (Slot l x) → ReplicationSource l
      or_source s none = s.source
      or_source s (some v) = v.source
  update_same (suc i) (s ∷ ss) v e = ap (◌∷◌ s) (update_same i ss v e)

  pub table-update :
      (i : ℕ) (r : ReplicationSource l) (g : TopicGeometry) (ss : List (Slot l x))
      → table_of l x g (update_at l x i (λ s. record s { source = r }) ss) ≡ table_of l x g ss
  unfolding update_at
  table-update i r g ss =
      ap (λ es. written l x msg_type_slot_table (encode_slot_table g es)) (same i ss)
    where
      entry_at : Slot l x → SlotEntry
      entry_at v = record {
        member_ref = v.member_ref;
        name = v.name;
        epoch = v.epoch;
        cursor = v.cursor;
      }

      same :
          (i : ℕ) (ss : List (Slot l x))
          → map entry_at (update_at l x i (λ s. record s { source = r }) ss) ≡ map entry_at ss
      same i [] = refl
      same zero (s ∷ ss) = refl
      same (suc i) (s ∷ ss) = ap (◌∷◌ (entry_at s)) (same i ss)

  length-frame_data :
      (p : Provenance) (body : Bytes) → length (frame_data p body) ≡ 18 + length body
  unfolding frame_data to_prefix le_bytes
  length-frame_data p body = omega arith

  pub cannot_take :
      (g : TopicGeometry) (p : Provenance) (m : Message)
      → (is_control m.message_type || too_long l x g (frame_data p m.payload)) ≡ true
      → IsRefused g m
  unfolding is_control too_long
  cannot_take g p m e = ground (arith, length-frame_data p m.payload)

  pub can_take :
      (g : TopicGeometry) (p : Provenance) (m : Message)
      → (is_control m.message_type || too_long l x g (frame_data p m.payload)) ≡ false
      → ¬ IsRefused g m
  unfolding is_control too_long
  can_take g p m e r = ground (arith, length-frame_data p m.payload)

  refresh-Grows :
      (s s' : Mux l x)
      → refresh l x s ≡ (done tt, s')
      → Grows l x (closing l x s.since_slot_table s.geometry s.slots) s s'
  unfolding refresh
  refresh-Grows s s' e = due (leb slot_table_refresh s.since_slot_table) e
    where
      due :
          (b : Bool)
          → (if b then emit_slot_table l x s else (done tt, s)) ≡ (done tt, s')
          → Grows l x (if b then table_of l x s.geometry s.slots ∷ [] else []) s s'
      due true e = (emit_slot_table-Grows l x s s' e).0
      due false e = no_growth l x s s' (ap (λ (r : Io (Unit {0}) × Mux l x). r.1) e)

  -- The answer of a write, and what it leaves.
  abbrev Wrote : ℕ → RecordFrame → Bytes → Mux l x → Bool → Mux l x → Type 0
  Wrote i f p s b s' =
      (b ≡ true)
      × (s'.slots ≡ update_at l x i (λ v. record v { cursor = f.index + 1 }) s.slots)
      × (s'.geometry ≡ s.geometry)
      × (Topics.content x s'.topic
          ≡ Topics.content x s.topic
            ++ (opening l x s s.slots
                ++ written l x f.msg_type p ∷ closing l x (since_table l x s) s.geometry s'.slots))

  told :
      (i : ℕ) (f : RecordFrame) (p : Bytes) (s s2 s5 : Mux l x) (b : Bool)
      → done b ≡ done true
      → Grows l x (opening l x s s.slots ++ written l x f.msg_type p ∷ []) s s2
      → s2.since_slot_table + 1 ≡ since_table l x s
      → Grows l x
          (closing l x
            (s2.since_slot_table + 1)
            s2.geometry
            (update_at l x i (λ v. record v { cursor = f.index + 1 }) s2.slots))
          (record s2 {
            slots = update_at l x i (λ v. record v { cursor = f.index + 1 }) s2.slots;
            since_slot_table = s2.since_slot_table + 1;
          })
          s5
      → Wrote i f p s b s5
  told i f p s s2 s5 b e both since h = (
    ap answer e,
    slots,
    h.same_geometry ∙ both.same_geometry,
    h.topic_grows
        ∙ ap (λ (zs : List Item). zs ++ late) both.topic_grows
        ∙ append_assoc (Topics.content x s.topic) (first ++ datum ∷ []) late
        ∙ ap (◌++◌ (Topics.content x s.topic)) (
            append_assoc first (datum ∷ []) late
            ∙ ap (λ (zs : List Item). first ++ datum ∷ zs) closed),
  )
    where
      answer : Io Bool → Bool
      answer (done b) = b
      answer (failed q) = false
      answer blocked = false

      first : List Item
      first = opening l x s s.slots

      datum : Item
      datum = written l x f.msg_type p

      late : List Item
      late =
          closing l x (s2.since_slot_table + 1) s2.geometry
            (update_at l x i (λ v. record v { cursor = f.index + 1 }) s2.slots)

      slots : s5.slots ≡ update_at l x i (λ v. record v { cursor = f.index + 1 }) s.slots
      slots =
          h.same_slots
          ∙ ap (update_at l x i (λ (v : Slot l x). record v { cursor = f.index + 1 }))
              both.same_slots

      closed : late ≡ closing l x (since_table l x s) s.geometry s5.slots
      closed = rw (since, both.same_geometry, slots, both.same_slots) refl

  pub write_data_lem :
      (i : ℕ) (f : RecordFrame) (p : Bytes) (s s' : Mux l x) (b : Bool)
      → write_data l x i f p s ≡ (done b, s')
      → Wrote i f p s b s'
  unfolding write_data set_slot
  write_data_lem i f p s s' b e =
      let (_, s1, e1, r1) = bind_done l x _ _ s s' b e in
      let (_, s2, e2, r2) = bind_done l x _ _ s1 s' b r1 in
      let (_, s3, e3, r3) = bind_done l x _ _ s2 s' b r2 in
      let (_, s4, e4, r4) = bind_done l x _ _ s3 s' b r3 in
      let (_, s5, e5, r5) = bind_done l x _ _ s4 s' b r4 in
      let (opened, z1) = roll_if_full-Grows l x s s1 e1 in
      let (put, z2) = commit_record-Grows l x f.msg_type p s1 s2 e2 in
      let vs = update_at l x i (λ (v : Slot l x). record v { cursor = f.index + 1 }) s2.slots in
      let t : Mux l x = record s2 { slots = vs; since_slot_table = s2.since_slot_table + 1 } in
      let q : t ≡ s4 =
        ap
          (λ (r : Io (Unit {0}) × Mux l x). record (r.1) {
            since_slot_table = r.1.since_slot_table + 1;
          })
          e3
        ∙ ap (λ (r : Io (Unit {0}) × Mux l x). r.1) e4 in
      let h = refresh-Grows t s5 (subst (λ z. refresh l x z ≡ (done tt, s5)) (sym q) e5) in
      let both = join_growth l x _ _ s s1 s2 opened put in
      let last : s5 ≡ s' = ap (λ (r : Io Bool × Mux l x). r.1) r5 in
      subst (Wrote i f p s b) last (
        told i f p s s2 s5 b (sym (ap (λ (r : Io Bool × Mux l x). r.0) r5)) both
          (ap (λ n. n + 1) (z2 ∙ z1)) h)
