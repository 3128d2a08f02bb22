-- ===== src/Mux/Engine/Merge/Read.antt =====
-- What a merge reads, and what becomes of it: `merge_one` against the relation `Merges`.
use xchannel_net.Base.{
  ℕ, zero, suc, ◌≡◌, refl, sym, ap, ◌∙◌, subst, Bool, true, false, not, ◌==◌, ◌&&◌, ◌||◌, none,
  some, List, [], ◌∷◌, ◌++◌, ltb, leb, if◌then◌else◌,
}
use xchannel_net.Wire.{RecordFrame}
use xchannel_net.Replication.{
  Io, done, failed, blocked, Item, roll, Logs, Entry, ReplicationSource, try_next_frame,
}
use xchannel_net.Replication.Source.{try_next_frame-cons, try_next_frame-nil}
use xchannel_net.Mux.{Provenance, frame_data, is_control}
use xchannel_net.Mux.Engine.{Topics, Act, ◌>>=◌, continue, Slot, Mux}
use xchannel_net.Mux.Engine.Merge.{
  slot_at, update_at, set_slot, slot, reject, provenance, write_data, too_long, merge_payload,
  merge_frame, next_of, merge_next, merge_loop, rounds_of, merge_one,
}
use xchannel_net.Mux.Engine.Merge.Ends.{slot_at-update, slot-Returns, bind_at}
use xchannel_net.Mux.Engine.Merge.Exact.{
  moved, counted, data_of, closing, since_table, Merges, caught_up, passed_over, merged,
}
use xchannel_net.Mux.Engine.Merge.Written.{
  update_twice, update_same, table-update, cannot_take, can_take, write_data_lem,
}

module _ (l : Logs) (x : Topics) where
  read_none :
      (i : ℕ) (v : Slot l x) (s s' : Mux l x) (b : Bool) (again : Act (Mux l x) Bool)
      → slot_at l x i s.slots ≡ some v
      → Logs.ahead l (ReplicationSource.reader v.source) ≡ []
      → (next_of l x i (done (none, v.source)) >>= λ next. merge_next l x i again next) s
        ≡ (done b, s')
      → Merges l x i v s b s'
  unfolding next_of merge_next set_slot ◌>>=◌ continue
  read_none i v s s' b again h a e =
      subst (λ (r : Io Bool × Mux l x). Merges l x i v s (answer r.0) r.1) still (caught_up v s a)
    where
      answer : Io Bool → Bool
      answer (done b) = b
      answer (failed q) = false
      answer blocked = false

      quiet : List (Slot l x) → Io Bool × Mux l x
      quiet vs = (done false, record s { slots = vs })

      still : quiet s.slots ≡ (done b, s')
      still = ap quiet (sym (update_same l x i s.slots v h)) ∙ e

  -- The frame that the member's source makes of a message.
  abbrev frame : Slot l x → Entry → RecordFrame
  frame v e = record {
    index = v.source.next_index;
    msg_type = e.1.message_type;
    user_meta = e.1.user_meta;
    starts_segment = not (e.0 == Logs.file_sequence l (ReplicationSource.reader v.source));
    payload = e.1.payload;
  }

  frame_lem :
      (i : ℕ) (v : Slot l x) (s s' : Mux l x) (b : Bool) (again : Act (Mux l x) Bool) (e : Entry)
      (es : List Entry)
      → slot_at l x i s.slots ≡ some v
      → Logs.ahead l (ReplicationSource.reader v.source) ≡ e ∷ es
      → ((w : Slot l x) (t : Mux l x)
          → slot_at l x i t.slots ≡ some w
          → again t ≡ (done b, s')
          → Merges l x i w t b s')
      → merge_payload l x i
          (frame v e)
          again
          s.geometry
          (frame_data (provenance l x (record v { source = moved l x v }) (frame v e)) e.1.payload)
          (record s { slots = update_at l x i (λ w. record w { source = moved l x v }) s.slots })
        ≡ (done b, s')
      → Merges l x i v s b s'
  unfolding merge_payload provenance reject set_slot ◌>>=◌ continue
  frame_lem i v s s' b again e es h a k q =
      judged (is_control e.1.message_type || too_long l x s.geometry (frame_data prov e.1.payload))
        refl q
    where
      prov : Provenance
      prov = record {
        member_ref = v.member_ref;
        member_index = v.source.next_index;
        orig_user_meta = e.1.user_meta;
      }

      read : Mux l x
      read = record s { slots = update_at l x i (λ w. record w { source = moved l x v }) s.slots }

      judged :
          (r : Bool)
          → (is_control e.1.message_type || too_long l x s.geometry (frame_data prov e.1.payload))
            ≡ r
          → (if r
                then (reject l x i (frame v e) >>= λ _. again)
                else write_data l x i (frame v e) (frame_data prov e.1.payload))
              read
            ≡ (done b, s')
          → Merges l x i v s b s'
      judged true c q = passed_over v s s' b e es a (cannot_take l x s.geometry prov e.1 c) (
          k (counted l x v) (record s { slots = update_at l x i (λ _. counted l x v) s.slots })
            (slot_at-update l x i (λ _. counted l x v) s.slots v h)
            (subst (λ vs. again (record s { slots = vs }) ≡ (done b, s'))
              (update_twice l x i _ _ s.slots v h) q))
      judged false c q =
          let (answered, slots, geometry, content) =
            write_data_lem l x i (frame v e) (frame_data prov e.1.payload) read s' b q in
          subst (λ z. Merges l x i v s z s') (sym answered)
            (merged v s s' e es a (can_take l x s.geometry prov e.1 c)
              (content
                ∙ ap
                    (λ vs.
                      Topics.content x s.topic
                      ++ (opening_with vs
                          ++ data_of l x v e.1
                            ∷ closing l x (since_table l x s) s.geometry s'.slots))
                    (table-update l x i (moved l x v) s.geometry s.slots))
              (slots ∙ update_twice l x i _ _ s.slots v h) geometry)
        where
          opening_with : Item → List Item
          opening_with t =
              if ltb 0 s.geometry.file_roll_size && leb s.geometry.file_roll_size s.bytes_in_segment
              then roll ∷ t ∷ []
              else []

  read_some :
      (i : ℕ) (v : Slot l x) (s s' : Mux l x) (b : Bool) (again : Act (Mux l x) Bool) (e : Entry)
      → slot_at l x i s.slots ≡ some v
      → (next_of l x i (done (some (frame v e), moved l x v)) >>= λ next.
            merge_next l x i again next)
          s
        ≡ (done b, s')
      → merge_payload l x i
          (frame v e)
          again
          s.geometry
          (frame_data (provenance l x (record v { source = moved l x v }) (frame v e)) e.1.payload)
          (record s { slots = update_at l x i (λ w. record w { source = moved l x v }) s.slots })
        ≡ (done b, s')
  unfolding next_of merge_next merge_frame set_slot ◌>>=◌ continue
  read_some i v s s' b again e h q =
      let read : Mux l x = record s {
        slots = update_at l x i (λ w. record w { source = moved l x v }) s.slots;
      } in
      subst (λ z. z ≡ (done b, s'))
        (bind_at l x (slot l x i) _ read read (record v { source = moved l x v })
          (slot-Returns l x i read (record v { source = moved l x v })
            (slot_at-update l x i (λ w. record w { source = moved l x v }) s.slots v h)))
        q

  loop_lem :
      (rounds i : ℕ) (v : Slot l x) (s s' : Mux l x) (b : Bool)
      → slot_at l x i s.slots ≡ some v
      → merge_loop l x rounds i s ≡ (done b, s')
      → Merges l x i v s b s'
  unfolding merge_loop
  loop_lem zero i v s s' b h e = absurd cc
  loop_lem (suc rounds) i v s s' b h e =
      read (Logs.ahead l (ReplicationSource.reader v.source)) refl
        (subst (λ z. z ≡ (done b, s')) (bind_at l x (slot l x i) _ s s v (slot-Returns l x i s v h))
          e)
        (λ w t q. loop_lem rounds i w t s' b q)
    where
      read :
          (es : List Entry)
          → Logs.ahead l (ReplicationSource.reader v.source) ≡ es
          → (next_of l x i (try_next_frame l v.source) >>= λ next.
                merge_next l x i (merge_loop l x rounds i) next)
              s
            ≡ (done b, s')
          → ((w : Slot l x) (t : Mux l x)
              → slot_at l x i t.slots ≡ some w
              → merge_loop l x rounds i t ≡ (done b, s')
              → Merges l x i w t b s')
          → Merges l x i v s b s'
      read [] a e k = read_none i v s s' b (merge_loop l x rounds i) h a (
          subst
            (λ r.
              (next_of l x i r >>= λ next. merge_next l x i (merge_loop l x rounds i) next) s
              ≡ (done b, s'))
            (try_next_frame-nil l v.source a) e)
      read (y ∷ ys) a e k = frame_lem i v s s' b (merge_loop l x rounds i) y ys h a k (
          read_some i v s s' b (merge_loop l x rounds i) y h (
            subst
              (λ r.
                (next_of l x i r >>= λ next. merge_next l x i (merge_loop l x rounds i) next) s
                ≡ (done b, s'))
              (try_next_frame-cons l v.source y ys a) e))

  -- A merge of an attached member that comes to an answer has passed over and counted the member's
  -- next records as far as the topic refuses them, for their type or their length. It answers true
  -- when it then added the next one to the topic, with its type, its payload and its provenance as
  -- the writer stores them, behind a new segment with the members' table when the current one is
  -- full and before a table when it is time for one; and false when no record was left, and then
  -- it wrote nothing.
  pub merge_one_lem :
      (i : ℕ) (v : Slot l x) (s s' : Mux l x) (b : Bool)
      → slot_at l x i s.slots ≡ some v
      → merge_one l x i s ≡ (done b, s')
      → Merges l x i v s b s'
  unfolding merge_one
  merge_one_lem i v s s' b h e = loop_lem (rounds_of l x v) i v s s' b h (
      subst (λ z. z ≡ (done b, s')) (bind_at l x (slot l x i) _ s s v (slot-Returns l x i s v h)) e)
