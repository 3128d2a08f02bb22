-- ===== src/Mux/Engine/Writes.antt =====
-- The writes that the engine makes, when they succeed: what they add to the topic's content, and
-- what they leave as it was.
use mathlib.Core.List.{map, append_assoc, append-nil}
use xchannel_net.Base.{
  ℕ, ◌+◌, ◌<◌, ◌%◌, ◌^◌, ◌≡◌, refl, sym, ap, ◌∙◌, subst, Bool, true, false, ◌&&◌, List, [], ◌∷◌,
  ◌++◌, Bytes, length, ltb, leb, if◌then◌else◌, arith,
}
use xchannel_net.Replication.{Io, done, failed, blocked, Item, roll, entry, Logs}
use xchannel_net.Mux.{TopicGeometry, msg_type_slot_table}
use xchannel_net.Mux.Table.{encode_slot_table}
use xchannel_net.Mux.Engine.{
  Topics, Act, ◌>>=◌, continue, modify, Slot, Mux, committed, commit_in, commit_record, entry_of,
  emit_slot_table, rolled, is_full, roll_if_full,
}

module _ (l : Logs) (x : Topics) where
  -- A chain that succeeds: its first part did, and the rest from there.
  pub bind_done :
      {A B : Type 0} (m : Act (Mux l x) A) (f : A → Act (Mux l x) B) (s s'' : Mux l x) (b : B)
      → (m >>= f) s ≡ (done b, s'')
      → (a : A) × (s' : Mux l x) × (m s ≡ (done a, s')) × (f a s' ≡ (done b, s''))
  unfolding ◌>>=◌ continue
  bind_done {A} {B} m f s s'' b e = split (m s) refl e
    where
      split :
          (r : Io A × Mux l x)
          → m s ≡ r
          → continue r f ≡ (done b, s'')
          → (a : A) × (s' : Mux l x) × (m s ≡ (done a, s')) × (f a s' ≡ (done b, s''))
      split (done a, s') q e = (a, s', q, e)
      split (failed x, s') q e = absurd cc
      split (blocked, s') q e = absurd cc

  -- The record that a writer stores for a payload, whose length it is given on 32 bits.
  abbrev pub written : ℕ → Bytes → Item
  written t p = entry (Topics.stored x t (length p % 2 ^ 32) 0 p)

  -- A payload whose length fits 32 bits is stored whole.
  written_whole :
      (t : ℕ) (p : Bytes)
      → length p < 2 ^ 32
      → written t p ≡ entry (record { message_type = t; user_meta = 0; payload = p })
  written_whole t p fits =
      ap (λ n. entry (Topics.stored x t n 0 p)) (omega (arith, fits))
      ∙ ap entry (Topics.stored-whole x t 0 p)

  -- The slot table of these members.
  abbrev pub table_of : TopicGeometry → List (Slot l x) → Item
  table_of g vs = written msg_type_slot_table (
      encode_slot_table g (
        map
          (λ (v : Slot l x). record {
            member_ref = v.member_ref;
            name = v.name;
            epoch = v.epoch;
            cursor = v.cursor;
          })
          vs))

  -- What opens a new segment, when the current one is full.
  abbrev pub opening : Mux l x → List (Slot l x) → List Item
  opening s vs =
      if ltb 0 s.geometry.file_roll_size && leb s.geometry.file_roll_size s.bytes_in_segment
      then roll ∷ table_of s.geometry vs ∷ []
      else []

  -- The topic grew by these items, and the members and the geometry are as before.
  pub record Grows (xs : List Item) (s s' : Mux l x) : Type 0 where
    pub topic_grows : Topics.content x s'.topic ≡ Topics.content x s.topic ++ xs
    pub same_slots : s'.slots ≡ s.slots
    pub same_geometry : s'.geometry ≡ s.geometry

  pub no_growth : (s s' : Mux l x) → s ≡ s' → Grows [] s s'
  no_growth s s' e = subst (Grows [] s) e (record {
    topic_grows = sym (append-nil (Topics.content x s.topic));
    same_slots = refl;
    same_geometry = refl;
  })

  pub join_growth :
      (xs ys : List Item) (s t u : Mux l x) → Grows xs s t → Grows ys t u → Grows (xs ++ ys) s u
  join_growth xs ys s t u g h = record {
    topic_grows =
        h.topic_grows
        ∙ ap (λ (zs : List Item). zs ++ ys) g.topic_grows
        ∙ append_assoc (Topics.content x s.topic) xs ys;
    same_slots = h.same_slots ∙ g.same_slots;
    same_geometry = h.same_geometry ∙ g.same_geometry;
  }

  pub commit_record-Grows :
      (t : ℕ) (p : Bytes) (s s' : Mux l x)
      → commit_record l x t p s ≡ (done tt, s')
      → Grows (written t p ∷ []) s s' × (s'.since_slot_table ≡ s.since_slot_table)
  unfolding commit_record committed commit_in
  commit_record-Grows t p s s' e = reserved (Topics.try_reserve x s.topic (length p)) e
    where
      put :
          (r : Io (Topics.Writer x))
          → ((w : Topics.Writer x)
              → r ≡ done w
              → Topics.content x w ≡ Topics.content x s.topic ++ written t p ∷ [])
          → committed l x r (length p) s ≡ (done tt, s')
          → Grows (written t p ∷ []) s s' × (s'.since_slot_table ≡ s.since_slot_table)
      put (done w) h e =
          subst
            (λ (z : Mux l x).
              Grows (written t p ∷ []) s z × (z.since_slot_table ≡ s.since_slot_table))
            (ap (λ (r : Io (Unit {0}) × Mux l x). r.1) e)
            (record { topic_grows = h w refl; same_slots = refl; same_geometry = refl }, refl)
      put (failed q) h e = absurd cc
      put blocked h e = absurd cc

      reserved :
          (b : Io (Topics.Buffer x))
          → committed l x (commit_in l x b s.topic t p) (length p) s ≡ (done tt, s')
          → Grows (written t p ∷ []) s s' × (s'.since_slot_table ≡ s.since_slot_table)
      reserved (done b) e =
          put (Topics.commit x s.topic b p t (length p % 2 ^ 32) 0)
            (λ w q. Topics.content-commit x s.topic w b p t (length p % 2 ^ 32) 0 q) e
      reserved (failed q) e = absurd cc
      reserved blocked e = absurd cc

  pub emit_slot_table-Grows :
      (s s' : Mux l x)
      → emit_slot_table l x s ≡ (done tt, s')
      → Grows (table_of s.geometry s.slots ∷ []) s s' × (s'.since_slot_table ≡ 0)
  unfolding emit_slot_table entry_of ◌>>=◌ continue
  emit_slot_table-Grows s s' e =
      let (_, s1, e1, r1) =
        bind_done
          (commit_record l x msg_type_slot_table
            (encode_slot_table s.geometry (map (entry_of l x) s.slots)))
          (λ _.
            modify (λ s. record s {
              slot_table_version = s.slot_table_version + 1;
              since_slot_table = 0;
            }))
          s s' tt e in
      let g = (commit_record-Grows _ _ s s1 e1).0 in
      subst
        (λ (z : Mux l x). Grows (table_of s.geometry s.slots ∷ []) s z × (z.since_slot_table ≡ 0))
        (ap (λ (r : Io (Unit {0}) × Mux l x). r.1) r1)
        (
          record {
            topic_grows = g.topic_grows;
            same_slots = g.same_slots;
            same_geometry = g.same_geometry;
          },
          refl,
        )

  full_lem :
      (s : Mux l x)
      → is_full l x s
        ≡ (ltb 0 s.geometry.file_roll_size && leb s.geometry.file_roll_size s.bytes_in_segment)
  unfolding is_full
  full_lem s = ground arith

  pub roll_if_full-Grows :
      (s s' : Mux l x)
      → roll_if_full l x s ≡ (done tt, s')
      → Grows (opening s s.slots) s s'
        × (s'.since_slot_table ≡ (
            if ltb 0 s.geometry.file_roll_size && leb s.geometry.file_roll_size s.bytes_in_segment
            then 0
            else s.since_slot_table))
  unfolding roll_if_full rolled ◌>>=◌ continue
  roll_if_full-Grows s s' e = rw (← full_lem s) (full (is_full l x s) e)
    where
      segment :
          (r : Io (Topics.Writer x))
          → ((w : Topics.Writer x)
              → r ≡ done w
              → Topics.content x w ≡ Topics.content x s.topic ++ roll ∷ [])
          → (rolled l x r >>= λ _. emit_slot_table l x) s ≡ (done tt, s')
          → Grows (roll ∷ table_of s.geometry s.slots ∷ []) s s' × (s'.since_slot_table ≡ 0)
      segment (done w) h e =
          let new : Mux l x = record s { topic = w; bytes_in_segment = 0 } in
          let (g, z) = emit_slot_table-Grows new s' e in
          (
            join_growth (roll ∷ []) (table_of s.geometry s.slots ∷ []) s new s'
                (record { topic_grows = h w refl; same_slots = refl; same_geometry = refl }) g,
            z,
          )
      segment (failed q) h e = absurd cc
      segment blocked h e = absurd cc

      full :
          (b : Bool)
          → (if b
              then (rolled l x (Topics.roll_file x s.topic) >>= λ _. emit_slot_table l x) s
              else (done tt, s))
            ≡ (done tt, s')
          → Grows (if b then roll ∷ table_of s.geometry s.slots ∷ [] else []) s s'
            × (s'.since_slot_table ≡ (if b then 0 else s.since_slot_table))
      full true e =
          segment (Topics.roll_file x s.topic) (λ w q. Topics.content-roll_file x s.topic w q) e
      full false e =
          let same : s ≡ s' = ap (λ (r : Io (Unit {0}) × Mux l x). r.1) e in
          (no_growth s s' same, ap (λ (z : Mux l x). z.since_slot_table) (sym same))
