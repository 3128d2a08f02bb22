-- ===== src/Mux/Engine/Merge/Ends.antt =====
-- A merge ends when nothing is appended to the member's log meanwhile, the loop is followed for more
-- rounds than records are ahead, and the writer's calls return.
use xchannel_net.Base.{
  ℕ, zero, suc, ◌+◌, ◌%◌, ◌^◌, ◌≤◌, ◌<◌, ◌≡◌, ◌≢◌, refl, sym, ap, ◌∙◌, subst, ◌⊎◌, inl, inr, Bool,
  true, false, ◌||◌, Option, none, some, List, [], ◌∷◌, Bytes, length, leb, if◌then◌else◌, arith,
}
use xchannel_net.Wire.{RecordFrame}
use xchannel_net.Replication.{
  Io, done, failed, blocked, io_error, Logs, Entry, ReplicationSource, try_next_frame, frame_of,
}
use xchannel_net.Mux.{frame_data, is_control, slot_table_refresh}
use xchannel_net.Mux.Engine.{
  Topics, Act, ◌>>=◌, continue, give, modify, Slot, Mux, committed, commit_in, commit_record,
  emit_slot_table, rolled, is_full, roll_if_full,
}
use xchannel_net.Mux.Engine.Merge.{
  merge_batch, merge_members, poll, slot_at, update_at, set_slot, slot, reject, provenance, refresh,
  write_data, too_long, merge_payload, merge_frame, next_of, merge_next, merge_loop, rounds_of,
  merge_one,
}

module _ (l : Logs) (x : Topics) where
  -- A loop over a log is followed for more rounds than records are ahead in it.
  pub record IsPatient : Type 0 where
    pub enough : (r : Logs.Reader l) → length (Logs.ahead l r) < Logs.patience l r

  -- The writer's calls return; they may fail.
  pub record NeverWaits : Type 0 where
    pub roll_returns : (w : Topics.Writer x) → Topics.roll_file x w ≢ blocked
    pub reserve_returns : (w : Topics.Writer x) (n : ℕ) → Topics.try_reserve x w n ≢ blocked
    pub commit_returns :
        (w : Topics.Writer x) (b : Topics.Buffer x) (p : Bytes) (t n u : ℕ)
        → Topics.commit x w b p t n u ≢ blocked

  -- An answer, of which `P` holds when it is one of success.
  unfoldable pub Returns : {A : Type 0} → (A → Mux l x → Type 0) → Io A × Mux l x → Type 0
  Returns P (done a, s) = P a s
  Returns P (failed q, s) = Unit {0}
  Returns P (blocked, s) = ⊥

  pub Returns-bind :
      {A B : Type 0} (m : Act (Mux l x) A) (f : A → Act (Mux l x) B) (s : Mux l x)
      (P : A → Mux l x → Type 0) (Q : B → Mux l x → Type 0)
      → Returns P (m s)
      → ((a : A) (s' : Mux l x) → P a s' → Returns Q (f a s'))
      → Returns Q ((m >>= f) s)
  unfolding Returns ◌>>=◌ continue
  Returns-bind {A} {B} m f s P Q h k = onward (m s) h
    where
      onward : (r : Io A × Mux l x) → Returns P r → Returns Q (continue r f)
      onward (done a, s') h = k a s' h
      onward (failed q, s') h = tt
      onward (blocked, s') h = absurd h

  -- The slots are those of `s`.
  unfoldable pub SlotsOf : {A : Type 0} → Mux l x → A → Mux l x → Type 0
  SlotsOf s a s' = s'.slots ≡ s.slots

  pub commit_record-Returns :
      NeverWaits → (t : ℕ) (p : Bytes) (s : Mux l x) → Returns (SlotsOf s) (commit_record l x t p s)
  unfolding commit_record committed commit_in Returns SlotsOf
  commit_record-Returns n t p s =
      reserved (Topics.try_reserve x s.topic (length p)) (n.reserve_returns s.topic (length p))
    where
      put :
          (r : Io (Topics.Writer x))
          → r ≢ blocked
          → Returns (SlotsOf s) (committed l x r (length p) s)
      put (done w) h = refl
      put (failed q) h = tt
      put blocked h = absurd (h refl)

      reserved :
          (b : Io (Topics.Buffer x))
          → b ≢ blocked
          → Returns (SlotsOf s) (committed l x (commit_in l x b s.topic t p) (length p) s)
      reserved (done b) h =
          put (Topics.commit x s.topic b p t (length p % 2 ^ 32) 0)
            (n.commit_returns s.topic b p t (length p % 2 ^ 32) 0)
      reserved (failed q) h = tt
      reserved blocked h = absurd (h refl)

  pub emit_slot_table-Returns :
      NeverWaits → (s : Mux l x) → Returns (SlotsOf s) (emit_slot_table l x s)
  unfolding emit_slot_table Returns SlotsOf ◌>>=◌ continue
  emit_slot_table-Returns n s =
      Returns-bind (commit_record l x _ _)
        (λ _.
          modify
            (λ s. record s { slot_table_version = s.slot_table_version + 1; since_slot_table = 0 }))
        s (SlotsOf s) (SlotsOf s) (commit_record-Returns n _ _ s) (λ _ s' e. e)

  roll_if_full-Returns : NeverWaits → (s : Mux l x) → Returns (SlotsOf s) (roll_if_full l x s)
  unfolding roll_if_full rolled Returns SlotsOf ◌>>=◌ continue
  roll_if_full-Returns n s = full (is_full l x s)
    where
      segment :
          (r : Io (Topics.Writer x))
          → r ≢ blocked
          → Returns (SlotsOf s) ((rolled l x r >>= λ _. emit_slot_table l x) s)
      segment (done w) h = emit_slot_table-Returns n (record s { topic = w; bytes_in_segment = 0 })
      segment (failed q) h = tt
      segment blocked h = absurd (h refl)

      full :
          (b : Bool)
          → Returns (SlotsOf s) (
              if b
              then (rolled l x (Topics.roll_file x s.topic) >>= λ _. emit_slot_table l x) s
              else (done tt, s))
      full true = segment (Topics.roll_file x s.topic) (n.roll_returns s.topic)
      full false = refl

  refresh-Returns : NeverWaits → (s : Mux l x) → Returns (SlotsOf s) (refresh l x s)
  unfolding refresh Returns SlotsOf
  refresh-Returns n s = due (leb slot_table_refresh s.since_slot_table)
    where
      due : (b : Bool) → Returns (SlotsOf s) (if b then emit_slot_table l x s else (done tt, s))
      due true = emit_slot_table-Returns n s
      due false = refl

  -- Slot `i` has fewer than `n` records ahead.
  unfoldable pub Fewer : {A : Type 0} → ℕ → ℕ → A → Mux l x → Type 0
  Fewer i n a s =
      (v : Slot l x) × (slot_at l x i s.slots ≡ some v)
      × (length (Logs.ahead l (ReplicationSource.reader v.source)) < n)

  -- After a merge, a record fewer; after none, whatever is there.
  unfoldable pub Rest : ℕ → ℕ → Bool → Mux l x → Type 0
  Rest i n true s = Fewer i n tt s
  Rest i n false s = Unit {0}

  pub slot_at-update :
      (i : ℕ) (f : Slot l x → Slot l x) (ss : List (Slot l x)) (v : Slot l x)
      → slot_at l x i ss ≡ some v
      → slot_at l x i (update_at l x i f ss) ≡ some (f v)
  unfolding slot_at update_at
  slot_at-update i f [] v e = absurd cc
  slot_at-update zero f (s ∷ ss) v e = cc
  slot_at-update (suc i) f (s ∷ ss) v e = slot_at-update i f ss v e

  write_data-Returns :
      NeverWaits
      → (i n : ℕ) (f : RecordFrame) (p : Bytes) (s : Mux l x) → Fewer i n tt s
      → Returns (Rest i n) (write_data l x i f p s)
  unfolding write_data set_slot Fewer Rest Returns SlotsOf ◌>>=◌ continue
  write_data-Returns nw i n f p s (v, e, h) =
      Returns-bind (roll_if_full l x) _ s (SlotsOf s) (Rest i n) (roll_if_full-Returns nw s)
        (λ _ s1 e1.
          Returns-bind (commit_record l x f.msg_type p) _ s1 (SlotsOf s1) (Rest i n)
            (commit_record-Returns nw f.msg_type p s1)
            (λ _ s2 e2.
              let s3 : Mux l x = record s2 {
                slots = update_at l x i (λ s. record s { cursor = f.index + 1 }) s2.slots;
                since_slot_table = s2.since_slot_table + 1;
              } in
              Returns-bind (refresh l x) (λ _. give true) s3 (SlotsOf s3) (Rest i n)
                (refresh-Returns nw s3)
                (λ _ s4 e4. (
                  record v { cursor = f.index + 1 },
                  ap (slot_at l x i) e4
                      ∙ slot_at-update i _ s2.slots v (ap (slot_at l x i) (e2 ∙ e1) ∙ e),
                  h,
                ))))

  weaker :
      (i n n' : ℕ) (r : Io Bool × Mux l x) → n ≤ n' → Returns (Rest i n) r → Returns (Rest i n') r
  unfolding Returns Rest Fewer
  weaker i n n' (done true, s) le (v, e, h) = (v, e, omega (arith, h))
  weaker i n n' (done false, s) le h = tt
  weaker i n n' (failed q, s) le h = tt
  weaker i n n' (blocked, s) le h = h

  pub slot-Returns :
      (i : ℕ) (s : Mux l x) (v : Slot l x)
      → slot_at l x i s.slots ≡ some v
      → slot l x i s ≡ (done v, s)
  unfolding slot
  slot-Returns i s v e =
      ap
        (λ (o : Option (Slot l x)). elim o as (λ _. Io (Slot l x) × Mux l x) [
          | none ↦ (failed io_error, s)
          | some v ↦ (done v, s)
        ])
        e

  pub bind_at :
      {A B : Type 0} (m : Act (Mux l x) A) (f : A → Act (Mux l x) B) (s s' : Mux l x) (a : A)
      → m s ≡ (done a, s')
      → (m >>= f) s ≡ f a s'
  unfolding ◌>>=◌ continue
  bind_at m f s s' a e = rw e refl

  -- A record that was read, with fewer than `n` behind it: it is merged, or the loop goes on.
  merge_frame-Returns :
      NeverWaits
      → (i n : ℕ) (f : RecordFrame) (again : Act (Mux l x) Bool) (s : Mux l x) → Fewer i n tt s
      → ((s' : Mux l x) → Fewer i n tt s' → Returns (Rest i n) (again s'))
      → Returns (Rest i n) (merge_frame l x i f again s)
  unfolding merge_frame merge_payload reject set_slot Fewer ◌>>=◌ continue
  merge_frame-Returns nw i n f again s (v, e, h) k =
      subst (Returns (Rest i n)) (sym (bind_at (slot l x i) _ s s v (slot-Returns i s v e))) (
        judged (
          is_control f.msg_type
          || too_long l x s.geometry (frame_data (provenance l x v f) f.payload)))
    where
      rejected : Mux l x
      rejected = record s {
        slots =
            update_at l x i (λ s. record s { rejected = s.rejected + 1; cursor = f.index + 1 })
              s.slots;
      }

      judged :
          (b : Bool)
          → Returns (Rest i n) (
              (if b
                  then (reject l x i f >>= λ _. again)
                  else write_data l x i f (frame_data (provenance l x v f) f.payload))
                s)
      judged true = k rejected (
        record v { rejected = v.rejected + 1; cursor = f.index + 1 },
        slot_at-update i _ s.slots v e,
        h,
      )
      judged false = write_data-Returns nw i n f _ s (v, e, h)

  pub nothing_below : (i : ℕ) (s : Mux l x) → ¬ Fewer i 0 tt s
  unfolding Fewer
  nothing_below i s (v, e, h) = absurd (omega (arith, h))

  -- One read of a slot that has at most `n` records ahead, and the rest of the loop.
  read_then :
      NeverWaits
      → (i n : ℕ) (s : Mux l x) (again : Act (Mux l x) Bool) → Fewer i (suc n) tt s
      → ((s' : Mux l x) → Fewer i n tt s' → Returns (Rest i n) (again s'))
      → Returns (Rest i n) (
          (slot l x i >>= λ v.
          next_of l x i (try_next_frame l v.source) >>= λ next. merge_next l x i again next)
            s)
  unfolding Fewer next_of merge_next set_slot Rest Returns try_next_frame frame_of ◌>>=◌ continue
  read_then nw i n s again (v, e, h) k =
      subst (Returns (Rest i n)) (sym (bind_at (slot l x i) _ s s v (slot-Returns i s v e)))
        (read (Logs.ahead l (ReplicationSource.reader v.source)) refl)
    where
      read :
          (es : List Entry)
          → Logs.ahead l (ReplicationSource.reader v.source) ≡ es
          → Returns (Rest i n) (
              (next_of l x i (try_next_frame l v.source) >>= λ next. merge_next l x i again next) s)
      read [] a = rw (Logs.try_read-nil l (ReplicationSource.reader v.source) a) tt
      read (r ∷ es) a =
          let source' : ReplicationSource l = record {
            reader = Logs.advance l (ReplicationSource.reader v.source);
            next_index = v.source.next_index + 1;
          } in
          rw (Logs.try_read-cons l (ReplicationSource.reader v.source) r es a) (
            merge_frame-Returns nw i n _ again
              (record s { slots = update_at l x i (λ s. record s { source = source' }) s.slots })
              (
                record v { source = source' },
                slot_at-update i _ s.slots v e,
                omega (
                  arith,
                  ap length (Logs.ahead-advance l (ReplicationSource.reader v.source) r es a),
                  ap length a,
                  h,
                ),
              )
              k)

  merge_loop-Returns :
      NeverWaits
      → (rounds i n : ℕ) (s : Mux l x) → n < rounds
      → Fewer i (suc n) tt s
      → Returns (Rest i n) (merge_loop l x rounds i s)
  unfolding merge_loop
  merge_loop-Returns nw zero i n s le h = absurd (omega arith)
  merge_loop-Returns nw (suc rounds) i n s le h =
      read_then nw i n s (merge_loop l x rounds i) h
        (λ s' h'. later n s' le h' (merge_loop-Returns nw rounds i))
    where
      later :
          (n : ℕ) (s' : Mux l x)
          → n < suc rounds
          → Fewer i n tt s'
          → ((m : ℕ) (s : Mux l x)
              → m < rounds
              → Fewer i (suc m) tt s
              → Returns (Rest i m) (merge_loop l x rounds i s))
          → Returns (Rest i n) (merge_loop l x rounds i s')
      later zero s' le h k = absurd (nothing_below i s' h)
      later (suc m) s' le h k = weaker i m (suc m) _ (omega arith) (k m s' (omega arith) h)

  -- The rounds for which `merge_one` follows its loop are enough.
  pub merge_one-Returns :
      IsPatient
      → NeverWaits
      → (i n : ℕ) (s : Mux l x) → Fewer i (suc n) tt s
      → Returns (Rest i n) (merge_one l x i s)
  unfolding merge_one Fewer rounds_of
  merge_one-Returns p nw i n s (v, e, h) =
      let m = length (Logs.ahead l (ReplicationSource.reader v.source)) in
      subst (Returns (Rest i n)) (sym (bind_at (slot l x i) _ s s v (slot-Returns i s v e))) (
        weaker i m n _ (omega (arith, h)) (
          merge_loop-Returns nw (rounds_of l x v) i m s
            (p.enough (ReplicationSource.reader v.source)) (v, e, omega arith)))

  -- It returns.
  abbrev pub Ends : {A : Type 0} → Io A × Mux l x → Type 0
  Ends r = Returns (λ _ _. Unit {0}) r

  pub forget : {A : Type 0} (P : A → Mux l x → Type 0) (r : Io A × Mux l x) → Returns P r → Ends r
  unfolding Returns
  forget P (done a, s) h = tt
  forget P (failed q, s) h = tt
  forget P (blocked, s) h = h

  -- Slot `i` is there, or it cannot be had.
  pub slot_cases :
      (i : ℕ) (s : Mux l x)
      → ((n : ℕ) × Fewer i (suc n) tt s) ⊎ (slot l x i s ≡ (failed io_error, s))
  unfolding slot Fewer
  slot_cases i s = there (slot_at l x i s.slots) refl
    where
      there :
          (o : Option (Slot l x))
          → slot_at l x i s.slots ≡ o
          → ((n : ℕ) × Fewer i (suc n) tt s) ⊎ (slot l x i s ≡ (failed io_error, s))
      there none e = inr (
          ap
            (λ (o : Option (Slot l x)). elim o as (λ _. Io (Slot l x) × Mux l x) [
              | none ↦ (failed io_error, s)
              | some v ↦ (done v, s)
            ])
            e)
      there (some v) e =
          inl (length (Logs.ahead l (ReplicationSource.reader v.source)), (v, e, omega arith))

  pub failed_at :
      {A B : Type 0} (m : Act (Mux l x) A) (f : A → Act (Mux l x) B) (s : Mux l x)
      → m s ≡ (failed io_error, s)
      → Ends ((m >>= f) s)
  unfolding ◌>>=◌ continue Returns
  failed_at m f s e = rw e tt

  pub merge_one-Ends : IsPatient → NeverWaits → (i : ℕ) (s : Mux l x) → Ends (merge_one l x i s)
  unfolding merge_one
  merge_one-Ends p nw i s = elim (slot_cases i s) [
    | inl (n, h) ↦ forget (Rest i n) (merge_one l x i s) (merge_one-Returns p nw i n s h)
    | inr e ↦ failed_at (slot l x i) _ s e
  ]

  merge_batch-Ends :
      IsPatient
      → NeverWaits
      → (calls i merged : ℕ) (s : Mux l x) → Ends (merge_batch l x calls i merged s)
  unfolding merge_batch Returns
  merge_batch-Ends p nw zero i merged s = tt
  merge_batch-Ends p nw (suc calls) i merged s =
      Returns-bind (merge_one l x i) _ s (λ _ _. Unit {0}) (λ _ _. Unit {0})
        (merge_one-Ends p nw i s)
        (λ more s' _. either more s' (merge_batch-Ends p nw calls i (merged + 1) s'))
    where
      either :
          (more : Bool) (s' : Mux l x)
          → Ends (merge_batch l x calls i (merged + 1) s')
          → Ends ((if more then merge_batch l x calls i (merged + 1) else give merged) s')
      either true s' h = h
      either false s' h = tt

  merge_members-Ends :
      IsPatient
      → NeverWaits
      → (batch n i merged : ℕ) (s : Mux l x) → Ends (merge_members l x batch n i merged s)
  unfolding merge_members Returns
  merge_members-Ends p nw batch zero i merged s = tt
  merge_members-Ends p nw batch (suc n) i merged s =
      Returns-bind (merge_batch l x batch i merged) _ s (λ _ _. Unit {0}) (λ _ _. Unit {0})
        (merge_batch-Ends p nw batch i merged s)
        (λ merged' s' _. merge_members-Ends p nw batch n (i + 1) merged' s')

  pub poll-Ends : IsPatient → NeverWaits → (s : Mux l x) → Ends (poll l x s)
  unfolding poll Returns
  poll-Ends p nw s = either s.finished
    where
      either :
          (b : Bool)
          → Ends (
              if b
              then (done 0, s)
              else merge_members l x s.max_batch_per_member (length s.slots) 0 0 s)
      either true = tt
      either false = merge_members-Ends p nw s.max_batch_per_member (length s.slots) 0 0 s
