-- ===== src/Mux/Engine/Respects.antt =====
-- Relations between the states before and after an operation, whether or not it fails.
use mathlib.Core.List.{map}
use xchannel_net.Base.{
  ℕ, ◌+◌, ◌≡◌, refl, sym, subst, ◌∙◌, Bool, true, false, List, Bytes, length, if◌then◌else◌,
}
use xchannel_net.Replication.{Io, done, failed, blocked, Logs}
use xchannel_net.Mux.{
  TopicGap, MemberRegressed, MemberClosed, topic_gap_payload, member_regressed_payload,
  member_closed_payload, msg_type_slot_table, msg_type_topic_gap, msg_type_member_closed,
  msg_type_member_regressed,
}
use xchannel_net.Mux.Table.{encode_slot_table}
use xchannel_net.Mux.Recover.{Member}
use xchannel_net.Mux.Engine.{
  Topics, Act, ◌>>=◌, continue, modify, Slot, Mux, committed, commit_in, commit_record, entry_of,
  emit_slot_table, emit_topic_gap, emit_member_regressed, emit_member_closed, rolled, is_full,
  roll_if_full,
}

module _ (l : Logs) (x : Topics) where
  -- The members that are attached, in order.
  unfoldable pub keys : Mux l x → List Member
  keys s = map (λ (v : Slot l x). record { name = v.name; epoch = v.epoch }) s.slots

  -- A relation between the states before and after an operation that every change but those of the
  -- members respects.
  pub record IsKept (R : Mux l x → Mux l x → Type 0) : Type 0 where
    pub kept_trans : (s s' s'' : Mux l x) → R s s' → R s' s'' → R s s''
    pub kept_still : (s s' : Mux l x) → keys s' ≡ keys s → R s s'

  -- The members stay as they are.
  unfoldable pub SameKeys : Mux l x → Mux l x → Type 0
  SameKeys s s' = keys s' ≡ keys s

  pub same_keys-IsKept : IsKept SameKeys
  unfolding SameKeys
  same_keys-IsKept = record { kept_trans = λ s s' s'' e e'. e' ∙ e; kept_still = λ s s' e. e }

module _ (l : Logs) (x : Topics) (R : Mux l x → Mux l x → Type 0) (k : IsKept l x R) where
  -- Whatever the operation answers, the states before and after it are related.
  pub record Respects {A : Type 0} (m : Act (Mux l x) A) : Type 0 where
    pub kept : (s : Mux l x) → R s (m s).1

  pub Respects-bind :
      {A B : Type 0} {m : Act (Mux l x) A} {f : A → Act (Mux l x) B}
      → Respects m
      → ((a : A) → Respects (f a))
      → Respects (m >>= f)
  unfolding continue ◌>>=◌
  Respects-bind {A} {B} {m} {f} h g = record { kept = λ s. onward s (m s) (h.kept s) }
    where
      onward : (s : Mux l x) (r : Io A × Mux l x) → R s r.1 → R s (continue r f).1
      onward s (done a, s') d = k.kept_trans s s' (f a s').1 d ((g a).kept s')
      onward s (failed q, s') d = d
      onward s (blocked, s') d = d

  pub Respects-commit_record : (t : ℕ) (p : Bytes) → Respects (commit_record l x t p)
  unfolding commit_record keys committed
  Respects-commit_record t p = record {
    kept = λ s. put s (commit_in l x (Topics.try_reserve x s.topic (length p)) s.topic t p);
  }
    where
      put : (s : Mux l x) (r : Io (Topics.Writer x)) → R s (committed l x r (length p) s).1
      put s (done w) = k.kept_still s _ refl
      put s (failed q) = k.kept_still s s refl
      put s blocked = k.kept_still s s refl

  -- An answer that leaves the members as they are.
  pub Respects-still :
      {A : Type 0} {m : Act (Mux l x) A}
      → ((s : Mux l x) → keys l x (m s).1 ≡ keys l x s)
      → Respects m
  Respects-still {A} {m} e = record { kept = λ s. k.kept_still s (m s).1 (e s) }

  -- What respects the relation at each state that it looks at.
  pub Respects-at :
      {A : Type 0} {m : Act (Mux l x) A}
      → ((s : Mux l x) → (m' : Act (Mux l x) A) × Respects m' × (m s ≡ m' s))
      → Respects m
  Respects-at {A} {m} h = record {
    kept = λ s. let (m', a, e) = h s in subst (λ (r : Io A × Mux l x). R s r.1) (sym e) (a.kept s);
  }

  pub Respects-if :
      {A : Type 0} (b : Bool) {m m' : Act (Mux l x) A}
      → (b ≡ true → Respects m)
      → (b ≡ false → Respects m')
      → Respects (if b then m else m')
  Respects-if true h h' = h refl
  Respects-if false h h' = h' refl

  pub Respects-emit_slot_table : Respects (emit_slot_table l x)
  unfolding emit_slot_table ◌>>=◌ continue keys
  Respects-emit_slot_table = Respects-at (λ s. (
    (commit_record l x msg_type_slot_table
          (encode_slot_table s.geometry (map (entry_of l x) s.slots))
        >>= λ _. modify (λ s. record s {
          slot_table_version = s.slot_table_version + 1;
          since_slot_table = 0;
        })),
    Respects-bind (Respects-commit_record _ _) (λ _. Respects-still (λ s. refl)),
    refl,
  ))

  pub Respects-roll_if_full : Respects (roll_if_full l x)
  unfolding roll_if_full rolled keys ◌>>=◌ continue
  Respects-roll_if_full = record { kept = λ s. full s (is_full l x s) }
    where
      segment :
          (s : Mux l x) (r : Io (Topics.Writer x))
          → R s ((rolled l x r >>= λ _. emit_slot_table l x) s).1
      segment s (done w) =
          k.kept_trans s (record s { topic = w; bytes_in_segment = 0 })
            (emit_slot_table l x (record s { topic = w; bytes_in_segment = 0 })).1
            (k.kept_still s _ refl)
            (Respects-emit_slot_table.kept (record s { topic = w; bytes_in_segment = 0 }))
      segment s (failed q) = k.kept_still s s refl
      segment s blocked = k.kept_still s s refl

      full :
          (s : Mux l x) (b : Bool)
          → R s
              (if b
                then (rolled l x (Topics.roll_file x s.topic) >>= λ _. emit_slot_table l x) s
                else (done tt, s)).1
      full s true = segment s (Topics.roll_file x s.topic)
      full s false = k.kept_still s s refl

  pub Respects-emit_topic_gap : (g : TopicGap) → Respects (emit_topic_gap l x g)
  unfolding emit_topic_gap keys
  Respects-emit_topic_gap g =
      Respects-bind (Respects-commit_record msg_type_topic_gap (topic_gap_payload g))
        (λ _. Respects-still (λ s. refl))

  pub Respects-emit_member_regressed :
      (g : MemberRegressed) → Respects (emit_member_regressed l x g)
  unfolding emit_member_regressed
  Respects-emit_member_regressed g =
      Respects-commit_record msg_type_member_regressed (member_regressed_payload g)

  pub Respects-emit_member_closed : (g : MemberClosed) → Respects (emit_member_closed l x g)
  unfolding emit_member_closed
  Respects-emit_member_closed g =
      Respects-commit_record msg_type_member_closed (member_closed_payload g)
