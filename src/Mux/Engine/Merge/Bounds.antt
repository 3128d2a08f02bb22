-- ===== src/Mux/Engine/Merge/Bounds.antt =====
-- How much a poll merges of each member.
use mathlib.Core.List.{append_assoc}
use xchannel_net.Base.{
  ℕ, zero, suc, ◌+◌, ◌≤◌, ◌≡◌, refl, sym, ap, ◌∙◌, subst, Bool, true, false, some, List, [], ◌∷◌,
  ◌++◌, length, length-append, if◌then◌else◌, arith,
}
use xchannel_net.Replication.{Io, done, failed, blocked, Logs}
use xchannel_net.Mux.Engine.{Topics, give, Slot, Mux}
use xchannel_net.Mux.Engine.Writes.{bind_done}
use xchannel_net.Mux.Engine.Merge.{slot_at, update_at, merge_one, merge_batch, merge_members, poll}
use xchannel_net.Mux.Engine.Merge.Exact.{Merges, caught_up, passed_over, merged, counted, consumed}
use xchannel_net.Mux.Engine.Merge.Read.{merge_one_lem}

module _ (l : Logs) (x : Topics) where
  pub poll-finished : (s : Mux l x) → s.finished ≡ true → poll l x s ≡ (done 0, s)
  unfolding poll
  poll-finished s f = rw f refl

  -- Of the records that were read of the member, all but `c` were refused and counted.
  abbrev pub Gained : Slot l x → Slot l x → ℕ → Type 0
  Gained v v' c = v'.source.next_index + v.rejected ≡ v.source.next_index + v'.rejected + c

  -- Of each member at most `batch` records were merged, and of all of them together `n`.
  pub data Gains (batch : ℕ) : List (Slot l x) → List (Slot l x) → ℕ → Type 0 where
    nobody : Gains batch [] [] 0
    member :
        (v v' : Slot l x) (vs vs' : List (Slot l x)) (c n : ℕ)
        → c ≤ batch
        → Gained v v' c
        → Gains batch vs vs' n
        → Gains batch (v ∷ vs) (v' ∷ vs') (c + n)

  Gains_none : (batch : ℕ) (vs : List (Slot l x)) → Gains batch vs vs 0
  Gains_none batch [] = nobody
  Gains_none batch (v ∷ vs) = member v v vs vs 0 0 (omega arith) (omega arith) (Gains_none batch vs)

  slot_at-append :
      (vs : List (Slot l x)) (v : Slot l x) (ws : List (Slot l x))
      → slot_at l x (length vs) (vs ++ v ∷ ws) ≡ some v
  unfolding slot_at
  slot_at-append [] v ws = refl
  slot_at-append (u ∷ vs) v ws = slot_at-append vs v ws

  update_at-append :
      (f : Slot l x → Slot l x) (vs : List (Slot l x)) (v : Slot l x) (ws : List (Slot l x))
      → update_at l x (length vs) f (vs ++ v ∷ ws) ≡ vs ++ f v ∷ ws
  unfolding update_at
  update_at-append f [] v ws = refl
  update_at-append f (u ∷ vs) v ws = ap (◌∷◌ u) (update_at-append f vs v ws)

  -- `s'` has `v'` where `s` has `v`, of which `c` records were merged.
  abbrev Advanced : List (Slot l x) → Slot l x → List (Slot l x) → ℕ → Mux l x → Type 0
  Advanced vs v ws c s' = (v' : Slot l x) × (s'.slots ≡ vs ++ v' ∷ ws) × Gained v v' c

  abbrev one_if : Bool → ℕ
  one_if b = if b then 1 else 0

  or_zero : Io ℕ → ℕ
  or_zero (done n) = n
  or_zero (failed q) = 0
  or_zero blocked = 0

  answer_lem :
      (m m' : ℕ) (s s' : Mux l x) → ◌≡◌ {A = Io ℕ × Mux l x} (done m, s) (done m', s') → m ≡ m'
  unfolding or_zero
  answer_lem m m' s s' e = ap (λ (r : Io ℕ × Mux l x). or_zero r.0) e

  merges_lem :
      (vs : List (Slot l x)) (v : Slot l x) (ws : List (Slot l x)) (s s' : Mux l x) (b : Bool)
      → s.slots ≡ vs ++ v ∷ ws
      → Merges l x (length vs) v s b s'
      → Advanced vs v ws (one_if b) s'
  merges_lem vs v ws s s' b h (caught_up _ _ a) = (v, h, omega arith)
  merges_lem vs v ws s s' b h (passed_over _ _ _ _ e es a r m) =
      let (v', q, g) =
        merges_lem vs (counted l x v) ws
          (record s { slots = update_at l x (length vs) (λ _. counted l x v) s.slots }) s' b
          (ap (update_at l x (length vs) (λ _. counted l x v)) h ∙ update_at-append _ vs v ws) m in
      (v', q, omega (arith, g))
  merges_lem vs v ws s s' b h (merged _ _ _ e es a r content slots geometry) = (
    consumed l x v,
    slots ∙ ap (update_at l x (length vs) (λ _. consumed l x v)) h ∙ update_at-append _ vs v ws,
    omega arith,
  )

  batch_lem :
      (calls : ℕ) (vs : List (Slot l x)) (v : Slot l x) (ws : List (Slot l x)) (m m' : ℕ)
      (s s' : Mux l x)
      → s.slots ≡ vs ++ v ∷ ws
      → merge_batch l x calls (length vs) m s ≡ (done m', s')
      → (c : ℕ) × (c ≤ calls) × (m' ≡ m + c) × Advanced vs v ws c s'
  unfolding merge_batch
  batch_lem zero vs v ws m m' s s' h e = (
    0,
    omega arith,
    omega (arith, answer_lem m m' s s' e),
    (v, ap (λ (r : Io ℕ × Mux l x). r.1.slots) (sym e) ∙ h, omega arith),
  )
  batch_lem (suc calls) vs v ws m m' s s' h e =
      let (more, t, q, r) = bind_done l x (merge_one l x (length vs)) _ s s' m' e in
      onward more t
        (merges_lem vs v ws s t more h (
          merge_one_lem l x (length vs) v s t more
            (ap (slot_at l x (length vs)) h ∙ slot_at-append vs v ws) q))
        (λ w h' q'. batch_lem calls vs w ws (m + 1) m' t s' h' q') r
    where
      onward :
          (more : Bool) (t : Mux l x)
          → Advanced vs v ws (one_if more) t
          → ((w : Slot l x)
              → t.slots ≡ vs ++ w ∷ ws
              → merge_batch l x calls (length vs) (m + 1) t ≡ (done m', s')
              → (c : ℕ) × (c ≤ calls) × (m' ≡ m + 1 + c) × Advanced vs w ws c s')
          → (if more then merge_batch l x calls (length vs) (m + 1) else give m) t ≡ (done m', s')
          → (c : ℕ) × (c ≤ suc calls) × (m' ≡ m + c) × Advanced vs v ws c s'
      onward true t (w, h', g) k r =
          let (c, le, sum, (v', q, g')) = k w h' r in
          (suc c, omega (arith, le), omega (arith, sum), (v', q, omega (arith, g, g')))
      onward false t (w, h', g) k r = (
        0,
        omega arith,
        omega (arith, answer_lem m m' t s' r),
        (w, ap (λ (r : Io ℕ × Mux l x). r.1.slots) (sym r) ∙ h', g),
      )

  members_lem :
      (batch : ℕ) (vs ws : List (Slot l x)) (m m' : ℕ) (s s' : Mux l x)
      → s.slots ≡ vs ++ ws
      → merge_members l x batch (length ws) (length vs) m s ≡ (done m', s')
      → (n : ℕ) × (ws' : List (Slot l x)) × (m' ≡ m + n)
        × (s'.slots ≡ vs ++ ws')
        × Gains batch ws ws' n
  unfolding merge_members
  members_lem batch vs [] m m' s s' h e = (
    0,
    [],
    omega (arith, answer_lem m m' s s' e),
    ap (λ (r : Io ℕ × Mux l x). r.1.slots) (sym e) ∙ h,
    nobody,
  )
  members_lem batch vs (w ∷ ws) m m' s s' h e =
      let (m1, t, q, r) = bind_done l x (merge_batch l x batch (length vs) m) _ s s' m' e in
      let (c, le, sum, (w', h', g)) = batch_lem batch vs w ws m m1 s t h q in
      let (n, ws', sum', slots, rest) =
        members_lem batch (vs ++ w' ∷ []) ws m1 m' t s' (h' ∙ sym (append_assoc vs (w' ∷ []) ws)) (
          subst (λ k. merge_members l x batch (length ws) k m1 t ≡ (done m', s'))
            (sym (length-append vs (w' ∷ []))) r) in
      (
        c + n,
        w' ∷ ws',
        omega (arith, sum, sum'),
        slots ∙ append_assoc vs (w' ∷ []) ws',
        member w w' ws ws' c n le g rest,
      )

  -- A poll that succeeds merges of each member at most the batch size, which is told by what was
  -- read of it less what was refused, and answers with the sum of what it merged of them.
  pub poll_bound :
      (s s' : Mux l x) (merged : ℕ)
      → poll l x s ≡ (done merged, s')
      → Gains s.max_batch_per_member s.slots s'.slots merged
  unfolding poll or_zero
  poll_bound s s' n e = either s.finished e
    where
      either :
          (b : Bool)
          → (if b
              then (done 0, s)
              else merge_members l x s.max_batch_per_member (length s.slots) 0 0 s)
            ≡ (done n, s')
          → Gains s.max_batch_per_member s.slots s'.slots n
      either true e =
          subst
            (λ (r : Io ℕ × Mux l x). Gains s.max_batch_per_member s.slots r.1.slots (or_zero r.0)) e
            (Gains_none s.max_batch_per_member s.slots)
      either false e =
          let (m, ws, sum, slots, g) =
            members_lem s.max_batch_per_member [] s.slots 0 n s s' refl e in
          subst (λ k. Gains s.max_batch_per_member s.slots s'.slots k) (omega (arith, sum))
            (subst (λ vs. Gains s.max_batch_per_member s.slots vs m) (sym slots) g)
