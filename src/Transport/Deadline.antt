-- ===== src/Transport/Deadline.antt =====
-- Writing with a deadline: what is written, and when the writer may give up.
use mathlib.Core.List.{append_assoc, append-nil}
use xchannel_net.Base.{
  ℕ, zero, suc, ◌+◌, ◌≤◌, ◌<◌, ◌≡◌, refl, sym, ap, ◌∙◌, subst, ◌⊎◌, inl, inr, Bool, true, false,
  List, [], ◌∷◌, ◌++◌, Bytes, IsIn, length, take, drop, leb, if◌then◌else◌, Bool-cases, arith,
  append-take-drop,
}
use xchannel_net.Transport.Receive.{drop_all}
use xchannel_net.Transport.{
  ErrorKind, timed_out, write_zero, invalid_input, invalid_data, unexpected_eof, other, WriteAnswer,
  took, would_block, interrupted, broken, stall_limit, Attempt, Written, all_written, gave_up,
  stuck, Progress, written_first, on_attempt, expired, write_loop, write_all_by,
}

-- When the last attempt that wrote something was over; `start` when none did.
abbrev pub last_moved : ℕ → List Attempt → ℕ
last_moved last [] = last
last_moved last (t ∷ ts) = last_moved (elim t.answer [ took (suc n) ↦ t.after | _ ↦ last ]) ts

-- After these attempts the writer is out of time at the clock `now`.
unfoldable pub IsLate : (start deadline : ℕ) → List Attempt → (now : ℕ) → Type 0
IsLate start deadline before now = (deadline ≤ now) ⊎ (last_moved start before + stall_limit ≤ now)

-- The writer is out of time at one of the attempts.
abbrev pub GaveUpLate : (start deadline : ℕ) → List Attempt → Type 0
GaveUpLate start deadline ts =
    (before : List Attempt) × (t : Attempt) × (later : List Attempt) × (ts ≡ before ++ t ∷ later)
    × IsLate start deadline before t.now

-- What was written is the beginning of `bytes`, all of it when the writer says so, and the writer
-- was out of time at an attempt when it gave up for the time.
pub record Honest (start deadline : ℕ) (ts : List Attempt) (bytes : Bytes) (r : Progress)
    : Type 0 where
  pub rest : Bytes
  pub is_prefix : r.0 ++ rest ≡ bytes
  pub whole : r.1 ≡ all_written → rest ≡ []
  pub late : r.1 ≡ gave_up timed_out → GaveUpLate start deadline ts

nothing :
    (start deadline : ℕ) (ts : List Attempt) (bytes : Bytes) (w : Written)
    → (w ≡ all_written → bytes ≡ [])
    → (w ≡ gave_up timed_out → GaveUpLate start deadline ts)
    → Honest start deadline ts bytes ([], w)
nothing start deadline ts bytes w a l = record {
  rest = bytes;
  is_prefix = refl;
  whole = a;
  late = l;
}

gives_up :
    (start deadline : ℕ) (ts : List Attempt) (bytes : Bytes) (e : ErrorKind)
    → ¬ (gave_up e ≡ gave_up timed_out)
    → Honest start deadline ts bytes ([], gave_up e)
gives_up start deadline ts bytes e n =
    nothing start deadline ts bytes (gave_up e) (λ q. absurd cc) (λ q. absurd (n q))

-- With one attempt more before it, after which the writer last moved at `last'`.
Honest-later :
    (start last' deadline : ℕ) (t : Attempt) (ts : List Attempt) (bytes : Bytes) (r : Progress)
    → last_moved start (t ∷ []) ≡ last'
    → Honest last' deadline ts bytes r
    → Honest start deadline (t ∷ ts) bytes r
unfolding IsLate
Honest-later start last' deadline t ts bytes r m h = record {
  rest = h.rest;
  is_prefix = h.is_prefix;
  whole = h.whole;
  late = λ e.
      let (before, u, later, q, l) = h.late e in
      (
        t ∷ before,
        u,
        later,
        ap (◌∷◌ t) q,
        subst (λ k. (deadline ≤ u.now) ⊎ (last_moved k before + stall_limit ≤ u.now)) (sym m) l,
      );
}

-- With the bytes in front of it that were written before.
Honest-after :
    (start deadline : ℕ) (ts : List Attempt) (n : ℕ) (bytes : Bytes) (r : Progress)
    → Honest start deadline ts (drop n bytes) r
    → Honest start deadline ts bytes (written_first (take n bytes) r)
unfolding written_first
Honest-after start deadline ts n bytes r h = record {
  rest = h.rest;
  is_prefix =
      append_assoc (take n bytes) r.0 h.rest
      ∙ ap (◌++◌ (take n bytes)) h.is_prefix
      ∙ append-take-drop n bytes;
  whole = h.whole;
  late = h.late;
}

attempt_lem :
    (now : ℕ) (answer : WriteAnswer) (after : ℕ) (ts : List Attempt) (last deadline : ℕ)
    (bytes : Bytes) (more : Bytes → ℕ → Progress)
    → ((bytes' : Bytes) (last' : ℕ) → Honest last' deadline ts bytes' (more bytes' last'))
    → Honest last deadline
        (record { now = now; answer = answer; after = after } ∷ ts)
        bytes
        (on_attempt answer after bytes last more)
unfolding on_attempt
attempt_lem now (took zero) after ts last deadline bytes more h =
    gives_up last deadline _ bytes write_zero cc
attempt_lem now (took (suc n)) after ts last deadline bytes more h =
    Honest-after last deadline _ (suc n) bytes _
      (Honest-later last after deadline _ ts _ _ refl (h (drop (suc n) bytes) after))
attempt_lem now would_block after ts last deadline bytes more h =
    Honest-later last last deadline _ ts bytes _ refl (h bytes last)
attempt_lem now interrupted after ts last deadline bytes more h =
    Honest-later last last deadline _ ts bytes _ refl (h bytes last)
attempt_lem now (broken timed_out) after ts last deadline bytes more h =
    Honest-later last last deadline _ ts bytes _ refl (h bytes last)
attempt_lem now (broken write_zero) after ts last deadline bytes more h =
    gives_up last deadline _ bytes write_zero cc
attempt_lem now (broken invalid_input) after ts last deadline bytes more h =
    gives_up last deadline _ bytes invalid_input cc
attempt_lem now (broken invalid_data) after ts last deadline bytes more h =
    gives_up last deadline _ bytes invalid_data cc
attempt_lem now (broken unexpected_eof) after ts last deadline bytes more h =
    gives_up last deadline _ bytes unexpected_eof cc
attempt_lem now (broken other) after ts last deadline bytes more h =
    gives_up last deadline _ bytes other cc

late_lem :
    (deadline last now : ℕ) (b : Bool)
    → expired b now deadline last ≡ true
    → (deadline ≤ now) ⊎ (last + stall_limit ≤ now)
unfolding expired
late_lem deadline last now b e = elim (Bool-cases (leb deadline now)) [
  | inl q ↦ inl (ground arith)
  | inr q ↦ inr (ground arith)
]

loop_lem :
    (ts : List Attempt) (deadline : ℕ) (b : Bool) (bytes : Bytes) (last : ℕ)
    → Honest last deadline ts bytes (write_loop ts deadline b bytes last)
unfolding write_loop IsLate
loop_lem ts deadline b [] last =
    nothing last deadline ts [] all_written (λ _. refl) (λ e. absurd cc)
loop_lem [] deadline b (x ∷ xs) last =
    nothing last deadline [] (x ∷ xs) stuck (λ e. absurd cc) (λ e. absurd cc)
loop_lem (t ∷ ts) deadline b (x ∷ xs) last = tested (expired b t.now deadline last) refl (
    attempt_lem t.now t.answer t.after ts last deadline (x ∷ xs) (write_loop ts deadline true)
      (λ bytes' last'. loop_lem ts deadline true bytes' last'))
  where
    result : Bool → Progress
    result late =
        if late
        then ([], gave_up timed_out)
        else on_attempt t.answer t.after (x ∷ xs) last (write_loop ts deadline true)

    tested :
        (late : Bool)
        → expired b t.now deadline last ≡ late
        → Honest last deadline
            (t ∷ ts)
            (x ∷ xs)
            (on_attempt t.answer t.after (x ∷ xs) last (write_loop ts deadline true))
        → Honest last deadline (t ∷ ts) (x ∷ xs) (result late)
    tested true e more =
        nothing last deadline (t ∷ ts) (x ∷ xs) (gave_up timed_out) (λ q. absurd cc)
          (λ _. ([], t, ts, refl, late_lem deadline last t.now b e))
    tested false e more = more

-- A write with a deadline has written a beginning of the bytes, all of them when it says so; when
-- it gives up for the time, the clock of some attempt stood at the deadline or later, or the stall
-- limit or more past the end of the last attempt before it that wrote something, or past the start
-- when none had.
pub write_all_by_lem :
    (ts : List Attempt) (start deadline : ℕ) (bytes : Bytes)
    → Honest start deadline ts bytes (write_all_by ts start deadline bytes)
unfolding write_all_by
write_all_by_lem ts start deadline bytes = loop_lem ts deadline false bytes start

take_all : (n : ℕ) (xs : Bytes) → length xs ≤ n → take n xs ≡ xs
take_all zero [] h = refl
take_all zero (x ∷ xs) h = absurd (omega arith)
take_all (suc n) [] h = refl
take_all (suc n) (x ∷ xs) h = ap (◌∷◌ x) (take_all n xs (omega arith))

-- Whatever the deadline and the clocks, when the socket takes all that is offered at the first
-- attempt, a write of some bytes writes them all.
pub tries_once :
    (t : Attempt) (ts : List Attempt) (start deadline n : ℕ) (bytes : Bytes)
    → t.answer ≡ took n
    → 0 < length bytes
    → length bytes ≤ n
    → write_all_by (t ∷ ts) start deadline bytes ≡ (bytes, all_written)
unfolding write_all_by write_loop on_attempt written_first expired
tries_once t ts start deadline zero bytes e some enough = absurd (omega arith)
tries_once t ts start deadline (suc n) [] e some enough = absurd (omega arith)
tries_once t ts start deadline (suc n) (b ∷ bs) e some enough =
    rw (e, take_all n bs (omega arith), drop_all n bs (omega arith))
      (ap (λ (xs : Bytes). (b ∷ xs, all_written)) (append-nil bs))

attempt_ends :
    (answer : WriteAnswer) (after : ℕ) (bytes : Bytes) (last : ℕ) (more : Bytes → ℕ → Progress)
    → ((bytes' : Bytes) (last' : ℕ) → ¬ ((more bytes' last').1 ≡ stuck))
    → ¬ ((on_attempt answer after bytes last more).1 ≡ stuck)
unfolding on_attempt written_first
attempt_ends (took zero) after bytes last more h e = absurd cc
attempt_ends (took (suc n)) after bytes last more h e = h (drop (suc n) bytes) after e
attempt_ends would_block after bytes last more h e = h bytes last e
attempt_ends interrupted after bytes last more h e = h bytes last e
attempt_ends (broken timed_out) after bytes last more h e = h bytes last e
attempt_ends (broken write_zero) after bytes last more h e = absurd cc
attempt_ends (broken invalid_input) after bytes last more h e = absurd cc
attempt_ends (broken invalid_data) after bytes last more h e = absurd cc
attempt_ends (broken unexpected_eof) after bytes last more h e = absurd cc
attempt_ends (broken other) after bytes last more h e = absurd cc

either_ends :
    (late : Bool) (r r' : Progress)
    → ¬ (r.1 ≡ stuck)
    → ¬ (r'.1 ≡ stuck)
    → ¬ ((if late then r else r').1 ≡ stuck)
either_ends true r r' h h' = h
either_ends false r r' h h' = h'

loop_ends :
    (ts : List Attempt) (deadline : ℕ) (bytes : Bytes) (last : ℕ)
    → (u : Attempt) × IsIn u ts × (deadline ≤ u.now)
    → ¬ ((write_loop ts deadline true bytes last).1 ≡ stuck)
unfolding write_loop expired
loop_ends ts deadline [] last l e = absurd cc
loop_ends [] deadline (b ∷ bs) last (u, i, l) e = absurd i
loop_ends (t ∷ ts) deadline (b ∷ bs) last (u, inl q, l) e =
    let late : leb deadline t.now ≡ true = rw (← q) (ground arith) in absurd (ground arith)
loop_ends (t ∷ ts) deadline (b ∷ bs) last (u, inr i, l) e =
    either_ends (expired true t.now deadline last) _ _ (λ q. absurd cc)
      (attempt_ends t.answer t.after (b ∷ bs) last (write_loop ts deadline true)
        (λ bytes' last'. loop_ends ts deadline bytes' last' (u, i, l)))
      e

-- A write with a deadline that has an attempt at the deadline or later, other than the first,
-- comes to an end.
pub ends_by_deadline :
    (t : Attempt) (ts : List Attempt) (start deadline : ℕ) (bytes : Bytes)
    → (u : Attempt) × IsIn u ts × (deadline ≤ u.now)
    → ¬ ((write_all_by (t ∷ ts) start deadline bytes).1 ≡ stuck)
unfolding write_all_by write_loop expired
ends_by_deadline t ts start deadline [] l e = absurd cc
ends_by_deadline t ts start deadline (b ∷ bs) l e =
    attempt_ends t.answer t.after (b ∷ bs) start (write_loop ts deadline true)
      (λ bytes' last'. loop_ends ts deadline bytes' last' l) e
