-- ===== src/Transport/Collect.antt =====
-- What a reader collects of a stream of frames in repeated polls.
use mathlib.Core.List.{append-nil}
use xchannel_net.Base.{
  ℕ, zero, suc, ◌+◌, ◌-◌, ◌≤◌, ◌<◌, ◌≡◌, refl, sym, ap, ◌∙◌, ◌⊎◌, inl, inr, Option, none, some,
  List, [], ◌∷◌, ◌++◌, Bytes, All, length, arith,
}
use xchannel_net.Transport.{
  ok, err, new, max_frame_len, frame_bytes, ReadAnswer, FramedConn, try_recv_frame, Polled,
}
use xchannel_net.Transport.Receive.{
  buffered, IsValid, IsLive, data_of, Ahead, Received, recv_lem, recv_nil,
}

-- The frames of a stream, one behind the other.
unfoldable pub frames_bytes : List Bytes → Bytes
frames_bytes [] = []
frames_bytes (f ∷ fs) = frame_bytes f ++ frames_bytes fs

-- What a reader collects in `n` polls that do not fail, and where it stands after them.
abbrev pub Collected : Type 0
Collected = Option (List Bytes × FramedConn × List ReadAnswer)

collected : Option Bytes → Collected → Collected
collected none r = r
collected (some f) none = none
collected (some f) (some (fs, c, later)) = some (f ∷ fs, c, later)

polled_on :
    Polled ReadAnswer (Option Bytes) → (FramedConn → List ReadAnswer → Collected) → Collected
unfolding collected
polled_on (ok frame, c, later) more = collected frame (more c later)
polled_on (err e, c, later) more = none

pub collect : ℕ → FramedConn → List ReadAnswer → Collected
unfolding polled_on
collect zero c later = some ([], c, later)
collect (suc n) c later = polled_on (try_recv_frame later c) (collect n)

append_nil : (xs ys : List Bytes) → xs ++ ys ≡ [] → (xs ≡ []) × (ys ≡ [])
append_nil [] ys e = (refl, e)
append_nil (x ∷ xs) ys e = absurd (omega (arith, ap length e))

fewer_answers :
    (xs : Bytes) (n m : ℕ) (c : FramedConn) (later : List ReadAnswer)
    → n ≤ m
    → Ahead xs n c later
    → Ahead xs m c later
fewer_answers xs n m c later le h = record {
  valid = h.valid;
  live = h.live;
  stream = h.stream;
  fewer = omega (arith, h.fewer);
}

-- `n` polls of a stream of whole frames collect the first of them, in order; what is ahead then is
-- the others, and there are none unless the socket has too few answers or the polls ran out.
abbrev pub Delivered : ℕ → ℕ → List Bytes → Collected → Type 0
Delivered n m fs r =
    (gs : List Bytes) × (hs : List Bytes) × (c' : FramedConn) × (later' : List ReadAnswer) × (r
      ≡ some (gs, c', later'))
    × (fs ≡ gs ++ hs)
    × Ahead (frames_bytes hs) m c' later'
    × ((hs ≡ []) ⊎ (n < length fs + m))

pub collect_lem :
    (n : ℕ) (fs : List Bytes) (m : ℕ) (c : FramedConn) (later : List ReadAnswer)
    → All (λ f. length f ≤ max_frame_len) fs
    → Ahead (frames_bytes fs) m c later
    → Delivered n m fs (collect n c later)
unfolding collect polled_on collected frames_bytes Received
collect_lem zero [] m c later le h = ([], [], c, later, refl, refl, h, inl refl)
collect_lem zero (f ∷ fs) m c later le h = ([], f ∷ fs, c, later, refl, refl, h, inr (omega arith))
collect_lem (suc n) [] m c later le h =
    let (c', l, e, h') = recv_nil later c m h in
    let (gs, hs, c'', l', e', split, h'', _) = collect_lem n [] m c' l tt h' in
    let (no_gs, no_hs) = append_nil gs hs (sym split) in
    (gs, hs, c'', l', simp (e, e') refl, split, h'', inl no_hs)
collect_lem (suc n) (f ∷ fs) m c later le h =
    elim (recv_lem later c f (frames_bytes fs) le.0
      (record { valid = h.valid; live = h.live; stream = h.stream; fewer = omega arith })) [
        | inl (c', l, e, h') ↦
            let (gs, hs, c'', l', e', split, h'', end) =
              collect_lem n fs m c' l le.1
                (fewer_answers (frames_bytes fs) (length later) m c' l h.fewer h') in
            (
              f ∷ gs,
              hs,
              c'',
              l',
              simp (e, e') refl,
              ap (◌∷◌ f) split,
              h'',
              elim end [ inl none_left ↦ inl none_left | inr few ↦ inr (omega (arith, few)) ],
            )
        | inr (c', l, e, h', p) ↦
            let (gs, hs, c'', l', e', split, h'', end) = collect_lem n (f ∷ fs) (m - 1) c' l le (
              fewer_answers (frames_bytes (f ∷ fs)) (length later - 1) (m - 1) c' l
                (omega (arith, h.fewer)) h') in
            (
              gs,
              hs,
              c'',
              l',
              simp (e, e') refl,
              split,
              fewer_answers (frames_bytes hs) (m - 1) m c'' l' (omega arith) h'',
              elim end [
                | inl none_left ↦ inl none_left
                | inr few ↦ inr (omega (arith, few, p, h.fewer))
              ],
            )
      ]

-- From a socket that neither fails nor ends and brings the bytes of frames within the limit, cut
-- anywhere, as many polls as there are frames and answers together collect all the frames, in
-- order.
pub collect_whole :
    (fs : List Bytes) (later : List ReadAnswer)
    → All (λ f. length f ≤ max_frame_len) fs
    → All IsLive later
    → data_of later ≡ frames_bytes fs
    → (c' : FramedConn) × (later' : List ReadAnswer) × (collect (length fs + length later) new later
        ≡ some (fs, c', later'))
unfolding buffered IsValid new
collect_whole fs later le live e =
    let h : Ahead (frames_bytes fs) (length later) new later = record {
      valid = omega arith;
      live = live;
      stream = e;
      fewer = omega arith;
    } in
    let (gs, hs, c', l, r, split, h', end) =
      collect_lem (length fs + length later) fs (length later) new later le h in
    let no_hs = elim end as (λ _. hs ≡ []) [ inl z ↦ z | inr few ↦ absurd (omega (arith, few)) ] in
    (
      c',
      l,
      r
          ∙ ap (λ (xs : List Bytes). some (xs, c', l))
              (sym (split ∙ ap (◌++◌ gs) no_hs ∙ append-nil gs)),
    )
