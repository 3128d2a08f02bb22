-- ===== src/Transport/Receive.antt =====
-- What a polled connection makes of a byte stream, however the stream is cut into reads.
use mathlib.Core.List.{append_assoc}
use xchannel_net.Base.{
  ℕ, zero, suc, ◌+◌, ◌-◌, ◌%◌, ◌^◌, ◌≤◌, ◌<◌, ◌≡◌, refl, sym, ap, ◌∙◌, subst, ◌⊎◌, inl, inr, Option,
  none, some, List, [], ◌∷◌, ◌++◌, Bytes, All, length, length-append, take, drop, ltb, Bool-cases,
  arith, take-append, drop-append, take-append_le, drop-append_le, drop-drop, length-drop,
}
use xchannel_net.Codec.{le_bytes, from_le}
use xchannel_net.Codec.Laws.{length-le_bytes, from_le-le_bytes}
use xchannel_net.Transport.{
  ok, max_frame_len, frame_bytes, send_framed, recv_framed, read_exact, frame_body, ReadAnswer, got,
  ended, would_block, interrupted, broken, FramedConn, compact, take_buffered_frame, on_read,
  or_read, try_recv_frame, Polled,
}

-- The bytes that have arrived and are not consumed.
unfoldable pub buffered : FramedConn → Bytes
buffered c = drop c.inbox_off c.inbox

unfoldable pub IsValid : FramedConn → Type 0
IsValid c = c.inbox_off ≤ length c.inbox

pub length-frame_bytes : (f : Bytes) → length (frame_bytes f) ≡ 4 + length f
unfolding frame_bytes
length-frame_bytes f = length-append _ f ∙ ap (λ n. n + length f) (length-le_bytes 4 _)

prefix_lem :
    (f : Bytes) → length f ≤ max_frame_len → from_le (le_bytes 4 (length f % 2 ^ 32)) ≡ length f
prefix_lem f h = from_le-le_bytes 4 (length f % 2 ^ 32) (omega arith) ∙ omega arith

-- The first four bytes of a stream that begins with a frame.
take-frame : (f rest : Bytes) → take 4 (frame_bytes f ++ rest) ≡ le_bytes 4 (length f % 2 ^ 32)
unfolding frame_bytes le_bytes
take-frame f rest = refl

drop-frame : (f rest : Bytes) → drop 4 (frame_bytes f ++ rest) ≡ f ++ rest
unfolding frame_bytes le_bytes
drop-frame f rest = refl

pub drop_all : (n : ℕ) (xs : Bytes) → length xs ≤ n → drop n xs ≡ []
drop_all zero [] h = refl
drop_all zero (x ∷ xs) h = absurd (omega arith)
drop_all (suc n) [] h = refl
drop_all (suc n) (x ∷ xs) h = drop_all n xs (omega arith)

-- What is left is the same, compacted or not.
compact_lem :
    (c : FramedConn) → IsValid c → IsValid (compact c) × (buffered (compact c) ≡ buffered c)
unfolding compact buffered IsValid
compact_lem c v = (ground (arith), ground (arith, drop_all c.inbox_off c.inbox))

-- The length prefix that a buffered frame announces.
announced :
    (c : FramedConn) (f more rest : Bytes)
    → length f ≤ max_frame_len
    → buffered c ++ more ≡ frame_bytes f ++ rest
    → 4 ≤ length (buffered c)
    → from_le (take 4 (buffered c)) ≡ length f
announced c f more rest le e four =
    ap from_le (sym (take-append_le 4 (buffered c) more four) ∙ ap (take 4) e ∙ take-frame f rest)
    ∙ prefix_lem f le

-- Behind the prefix stands the frame, and then the rest.
behind :
    (c : FramedConn) (f more rest : Bytes)
    → buffered c ++ more ≡ frame_bytes f ++ rest
    → 4 ≤ length (buffered c)
    → drop 4 (buffered c) ++ more ≡ f ++ rest
behind c f more rest e four =
    sym (drop-append_le 4 (buffered c) more four) ∙ ap (drop 4) e ∙ drop-frame f rest

body_lem :
    (xs f more rest : Bytes)
    → xs ++ more ≡ f ++ rest
    → length f ≤ length xs
    → (take (length f) xs ≡ f) × (drop (length f) xs ++ more ≡ rest)
body_lem xs f more rest e h = (
  sym (take-append_le (length f) xs more h) ∙ ap (take (length f)) e ∙ take-append f rest,
  sym (drop-append_le (length f) xs more h) ∙ ap (drop (length f)) e ∙ drop-append f rest,
)

-- The stream ahead of the reader begins with the frame `f`: then either the whole frame has arrived
-- and is taken off it, or it has not and nothing changes.
take_buffered_frame_lem :
    (c : FramedConn) (f more rest : Bytes)
    → IsValid c
    → length f ≤ max_frame_len
    → buffered c ++ more ≡ frame_bytes f ++ rest
    → ((c' : FramedConn) × (take_buffered_frame c ≡ ok (some f, c'))
        × IsValid c'
        × (buffered c' ++ more ≡ rest))
      ⊎ ((take_buffered_frame c ≡ ok (none, c)) × (length (buffered c) < 4 + length f))
unfolding take_buffered_frame buffered IsValid
take_buffered_frame_lem c f more rest v le e = elim (Bool-cases (ltb (length (buffered c)) 4)) [
  | inl short ↦ inr (ground (arith, size), ground (arith))
  | inr four ↦ elim (Bool-cases (ltb (length (buffered c)) (4 + length f))) [
    | inl short ↦ inr (ground (arith, size, announced c f more rest le e), ground (arith))
    | inr whole ↦ inl (taken (ground arith) (ground arith))
  ]
]
  where
    size : length c.inbox - c.inbox_off ≡ length (drop c.inbox_off c.inbox)
    size = sym (length-drop c.inbox_off c.inbox)

    spent : FramedConn
    spent = record c { inbox_off = c.inbox_off + 4 + length f }

    taken :
        4 ≤ length (drop c.inbox_off c.inbox)
        → 4 + length f ≤ length (drop c.inbox_off c.inbox)
        → (c' : FramedConn) × (take_buffered_frame c ≡ ok (some f, c'))
          × (c'.inbox_off ≤ length c'.inbox)
          × (drop c'.inbox_off c'.inbox ++ more ≡ rest)
    taken four whole =
        let d = drop-drop 4 c.inbox_off c.inbox in
        let room : length f ≤ length (drop 4 (drop c.inbox_off c.inbox)) =
          omega (arith, length-drop 4 (drop c.inbox_off c.inbox), whole) in
        let b =
          body_lem (drop 4 (drop c.inbox_off c.inbox)) f more rest (behind c f more rest e four)
            room in
        let k = compact_lem spent (omega (arith, size, whole, v)) in
        (
          compact spent,
          ground (arith, size, announced c f more rest le e four, ap (take (length f)) d ∙ b.0),
          k.0,
          ap (λ (xs : Bytes). xs ++ more)
                (k.1 ∙ drop-drop (length f) (c.inbox_off + 4) c.inbox ∙ ap (drop (length f)) d)
              ∙ b.1,
        )

-- A socket that neither fails nor ends.
abbrev pub IsLive : ReadAnswer → Type 0
IsLive (got []) = ⊥
IsLive (got (b ∷ bs)) = Unit {0}
IsLive ended = ⊥
IsLive would_block = Unit {0}
IsLive interrupted = Unit {0}
IsLive (broken e) = ⊥

-- The bytes that the answers bring.
unfoldable pub data_of : List ReadAnswer → Bytes
data_of [] = []
data_of (got bs ∷ later) = bs ++ data_of later
data_of (ended ∷ later) = data_of later
data_of (would_block ∷ later) = data_of later
data_of (interrupted ∷ later) = data_of later
data_of (broken e ∷ later) = data_of later

-- A connection whose stream ahead is `xs`, over at most `n` more answers.
pub record Ahead (xs : Bytes) (n : ℕ) (c : FramedConn) (later : List ReadAnswer) : Type 0 where
  pub valid : IsValid c
  pub live : All IsLive later
  pub stream : buffered c ++ data_of later ≡ xs
  pub fewer : length later ≤ n

-- A poll of a stream that begins with a frame: the frame, or nothing yet and fewer answers to come.
unfoldable pub Received : Bytes → Bytes → ℕ → Polled ReadAnswer (Option Bytes) → Type 0
Received f rest n r =
    ((c' : FramedConn) × (later' : List ReadAnswer) × (r ≡ (ok (some f), c', later'))
      × Ahead rest n c' later')
    ⊎ ((c' : FramedConn) × (later' : List ReadAnswer) × (r ≡ (ok none, c', later'))
        × Ahead (frame_bytes f ++ rest) (n - 1) c' later'
        × (0 < n))

grown :
    (c : FramedConn) (bs : Bytes)
    → IsValid c
    → (IsValid (record c { inbox = c.inbox ++ bs }))
      × (buffered (record c { inbox = c.inbox ++ bs }) ≡ buffered c ++ bs)
unfolding IsValid buffered
grown c bs v = (omega (arith, length-append c.inbox bs, v), drop-append_le c.inbox_off c.inbox bs v)

Received-weaken :
    (f rest : Bytes) (n : ℕ) (r : Polled ReadAnswer (Option Bytes))
    → Received f rest n r
    → Received f rest (suc n) r
unfolding Received
Received-weaken f rest n r (inl (c, l, e, h)) = inl (
  c,
  l,
  e,
  record { valid = h.valid; live = h.live; stream = h.stream; fewer = omega (arith, h.fewer) },
)
Received-weaken f rest n r (inr (c, l, e, h, p)) = inr (
  c,
  l,
  e,
  record { valid = h.valid; live = h.live; stream = h.stream; fewer = omega (arith, h.fewer) },
  omega arith,
)

-- One answer of the socket, given what the rounds after it do.
round :
    (a : ReadAnswer) (later : List ReadAnswer) (c : FramedConn) (f rest : Bytes)
    → Ahead (frame_bytes f ++ rest) (suc (length later)) c (a ∷ later)
    → ((c' : FramedConn)
        → Ahead (frame_bytes f ++ rest) (length later) c' later
        → Received f rest (length later) (try_recv_frame later c'))
    → Received f rest (suc (length later)) (on_read a c later (try_recv_frame later))
unfolding on_read Received data_of
round (got []) later c f rest h more = absurd (h.live.0)
round (got (b ∷ bs)) later c f rest h more =
    let g = grown c (b ∷ bs) h.valid in
    Received-weaken f rest (length later) _ (
      more (record c { inbox = c.inbox ++ b ∷ bs })
        (record {
          valid = g.0;
          live = h.live.1;
          stream =
              ap (λ (xs : Bytes). xs ++ data_of later) g.1
              ∙ append_assoc (buffered c) (b ∷ bs) (data_of later)
              ∙ h.stream;
          fewer = omega arith;
        }))
round ended later c f rest h more = absurd (h.live.0)
round would_block later c f rest h more = inr (
  c,
  later,
  refl,
  record { valid = h.valid; live = h.live.1; stream = h.stream; fewer = omega arith },
  omega arith,
)
round interrupted later c f rest h more =
    Received-weaken f rest (length later) _
      (more c (record { valid = h.valid; live = h.live.1; stream = h.stream; fewer = omega arith }))
round (broken e) later c f rest h more = absurd (h.live.0)

pub recv_lem :
    (later : List ReadAnswer) (c : FramedConn) (f rest : Bytes)
    → length f ≤ max_frame_len
    → Ahead (frame_bytes f ++ rest) (length later) c later
    → Received f rest (length later) (try_recv_frame later c)
unfolding try_recv_frame or_read Received data_of
recv_lem [] c f rest le h = elim (take_buffered_frame_lem c f [] rest h.valid le h.stream) [
  | inl (c', e, v, s) ↦
      inl (c', [], rw e, record { valid = v; live = tt; stream = s; fewer = omega arith })
  | inr (e, short) ↦ absurd (
      omega (
        arith,
        short,
        ap length h.stream,
        length-append (buffered c) [],
        length-append (frame_bytes f) rest,
        length-frame_bytes f,
      ))
]
recv_lem (a ∷ later) c f rest le h =
    elim (take_buffered_frame_lem c f (data_of (a ∷ later)) rest h.valid le h.stream) [
      | inl (c', e, v, s) ↦ inl (
        c',
        a ∷ later,
        rw e,
        record { valid = v; live = h.live; stream = s; fewer = omega arith },
      )
      | inr (e, short) ↦
          subst
            (λ r.
              Received f rest (suc (length later))
                (or_read r c (a ∷ later) (λ c'. on_read a c' later (try_recv_frame later))))
            (sym e)
            (round a later c f rest
              (record {
                valid = h.valid;
                live = h.live;
                stream = h.stream;
                fewer = omega (arith, h.fewer);
              })
              (λ c' h'. recv_lem later c' f rest le h'))
    ]

nothing_buffered : (c : FramedConn) → length (buffered c) ≡ 0 → take_buffered_frame c ≡ ok (none, c)
unfolding take_buffered_frame buffered
nothing_buffered c e = ground (arith, length-drop c.inbox_off c.inbox)

-- A poll of a stream that has nothing for this reader.
pub recv_nil :
    (later : List ReadAnswer) (c : FramedConn) (n : ℕ)
    → Ahead [] n c later
    → (c' : FramedConn) × (later' : List ReadAnswer) × (try_recv_frame later c
        ≡ (ok none, c', later'))
      × Ahead [] n c' later'
unfolding try_recv_frame or_read on_read data_of
recv_nil later c n h = polled later h (nothing_buffered c size)
  where
    size : length (buffered c) ≡ 0
    size = omega (arith, ap length h.stream, length-append (buffered c) (data_of later))

    weaker :
        (a : ReadAnswer) (later : List ReadAnswer)
        → data_of later ≡ data_of (a ∷ later)
        → Ahead [] n c (a ∷ later)
        → Ahead [] n c later
    weaker a later e h = record {
      valid = h.valid;
      live = h.live.1;
      stream = ap (◌++◌ (buffered c)) e ∙ h.stream;
      fewer = omega (arith, h.fewer);
    }

    polled :
        (later : List ReadAnswer)
        → Ahead [] n c later
        → take_buffered_frame c ≡ ok (none, c)
        → (c' : FramedConn) × (later' : List ReadAnswer) × (try_recv_frame later c
            ≡ (ok none, c', later'))
          × Ahead [] n c' later'
    polled [] h e = (c, [], rw e, h)
    polled (got [] ∷ later) h e = absurd (h.live.0)
    polled (got (b ∷ bs) ∷ later) h e = absurd (
        omega (
          arith,
          ap length h.stream,
          length-append (buffered c) (b ∷ bs ++ data_of later),
          length-append (b ∷ bs) (data_of later),
        ))
    polled (ended ∷ later) h e = absurd (h.live.0)
    polled (would_block ∷ later) h e = (c, later, rw e, weaker would_block later refl h)
    polled (interrupted ∷ later) h e =
        let (c', l, q, r) = polled later (weaker interrupted later refl h) e in (c', l, rw e q, r)
    polled (broken x ∷ later) h e = absurd (h.live.0)

-- What a blocking sender writes for a frame within the limit, whatever follows it, a blocking
-- receiver takes off the stream as that frame.
pub recv_framed-send_framed :
    (f rest : Bytes)
    → length f ≤ max_frame_len
    → (sent : Bytes) × (send_framed f ≡ ok sent) × (recv_framed (sent ++ rest) ≡ ok (f, rest))
unfolding send_framed recv_framed frame_body read_exact
recv_framed-send_framed f rest le = (
  frame_bytes f,
  ground arith,
  ground (
    arith,
    take-frame f rest,
    drop-frame f rest,
    prefix_lem f le,
    take-append f rest,
    drop-append f rest,
    length-append (frame_bytes f) rest,
    length-append f rest,
    length-frame_bytes f,
  ),
)
