-- ===== src/Mux/Payload.antt =====
-- The payloads of fixed length: what is written is read back.
use xchannel_net.Base.{
  ℕ, ◌^◌, ◌<◌, ◌≡◌, refl, ap, false, [], ◌++◌, Bytes, length, take, drop, ltb, arith,
}
use xchannel_net.Codec.{le_bytes, from_le}
use xchannel_net.Codec.Laws.{from_le-le_bytes}
use xchannel_net.Replication.{done}
use xchannel_net.Mux.{
  Provenance, TopicGap, MemberRegressed, MemberClosed, to_prefix, split, frame_data,
  topic_gap_payload, decode_topic_gap, member_regressed_payload, decode_member_regressed,
  member_closed_payload, decode_member_closed,
}

three :
    (a b c : ℕ) (rest : Bytes)
    → a < 2 ^ 16
    → b < 2 ^ 64
    → c < 2 ^ 64
    → let bytes = le_bytes 2 a ++ (le_bytes 8 b ++ (le_bytes 8 c ++ rest)) in
      (ltb (length bytes) 18 ≡ false)
      × (from_le (take 2 bytes) ≡ a)
      × (from_le (take 8 (drop 2 bytes)) ≡ b)
      × (from_le (take 8 (drop 10 bytes)) ≡ c)
      × (drop 18 bytes ≡ rest)
unfolding le_bytes
three a b c rest ha hb hc =
    (ground arith, from_le-le_bytes 2 a ha, from_le-le_bytes 8 b hb, from_le-le_bytes 8 c hc, refl)

two :
    (a b : ℕ) (rest : Bytes)
    → a < 2 ^ 16
    → b < 2 ^ 64
    → let bytes = le_bytes 2 a ++ (le_bytes 8 b ++ rest) in
      (ltb (length bytes) 10 ≡ false)
      × (from_le (take 2 bytes) ≡ a)
      × (from_le (take 8 (drop 2 bytes)) ≡ b)
unfolding le_bytes
two a b rest ha hb = (ground arith, from_le-le_bytes 2 a ha, from_le-le_bytes 8 b hb)

three_eq :
    {A : Type 0} {a b c a' b' c' : ℕ} (f : ℕ → ℕ → ℕ → A)
    → a ≡ a'
    → b ≡ b'
    → c ≡ c'
    → f a b c ≡ f a' b' c'
three_eq f p q r = rw (p, q, r) refl

two_eq : {A : Type 0} {a b a' b' : ℕ} (f : ℕ → ℕ → A) → a ≡ a' → b ≡ b' → f a b ≡ f a' b'
two_eq f p q = rw (p, q) refl

-- A topic record of a member, whose provenance is in the ranges of its types, splits into that
-- provenance and the member's payload.
pub split-frame_data :
    (p : Provenance) (body : Bytes)
    → p.member_ref < 2 ^ 16
    → p.member_index < 2 ^ 64
    → p.orig_user_meta < 2 ^ 64
    → split (frame_data p body) ≡ done (p, body)
unfolding split frame_data to_prefix le_bytes
split-frame_data p body r i u =
    let (short, a, b, c, d) = three p.member_ref p.member_index p.orig_user_meta body r i u in
    rw short (
      ap done (
        three_eq (λ x y z. (record { member_ref = x; member_index = y; orig_user_meta = z }, body))
          a b c))

-- The marks for a gap, a regression and a closed member, with fields in the ranges of their types,
-- decode from their payloads.
pub decode-payload :
    (g : TopicGap) (m : MemberRegressed) (c : MemberClosed)
    → (g.member_ref < 2 ^ 16) × (g.from < 2 ^ 64) × (g.resumed_at < 2 ^ 64)
    → (m.member_ref < 2 ^ 16) × (m.expected < 2 ^ 64) × (m.head < 2 ^ 64)
    → (c.member_ref < 2 ^ 16) × (c.final_index < 2 ^ 64)
    → (decode_topic_gap (topic_gap_payload g) ≡ done g)
      × (decode_member_regressed (member_regressed_payload m) ≡ done m)
      × (decode_member_closed (member_closed_payload c) ≡ done c)
unfolding decode_topic_gap topic_gap_payload decode_member_regressed member_regressed_payload
    decode_member_closed member_closed_payload le_bytes
decode-payload g m c hg hm hc =
    let (short, a, b, d, _) = three g.member_ref g.from g.resumed_at [] hg.0 hg.1 hg.2 in
    let (short', a', b', d', _) = three m.member_ref m.expected m.head [] hm.0 hm.1 hm.2 in
    let (short'', a'', b'') = two c.member_ref c.final_index [] hc.0 hc.1 in
    (
      ap done (three_eq (λ x y z. record { member_ref = x; from = y; resumed_at = z }) a b d),
      ap done (three_eq (λ x y z. record { member_ref = x; expected = y; head = z }) a' b' d'),
      ap done (two_eq (λ x y. record { member_ref = x; final_index = y }) a'' b''),
    )
