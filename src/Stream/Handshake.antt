-- ===== src/Stream/Handshake.antt =====
-- Which subscriptions an origin serves, from where, and what it answers to the others.
use xchannel_net.Base.{
  ℕ, ◌+◌, ◌-◌, ◌≤◌, ◌<◌, ◌^◌, ◌≡◌, ◌≢◌, ◌⊎◌, inl, inr, refl, ap, ◌∙◌, Option, some, [], ◌∷◌, Bytes,
  length, arith,
}
use xchannel_net.Identity.{ChannelName}
use xchannel_net.Wire.{StreamMsg, Subscription, subscribe, subscribe_ack, gap, diverged}
use xchannel_net.Codec.Stream.{encode_stream, IsStream, decode-encode_stream}
use xchannel_net.Replication.{
  done, failed, Failure, Logs, ReplicationSource, replica_diverged, behind_retention,
  source_generation, open_source, head,
}
use xchannel_net.Replication.Source.{after, skip_to_lem}
use xchannel_net.Stream.{
  Transport, Run, ChannelSource, lift, send, judge, serve, refuse, larger, resume, prepend,
  accept_subscription, decoded, of_result, subscription_of,
}
use xchannel_net.Stream

-- The transport takes every frame.
abbrev pub Takes : Transport → Type 0
Takes t = (bs : Bytes) → t.send_frame bs ≡ done tt

module _ (l : Logs) where
  open l use {Reader, open_reader, base_record_index, generation, ahead, head-opened}

  -- A position the origin can continue from: none yet, or one of this incarnation that is between
  -- the earliest record and the head.
  pub data Serviceable (s : Subscription) (generation earliest last : ℕ) : Type 0 where
    fresh : s.from ≡ 0 → Serviceable s generation earliest last
    resuming :
        s.generation ≡ generation
        → earliest ≤ s.from
        → s.from ≤ last
        → Serviceable s generation earliest last

  unfoldable pub ack_of : Subscription → ChannelSource → (generation earliest last : ℕ) → StreamMsg
  unfolding larger
  ack_of s src generation earliest last = subscribe_ack (record {
    name = s.name;
    stream_id = 0;
    start = larger s.from earliest;
    head = last;
    region_size = src.region_size;
    mtu = src.mtu;
    file_roll_size = src.file_roll_size;
    keep_files = src.keep_files;
    generation = generation;
  })

  judge-serve :
      (t : Transport) (s : Subscription) (src : ChannelSource) (source : ReplicationSource l)
      (last : ℕ)
      → Serviceable s (source_generation l source) source.next_index last
      → source.next_index ≤ last
      → judge l t s src source source.next_index last
        ≡ serve l t s src source source.next_index last
  unfolding judge
  judge-serve t s src source last (fresh h) le = ground arith
  judge-serve t s src source last (resuming h h1 h2) le = ground arith

  serve_bound : {a b c : ℕ} → a ≡ b → c ≤ a → c ≤ b
  serve_bound h k = omega arith

  -- Skipped to the start and acknowledged.
  serve_lem :
      (t : Transport) (s : Subscription) (src : ChannelSource) (source : ReplicationSource l)
      (last : ℕ)
      → Takes t
      → last ≡ source.next_index + length (ahead source.reader)
      → larger s.from source.next_index ≤ last
      → serve l t s src source source.next_index last ≡ record {
        sent =
            encode_stream (ack_of s src (source_generation l source) source.next_index last) ∷ [];
        result = done (after l (larger s.from source.next_index - source.next_index) source);
      }
  unfolding serve ack_of resume prepend
  serve_lem t s src source last takes same le =
      rw (
        skip_to_lem l (larger s.from source.next_index) source _ refl (serve_bound same le),
        takes _,
      )

  -- The source that a path opens, and its head.
  unfoldable pub opened : Reader → ReplicationSource l
  opened r = record { reader = r; next_index = base_record_index r }

  unfoldable pub head_of : Reader → ℕ
  head_of r = base_record_index r + length (ahead r)

  Serviceable-le :
      (s : Subscription) (g earliest last : ℕ)
      → Serviceable s g earliest last
      → earliest ≤ last
      → larger s.from earliest ≤ last
  unfolding larger
  Serviceable-le s g earliest last (fresh h) le = ground arith
  Serviceable-le s g earliest last (resuming h h1 h2) le = ground arith

  -- What a refusal says: that the position is behind what is kept, or that the replica is of another
  -- incarnation, or past the head.
  abbrev pub IsRefusal : Subscription → (generation earliest last : ℕ) → StreamMsg → Type 0
  IsRefusal s g earliest last m =
      ((m ≡ gap s.name earliest earliest) × (s.generation ≡ g) × (s.from < earliest))
      ⊎ ((m ≡ diverged s.name earliest last) × ((s.generation ≢ g) ⊎ (last < s.from)))

  Refused : Transport → Subscription → (g earliest last : ℕ) → Run (ReplicationSource l) → Type 0
  Refused t s g earliest last run =
      (m : StreamMsg) × (q : Failure) × IsRefusal s g earliest last m × (run ≡ refuse t m q)

  -- Where a position stands.
  position :
      (s : Subscription) (g earliest last : ℕ)
      → Serviceable s g earliest last
        ⊎ ((0 < s.from) × (s.generation ≢ g))
        ⊎ ((0 < s.from) × (s.generation ≡ g) × (s.from < earliest))
        ⊎ ((earliest ≤ s.from) × (0 < s.from) × (s.generation ≡ g) × (last < s.from))
  position s g earliest last = grind arith

  judge-refuse :
      (t : Transport) (s : Subscription) (src : ChannelSource) (source : ReplicationSource l)
      (earliest last : ℕ)
      → ¬ Serviceable s (source_generation l source) earliest last
      → Refused t s
          (source_generation l source)
          earliest
          last
          (judge l t s src source earliest last)
  unfolding judge Refused
  judge-refuse t s src source earliest last h =
      elim (position s (source_generation l source) earliest last) [
        | inl ok ↦ absurd (h ok)
        | inr (inl (some_replica, other)) ↦
            (diverged s.name earliest last, replica_diverged, inr (refl, inl other), ground arith)
        | inr (inr (inl (some_replica, same, behind))) ↦
            (gap s.name earliest earliest, behind_retention, inl (refl, same, behind), ground arith)
        | inr (inr (inr (kept, some_replica, same, past))) ↦
            (diverged s.name earliest last, replica_diverged, inr (refl, inr past), ground arith)
      ]

  module _ (t : Transport) (resolve : ChannelName → Option ChannelSource) (s : Subscription)
      (src : ChannelSource) (r : Reader) (valid : IsStream (subscribe s))
      (fits : length (encode_stream (subscribe s)) < 2 ^ 64)
      (received : t.recv_frame ≡ done (encode_stream (subscribe s))) (takes : Takes t)
      (known : resolve s.name ≡ some src) (opens : open_reader src.path ≡ done r) where
    decoded_lem : decoded (encode_stream (subscribe s)) ≡ done (subscribe s)
    unfolding decoded
    decoded_lem = ap of_result (decode-encode_stream (subscribe s) valid fits)

    known_lem : Stream.known (resolve s.name) ≡ done src
    unfolding Stream.known
    known_lem = rw known

    opens_lem : open_source l src.path ≡ done (opened r, base_record_index r)
    unfolding open_source opened
    opens_lem = rw opens

    accept-judge :
        accept_subscription l t resolve
        ≡ judge l t s src (opened r) (base_record_index r) (head_of r)
    unfolding accept_subscription subscription_of head opened head_of resume prepend
    accept-judge = rw (received, decoded_lem, known_lem, opens_lem, head-opened src.path r opens)

    -- On a connection that takes every frame, for a well-formed request of a known channel whose
    -- log opens, a position that the origin can continue from (none yet, or of its generation and
    -- between the earliest record and the head) is answered by one acknowledgement with the
    -- origin's start, head, geometry and generation, and the source stands at that start; it waits
    -- for no record.
    pub accept_lem :
        Serviceable s (generation r) (base_record_index r) (head_of r)
        → accept_subscription l t resolve ≡ record {
          sent = encode_stream (ack_of s src (generation r) (base_record_index r) (head_of r)) ∷ [];
          result =
              done (after l (larger s.from (base_record_index r) - base_record_index r) (opened r));
        }
    unfolding opened head_of source_generation
    accept_lem ok =
        accept-judge
        ∙ judge-serve t s src (opened r) (head_of r) ok (omega arith)
        ∙ serve_lem t s src (opened r) (head_of r) takes refl
            (Serviceable-le s _ _ _ ok (omega arith))

    -- On a connection that takes every frame, for a well-formed request of a known channel whose
    -- log opens, a position that the origin cannot continue from is answered by one message, which
    -- is a gap when it is behind what is kept in the same generation and a divergence only when
    -- the generation differs or the position is past the head; the handshake then fails and waits
    -- for no record.
    pub refuse_lem :
        ¬ Serviceable s (generation r) (base_record_index r) (head_of r)
        → (m : StreamMsg) × (q : Failure) × IsRefusal s
            (generation r)
            (base_record_index r)
            (head_of r)
            m
          × (accept_subscription l t resolve
              ≡ record { sent = encode_stream m ∷ []; result = failed q })
    unfolding opened source_generation Refused refuse resume prepend
    refuse_lem h =
        let (m, q, why, says) =
          judge-refuse t s src (opened r) (base_record_index r) (head_of r) h in
        (m, q, why, accept-judge ∙ says ∙ rw (takes (encode_stream m)))
