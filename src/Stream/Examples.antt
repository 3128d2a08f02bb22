-- ===== src/Stream/Examples.antt =====
-- A log of the records 10 to 12, asked for from index 11 and from index 20.
use xchannel_net.Base.{
  ℕ, ◌-◌, ◌<◌, ◌^◌, ◌≡◌, ◌⊎◌, inl, inr, refl, ap, ◌∙◌, bytes_eq, true, false, Option, some, [], ◌∷◌,
  Bytes, length, arith,
}
use xchannel_net.Identity.{ChannelName}
use xchannel_net.Wire.{StreamMsg, Subscription}
use xchannel_net.Wire
use xchannel_net.Codec.{le_bytes, ◌⨾◌}
use xchannel_net.Codec.Put
use xchannel_net.Codec.Utf8.{utf8_valid}
use xchannel_net.Codec.Laws.{IsText}
use xchannel_net.Codec.Stream.{encode_stream, encode_stream_into, IsStream}
use xchannel_net.Replication.{done, failed, Failure, Message, Logs, ReplicationSink, open_sink}
use xchannel_net.Replication.Source.{after}
use xchannel_net.Replication.Concrete.{Cursor, memory_log, memory_replica}
use xchannel_net.Stream.{Transport, Run, ChannelSource, accept_subscription, larger}
use xchannel_net.Stream.Subscriber.{connected, rebuild, subscribe}
use xchannel_net.Stream.Subscriber.Agreement.{rebuild_lem, connect_lem}
use xchannel_net.Stream.Handshake.{
  Serviceable, fresh, resuming, IsRefusal, ack_of, head_of, opened, accept_lem, refuse_lem,
}

abbrev word : ℕ → Message
word b = record { message_type = 1; user_meta = 9; payload = b ∷ [] }

abbrev cursor : Cursor
cursor = record {
  base = 10;
  last = 13;
  segment = 0;
  unread = (0, word 65) ∷ (0, word 66) ∷ (1, word 67) ∷ [];
}

abbrev log : Logs
log = memory_log cursor refl

abbrev md : ChannelName
md = 109 ∷ 100 ∷ []

md-IsText : IsText md
unfolding utf8_valid
md-IsText = record { short = omega arith; utf8 = refl }

abbrev ask : ℕ → Subscription
ask from = record { name = md; from = from; generation = 1 }

abbrev place : ChannelSource
place = record { path = md; region_size = 1048576; mtu = 0; file_roll_size = 0; keep_files = 0 }

abbrev one_channel : ChannelName → Option ChannelSource
one_channel name = some place

-- A connection on which the given bytes arrive.
abbrev receives : Bytes → Transport
receives bs = record { recv_frame = done bs; send_frame = λ b. done tt }

abbrev asks : ℕ → Transport
asks from = receives (encode_stream (Wire.subscribe (ask from)))

ask-IsStream : (from : ℕ) → from < 2 ^ 64 → IsStream (Wire.subscribe (ask from))
ask-IsStream from h = (md-IsText, h, omega arith)

ask_fits : (from : ℕ) → length (encode_stream (Wire.subscribe (ask from))) < 2 ^ 64
unfolding encode_stream encode_stream_into ◌⨾◌ le_bytes Put.u8 Put.u64 Put.str Put.extend Put.u32
ask_fits from = omega arith

eleven_served : Serviceable log (ask 11) 1 10 13
eleven_served = resuming refl (omega arith) (omega arith)

twenty_refused : ¬ Serviceable log (ask 20) 1 10 13
twenty_refused (fresh h) = omega arith
twenty_refused (resuming h kept reached) = omega arith

accept_lem_example : accept_subscription log (asks 11) one_channel ≡ record {
  sent = encode_stream (ack_of log (ask 11) place 1 10 13) ∷ [];
  result = done (after log (larger 11 10 - 10) (opened log cursor));
}
unfolding head_of
accept_lem_example =
    accept_lem log (asks 11) one_channel (ask 11) place cursor (ask-IsStream 11 (omega arith))
      (ask_fits 11) refl (λ b. refl) refl refl eleven_served

refuse_lem_example :
    (m : StreamMsg) × (q : Failure) × IsRefusal log (ask 20) 1 10 13 m
    × (accept_subscription log (asks 20) one_channel
        ≡ record { sent = encode_stream m ∷ []; result = failed q })
unfolding head_of
refuse_lem_example =
    refuse_lem log (asks 20) one_channel (ask 20) place cursor (ask-IsStream 20 (omega arith))
      (ask_fits 20) refl (λ b. refl) refl refl twenty_refused

abbrev diverged_bytes : Bytes
diverged_bytes = encode_stream (Wire.diverged md 10 13)

twenty_answer : (accept_subscription log (asks 20) one_channel).sent ≡ diverged_bytes ∷ []
unfolding head_of
twenty_answer =
    let (m, q, why, run) =
      refuse_lem log (asks 20) one_channel (ask 20) place cursor (ask-IsStream 20 (omega arith))
        (ask_fits 20) refl (λ b. refl) refl refl twenty_refused in
    ap (λ (z : Run _). z.sent) run ∙ elim why [
      | inl (is_gap, same, behind) ↦ absurd (omega (arith, behind))
      | inr (is_diverged, cause) ↦ ap (λ z. encode_stream z ∷ []) is_diverged
    ]

diverged_fits : length diverged_bytes < 2 ^ 64
unfolding encode_stream encode_stream_into ◌⨾◌ le_bytes Put.u8 Put.u64 Put.str Put.extend Put.u32
diverged_fits = omega arith

thirteen_short : head_of log cursor < 2 ^ 64
unfolding head_of
thirteen_short = omega arith

rebuild_lem_example :
    ((subscribe memory_replica (receives diverged_bytes) md 20 1 md).result
      ≡ done (rebuild false 10 10))
    ⊎ ((subscribe memory_replica (receives diverged_bytes) md 20 1 md).result
        ≡ done (rebuild true 10 13))
unfolding head_of
rebuild_lem_example =
    rebuild_lem log memory_replica (asks 20) (receives diverged_bytes) one_channel (ask 20) place
      cursor md (ask-IsStream 20 (omega arith)) (ask_fits 20) refl (λ b. refl) refl refl (λ b. refl)
      diverged_bytes twenty_answer refl diverged_fits thirteen_short twenty_refused

abbrev replica : ReplicationSink memory_replica
replica = record { writer = record { stamp = 1; next = 11; held = [] }; expected_index = 11 }

replica_opens : open_sink memory_replica md md 1048576 0 0 0 (larger 11 10) 1 ≡ done replica
unfolding open_sink larger bytes_eq
replica_opens = refl

abbrev ack_bytes : Bytes
ack_bytes = encode_stream (ack_of log (ask 11) place 1 10 13)

eleven_answer : (accept_subscription log (asks 11) one_channel).sent ≡ ack_bytes ∷ []
unfolding head_of
eleven_answer =
    ap (λ (z : Run _). z.sent)
      (accept_lem log (asks 11) one_channel (ask 11) place cursor (ask-IsStream 11 (omega arith))
        (ask_fits 11) refl (λ b. refl) refl refl eleven_served)

ack_fits : length ack_bytes < 2 ^ 64
unfolding ack_of larger encode_stream encode_stream_into ◌⨾◌ le_bytes Put.u8 Put.u64 Put.str
    Put.extend Put.u32
ack_fits = omega arith

ack-IsStream : IsStream (ack_of log (ask 11) place 1 10 13)
unfolding ack_of larger
ack-IsStream = record {
  name = md-IsText;
  stream_id = omega arith;
  start = omega arith;
  head = omega arith;
  region_size = omega arith;
  mtu = omega arith;
  file_roll_size = omega arith;
  keep_files = omega arith;
  generation = omega arith;
}

connect_lem_example :
    (subscribe memory_replica (receives ack_bytes) md 11 1 md).result
    ≡ done (connected (record { sink = replica; head = 13 }))
unfolding head_of
connect_lem_example =
    connect_lem log memory_replica (asks 11) (receives ack_bytes) one_channel (ask 11) place cursor
      md (ask-IsStream 11 (omega arith)) (ask_fits 11) refl (λ b. refl) refl refl (λ b. refl)
      ack_bytes eleven_answer refl ack_fits thirteen_short replica eleven_served ack-IsStream
      replica_opens
