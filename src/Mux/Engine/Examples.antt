-- ===== src/Mux/Engine/Examples.antt =====
-- A topic in memory that merges a log of two records and a forged one, and is retired.
use xchannel_net.Base.{
  ℕ, ◌≡◌, ◌≢◌, refl, sym, ap, true, false, some, List, [], ◌∷◌, ◌++◌, length, bytes_eq, arith,
}
use xchannel_net.Replication.{
  Io, done, failed, blocked, Message, Item, roll, entry, Logs, try_next_frame, frame_of,
  rolled_since,
}
use xchannel_net.Replication.Concrete.{Cursor, memory_log}
use xchannel_net.Mux.{is_control, frame_data, to_prefix}
use xchannel_net.Codec.{le_bytes}
use xchannel_net.Mux.Engine.{
  Topics, absent, Slot, Mux, continue, ◌>>=◌, committed, commit_in, commit_record, emit_slot_table,
  emit_member_closed, rolled, is_full, roll_if_full, next_multiple_of_8,
}
use xchannel_net.Mux.Engine.Merge.{
  slot_at, update_at, remove_at, set_slot, slot, reject, provenance, refresh, write_data, too_long,
  merge_payload, merge_frame, next_of, merge_next, merge_loop, rounds_of, merge_one, merge_batch,
  merge_members, poll,
}
use xchannel_net.Mux.Engine.Merge.Exact.{Merges}
use xchannel_net.Mux.Engine.Merge.Read.{merge_one_lem}
use xchannel_net.Mux.Engine.Merge.Bounds.{Gains, poll_bound}
use xchannel_net.Mux.Engine.Members.{
  position, drain, remove_slot, remove_member, remove_all, retire, finish,
}
use xchannel_net.Mux.Engine.Merge.Ends.{IsPatient, NeverWaits}
use xchannel_net.Mux.Engine.Members.Ends.{ends_lem}
use xchannel_net.Mux.Engine.Sessions.{polled, perform_all, retired_lem}

abbrev or_nil : Io (List Item) → List Item
or_nil (done w) = w
or_nil (failed q) = []
or_nil blocked = []

abbrev memory_topic : Topics
memory_topic = record {
  Writer = List Item;
  Buffer = ℕ;
  late_join = λ path. absent;
  build = λ path name region_size mtu keep_files. done [];
  next_record_index = λ w. length w;
  roll_file = λ w. done (w ++ roll ∷ []);
  try_reserve = λ w n. done n;
  commit = λ w b payload msg_type len user_meta. done (
      w
      ++ entry (record { message_type = msg_type; user_meta = user_meta; payload = payload }) ∷ []);
  content = λ w. w;
  content-roll_file = λ w w' e. ap or_nil (sym e);
  stored = λ t n u p. record { message_type = t; user_meta = u; payload = p };
  content-commit = λ w w' b p t n u e. ap or_nil (sym e);
  stored-whole = λ t u p. refl;
}

abbrev word : ℕ → ℕ → Message
word t b = record { message_type = t; user_meta = 9; payload = b ∷ [] }

abbrev member_log : Cursor
member_log = record {
  base = 0;
  last = 3;
  segment = 0;
  unread = (0, word 1 65) ∷ (0, word 65535 66) ∷ (1, word 2 67) ∷ [];
}

abbrev log : Logs
log = memory_log member_log refl

abbrev attached : Slot log memory_topic
attached = record {
  member_ref = 0;
  name = 97 ∷ [];
  epoch = 5;
  source = record { reader = member_log; next_index = 0 };
  cursor = 0;
  rejected = 0;
}

abbrev mux : Mux log memory_topic
mux = record {
  topic = [];
  geometry = record { region_size = 4096; mtu = 20; file_roll_size = 0; keep_files = 0 };
  slots = attached ∷ [];
  next_ref = 1;
  max_batch_per_member = 2;
  recovered = [];
  gaps_emitted = 0;
  slot_table_version = 0;
  since_slot_table = 0;
  bytes_in_segment = 0;
  finished = false;
}

-- The forged record is passed over.
poll_merged : poll log memory_topic mux ≡ (done 2, (poll log memory_topic mux).1)
unfolding poll merge_members merge_batch merge_one merge_loop slot slot_at next_of merge_next
    merge_frame merge_payload reject set_slot update_at write_data too_long provenance refresh
    roll_if_full is_full rolled commit_record committed commit_in emit_slot_table rounds_of continue
    ◌>>=◌ next_multiple_of_8 try_next_frame frame_of rolled_since is_control frame_data to_prefix
    le_bytes
poll_merged = refl

poll_bound_example : Gains log memory_topic 2 mux.slots (poll log memory_topic mux).1.slots 2
poll_bound_example = poll_bound log memory_topic mux (poll log memory_topic mux).1 2 poll_merged

merged_first : merge_one log memory_topic 0 mux ≡ (done true, (merge_one log memory_topic 0 mux).1)
unfolding merge_one merge_loop slot slot_at next_of merge_next merge_frame merge_payload reject
    set_slot update_at write_data too_long provenance refresh roll_if_full is_full rolled
    commit_record committed commit_in emit_slot_table rounds_of continue ◌>>=◌ next_multiple_of_8
    try_next_frame frame_of rolled_since is_control frame_data to_prefix le_bytes
merged_first = refl

found : slot_at log memory_topic 0 mux.slots ≡ some attached
unfolding slot_at
found = refl

merge_one_lem_example :
    Merges log memory_topic 0 attached mux true (merge_one log memory_topic 0 mux).1
merge_one_lem_example =
    merge_one_lem log memory_topic 0 attached mux (merge_one log memory_topic 0 mux).1 true found
      merged_first

finish_done : finish log memory_topic mux ≡ (done tt, (finish log memory_topic mux).1)
unfolding finish retire remove_all remove_member position remove_slot drain remove_at
    emit_member_closed bytes_eq poll merge_members merge_batch merge_one merge_loop slot slot_at
    next_of merge_next merge_frame merge_payload reject set_slot update_at write_data too_long
    provenance refresh roll_if_full is_full rolled commit_record committed commit_in emit_slot_table
    rounds_of continue ◌>>=◌ next_multiple_of_8 try_next_frame frame_of rolled_since is_control
    frame_data to_prefix le_bytes
finish_done = refl

retired_lem_example :
    ((finish log memory_topic mux).1.finished ≡ true)
    × ((finish log memory_topic mux).1.slots ≡ [])
    × (perform_all log memory_topic (polled ∷ []) (finish log memory_topic mux).1
        ≡ (finish log memory_topic mux).1)
retired_lem_example =
    retired_lem log memory_topic mux (finish log memory_topic mux).1 (polled ∷ []) refl finish_done

memory_patient : IsPatient log memory_topic
memory_patient = record { enough = λ r. omega arith }

memory_returns : NeverWaits log memory_topic
memory_returns = record {
  roll_returns = λ w e. absurd cc;
  reserve_returns = λ w n e. absurd cc;
  commit_returns = λ w b p t n u e. absurd cc;
}

ends_lem_example :
    ((poll log memory_topic mux).0 ≢ blocked)
    × ((remove_member log memory_topic (97 ∷ []) 5 mux).0 ≢ blocked)
    × ((finish log memory_topic mux).0 ≢ blocked)
ends_lem_example = ends_lem log memory_topic mux (97 ∷ []) 5 memory_patient memory_returns
