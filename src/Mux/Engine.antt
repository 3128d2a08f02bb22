-- ===== src/Mux/Engine.antt =====
-- The engine: merging members into the topic, attaching and removing them, retiring the topic.
-- An operation keeps what it changed before it failed. The topic's writer is the xchannel crate's.
pub mod Merge
pub mod Members
pub mod Open
mod Examples
pub mod Sessions
pub mod Respects
pub mod Writes
use mathlib.Core.List.{map}
use xchannel_net.Base.{
  ℕ, zero, suc, ◌+◌, ◌-◌, ◌*◌, ◌/◌, ◌%◌, ◌^◌, ◌≡◌, Bool, true, false, not, ◌&&◌, ◌||◌, Option, none,
  some, List, [], ◌∷◌, ◌++◌, Bytes, length, bytes_eq, ◌==◌, ltb, leb, if◌then◌else◌,
}
use xchannel_net.Identity.{ChannelName}
use xchannel_net.Wire.{RecordFrame}
use xchannel_net.Replication.{
  Io, done, failed, blocked, Failure, io_error, retired, refs_exhausted, Message, Item, roll, entry,
  Logs, ReplicationSource, open_source, try_next_frame, skip_to, head,
}
use xchannel_net.Mux.{
  TopicGeometry, Provenance, TopicGap, MemberRegressed, MemberClosed, frame_data, is_control,
  topic_gap_payload, member_regressed_payload, member_closed_payload, slot_table_refresh,
  record_overhead, msg_type_slot_table, msg_type_topic_gap, msg_type_member_closed,
  msg_type_terminal, msg_type_member_regressed,
}
use xchannel_net.Mux.Table.{SlotEntry, encode_slot_table}
use xchannel_net.Mux.Recover.{Member, Cursors, cursor_of, recover_cursors}

-- What a channel's files hold for a reader that joins late: nothing is there, its retained records,
-- or they cannot be read.
pub data Retained : Type 0 where
  absent : Retained
  records : List Message → Retained
  unreadable : Failure → Retained

-- The writer of the xchannel crate, and the reader at a path. What succeeds has the stated effect: a
-- commit appends one record, which is the bytes that were copied when the length is theirs.
pub record Topics : Type 1 where
  pub Writer : Type 0
  pub Buffer : Type 0
  pub late_join : Bytes → Retained
  pub build : Bytes → ChannelName → (region_size mtu : ℕ) → (keep_files : Option ℕ) → Io Writer
  pub next_record_index : Writer → ℕ
  pub roll_file : Writer → Io Writer
  pub try_reserve : Writer → ℕ → Io Buffer
  pub commit : Writer → Buffer → Bytes → (msg_type len user_meta : ℕ) → Io Writer
  pub content : Writer → List Item
  pub stored : (msg_type len user_meta : ℕ) → Bytes → Message
  pub content-roll_file :
      (w w' : Writer) → roll_file w ≡ done w' → content w' ≡ content w ++ roll ∷ []
  pub content-commit :
      (w w' : Writer) (b : Buffer) (p : Bytes) (t n u : ℕ)
      → commit w b p t n u ≡ done w'
      → content w' ≡ content w ++ entry (stored t n u p) ∷ []
  pub stored-whole :
      (t u : ℕ) (p : Bytes)
      → stored t (length p) u p ≡ record { message_type = t; user_meta = u; payload = p }

-- An operation on a state, which keeps what was changed before a failure.
abbrev pub Act : Type 0 → Type 0 → Type 0
Act S A = S → Io A × S

unfoldable pub continue : {S A B : Type 0} → Io A × S → (A → Act S B) → Io B × S
continue (done a, s) f = f a s
continue (failed q, s) f = (failed q, s)
continue (blocked, s) f = (blocked, s)

infixl 5 ◌>>=◌
unfoldable pub ◌>>=◌ : {S A B : Type 0} → Act S A → (A → Act S B) → Act S B
(m >>= f) s = continue (m s) f

abbrev pub give : {S A : Type 0} → A → Act S A
give a s = (done a, s)

abbrev pub fail : {S A : Type 0} → Failure → Act S A
fail q s = (failed q, s)

abbrev pub wait : {S A : Type 0} → Act S A
wait s = (blocked, s)

abbrev pub try_io : {S A : Type 0} → Io A → Act S A
try_io a s = (a, s)

abbrev pub modify : {S : Type 0} → (S → S) → Act S (Unit {0})
modify f s = (done tt, f s)

-- `usize::next_multiple_of(8)`
unfoldable pub next_multiple_of_8 : ℕ → ℕ
next_multiple_of_8 n = (n + 7) / 8 * 8

module _ (l : Logs) (x : Topics) where
  open x use {Writer, late_join, build, roll_file, try_reserve, commit}

  pub record Slot : Type 0 where
    pub member_ref : ℕ
    pub name : ChannelName
    pub epoch : ℕ
    pub source : ReplicationSource l
    pub cursor : ℕ
    pub rejected : ℕ

  pub record Mux : Type 0 where
    pub topic : Writer
    pub geometry : TopicGeometry
    pub slots : List Slot
    pub next_ref : ℕ
    pub max_batch_per_member : ℕ
    pub recovered : Cursors
    pub gaps_emitted : ℕ
    pub slot_table_version : ℕ
    pub since_slot_table : ℕ
    pub bytes_in_segment : ℕ
    pub finished : Bool

  -- Reserve, copy, commit; the length is a `u32`.
  committed : Io Writer → ℕ → Act Mux (Unit {0})
  committed (done w) len s = (
    done tt,
    record s {
      topic = w;
      bytes_in_segment = s.bytes_in_segment + (record_overhead + next_multiple_of_8 len);
    },
  )
  committed (failed q) len s = (failed q, s)
  committed blocked len s = (blocked, s)

  -- `try_reserve(..)?`, then the copy and the commit.
  commit_in : Io (Topics.Buffer x) → Writer → ℕ → Bytes → Io Writer
  commit_in (done b) w msg_type payload = commit w b payload msg_type (length payload % 2 ^ 32) 0
  commit_in (failed q) w msg_type payload = failed q
  commit_in blocked w msg_type payload = blocked

  pub commit_record : ℕ → Bytes → Act Mux (Unit {0})
  commit_record msg_type payload s =
      committed (commit_in (try_reserve s.topic (length payload)) s.topic msg_type payload)
        (length payload) s

  entry_of : Slot → SlotEntry
  entry_of s = record {
    member_ref = s.member_ref;
    name = s.name;
    epoch = s.epoch;
    cursor = s.cursor;
  }

  pub emit_slot_table : Act Mux (Unit {0})
  emit_slot_table = do
    payload ← λ s. (done (encode_slot_table s.geometry (map entry_of s.slots)), s)
    _ ← commit_record msg_type_slot_table payload
    modify (λ s. record s { slot_table_version = s.slot_table_version + 1; since_slot_table = 0 })

  pub emit_topic_gap : TopicGap → Act Mux (Unit {0})
  emit_topic_gap g = do
    _ ← commit_record msg_type_topic_gap (topic_gap_payload g)
    modify (λ s. record s { gaps_emitted = s.gaps_emitted + 1 })

  pub emit_member_regressed : MemberRegressed → Act Mux (Unit {0})
  emit_member_regressed g = commit_record msg_type_member_regressed (member_regressed_payload g)

  pub emit_member_closed : MemberClosed → Act Mux (Unit {0})
  emit_member_closed g = commit_record msg_type_member_closed (member_closed_payload g)

  rolled : Io Writer → Act Mux (Unit {0})
  rolled (done w) s = (done tt, record s { topic = w; bytes_in_segment = 0 })
  rolled (failed q) s = (failed q, s)
  rolled blocked s = (blocked, s)

  is_full : Mux → Bool
  is_full s =
      not (s.geometry.file_roll_size == 0 || ltb s.bytes_in_segment s.geometry.file_roll_size)

  pub roll_if_full : Act Mux (Unit {0})
  roll_if_full s =
      if is_full s then (rolled (roll_file s.topic) >>= λ _. emit_slot_table) s else (done tt, s)
