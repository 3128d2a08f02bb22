-- ===== src/Mux/Table.antt =====
-- The slot table: its encoding, and the decoder with its own `take`.
pub mod RoundTrip
use xchannel_net.Base.{
  ℕ, zero, suc, ◌+◌, ◌^◌, ◌%◌, ◌≡◌, List, [], ◌∷◌, ◌++◌, Bytes, length, take, drop, ltb, ◌==◌,
  if◌then◌else◌,
}
use xchannel_net.Codec.{le_bytes, from_le}
use xchannel_net.Codec.Utf8.{utf8_valid}
use xchannel_net.Identity.{ChannelName}
use xchannel_net.Replication.{Io, done, failed, ◌>>=◌, truncated_table, table_version, slot_name}
use xchannel_net.Mux.{TopicGeometry}

pub record SlotEntry : Type 0 where
  pub member_ref : ℕ
  pub name : ChannelName
  pub epoch : ℕ
  pub cursor : ℕ

pub record SlotTable : Type 0 where
  pub geometry : TopicGeometry
  pub members : List SlotEntry

abbrev pub slot_table_version : ℕ
slot_table_version = 2

encode_slot_entry : SlotEntry → Bytes
encode_slot_entry e =
    le_bytes 2 e.member_ref
    ++ le_bytes 8 e.epoch
    ++ le_bytes 8 e.cursor
    ++ le_bytes 2 (length e.name % 2 ^ 16)
    ++ e.name

encode_slot_entries : List SlotEntry → Bytes
unfolding encode_slot_entry
encode_slot_entries [] = []
encode_slot_entries (e ∷ es) = encode_slot_entry e ++ encode_slot_entries es

pub encode_slot_table : TopicGeometry → List SlotEntry → Bytes
unfolding encode_slot_entries
encode_slot_table g entries =
    slot_table_version ∷ le_bytes 4 g.region_size
    ++ le_bytes 4 g.mtu
    ++ le_bytes 8 g.file_roll_size
    ++ le_bytes 4 g.keep_files
    ++ le_bytes 2 (length entries % 2 ^ 16)
    ++ encode_slot_entries entries

-- The bytes of the table that are not read yet.
abbrev Parses : Type 0 → Type 0
Parses A = Bytes → Io (A × Bytes)

abbrev then_parse : {A B : Type 0} → Parses A → (A → Parses B) → Parses B
then_parse m f b = do (a, rest) ← m b; f a rest

cut : ℕ → Parses Bytes
cut n b = if ltb (length b) n then failed truncated_table else done (take n b, drop n b)

number : ℕ → Parses ℕ
unfolding cut
number k b = do (s, rest) ← cut k b; done (from_le s, rest)

name_of : Bytes → Bytes → Io (ChannelName × Bytes)
name_of s rest = if utf8_valid s then done (s, rest) else failed slot_name

decode_slot_entry : Parses SlotEntry
decode_slot_entry b = do
  (member_ref, b) ← number 2 b
  (epoch, b) ← number 8 b
  (cursor, b) ← number 8 b
  (name_len, b) ← number 2 b
  (s, b) ← cut name_len b
  (name, b) ← name_of s b
  done (record { member_ref = member_ref; name = name; epoch = epoch; cursor = cursor }, b)

decode_slot_entries : ℕ → Parses (List SlotEntry)
decode_slot_entries zero b = done ([], b)
decode_slot_entries (suc n) b = do
  (e, b) ← decode_slot_entry b
  (es, b) ← decode_slot_entries n b
  done (e ∷ es, b)

pub decode_slot_table : Bytes → Io SlotTable
decode_slot_table b = do
  (version, b) ← number 1 b
  if version == slot_table_version
      then (do
        (region_size, b) ← number 4 b
        (mtu, b) ← number 4 b
        (file_roll_size, b) ← number 8 b
        (keep_files, b) ← number 4 b
        (count, b) ← number 2 b
        (members, b) ← decode_slot_entries count b
        done (record {
          geometry = record {
            region_size = region_size;
            mtu = mtu;
            file_roll_size = file_roll_size;
            keep_files = keep_files;
          };
          members = members;
        }))
      else failed table_version
