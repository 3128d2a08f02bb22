-- ===== src/Mux/Recover.antt =====
-- Recovery: what the retained records of a topic say of how far each member was merged, and what a
-- topic says of itself. The reader is the xchannel crate's: `late_join` gives the retained records.
pub mod Apart
pub mod Resume
use mathlib.Core.List.{map}
use xchannel_net.Base.{
  ℕ, zero, suc, Bool, ◌&&◌, Option, none, some, List, [], ◌∷◌, bytes_eq, ◌==◌, ltb, if◌then◌else◌,
}
use xchannel_net.Identity.{ChannelName}
use xchannel_net.Replication.{Io, done, failed, blocked, ◌>>=◌, Message}
use xchannel_net.Mux.{TopicGeometry, Provenance, split, is_control, msg_type_slot_table}
use xchannel_net.Mux.Table.{SlotEntry, SlotTable, decode_slot_table}

-- A member: its name and its epoch.
pub record Member : Type 0 where
  pub name : ChannelName
  pub epoch : ℕ

unfoldable pub member_eq : Member → Member → Bool
member_eq a b = bytes_eq a.name b.name && (a.epoch == b.epoch)

-- `HashMap<(String, u64), u64>` and `HashMap<u16, (String, u64)>`, as lists without a key twice.
abbrev pub Cursors : Type 0
Cursors = List (Member × ℕ)

abbrev pub Refs : Type 0
Refs = List (ℕ × Member)

unfoldable pub cursor_of : Member → Cursors → Option ℕ
cursor_of k [] = none
cursor_of k ((j, v) ∷ rest) = if member_eq j k then some v else cursor_of k rest

unfoldable pub remove_cursor : Member → Cursors → Cursors
remove_cursor k [] = []
remove_cursor k ((j, v) ∷ rest) =
    if member_eq j k then remove_cursor k rest else (j, v) ∷ remove_cursor k rest

unfoldable pub insert_cursor : Member → ℕ → Cursors → Cursors
insert_cursor k v m = (k, v) ∷ remove_cursor k m

-- A later entry of a table takes the place of an earlier one with its ref.
unfoldable pub member_of : ℕ → Refs → Option Member
member_of r [] = none
member_of r ((j, k) ∷ rest) = if j == r then some k else member_of r rest

unfoldable pub entry_member : SlotEntry → Member
entry_member e = record { name = e.name; epoch = e.epoch }

pub refs_of : List SlotEntry → Refs → Refs
unfolding entry_member
refs_of [] m = m
refs_of (e ∷ es) m = refs_of es ((e.member_ref, entry_member e) ∷ m)

-- `e.cursor.checked_sub(1)`: nothing merged yet is no cursor.
set_cursor : Member → ℕ → Cursors → Cursors
set_cursor k zero m = remove_cursor k m
set_cursor k (suc highest_merged) m = insert_cursor k highest_merged m

pub set_cursors : List SlotEntry → Cursors → Cursors
unfolding set_cursor entry_member
set_cursors [] m = m
set_cursors (e ∷ es) m = set_cursors es (set_cursor (entry_member e) e.cursor m)

unfoldable pub at_least : ℕ → Option ℕ → ℕ
at_least i none = i
at_least i (some v) = if ltb v i then i else v

-- `out.entry(member).or_insert(0)`, then the maximum.
raise_cursor : Option Member → ℕ → Cursors → Cursors
raise_cursor none i m = m
raise_cursor (some k) i m = insert_cursor k (at_least i (cursor_of k m)) m

-- The state of the scan: the refs in force, and the highest index merged of each member.
pub record Scan : Type 0 where
  pub active : Refs
  pub out : Cursors

scan_table : SlotTable → Scan → Scan
unfolding refs_of set_cursors
scan_table t s = record { active = refs_of t.members []; out = set_cursors t.members s.out }

scan_data : Provenance → Scan → Scan
unfolding raise_cursor
scan_data p s = record s {
  out = raise_cursor (member_of p.member_ref s.active) p.member_index s.out;
}

pub scan_record : Message → Scan → Io Scan
scan_record m s =
    if m.message_type == msg_type_slot_table
    then (do table ← decode_slot_table m.payload; done (scan_table table s))
    else if is_control m.message_type
    then done s
    else (do (prov, body) ← split m.payload; done (scan_data prov s))

unfoldable pub scan_records : List Message → Scan → Io Scan
scan_records [] s = done s
scan_records (m ∷ ms) s = do s' ← scan_record m s; scan_records ms s'

abbrev pub scan_start : Scan
scan_start = record { active = []; out = [] }

-- `recover_cursors` on the retained records.
pub recover_cursors : List Message → Io Cursors
recover_cursors ms = do s ← scan_records ms scan_start; done s.out

pub record TopicConfig : Type 0 where
  pub geometry : TopicGeometry
  pub members : List Member

config_of : SlotTable → TopicConfig
config_of t = record { geometry = t.geometry; members = map entry_member t.members }

-- A table that does not decode is passed over.
config_or : Option TopicConfig → Io SlotTable → Option TopicConfig
unfolding config_of
config_or c (done t) = some (config_of t)
config_or c (failed q) = c
config_or c blocked = c

config_after : Option TopicConfig → List Message → Option TopicConfig
unfolding config_or
config_after c [] = c
config_after c (m ∷ ms) =
    config_after
      (if m.message_type == msg_type_slot_table
        then config_or c (decode_slot_table m.payload)
        else c)
      ms

-- `topic_config` on the retained records.
pub topic_config : List Message → Option TopicConfig
topic_config ms = config_after none ms
