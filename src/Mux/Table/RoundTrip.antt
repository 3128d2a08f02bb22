-- ===== src/Mux/Table/RoundTrip.antt =====
-- A slot table is read back from its encoding.
use mathlib.Core.List.{append_assoc, append-nil}
use xchannel_net.Base.{
  ℕ, ◌^◌, ◌%◌, ◌<◌, ◌≡◌, refl, sym, ap, subst, true, List, [], ◌∷◌, ◌++◌, Bytes, All, length,
  length-append, arith, take-append, drop-append,
}
use xchannel_net.Codec.{le_bytes}
use xchannel_net.Codec.Laws.{from_le-le_bytes, length-le_bytes}
use xchannel_net.Codec.Utf8.{utf8_valid}
use xchannel_net.Replication.{done}
use xchannel_net.Mux.{TopicGeometry}
use xchannel_net.Mux.Table.{
  SlotEntry, cut, number, name_of, slot_table_version, encode_slot_entry, encode_slot_entries,
  encode_slot_table, decode_slot_entry, decode_slot_entries, decode_slot_table,
}

-- An entry in the ranges of its types, whose name is a Rust string that its length field can count.
pub record IsEncodable (e : SlotEntry) : Type 0 where
  pub ref_fits : e.member_ref < 2 ^ 16
  pub epoch_fits : e.epoch < 2 ^ 64
  pub cursor_fits : e.cursor < 2 ^ 64
  pub name_fits : length e.name < 2 ^ 16
  pub name_valid : utf8_valid e.name ≡ true

pub record GeometryFits (g : TopicGeometry) : Type 0 where
  pub region_fits : g.region_size < 2 ^ 32
  pub mtu_fits : g.mtu < 2 ^ 32
  pub roll_fits : g.file_roll_size < 2 ^ 64
  pub keep_fits : g.keep_files < 2 ^ 32

cut_lem : (s rest : Bytes) → cut (length s) (s ++ rest) ≡ done (s, rest)
unfolding cut
cut_lem s rest = ground (arith, length-append s rest, take-append s rest, drop-append s rest)

number_lem :
    (k v : ℕ) (rest : Bytes) → v < 256 ^ k → number k (le_bytes k v ++ rest) ≡ done (v, rest)
unfolding number
number_lem k v rest h =
    let c : cut k (le_bytes k v ++ rest) ≡ done (le_bytes k v, rest) =
      subst (λ n. cut n (le_bytes k v ++ rest) ≡ done (le_bytes k v, rest)) (length-le_bytes k v)
        (cut_lem (le_bytes k v) rest) in
    rw c (ap (λ n. done (n, rest)) (from_le-le_bytes k v h))

count_lem : {A : Type 0} (xs : List A) → length xs < 2 ^ 16 → length xs % 2 ^ 16 ≡ length xs
count_lem xs h = omega arith

-- The bytes of an entry, field by field.
entry_bytes :
    (e : SlotEntry) (rest : Bytes)
    → encode_slot_entry e ++ rest
      ≡ le_bytes 2 e.member_ref
        ++ (le_bytes 8 e.epoch
            ++ (le_bytes 8 e.cursor ++ (le_bytes 2 (length e.name % 2 ^ 16) ++ (e.name ++ rest))))
unfolding encode_slot_entry le_bytes
entry_bytes e rest = refl

name_lem :
    (e : SlotEntry) (rest : Bytes)
    → IsEncodable e
    → cut (length e.name % 2 ^ 16) (e.name ++ rest) ≡ done (e.name, rest)
name_lem e rest h =
    subst (λ n. cut n (e.name ++ rest) ≡ done (e.name, rest)) (omega (arith, h.name_fits))
      (cut_lem e.name rest)

entry_lem :
    (e : SlotEntry) (rest : Bytes)
    → IsEncodable e
    → decode_slot_entry (encode_slot_entry e ++ rest) ≡ done (e, rest)
unfolding decode_slot_entry name_of
entry_lem e rest h =
    rw
      (
        entry_bytes e rest,
        number_lem 2 e.member_ref _ h.ref_fits,
        number_lem 8 e.epoch _ h.epoch_fits,
        number_lem 8 e.cursor _ h.cursor_fits,
        number_lem 2 (length e.name % 2 ^ 16) (e.name ++ rest) (omega (arith)),
        name_lem e rest h,
        h.name_valid,
      )
      refl

entries_lem :
    (es : List SlotEntry) (rest : Bytes)
    → All IsEncodable es
    → decode_slot_entries (length es) (encode_slot_entries es ++ rest) ≡ done (es, rest)
unfolding decode_slot_entries encode_slot_entries
entries_lem [] rest h = refl
entries_lem (e ∷ es) rest h =
    rw
      (
        append_assoc (encode_slot_entry e) (encode_slot_entries es) rest,
        entry_lem e _ h.0,
        entries_lem es rest h.1,
      )
      refl

table_bytes :
    (g : TopicGeometry) (es : List SlotEntry)
    → encode_slot_table g es
      ≡ le_bytes 1 slot_table_version
        ++ (le_bytes 4 g.region_size
            ++ (le_bytes 4 g.mtu
                ++ (le_bytes 8 g.file_roll_size
                    ++ (le_bytes 4 g.keep_files
                        ++ (le_bytes 2 (length es % 2 ^ 16) ++ (encode_slot_entries es ++ []))))))
unfolding encode_slot_table le_bytes
table_bytes g es =
    ap
      (λ (xs : Bytes).
        le_bytes 1 slot_table_version
        ++ (le_bytes 4 g.region_size
            ++ (le_bytes 4 g.mtu
                ++ (le_bytes 8 g.file_roll_size
                    ++ (le_bytes 4 g.keep_files ++ (le_bytes 2 (length es % 2 ^ 16) ++ xs))))))
      (sym (append-nil (encode_slot_entries es)))

-- A slot table with geometry and entries in the ranges of their types, fewer than 2^16 entries,
-- and names that are valid UTF-8 of fewer than 2^16 bytes decodes from its encoding.
pub decode-encode_slot_table :
    (g : TopicGeometry) (es : List SlotEntry)
    → GeometryFits g
    → length es < 2 ^ 16
    → All IsEncodable es
    → decode_slot_table (encode_slot_table g es) ≡ done (record { geometry = g; members = es })
unfolding decode_slot_table
decode-encode_slot_table g es hg n h =
    rw
      (
        table_bytes g es,
        number_lem 1 slot_table_version _ (omega arith),
        number_lem 4 g.region_size _ hg.region_fits,
        number_lem 4 g.mtu _ hg.mtu_fits,
        number_lem 8 g.file_roll_size _ hg.roll_fits,
        number_lem 4 g.keep_files _ hg.keep_fits,
        number_lem 2 (length es % 2 ^ 16) _ (omega arith),
        count_lem es n,
        entries_lem es [] h,
      )
      refl
