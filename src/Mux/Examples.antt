-- ===== src/Mux/Examples.antt =====
-- A topic with two members: its payloads, its slot table, and where its members resume.
use xchannel_net.Base.{◌≡◌, refl, inl, inr, List, [], ◌∷◌, ◌++◌, All, bytes_eq, arith}
use xchannel_net.Codec.Utf8.{utf8_valid}
use xchannel_net.Replication.{done}
use xchannel_net.Mux.{
  TopicGeometry, Provenance, TopicGap, MemberRegressed, MemberClosed, frame_data, split, is_control,
}
use xchannel_net.Mux.Payload.{split-frame_data}
use xchannel_net.Mux.Table.{SlotEntry, encode_slot_table, decode_slot_table}
use xchannel_net.Mux.Table.RoundTrip.{IsEncodable, GeometryFits, decode-encode_slot_table}
use xchannel_net.Mux.Recover.{
  Cursors, cursor_of, entry_member, member_eq, recover_cursors, scan_start, scan_records,
}
use xchannel_net.Mux.Recover.Apart.{IsDistinct, Apart}
use xchannel_net.Mux.Recover.Resume.{
  Merged, MergedFits, next_index, stamps, messages, table_message, resume_lem,
}
use xchannel_net.Mux.Engine.Members.{wanted}

abbrev stamp : Provenance
stamp = record { member_ref = 1; member_index = 7; orig_user_meta = 3 }

split-frame_data_example : split (frame_data stamp (65 ∷ [])) ≡ done (stamp, 65 ∷ [])
split-frame_data_example =
    split-frame_data stamp (65 ∷ []) (omega arith) (omega arith) (omega arith)

abbrev hole : TopicGap
hole = record { member_ref = 1; from = 2; resumed_at = 5 }

abbrev back : MemberRegressed
back = record { member_ref = 1; expected = 9; head = 4 }

abbrev closed : MemberClosed
closed = record { member_ref = 1; final_index = 300 }

abbrev geometry : TopicGeometry
geometry = record { region_size = 65536; mtu = 1500; file_roll_size = 0; keep_files = 4 }

abbrev quiet : SlotEntry
quiet = record { member_ref = 0; name = 97 ∷ 98 ∷ []; epoch = 3; cursor = 5 }

abbrev busy : SlotEntry
busy = record { member_ref = 1; name = 99 ∷ []; epoch = 1; cursor = 0 }

abbrev entries : List SlotEntry
entries = quiet ∷ busy ∷ []

geometry_fits : GeometryFits geometry
geometry_fits = record {
  region_fits = omega arith;
  mtu_fits = omega arith;
  roll_fits = omega arith;
  keep_fits = omega arith;
}

entries_fit : All IsEncodable entries
unfolding utf8_valid
entries_fit = (
  record {
    ref_fits = omega arith;
    epoch_fits = omega arith;
    cursor_fits = omega arith;
    name_fits = omega arith;
    name_valid = refl;
  },
  (
    record {
      ref_fits = omega arith;
      epoch_fits = omega arith;
      cursor_fits = omega arith;
      name_fits = omega arith;
      name_valid = refl;
    },
    tt,
  ),
)

decode-encode_slot_table_example :
    decode_slot_table (encode_slot_table geometry entries)
    ≡ done (record { geometry = geometry; members = entries })
decode-encode_slot_table_example =
    decode-encode_slot_table geometry entries geometry_fits (omega arith) entries_fit

distinct : IsDistinct entries
unfolding IsDistinct Apart member_eq entry_member bytes_eq
distinct = ((((λ e. absurd (omega arith)), refl, refl), tt), (tt, tt))

abbrev merged : List Merged
merged = record { msg_type = 4; provenance = stamp; body = 65 ∷ [] } ∷ []

merged_fits : All MergedFits merged
unfolding is_control
merged_fits = (
  record {
    not_control = refl;
    ref_fits = omega arith;
    index_fits = omega arith;
    meta_fits = omega arith;
  },
  tt,
)

nothing_before : scan_records [] scan_start ≡ done scan_start
unfolding scan_records
nothing_before = refl

resume_lem_example :
    (out : Cursors) × (recover_cursors ([] ++ table_message geometry entries ∷ messages merged)
      ≡ done out)
    × (wanted (cursor_of (entry_member busy) out) ≡ next_index 0 1 (stamps merged))
resume_lem_example =
    resume_lem [] scan_start geometry entries merged busy nothing_before geometry_fits (omega arith)
      entries_fit distinct merged_fits (inr (inl refl))
