-- ===== src/Mux/Recover/Resume.antt =====
-- Where a member resumes after a restart: what the last slot table says of it, and the records behind
-- that table.
use xchannel_net.Base.{
  ℕ, ◌+◌, ◌^◌, ◌<◌, ◌≡◌, ◌≢◌, refl, sym, ap, ◌∙◌, subst, inl, inr, false, ◌&&◌, Option, none, some,
  List, [], ◌∷◌, ◌++◌, Bytes, All, IsIn, length, ◌==◌, ltb, if◌then◌else◌, arith,
}
use xchannel_net.Replication.{Io, done, failed, blocked, ◌>>=◌, Message}
use xchannel_net.Mux.{TopicGeometry, Provenance, frame_data, is_control, msg_type_slot_table}
use xchannel_net.Mux.Payload.{split-frame_data}
use xchannel_net.Mux.Table.{SlotEntry, encode_slot_table}
use xchannel_net.Mux.Table.RoundTrip.{IsEncodable, GeometryFits, decode-encode_slot_table}
use xchannel_net.Mux.Recover.{
  Member, member_eq, Cursors, cursor_of, member_of, entry_member, refs_of, at_least, raise_cursor,
  Scan, scan_table, scan_data, scan_record, scan_records, scan_start, recover_cursors,
}
use xchannel_net.Mux.Recover.Apart.{
  cursor_of-insert, member_eq_refl, Apart, IsDistinct, set_cursors_own, refs_other, refs_own,
  ref_cases, at_member, pair_cases,
}
use xchannel_net.Mux.Engine.Members.{wanted}

-- The index to merge next of the member with ref `r`, which stood at `c`, behind these records.
unfoldable pub next_index : (c r : ℕ) → List Provenance → ℕ
next_index c r [] = c
next_index c r (p ∷ ps) =
    next_index (if p.member_ref == r && ltb c (p.member_index + 1) then p.member_index + 1 else c) r
      ps

scan_all : List Provenance → Scan → Scan
scan_all [] s = s
scan_all (p ∷ ps) s = scan_all ps (scan_data p s)

raised_own :
    (k : Member) (i : ℕ) (m : Cursors)
    → wanted (cursor_of k (raise_cursor (some k) i m))
      ≡ (if ltb (wanted (cursor_of k m)) (i + 1) then i + 1 else wanted (cursor_of k m))
unfolding raise_cursor wanted at_least
raised_own k i m =
    rw (cursor_of-insert k k (at_least i (cursor_of k m)) m, member_eq_refl k)
      (larger (cursor_of k m))
  where
    larger :
        (c : Option ℕ)
        → wanted (some (at_least i c)) ≡ (if ltb (wanted c) (i + 1) then i + 1 else wanted c)
    larger none = ground arith
    larger (some v) = ground arith

raised_other :
    (k j : Member) (i : ℕ) (m : Cursors)
    → member_eq j k ≡ false
    → cursor_of k (raise_cursor (some j) i m) ≡ cursor_of k m
unfolding raise_cursor
raised_other k j i m h = ground (arith, cursor_of-insert k j (at_least i (cursor_of j m)) m)

-- One record behind the table.
data_lem :
    (e : SlotEntry) (es : List SlotEntry) (p : Provenance) (s : Scan)
    → IsDistinct es
    → IsIn e es
    → s.active ≡ refs_of es []
    → wanted (cursor_of (entry_member e) (scan_data p s).out) ≡ (
        let c = wanted (cursor_of (entry_member e) s.out) in
        if p.member_ref == e.member_ref && ltb c (p.member_index + 1)
        then p.member_index + 1
        else c)
unfolding scan_data Apart member_of
data_lem e es p s d i a = elim (ref_cases p.member_ref es) [
  | inl (e', i', q) ↦
      let found : member_of p.member_ref s.active ≡ some (entry_member e') =
        ap (member_of p.member_ref) a
        ∙ subst (λ r. member_of r (refs_of es []) ≡ some (entry_member e')) (sym q)
            (refs_own e' es [] d i') in
      elim (pair_cases e e' es d i i') [
        | inl same ↦ rw (found ∙ ap (λ (f : SlotEntry). some (entry_member f)) same) (
            raised_own (entry_member e) p.member_index s.out
            ∙ when_same (q ∙ ap (λ (f : SlotEntry). f.member_ref) same))
        | inr apart ↦ rw found (
            ap wanted (raised_other (entry_member e) (entry_member e') p.member_index s.out apart.1)
            ∙ when_other (λ r. apart.0 (sym q ∙ r)))
      ]
  | inr h ↦
      rw (ap (member_of p.member_ref) a ∙ refs_other p.member_ref es [] h)
        (when_other (at_member (λ e. p.member_ref ≢ e.member_ref) es e h i))
]
  where
    c : ℕ
    c = wanted (cursor_of (entry_member e) s.out)

    when_same :
        p.member_ref ≡ e.member_ref
        → (if ltb c (p.member_index + 1) then p.member_index + 1 else c) ≡ (
            if p.member_ref == e.member_ref && ltb c (p.member_index + 1)
            then p.member_index + 1
            else c)
    when_same q = ground arith

    when_other :
        p.member_ref ≢ e.member_ref
        → c ≡ (
            if p.member_ref == e.member_ref && ltb c (p.member_index + 1)
            then p.member_index + 1
            else c)
    when_other n = ground arith

scan_data-active : (p : Provenance) (s : Scan) → (scan_data p s).active ≡ s.active
unfolding scan_data
scan_data-active p s = refl

scan_all_lem :
    (e : SlotEntry) (es : List SlotEntry) (ps : List Provenance) (s : Scan)
    → IsDistinct es
    → IsIn e es
    → s.active ≡ refs_of es []
    → wanted (cursor_of (entry_member e) (scan_all ps s).out)
      ≡ next_index (wanted (cursor_of (entry_member e) s.out)) e.member_ref ps
unfolding scan_all next_index
scan_all_lem e es [] s d i a = refl
scan_all_lem e es (p ∷ ps) s d i a =
    scan_all_lem e es ps (scan_data p s) d i (scan_data-active p s ∙ a)
    ∙ ap (λ c. next_index c e.member_ref ps) (data_lem e es p s d i a)

-- A member's record as it stands in the topic.
pub record Merged : Type 0 where
  pub msg_type : ℕ
  pub provenance : Provenance
  pub body : Bytes

pub record MergedFits (r : Merged) : Type 0 where
  pub not_control : is_control r.msg_type ≡ false
  pub ref_fits : r.provenance.member_ref < 2 ^ 16
  pub index_fits : r.provenance.member_index < 2 ^ 64
  pub meta_fits : r.provenance.orig_user_meta < 2 ^ 64

pub merged_message : Merged → Message
merged_message r = record {
  message_type = r.msg_type;
  user_meta = 0;
  payload = frame_data r.provenance r.body;
}

pub table_message : TopicGeometry → List SlotEntry → Message
table_message g es = record {
  message_type = msg_type_slot_table;
  user_meta = 0;
  payload = encode_slot_table g es;
}

abbrev pub stamps : List Merged → List Provenance
stamps [] = []
stamps (r ∷ rs) = r.provenance ∷ stamps rs

abbrev pub messages : List Merged → List Message
messages [] = []
messages (r ∷ rs) = merged_message r ∷ messages rs

not_table : (t : ℕ) → is_control t ≡ false → (t == msg_type_slot_table) ≡ false
unfolding is_control
not_table t h = ground arith

scan_merged_message :
    (r : Merged) (s : Scan)
    → MergedFits r
    → scan_record (merged_message r) s ≡ done (scan_data r.provenance s)
unfolding scan_record merged_message
scan_merged_message r s h =
    rw
      (
        not_table r.msg_type h.not_control,
        h.not_control,
        split-frame_data r.provenance r.body h.ref_fits h.index_fits h.meta_fits,
      )
      refl

scan_merged :
    (rs : List Merged) (s : Scan)
    → All MergedFits rs
    → scan_records (messages rs) s ≡ done (scan_all (stamps rs) s)
unfolding scan_records scan_all
scan_merged [] s h = refl
scan_merged (r ∷ rs) s h =
    rw (scan_merged_message r s h.0) (scan_merged rs (scan_data r.provenance s) h.1)

scan_table_message :
    (g : TopicGeometry) (es : List SlotEntry) (s : Scan)
    → GeometryFits g
    → length es < 2 ^ 16
    → All IsEncodable es
    → scan_record (table_message g es) s
      ≡ done (scan_table (record { geometry = g; members = es }) s)
unfolding scan_record table_message
scan_table_message g es s hg n h = rw (decode-encode_slot_table g es hg n h) refl

scan_records-append :
    (ms ns : List Message) (s : Scan)
    → scan_records (ms ++ ns) s ≡ (scan_records ms s >>= scan_records ns)
unfolding scan_records
scan_records-append [] ns s = refl
scan_records-append (m ∷ ms) ns s = onward (scan_record m s) (scan_records-append ms ns)
  where
    onward :
        (r : Io Scan)
        → ((s : Scan) → scan_records (ms ++ ns) s ≡ (scan_records ms s >>= scan_records ns))
        → (r >>= scan_records (ms ++ ns)) ≡ ((r >>= scan_records ms) >>= scan_records ns)
    onward (done s') h = h s'
    onward (failed q) h = refl
    onward blocked h = refl

-- When the retained records of a topic are some that the scan accepts, a slot table in the ranges
-- of its types that gives no ref and no member twice, and members' records behind it, the
-- recovered cursor of each member of that table is the table's, raised to behind the highest of
-- its records that follow, whatever the earlier records say.
pub resume_lem :
    (before : List Message) (s : Scan) (g : TopicGeometry) (es : List SlotEntry) (rs : List Merged)
    (e : SlotEntry)
    → scan_records before scan_start ≡ done s
    → GeometryFits g
    → length es < 2 ^ 16
    → All IsEncodable es
    → IsDistinct es
    → All MergedFits rs
    → IsIn e es
    → (out : Cursors) × (recover_cursors (before ++ table_message g es ∷ messages rs) ≡ done out)
      × (wanted (cursor_of (entry_member e) out) ≡ next_index e.cursor e.member_ref (stamps rs))
unfolding recover_cursors scan_table scan_records
resume_lem before s g es rs e eb hg n h d hr i =
    let s1 : Scan = scan_table (record { geometry = g; members = es }) s in
    (
      (scan_all (stamps rs) s1).out,
      rw
          (
            scan_records-append before (table_message g es ∷ messages rs) scan_start,
            eb,
            scan_table_message g es s hg n h,
            scan_merged rs s1 hr,
          )
          refl,
      scan_all_lem e es (stamps rs) s1 d i refl
          ∙ ap (λ c. next_index c e.member_ref (stamps rs)) (set_cursors_own e es s.out d i),
    )
