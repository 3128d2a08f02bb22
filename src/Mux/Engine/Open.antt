-- ===== src/Mux/Engine/Open.antt =====
-- Opening a topic's mux, and the status that it reports.
use xchannel_net.Base.{ℕ, ◌-◌, false, none, some, List, [], ◌∷◌, Bytes, ltb, if◌then◌else◌}
use xchannel_net.Identity.{ChannelName}
use xchannel_net.Replication.{Io, done, failed, blocked, Logs, head}
use xchannel_net.Mux.{TopicGeometry}
use xchannel_net.Mux.Recover.{Cursors, recover_cursors}
use xchannel_net.Mux.Engine.{
  Retained, absent, records, unreadable, Topics, Act, ◌>>=◌, give, try_io, Slot, Mux,
}

module _ (l : Logs) (x : Topics) where
  open x use {Writer, late_join, build}

  -- The cursors at `open`: none when there is no topic yet.
  unfoldable pub recovered_from : Retained → Io Cursors
  recovered_from absent = done []
  recovered_from (records ms) = recover_cursors ms
  recovered_from (unreadable q) = failed q

  unfoldable pub open_with :
      Bytes → ChannelName → TopicGeometry → ℕ → Cursors → Io Writer → Io (Mux l x)
  open_with path name g max_batch recovered (done w) = done (record {
    topic = w;
    geometry = g;
    slots = [];
    next_ref = 0;
    max_batch_per_member = if ltb max_batch 1 then 1 else max_batch;
    recovered = recovered;
    gaps_emitted = 0;
    slot_table_version = 0;
    since_slot_table = 0;
    bytes_in_segment = 0;
    finished = false;
  })
  open_with path name g max_batch recovered (failed q) = failed q
  open_with path name g max_batch recovered blocked = blocked

  unfoldable pub build_topic : Bytes → ChannelName → TopicGeometry → ℕ → Io Cursors → Io (Mux l x)
  build_topic path name g max_batch (done recovered) =
      open_with path name g max_batch recovered (
        build path name g.region_size g.mtu
          (if ltb 0 g.keep_files then some g.keep_files else none))
  build_topic path name g max_batch (failed q) = failed q
  build_topic path name g max_batch blocked = blocked

  unfoldable pub open_mux : Bytes → ChannelName → TopicGeometry → (max_batch : ℕ) → Io (Mux l x)
  open_mux path name g max_batch =
      build_topic path name g max_batch (recovered_from (late_join path))

  pub record MemberStat : Type 0 where
    pub name : ChannelName
    pub epoch : ℕ
    pub merged : ℕ
    pub head : ℕ
    pub lag : ℕ
    pub rejected : ℕ

  pub record MuxStatus : Type 0 where
    pub members : List MemberStat
    pub topic_head : ℕ
    pub gaps_emitted : ℕ
    pub slot_table_version : ℕ

  unfoldable pub stat_of : (Slot l x) → ℕ → MemberStat
  stat_of s last = record {
    name = s.name;
    epoch = s.epoch;
    merged = s.cursor;
    head = last;
    lag = last - s.cursor;
    rejected = s.rejected;
  }

  unfoldable pub stats : List (Slot l x) → Act (Mux l x) (List MemberStat)
  stats [] = give []
  stats (s ∷ ss) = do last ← try_io (head l s.source); rest ← stats ss; give (stat_of s last ∷ rest)

  unfoldable pub status : Act (Mux l x) MuxStatus
  status m =
      (do
        ms ← stats m.slots
        give (record {
          members = ms;
          topic_head = Topics.next_record_index x m.topic;
          gaps_emitted = m.gaps_emitted;
          slot_table_version = m.slot_table_version;
        }))
        m
