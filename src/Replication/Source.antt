-- ===== src/Replication/Source.antt =====
-- What a source over a log delivers, and where it stands afterwards.
use xchannel_net.Base.{
  ℕ, zero, suc, ◌+◌, ◌-◌, ◌≤◌, ◌≡◌, refl, not, none, some, List, [], ◌∷◌, length, arith, take, drop,
  ◌==◌,
}
use xchannel_net.Wire.{RecordFrame}
use xchannel_net.Replication.{
  done, Entry, Logs, ReplicationSource, try_next_frame, frame_of, rolled_since, pull, pull_rest,
  skip_to, skip, passed,
}

-- The frames that carry the records `es` from the index `i` on, read from the segment `seg`: the
-- indices run on by one, and a record whose segment is not its predecessor's starts a segment.
unfoldable pub frames_from : ℕ → ℕ → List Entry → List RecordFrame
frames_from i seg [] = []
frames_from i seg (e ∷ es) =
    record {
      index = i;
      msg_type = e.1.message_type;
      user_meta = e.1.user_meta;
      starts_segment = not (e.0 == seg);
      payload = e.1.payload;
    }
    ∷ frames_from (i + 1) e.0 es

module _ (l : Logs) where
  open l use {
    Reader, file_sequence, ahead, advance, try_read-cons, try_read-nil, ahead-advance,
    file_sequence-advance,
  }

  -- A source after it passed `n` records.
  unfoldable pub after : ℕ → ReplicationSource l → ReplicationSource l
  after zero s = s
  after (suc n) s = after n (record { reader = advance s.reader; next_index = s.next_index + 1 })

  pub after-next_index :
      (n : ℕ) (s : ReplicationSource l) → (after n s).next_index ≡ s.next_index + n
  unfolding after
  after-next_index zero s = omega arith
  after-next_index (suc n) s = omega (
    arith,
    after-next_index n (record { reader = advance s.reader; next_index = s.next_index + 1 }),
  )

  pub after-ahead :
      (n : ℕ) (s : ReplicationSource l) (es : List Entry)
      → ahead s.reader ≡ es
      → n ≤ length es
      → ahead (after n s).reader ≡ drop n es
  unfolding after
  after-ahead zero s es h le = h
  after-ahead (suc n) s [] h le = absurd (omega arith)
  after-ahead (suc n) s (e ∷ es) h le =
      after-ahead n _ es (ahead-advance s.reader e es h) (omega arith)

  -- The frame of the first record ahead.
  pub try_next_frame-cons :
      (s : ReplicationSource l) (e : Entry) (es : List Entry)
      → ahead s.reader ≡ e ∷ es
      → try_next_frame l s
        ≡ done (
          some (record {
            index = s.next_index;
            msg_type = e.1.message_type;
            user_meta = e.1.user_meta;
            starts_segment = not (e.0 == file_sequence s.reader);
            payload = e.1.payload;
          }),
          record { reader = advance s.reader; next_index = s.next_index + 1 },
        )
  unfolding try_next_frame frame_of rolled_since
  try_next_frame-cons s e es h =
      rw (try_read-cons s.reader e es h, file_sequence-advance s.reader e es h)

  pub try_next_frame-nil :
      (s : ReplicationSource l) → ahead s.reader ≡ [] → try_next_frame l s ≡ done (none, s)
  unfolding try_next_frame frame_of
  try_next_frame-nil s h = rw (try_read-nil s.reader h)

  -- Up to so many calls of `try_next_frame` give the frames of the records ahead, with consecutive
  -- indices and a segment start where the segment changes, as far as there are any, and leave the
  -- source after the last one.
  pub pull_lem :
      (calls : ℕ) (s : ReplicationSource l) (es : List Entry)
      → ahead s.reader ≡ es
      → pull l calls s
        ≡ done (
          frames_from s.next_index (file_sequence s.reader) (take calls es),
          after (length (take calls es)) s,
        )
  unfolding pull pull_rest frames_from after
  pull_lem zero s es h = refl
  pull_lem (suc n) s [] h = rw (try_next_frame-nil s h)
  pull_lem (suc n) s (e ∷ es) h = rw (
    try_next_frame-cons s e es h,
    pull_lem n (record { reader = advance s.reader; next_index = s.next_index + 1 }) es
        (ahead-advance s.reader e es h),
    file_sequence-advance s.reader e es h,
  )

  skip_lem :
      (n : ℕ) (s : ReplicationSource l) (es : List Entry)
      → ahead s.reader ≡ es
      → n ≤ length es
      → skip l n s ≡ done (after n s)
  unfolding skip passed after
  skip_lem zero s es h le = refl
  skip_lem (suc n) s [] h le = absurd (omega arith)
  skip_lem (suc n) s (e ∷ es) h le =
      rw (try_read-cons s.reader e es h)
        (skip_lem n _ es (ahead-advance s.reader e es h) (omega arith))

  -- A skip to an index that the log has reached ends without waiting, with the source after the
  -- records before that index.
  pub skip_to_lem :
      (from : ℕ) (s : ReplicationSource l) (es : List Entry)
      → ahead s.reader ≡ es
      → from ≤ s.next_index + length es
      → skip_to l from s ≡ done (after (from - s.next_index) s)
  unfolding skip_to
  skip_to_lem from s es h le = skip_lem (from - s.next_index) s es h (omega arith)
