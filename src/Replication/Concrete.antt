-- ===== src/Replication/Concrete.antt =====
-- A log and a replica in memory, which the interfaces `Logs` and `Replicas` admit.
use xchannel_net.Base.{
  ℕ, ◌+◌, ◌≡◌, refl, ap, true, Option, none, some, List, [], ◌∷◌, ◌++◌, Bytes, length, leb, ◌==◌,
  ==_iff, if◌then◌else◌, subst,
}
use xchannel_net.Replication.{
  Io, done, failed, blocked, io_error, Message, Entry, Logs, Item, roll, entry, Replicas,
}

-- A reader: the base of the log, its head, the segment it stands in, and what it has not read.
pub record Cursor : Type 0 where
  pub base : ℕ
  pub last : ℕ
  pub segment : ℕ
  pub unread : List Entry

abbrev pub stepped : Cursor → List Entry → Cursor
stepped c [] = c
stepped c (e ∷ es) = record c { segment = e.0; unread = es }

abbrev pub first_of : List Entry → Option Message
first_of [] = none
first_of (e ∷ es) = some e.1

-- Every path opens the same log.
abbrev pub memory_reader : Cursor → Bytes → Io Cursor
memory_reader c path = done c

abbrev pub read_next : Cursor → Io (Option Message × Cursor)
read_next c = done (first_of c.unread, stepped c c.unread)

abbrev pub or_else : Cursor → Io Cursor → Cursor
or_else c (done d) = d
or_else c (failed q) = c
or_else c blocked = c

-- The log that the given cursor opens, when its head is past what is unread.
abbrev pub memory_log : (c : Cursor) → c.last ≡ c.base + length c.unread → Logs
memory_log c fits = record {
  Reader = Cursor;
  open_reader = memory_reader c;
  base_record_index = λ r. r.base;
  generation = λ r. 1;
  head_record_index = λ r. done r.last;
  file_sequence = λ r. r.segment;
  try_read = read_next;
  patience = λ r. length r.unread + 1;
  ahead = λ r. r.unread;
  advance = λ r. stepped r r.unread;
  try_read-cons = λ r e es h. ap (λ o. done (first_of o, stepped r r.unread)) h;
  try_read-nil = λ r h. ap (λ o. done (first_of o, stepped r o)) h;
  ahead-advance = λ r e es h. ap (λ o. (stepped r o).unread) h;
  file_sequence-advance = λ r e es h. ap (λ o. (stepped r o).segment) h;
  head-opened = λ path r e.
      subst (λ (x : Cursor). done x.last ≡ done (x.base + length x.unread)) (ap (or_else c) e)
        (ap done fits);
}

-- A replica: its stamps, the index of its next record, and what it holds.
pub record Copy : Type 0 where
  pub stamp : ℕ
  pub next : ℕ
  pub held : List Item

abbrev pub room : Copy → ℕ → Io (Copy × ℕ)
room w n = if leb n 64 then done (w, n) else failed io_error

abbrev pub add : Copy → Message → Copy
add w m = record w { next = w.next + 1; held = w.held ++ entry m ∷ [] }

abbrev pub fill : Copy × ℕ → Bytes → ℕ → ℕ → ℕ → Io Copy
fill (w, n) payload msg_type len user_meta =
    if len == n
    then done (add w (record { message_type = msg_type; user_meta = user_meta; payload = payload }))
    else failed io_error

abbrev pub new_file : Copy → Copy
new_file w = record w { held = w.held ++ roll ∷ [] }

-- Payloads of up to 64 bytes fit, and a replica bears the name of its path.
abbrev pub memory_replica : Replicas
memory_replica = record {
  Writer = Copy;
  Slot = Copy × ℕ;
  build =
      λ path name g start generation. done (record { stamp = generation; next = start; held = [] });
  writer_generation = λ w. w.stamp;
  next_record_index = λ w. w.next;
  stamped_name = λ path. done path;
  roll_file = λ w. done (new_file w);
  try_reserve = room;
  commit = fill;
  content = λ w. w.held;
  IsHealthy = λ w n. leb n 64 ≡ true;
  rolled = new_file;
  written = add;
  slot = λ w n. (w, n);
  roll_file-healthy = λ w n h. refl;
  try_reserve-healthy = λ w n h. rw h;
  commit-healthy = λ w m h. rw ((==_iff (length m.payload) (length m.payload)).1 refl);
  IsHealthy-rolled = λ w n h. h;
  IsHealthy-written = λ w n m h. h;
  content-rolled = λ w. refl;
  content-written = λ w m. refl;
}
