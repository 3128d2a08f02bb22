-- ===== src/Codec/Laws.antt =====
-- The round trip of one write with one read, and how round trips compose: what a sequence of writes
-- appends, the same sequence of reads takes off the front of what is left of the frame.
use mathlib.Core.List.{append_assoc, append-nil}
use xchannel_net.Base.{
  ℕ, zero, suc, ◌+◌, ◌/◌, ◌^◌, ◌≤◌, ◌<◌, ◌≡◌, refl, sym, ap, ◌∙◌, subst, Bool, true, false, List,
  [], ◌∷◌, ◌++◌, Bytes, All, arith, length, length-append, take, drop, take-append, drop-append,
  drop-drop, length-drop,
}
use xchannel_net.Codec.{
  W, ◌⨾◌, write_nothing, le_bytes, from_le, ok, err, Error, trailing_bytes, R, reader, Reads, ◌>>=◌,
  pure,
}
use xchannel_net.Codec.Utf8.{utf8_valid}
use xchannel_net.Codec.Put
use xchannel_net.Codec.Get

-- What is left of the frame; a slice is shorter than the address space.
pub record Ahead (r : R) (xs : Bytes) : Type 0 where
  pub left : drop r.pos r.buf ≡ xs
  pub inside : r.pos ≤ length r.buf
  pub fits : length r.buf < 2 ^ 64

-- The reader takes `bs` off what is left and returns `a`.
abbrev pub Takes : {A : Type 0} → Reads A → Bytes → A → Type 0
Takes m bs a =
    (r : R) (rest : Bytes) → Ahead r (bs ++ rest) → (r' : R) × (m r ≡ ok (a, r')) × Ahead r' rest

-- The writer appends bytes that the reader takes for `a`.
pub record Carries {A : Type 0} (p : W) (m : Reads A) (a : A) : Type 0 where
  pub bytes : Bytes
  pub writes : (w : Bytes) → p w ≡ w ++ bytes
  pub takes : Takes m bytes a

take_slice : (bs : Bytes) → Takes (Get.slice (length bs)) bs bs
unfolding Get.slice
take_slice bs r rest h = (record r { pos = r.pos + length bs }, got, after)
  where
    room : r.pos + length bs ≤ length r.buf
    room = omega (arith, ap length h.left, length-drop r.pos r.buf, length-append bs rest, h.inside)

    got : Get.slice (length bs) r ≡ ok (bs, record r { pos = r.pos + length bs })
    got = ground (arith, room, h.fits, ap (take (length bs)) h.left, take-append bs rest)

    after : Ahead (record r { pos = r.pos + length bs }) rest
    after = record {
      left = drop-drop (length bs) r.pos r.buf ∙ ap (drop (length bs)) h.left ∙ drop-append bs rest;
      inside = room;
      fits = h.fits;
    }

pub bind_ok :
    {A B : Type 0} (m : Reads A) (f : A → Reads B) {r r' : R} {a : A}
    → m r ≡ ok (a, r')
    → (m >>= f) r ≡ f a r'
unfolding ◌>>=◌
bind_ok m f e = rw (e, ◌>>=◌)

Takes-bind :
    {A B : Type 0} {m : Reads A} (f : A → Reads B) {a : A} {b : B} (bs cs : Bytes)
    → Takes m bs a
    → Takes (f a) cs b
    → Takes (m >>= f) (bs ++ cs) b
Takes-bind {m = m} f {a} {b} bs cs t u r rest h = (end.0, both, end.2)
  where
    mid : (r' : R) × (m r ≡ ok (a, r')) × Ahead r' (cs ++ rest)
    mid = t r (cs ++ rest) (subst (Ahead r) (append_assoc bs cs rest) h)

    end : (r' : R) × (f a mid.0 ≡ ok (b, r')) × Ahead r' rest
    end = u mid.0 rest mid.2

    both : (m >>= f) r ≡ ok (b, end.0)
    both = bind_ok m f mid.1 ∙ end.1

-- Write `p` then `q`; read what `p` wrote, and go on with `f`.
pub Carries-bind :
    {A B : Type 0} {p q : W} {m : Reads A} (f : A → Reads B) {a : A} {b : B}
    → Carries p m a
    → Carries q (f a) b
    → Carries (p ⨾ q) (m >>= f) b
unfolding ◌⨾◌
Carries-bind {p = p} f c d = record {
  bytes = c.bytes ++ d.bytes;
  writes = λ w.
      d.writes (p w)
      ∙ ap (λ (v : Bytes). v ++ d.bytes) (c.writes w)
      ∙ append_assoc w c.bytes d.bytes;
  takes = Takes-bind f c.bytes d.bytes c.takes d.takes;
}

pub Carries-pure : {A : Type 0} (a : A) → Carries write_nothing (pure a) a
unfolding write_nothing pure
Carries-pure a = record {
  bytes = [];
  writes = λ w. sym (append-nil w);
  takes = λ r rest h. (r, refl, h);
}

-- The last read of a sequence, with what is done to its value.
pub Carries-then :
    {A B : Type 0} {p : W} {m : Reads A} (f : A → Reads B) {a : A} {b : B}
    → Carries p m a
    → ((r : R) → f a r ≡ ok (b, r))
    → Carries p (m >>= f) b
Carries-then {m = m} f {a} c e = record {
  bytes = c.bytes;
  writes = c.writes;
  takes = λ r rest h. let t = c.takes r rest h in (t.0, bind_ok m f t.1 ∙ e t.0, t.2);
}

pub Carries-last :
    {A B : Type 0} {p : W} {m : Reads A} (f : A → B) {a : A}
    → Carries p m a
    → Carries p (m >>= λ x. pure (f x)) (f a)
Carries-last f {a} c = Carries-then (λ x. pure (f x)) c (λ r. unfold pure in refl)

pub length-le_bytes : (k v : ℕ) → length (le_bytes k v) ≡ k
unfolding le_bytes
length-le_bytes zero v = refl
length-le_bytes (suc k) v = ap suc (length-le_bytes k (v / 256))

pub from_le-le_bytes : (k v : ℕ) → v < 256 ^ k → from_le (le_bytes k v) ≡ v
unfolding le_bytes from_le
from_le-le_bytes zero v h = omega arith
from_le-le_bytes (suc k) v h = omega (arith, from_le-le_bytes k (v / 256) (omega arith))

Carries-le :
    (k v : ℕ) (p : W)
    → ((w : Bytes) → p w ≡ w ++ le_bytes k v)
    → v < 256 ^ k
    → Carries p (Get.slice k >>= λ s. pure (from_le s)) v
unfolding pure
Carries-le k v p e h = record {
  bytes = le_bytes k v;
  writes = e;
  takes = λ r rest a.
      let t =
        subst (λ n. Takes (Get.slice n) (le_bytes k v) (le_bytes k v)) (length-le_bytes k v)
          (take_slice (le_bytes k v)) r rest a in
      (
        t.0,
        bind_ok (Get.slice k) (λ s. pure (from_le s)) t.1
            ∙ ap (λ (n : ℕ). ok (n, t.0)) (from_le-le_bytes k v h),
        t.2,
      );
}

pub Carries-u8 : (v : ℕ) → v < 256 → Carries (Put.u8 v) Get.u8 v
unfolding Put.u8 Get.u8 pure
Carries-u8 v h = record {
  bytes = v ∷ [];
  writes = λ w. refl;
  takes =
      λ r rest a. let t = take_slice (v ∷ []) r rest a in (t.0, bind_ok (Get.slice 1) _ t.1, t.2);
}

pub Carries-u16 : (v : ℕ) → v < 2 ^ 16 → Carries (Put.u16 v) Get.u16 v
unfolding Put.u16 Get.u16
Carries-u16 v h = Carries-le 2 v (Put.u16 v) (λ w. refl) h

pub Carries-u32 : (v : ℕ) → v < 2 ^ 32 → Carries (Put.u32 v) Get.u32 v
unfolding Put.u32 Get.u32
Carries-u32 v h = Carries-le 4 v (Put.u32 v) (λ w. refl) h

pub Carries-u64 : (v : ℕ) → v < 2 ^ 64 → Carries (Put.u64 v) Get.u64 v
unfolding Put.u64 Get.u64
Carries-u64 v h = Carries-le 8 v (Put.u64 v) (λ w. refl) h

Carries-extend : (b : Bytes) → Carries (Put.extend b) (Get.slice (length b)) b
unfolding Put.extend
Carries-extend b = record { bytes = b; writes = λ w. refl; takes = take_slice b }

-- A string of the source: UTF-8, and below 4 GiB as the codec's comment states.
pub record IsText (s : Bytes) : Type 0 where
  pub short : length s < 2 ^ 32
  pub utf8 : utf8_valid s ≡ true

pub Carries-bytes : (b : Bytes) → length b < 2 ^ 32 → Carries (Put.bytes b) Get.bytes b
unfolding Put.bytes Get.bytes
Carries-bytes b h =
    Carries-bind _
      (subst (λ n. Carries (Put.u32 n) Get.u32 (length b)) (omega arith) (Carries-u32 (length b) h))
      (Carries-extend b)

pub Carries-str : (s : Bytes) → IsText s → Carries (Put.str s) Get.str s
unfolding Put.str Get.str pure
Carries-str s h = Carries-then _ (Carries-bytes s h.short) (λ r. rw h.utf8)

pub Carries-flag : (b : Bool) → Carries (Put.flag b) Get.flag b
unfolding Put.flag Get.flag
Carries-flag true = Carries-last _ (Carries-u8 1 (omega arith))
Carries-flag false = Carries-last _ (Carries-u8 0 (omega arith))

pub Carries-many :
    {A : Type 0} (put : A → W) (item : Reads A) (xs : List A)
    → All (λ x. Carries (put x) item x) xs
    → Carries (Put.put_each put xs) (Get.many item (length xs)) xs
unfolding Put.put_each Get.many
Carries-many put item [] h = Carries-pure []
Carries-many put item (x ∷ xs) h =
    Carries-bind _ h.0 (Carries-last (λ ys. x ∷ ys) (Carries-many put item xs h.1))

pub Ahead-end : (r : R) → Ahead r [] → r.pos ≡ length r.buf
Ahead-end r h = omega (arith, ap length h.left, length-drop r.pos r.buf, h.inside)

finish_ok : (r : R) → Ahead r [] → Get.finish r ≡ ok (tt, r)
unfolding Get.finish
finish_ok r h = ground (arith, Ahead-end r h)

-- The reader on what the writer wrote into an empty buffer, with bytes added behind it.
pub run_Carries :
    {A : Type 0} {p : W} {m : Reads A} {a : A} (more : Bytes)
    → Carries p m a
    → length (p [] ++ more) < 2 ^ 64
    → (r : R) × (m (reader (p [] ++ more)) ≡ ok (a, r)) × Ahead r more
unfolding reader
run_Carries {p = p} more c h =
    c.takes (reader (p [] ++ more)) more (record {
      left = ap (λ (b : Bytes). b ++ more) (c.writes []);
      inside = omega arith;
      fits = h;
    })

-- What one message wrote into an empty buffer decodes to the message, with nothing left over.
pub decode_all-Carries :
    {A : Type 0} {p : W} {m : Reads A} {a : A}
    → Carries p m a
    → length (p []) < 2 ^ 64
    → Get.decode_all m (p []) ≡ ok a
unfolding Get.decode_all
decode_all-Carries {p = p} {m} {a} c h =
    ap (λ (b : Bytes). Get.value_of (Get.whole m (reader b))) (sym (append-nil (p [])))
    ∙ ap Get.value_of done
  where
    run : (r : R) × (m (reader (p [] ++ [])) ≡ ok (a, r)) × Ahead r []
    run = run_Carries [] c (subst (λ b. length b < 2 ^ 64) (sym (append-nil (p []))) h)

    done : Get.whole m (reader (p [] ++ [])) ≡ ok (a, run.0)
    done =
        bind_ok m _ run.1
        ∙ bind_ok Get.finish (λ _. pure a) (finish_ok run.0 run.2)
        ∙ (unfold pure in refl)

finish_more : (r : R) (x : ℕ) (xs : Bytes) → Ahead r (x ∷ xs) → Get.finish r ≡ err trailing_bytes
unfolding Get.finish
finish_more r x xs h =
    let e : r.pos < length r.buf = omega (arith, ap length h.left, length-drop r.pos r.buf) in
    ground (arith, e)

pub bind_err :
    {A B : Type 0} (m : Reads A) (f : A → Reads B) {r : R} {e : Error}
    → m r ≡ err e
    → (m >>= f) r ≡ err e
unfolding ◌>>=◌
bind_err m f h = rw (h, ◌>>=◌)

-- A message with bytes added behind it is refused for them.
pub trailing_refused :
    {A : Type 0} {p : W} {m : Reads A} {a : A} (x : ℕ) (xs : Bytes)
    → Carries p m a
    → length (p [] ++ x ∷ xs) < 2 ^ 64
    → Get.decode_all m (p [] ++ x ∷ xs) ≡ err trailing_bytes
unfolding Get.decode_all
trailing_refused {p = p} {m} {a} x xs c h =
    ap Get.value_of (bind_ok m _ run.1 ∙ bind_err Get.finish _ (finish_more run.0 x xs run.2))
  where
    run : (r : R) × (m (reader (p [] ++ x ∷ xs)) ≡ ok (a, r)) × Ahead r (x ∷ xs)
    run = run_Carries (x ∷ xs) c h
