-- ===== src/Codec/Local.antt =====
-- Readers that look at no byte behind the last one that they take, and frames that are cut short or
-- have bytes added.
use xchannel_net.Base.{
  take-append_le, ℕ, zero, suc, ◌+◌, ◌^◌, ◌≤◌, ◌<◌, ◌≡◌, ◌≢◌, refl, sym, ap, ◌∙◌, subst, Bool, true,
  false, [], ◌∷◌, ◌++◌, Bytes, length, length-append, take, drop, arith, if◌then◌else◌,
}
use mathlib.Core.List.{append-nil}
use xchannel_net.Codec.{W, Result, ok, err, Error, R, reader, Reads, ◌>>=◌, pure, fail}
use xchannel_net.Codec.Utf8.{utf8_valid}
use xchannel_net.Codec.Get
use xchannel_net.Codec.Laws.{Ahead, Carries, bind_ok, run_Carries, Ahead-end}

-- The same reader on a longer frame.
abbrev pub longer : R → Bytes → R
longer r more = record { buf = r.buf ++ more; pos = r.pos }

-- A read that succeeds keeps the frame, and does the same on any longer one.
pub record IsLocal {A : Type 0} (m : Reads A) : Type 0 where
  pub keeps : (r : R) (a : A) (r' : R) → m r ≡ ok (a, r') → r'.buf ≡ r.buf
  pub extends :
      (r : R) (a : A) (r' : R) (more : Bytes)
      → m r ≡ ok (a, r')
      → m (longer r more) ≡ ok (a, longer r' more)

bind_cases :
    {A B : Type 0} (m : Reads A) (f : A → Reads B) (r : R) (b : B) (r' : R)
    → (m >>= f) r ≡ ok (b, r')
    → (a : A) × (s : R) × (m r ≡ ok (a, s)) × (f a s ≡ ok (b, r'))
unfolding ◌>>=◌
bind_cases {A} {B} m f r b r' e = go (m r) refl e
  where
    go :
        (x : Result (A × R))
        → m r ≡ x
        → (elim x [ ok (a, s) ↦ f a s | err q ↦ err q ]) ≡ ok (b, r')
        → (a : A) × (s : R) × (m r ≡ ok (a, s)) × (f a s ≡ ok (b, r'))
    go (ok (a, s)) p h = (a, s, p, h)
    go (err q) p h = cc

pub IsLocal-bind :
    {A B : Type 0} (m : Reads A) (f : A → Reads B)
    → IsLocal m
    → ((a : A) → IsLocal (f a))
    → IsLocal (m >>= f)
IsLocal-bind m f l k = record {
  keeps = λ r b r' e.
      let t = bind_cases m f r b r' e in (k t.0).keeps t.1 b r' t.3 ∙ l.keeps r t.0 t.1 t.2;
  extends = λ r b r' more e.
      let t = bind_cases m f r b r' e in
      bind_ok m f (l.extends r t.0 t.1 more t.2) ∙ (k t.0).extends t.1 b r' more t.3;
}

pub IsLocal-pure : {A : Type 0} (a : A) → IsLocal (pure a)
unfolding pure
IsLocal-pure a = record { keeps = λ r b r' e. cc; extends = λ r b r' more e. cc }

pub IsLocal-fail : {A : Type 0} (e : Error) → IsLocal (fail {A = A} e)
unfolding fail
IsLocal-fail e = record { keeps = λ r b r' h. cc; extends = λ r b r' more h. cc }

pub IsLocal-if :
    {A : Type 0} (b : Bool) (m n : Reads A) → IsLocal m → IsLocal n → IsLocal (if b then m else n)
IsLocal-if true m n l k = l
IsLocal-if false m n l k = k

take-drop-append :
    (n p : ℕ) (xs ys : Bytes) → p + n ≤ length xs → take n (drop p (xs ++ ys)) ≡ take n (drop p xs)
take-drop-append n zero xs ys h = take-append_le n xs ys (omega arith)
take-drop-append n (suc p) [] ys h = absurd (omega arith)
take-drop-append n (suc p) (x ∷ xs) ys h = take-drop-append n p xs ys (omega arith)

slice-IsLocal : (n : ℕ) → IsLocal (Get.slice n)
unfolding Get.slice
slice-IsLocal n = record {
  keeps = λ r b r' e. ground arith;
  extends = λ r b r' more e.
      ground (arith, length-append r.buf more, take-drop-append n r.pos r.buf more);
}

pub IsLocal-u8 : IsLocal Get.u8
unfolding Get.u8
IsLocal-u8 = IsLocal-bind _ _ (slice-IsLocal 1) (λ s. IsLocal-pure _)

pub IsLocal-u16 : IsLocal Get.u16
unfolding Get.u16
IsLocal-u16 = IsLocal-bind _ _ (slice-IsLocal 2) (λ s. IsLocal-pure _)

pub IsLocal-u32 : IsLocal Get.u32
unfolding Get.u32
IsLocal-u32 = IsLocal-bind _ _ (slice-IsLocal 4) (λ s. IsLocal-pure _)

pub IsLocal-u64 : IsLocal Get.u64
unfolding Get.u64
IsLocal-u64 = IsLocal-bind _ _ (slice-IsLocal 8) (λ s. IsLocal-pure _)

pub IsLocal-bytes : IsLocal Get.bytes
unfolding Get.bytes
IsLocal-bytes = IsLocal-bind _ _ IsLocal-u32 slice-IsLocal

pub IsLocal-str : IsLocal Get.str
unfolding Get.str
IsLocal-str =
    IsLocal-bind _ _ IsLocal-bytes
      (λ b. IsLocal-if (utf8_valid b) (pure b) _ (IsLocal-pure b) (IsLocal-fail _))

pub IsLocal-flag : IsLocal Get.flag
unfolding Get.flag
IsLocal-flag = IsLocal-bind _ _ IsLocal-u8 (λ b. IsLocal-pure _)

pub IsLocal-many : {A : Type 0} (item : Reads A) (n : ℕ) → IsLocal item → IsLocal (Get.many item n)
unfolding Get.many
IsLocal-many item zero l = IsLocal-pure []
IsLocal-many item (suc n) l =
    IsLocal-bind _ _ l (λ x. IsLocal-bind _ _ (IsLocal-many item n l) (λ xs. IsLocal-pure _))

-- The rules by which a decoder is local.
pub ruleset local_reads = (
  IsLocal-bind, IsLocal-pure, IsLocal-fail, IsLocal-u8, IsLocal-u16, IsLocal-u32, IsLocal-u64,
  IsLocal-bytes, IsLocal-str, IsLocal-flag, IsLocal-many,
)

finish_cases : (r s : R) (u : Unit {0}) → Get.finish r ≡ ok (u, s) → r.pos ≡ length r.buf
unfolding Get.finish
finish_cases r s u e = ground arith

whole_cases :
    {A : Type 0} (m : Reads A) (r r' : R) (a : A)
    → Get.whole m r ≡ ok (a, r')
    → (b : A) × (s : R) × (m r ≡ ok (b, s)) × (s.pos ≡ length s.buf)
unfolding Get.whole
whole_cases m r r' a e =
    let t = bind_cases m _ r a r' e in
    let u = bind_cases Get.finish _ t.1 a r' t.3 in (t.0, t.1, t.2, finish_cases t.1 u.1 u.0 u.2)

ok_injective :
    {A : Type 0} (a b : A) (r s : R) → ◌≡◌ {A = Result (A × R)} (ok (a, r)) (ok (b, s)) → r ≡ s
ok_injective a b r s e = cc

-- If a decoder succeeded on a shorter frame, it would stop there on the longer one too.
no_shorter :
    {A : Type 0} {p : W} {m : Reads A} {a : A} (front : Bytes) (x : ℕ) (back : Bytes)
    → Carries p m a
    → IsLocal m
    → length (p [] ++ []) < 2 ^ 64
    → p [] ++ [] ≡ front ++ x ∷ back
    → (b : A) (s : R) → Get.whole m (reader front) ≢ ok (b, s)
unfolding reader
no_shorter {p = p} {m} {a} front x back c l fits e b s w = omega (
  arith,
  at_end,
  ap (λ (r : R). r.pos) same,
  ap length (l.keeps (reader (p [] ++ [])) a run.0 run.1),
  ap length e,
  ap length (l.keeps (reader front) t.0 t.1 t.2),
  length-append front (x ∷ back),
  t.3,
)
  where
    run : (r : R) × (m (reader (p [] ++ [])) ≡ ok (a, r)) × Ahead r []
    run = run_Carries [] c fits

    t : (d : _) × (q : R) × (m (reader front) ≡ ok (d, q)) × (q.pos ≡ length q.buf)
    t = whole_cases m (reader front) s b w

    same : run.0 ≡ longer t.1 (x ∷ back)
    same = ok_injective a t.0 run.0 (longer t.1 (x ∷ back)) (
        sym run.1
        ∙ ap (λ (f : Bytes). m (reader f)) e
        ∙ l.extends (reader front) t.0 t.1 (x ∷ back) t.2)

    at_end : run.0.pos ≡ length run.0.buf
    at_end = Ahead-end run.0 run.2

-- A decoder that has read a message refuses every frame that is cut short.
pub truncated_refused :
    {A : Type 0} {p : W} {m : Reads A} {a : A} (front : Bytes) (x : ℕ) (back : Bytes)
    → Carries p m a
    → IsLocal m
    → length (p []) < 2 ^ 64
    → p [] ≡ front ++ x ∷ back
    → (e : Error) × (Get.decode_all m front ≡ err e)
unfolding Get.decode_all
truncated_refused {A} {p} {m} {a} front x back c l fits e = go (Get.whole m (reader front)) refl
  where
    go :
        (y : Result (A × R))
        → Get.whole m (reader front) ≡ y
        → (q : Error) × (Get.decode_all m front ≡ err q)
    go (ok (b, s)) h = absurd (
        no_shorter front x back c l (subst (λ b. length b < 2 ^ 64) (sym (append-nil (p []))) fits)
          (append-nil (p []) ∙ e) b s h)
    go (err q) h = (q, ap Get.value_of h)
