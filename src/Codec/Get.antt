-- ===== src/Codec/Get.antt =====
-- The methods of the reader `R` of codec.rs, and the frame of a decoder.
use xchannel_net.Base.{
  ℕ, zero, suc, ◌+◌, ◌^◌, Bool, not, List, [], ◌∷◌, Bytes, length, take, drop, ◌==◌, ltb,
  if◌then◌else◌,
}
use xchannel_net.Codec.{
  length_overflow, unexpected_end, invalid_utf8, trailing_bytes, Result, ok, err, reader, R, Reads,
  ◌>>=◌, ◌>>◌, pure, fail, from_le,
}
use xchannel_net.Codec.Utf8.{utf8_valid}

-- `b[0]` of a slice of one byte.
first : Bytes → ℕ
first [] = 0
first (b ∷ bs) = b

-- `pos.checked_add(n)` on `usize`, then the bounds check, then the slice.
unfoldable pub slice : ℕ → Reads Bytes
slice n r =
    let end = r.pos + n in
    if ltb end (2 ^ 64)
    then if ltb (length r.buf) end
      then err unexpected_end
      else ok (take n (drop r.pos r.buf), record r { pos = end })
    else err length_overflow

unfoldable pub u8 : Reads ℕ
unfolding slice first
u8 = do s ← slice 1; pure (first s)

unfoldable pub u16 : Reads ℕ
unfolding slice
u16 = do s ← slice 2; pure (from_le s)

unfoldable pub u32 : Reads ℕ
unfolding slice
u32 = do s ← slice 4; pure (from_le s)

unfoldable pub u64 : Reads ℕ
unfolding slice
u64 = do s ← slice 8; pure (from_le s)

unfoldable pub bytes : Reads Bytes
unfolding u32 slice
bytes = do n ← u32; slice n

unfoldable pub str : Reads Bytes
unfolding bytes
str = do b ← bytes; if utf8_valid b then pure b else fail invalid_utf8

-- `u8()? != 0`
unfoldable pub flag : Reads Bool
unfolding u8
flag = do b ← u8; pure (not (b == 0))

unfoldable pub finish : Reads (Unit {0})
finish r = if r.pos == length r.buf then ok (tt, r) else err trailing_bytes

-- `for _ in 0..n { v.push(item(r)?) }`
unfoldable pub many : {A : Type 0} → Reads A → ℕ → Reads (List A)
many item zero = pure []
many item (suc n) = do x ← item; xs ← many item n; pure (x ∷ xs)

-- A decoder's body, then `r.finish()?; Ok(m)`.
unfoldable pub whole : {A : Type 0} → Reads A → Reads A
whole m = do a ← m; finish; pure a

unfoldable pub value_of : {A : Type 0} → Result (A × R) → Result A
value_of (ok (a, r)) = ok a
value_of (err e) = err e

-- A decoder runs on the whole frame and leaves nothing.
unfoldable pub decode_all : {A : Type 0} → Reads A → Bytes → Result A
unfolding whole value_of
decode_all m b = value_of (whole m (reader b))
