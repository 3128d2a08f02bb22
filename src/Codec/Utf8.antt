-- ===== src/Codec/Utf8.antt =====
-- `std::str::from_utf8`: the byte strings that are UTF-8, by the table of well-formed sequences.
use xchannel_net.Base.{
  ◌≡◌, refl, ℕ, zero, suc, Bool, true, false, ◌&&◌, [], ◌∷◌, Bytes, leb, ◌==◌, if◌then◌else◌,
}

-- How many bytes must follow a lead byte, and the range of the first of them.
pub record Lead : Type 0 where
  pub follow : ℕ
  pub low : ℕ
  pub high : ℕ

abbrev lead : ℕ → ℕ → ℕ → Lead
lead f l h = record { follow = f; low = l; high = h }

-- A lead byte of 128 or more; `follow = 0` stands for one that cannot start a sequence.
lead_of : ℕ → Lead
lead_of b =
    if leb 0xc2 b && leb b 0xdf
    then lead 1 0x80 0xbf
    else if b == 0xe0
    then lead 2 0xa0 0xbf
    else if b == 0xed
    then lead 2 0x80 0x9f
    else if leb 0xe1 b && leb b 0xef
    then lead 2 0x80 0xbf
    else if b == 0xf0
    then lead 3 0x90 0xbf
    else if leb 0xf1 b && leb b 0xf3
    then lead 3 0x80 0xbf
    else if b == 0xf4
    then lead 3 0x80 0x8f
    else lead 0 0 0

-- `follow` bytes are still wanted, the next one between `low` and `high`.
utf8_from : ℕ → ℕ → ℕ → Bytes → Bool
utf8_from zero low high [] = true
utf8_from (suc n) low high [] = false
utf8_from zero low high (b ∷ bs) =
    let start = lead_of b in
    let ascii = utf8_from 0 0 0 bs in
    let longer = utf8_from start.follow start.low start.high bs in
    if leb b 0x7f then ascii else if start.follow == 0 then false else longer
utf8_from (suc n) low high (b ∷ bs) =
    let rest = utf8_from n 0x80 0xbf bs in if leb low b && leb b high then rest else false

unfoldable pub utf8_valid : Bytes → Bool
unfolding utf8_from lead_of
utf8_valid b = utf8_from 0 0 0 b

-- ASCII is UTF-8.
ascii_example : utf8_valid (0x6d ∷ 0x64 ∷ []) ≡ true
unfolding utf8_valid
ascii_example = refl
