-- ===== src/Codec/Put.antt =====
-- The methods of the writer `W` of codec.rs.
use xchannel_net.Base.{ℕ, ◌%◌, ◌^◌, Bool, List, [], ◌∷◌, ◌++◌, Bytes, length, if◌then◌else◌}
use xchannel_net.Codec.{W, ◌⨾◌, write_nothing, le_bytes}

unfoldable pub u8 : ℕ → W
u8 v w = w ++ v ∷ []

unfoldable pub u16 : ℕ → W
u16 v w = w ++ le_bytes 2 v

unfoldable pub u32 : ℕ → W
u32 v w = w ++ le_bytes 4 v

unfoldable pub u64 : ℕ → W
u64 v w = w ++ le_bytes 8 v

-- `extend_from_slice`
unfoldable pub extend : Bytes → W
extend b w = w ++ b

-- `b.len() as u32` wraps; the debug assertion is not in a release build.
unfoldable pub bytes : Bytes → W
bytes b = u32 (length b % 2 ^ 32) ⨾ extend b

unfoldable pub str : Bytes → W
unfolding bytes
str s = bytes s

-- `v as u8` of a flag.
unfoldable pub flag : Bool → W
unfolding u8
flag b = u8 (if b then 1 else 0)

unfoldable pub put_each : {A : Type 0} → (A → W) → List A → W
put_each put [] = write_nothing
put_each put (x ∷ xs) = put x ⨾ put_each put xs
