-- ===== src/Codec.antt =====
-- xchannel-net-core/src/codec.rs. Here the writer `W` and the reader `R`; the messages are coded in
-- the child modules. A byte is a number below 256, and an integer of the source a number below its
-- width's bound, which the round trips state.
pub mod Utf8
pub mod Put
pub mod Get
pub mod Laws
pub mod Local
pub mod Addr
pub mod Identity
pub mod Control
pub mod Stream
pub mod Discovery
pub mod Client
pub mod Truncated
mod Examples
use xchannel_net.Base.{
  ℕ, zero, suc, ◌+◌, ◌*◌, ◌/◌, ◌%◌, ◌^◌, Bool, true, false, not, Option, none, some, List, [], ◌∷◌,
  ◌++◌, Bytes, length, take, drop, ◌==◌, ltb, if◌then◌else◌,
}

-- The messages that `invalid` is called with.
pub data Error : Type 0 where
  length_overflow unexpected_end invalid_utf8 invalid_addr trailing_bytes unknown_tag : Error

-- `io::Result`.
pub data Result (A : Type 0) : Type 0 where
  ok : A → Result A
  err : Error → Result A

-- The writer: a function of the caller's buffer.
abbrev pub W : Type 0
W = Bytes → Bytes

-- One write after another.
infixr 20 ◌⨾◌
unfoldable pub ◌⨾◌ : W → W → W
◌⨾◌ p q w = q (p w)

unfoldable pub write_nothing : W
write_nothing w = w

-- `to_le_bytes` of a number of `k` bytes, and `from_le_bytes`.
unfoldable pub le_bytes : ℕ → ℕ → Bytes
le_bytes zero v = []
le_bytes (suc k) v = (v % 256) ∷ le_bytes k (v / 256)

unfoldable pub from_le : Bytes → ℕ
from_le [] = 0
from_le (b ∷ bs) = b + 256 * from_le bs

-- The reader: the frame and how much of it has been read.
pub record R : Type 0 where
  pub buf : Bytes
  pub pos : ℕ

pub reader : Bytes → R
reader b = record { buf = b; pos = 0 }

-- A method that may fail.
abbrev pub Reads : Type 0 → Type 0
Reads A = R → Result (A × R)

infixl 5 ◌>>=◌ ◌>>◌
unfoldable pub ◌>>=◌ : {A B : Type 0} → Reads A → (A → Reads B) → Reads B
◌>>=◌ m f r = elim (m r) [ ok (a, r') ↦ f a r' | err e ↦ err e ]

abbrev pub ◌>>◌ : {A B : Type 0} → Reads A → Reads B → Reads B
m >> k = m >>= λ _. k

unfoldable pub pure : {A : Type 0} → A → Reads A
pure a r = ok (a, r)

unfoldable pub fail : {A : Type 0} → Error → Reads A
fail e r = err e
