-- ===== src/Codec/Identity/Length.antt =====
-- The computed lengths of identities against what the encoder writes.
use xchannel_net.Base.{
  subst, ℕ, zero, suc, ◌+◌, ◌/◌, ◌≡◌, Bool, true, false, Option, none, some, List, [], ◌∷◌, ◌++◌,
  Bytes, length, length-append, arith,
}
use xchannel_net.Identity.{ChannelIdentity, ChannelName}
use xchannel_net.Codec.{W, ◌⨾◌, write_nothing, le_bytes}
use xchannel_net.Codec.Put
use xchannel_net.Codec.Identity.{
  put_member_of, put_identity, identity_encoded_len, identities_encoded_len, encoded_len_of_member,
  encoded_len_of_str,
}

-- The writer appends `n` bytes to any buffer.
pub record Appends (p : W) (n : ℕ) : Type 0 where
  pub grows : (w : Bytes) → length (p w) ≡ length w + n

pub Appends-then : {p q : W} {m n : ℕ} → Appends p m → Appends q n → Appends (p ⨾ q) (m + n)
unfolding ◌⨾◌
Appends-then {p} {q} a b = record { grows = λ w. omega (arith, a.grows w, b.grows (p w)) }

resized : {p : W} {m n : ℕ} → m ≡ n → Appends p m → Appends p n
resized {p} e a = subst (Appends p) e a

Appends_le : (k v : ℕ) (w : Bytes) → length (w ++ le_bytes k v) ≡ length w + k
unfolding le_bytes
Appends_le zero v w = length-append w []
Appends_le (suc k) v w = omega (
  arith,
  length-append w (le_bytes (suc k) v),
  length-append w (le_bytes k (v / 256)),
  Appends_le k (v / 256) w,
)

Appends-u8 : (v : ℕ) → Appends (Put.u8 v) 1
unfolding Put.u8
Appends-u8 v = record { grows = λ w. length-append w (v ∷ []) }

Appends-u32 : (v : ℕ) → Appends (Put.u32 v) 4
unfolding Put.u32
Appends-u32 v = record { grows = λ w. Appends_le 4 v w }

Appends-u64 : (v : ℕ) → Appends (Put.u64 v) 8
unfolding Put.u64
Appends-u64 v = record { grows = λ w. Appends_le 8 v w }

Appends-extend : (b : Bytes) → Appends (Put.extend b) (length b)
unfolding Put.extend
Appends-extend b = record { grows = λ w. length-append w b }

Appends-str : (s : Bytes) → Appends (Put.str s) (encoded_len_of_str s)
unfolding Put.str Put.bytes
Appends-str s = Appends-then (Appends-u32 _) (Appends-extend s)

Appends-flag : (b : Bool) → Appends (Put.flag b) 1
unfolding Put.flag
Appends-flag true = Appends-u8 1
Appends-flag false = Appends-u8 0

Appends-member_of :
    (o : Option ChannelName) → Appends (put_member_of o) (1 + encoded_len_of_member o)
unfolding put_member_of
Appends-member_of none = Appends-u8 0
Appends-member_of (some t) = Appends-then (Appends-u8 1) (Appends-str t)

-- The encoder appends to any buffer exactly as many bytes as `identity_encoded_len` says.
pub identity_encoded_len_lem :
    (id : ChannelIdentity) → Appends (put_identity id) (identity_encoded_len id)
unfolding put_identity identity_encoded_len
identity_encoded_len_lem id = resized (omega arith) (
    Appends-then (Appends-str id.name) (
      Appends-then (Appends-u64 id.owner) (
        Appends-then (Appends-u32 id.region_size) (
          Appends-then (Appends-u32 id.mtu) (
            Appends-then (Appends-u64 id.earliest_index) (
              Appends-then (Appends-u64 id.registered_at_nanos) (
                Appends-then (Appends-u64 id.epoch)
                  (Appends-then (Appends-flag id.deleted) (Appends-member_of id.member_of)))))))))

-- The encodings of a list of identities, one after the other, grow any buffer by exactly the
-- number of bytes that `identities_encoded_len` gives.
pub identities_encoded_len_lem :
    (ids : List ChannelIdentity)
    → Appends (Put.put_each put_identity ids) (identities_encoded_len ids)
unfolding Put.put_each identities_encoded_len write_nothing
identities_encoded_len_lem [] = record { grows = λ w. omega arith }
identities_encoded_len_lem (id ∷ ids) =
    Appends-then (identity_encoded_len_lem id) (identities_encoded_len_lem ids)
