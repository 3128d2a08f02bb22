-- ===== src/Identity/Equality.antt =====
-- The derived `PartialEq` of a channel's identity, against equality.
use xchannel_net.Base.{
  ◌≡◌, refl, ◌↔◌, Bool, true, false, Option, none, some, arith, bytes_eq→eq, bytes_eq_refl,
}
use xchannel_net.Identity.{ChannelIdentity, ChannelName, bool_eq, option_name_eq, identity_eq}

bool_eq→eq : (x y : Bool) → bool_eq x y ≡ true → x ≡ y
bool_eq→eq true true h = refl
bool_eq→eq true false h = cc
bool_eq→eq false true h = cc
bool_eq→eq false false h = refl

bool_eq_refl : (x : Bool) → bool_eq x x ≡ true
bool_eq_refl true = refl
bool_eq_refl false = refl

option_name_eq→eq : (x y : Option ChannelName) → option_name_eq x y ≡ true → x ≡ y
unfolding option_name_eq
option_name_eq→eq none none h = refl
option_name_eq→eq none (some y) h = cc
option_name_eq→eq (some x) none h = cc
option_name_eq→eq (some x) (some y) h = ground (arith, bytes_eq→eq x y)

option_name_eq_refl : (x : Option ChannelName) → option_name_eq x x ≡ true
unfolding option_name_eq
option_name_eq_refl none = refl
option_name_eq_refl (some x) = bytes_eq_refl x

pub identity_eq→eq : (a b : ChannelIdentity) → identity_eq a b ≡ true → a ≡ b
unfolding identity_eq
identity_eq→eq a b h = ground (
  arith,
  bytes_eq→eq a.name b.name,
  bool_eq→eq a.deleted b.deleted,
  option_name_eq→eq a.member_of b.member_of,
)

pub identity_eq_refl : (a : ChannelIdentity) → identity_eq a a ≡ true
unfolding identity_eq
identity_eq_refl a =
    ground (arith, bytes_eq_refl a.name, bool_eq_refl a.deleted, option_name_eq_refl a.member_of)

pub identity_eq_iff : (a b : ChannelIdentity) → (identity_eq a b ≡ true) ↔ (a ≡ b)
identity_eq_iff a b = (identity_eq→eq a b, λ e. rw (← e) (identity_eq_refl a))
