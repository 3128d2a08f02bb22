-- ===== src/Membership/Examples.antt =====
-- A map that heard from node 7 at time 100 and from node 8 at time 200; an address is a number.
use xchannel_net.Base.{
  ℕ, ◌-◌, ◌≤◌, ◌≡◌, ◌↔◌, refl, none, some, [], ◌∷◌, IsIn, arith, ◌==◌, ==_iff, leb, if◌then◌else◌,
}
use xchannel_net.Base.Equality.{Eq}
use xchannel_net.Base.NodeMap.{lookup, insert, keep, keys}
use xchannel_net.Membership.{
  Membership, new, record_direct, retire, addr_of, live_addr_of, fresh_addr, silent_for,
  live_members, forget_stale, is_fresh, is_stale,
}
use xchannel_net.Membership.Stale.{forget_stale_lem}
use xchannel_net.Membership.Laws.{live_addr_of-record_direct, retire_lem}
use xchannel_net.Membership.Contact.{
  heard, Reached, start, event, apply, Reached-IsDated, live_silence,
}

instance number_eq : Eq ℕ
number_eq = record { beq = ◌==◌; beq_iff = ==_iff }

abbrev one : Membership ℕ
one = apply 100 (heard 7 70 71 []) new

abbrev two : Membership ℕ
two = apply 200 (heard 8 80 81 []) one

two-Reached : Reached 200 two
two-Reached =
    event (heard 8 80 81 []) (omega arith) (event (heard 7 70 71 []) (omega arith) (start 0))

eight_live : live_members 250 60 two ≡ 8 ∷ []
unfolding live_members apply record_direct new insert keep keys is_fresh is_stale
eight_live = refl

eight_addr : live_addr_of 250 8 60 two ≡ some 80
unfolding live_addr_of fresh_addr apply record_direct new insert lookup is_fresh
eight_addr = refl

seven_stale : (forget_stale 250 60 two).1 ≡ 7 ∷ []
unfolding forget_stale apply record_direct new insert keep keys is_fresh is_stale
seven_stale = refl

live_addr_of-record_direct_example :
    live_addr_of 250 8 60 (record_direct 200 8 80 81 [] one).0
    ≡ (if 8 == 8 then (if leb (250 - 200) 60 then some 80 else none) else live_addr_of 250 8 60 one)
live_addr_of-record_direct_example = live_addr_of-record_direct 200 250 60 8 8 80 81 [] one

retire_lem_example :
    let s' = (retire 210 8 two).0 in
    (live_addr_of 250 8 60 s' ≡ (if 8 == 8 then none else live_addr_of 250 8 60 two))
    × (addr_of 8 s' ≡ addr_of 8 two)
    × (silent_for 250 8 s' ≡ (
        if 8 == 8
        then elim (addr_of 8 two) [ none ↦ none | some a ↦ some (250 - 210) ]
        else silent_for 250 8 two))
retire_lem_example = retire_lem 210 250 60 8 8 two

forget_stale_lem_example :
    (addr_of 7 (forget_stale 250 60 two).0 ≡ live_addr_of 250 7 60 two)
    × (IsIn 7 (forget_stale 250 60 two).1
        ↔ ((a : ℕ) × (addr_of 7 two ≡ some a) × (live_addr_of 250 7 60 two ≡ none)))
forget_stale_lem_example = forget_stale_lem 250 60 7 two (Reached-IsDated two-Reached).distinct

live_silence_example : (d : ℕ) × (silent_for 200 8 two ≡ some d) × (d ≤ 60)
live_silence_example = live_silence 60 8 80 two-Reached live_now
  where
    live_now : live_addr_of 200 8 60 two ≡ some 80
    live_now = unfold live_addr_of fresh_addr apply record_direct new insert lookup is_fresh in refl
