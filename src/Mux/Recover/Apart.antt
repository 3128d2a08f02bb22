-- ===== src/Mux/Recover/Apart.antt =====
-- What a slot table whose entries are apart says of each of them.
use xchannel_net.Base.{
  ℕ, zero, suc, ◌≡◌, ◌≢◌, refl, sym, ap, ◌∙◌, subst, ◌⊎◌, inl, inr, true, false, none, some, List,
  [], ◌∷◌, All, IsIn, bytes_eq_iff, bytes_eq_refl, ◌==◌, if◌then◌else◌, Bool-cases, arith,
}
use xchannel_net.Mux.Table.{SlotEntry}
use xchannel_net.Mux.Recover.{
  Member, member_eq, Cursors, Refs, cursor_of, remove_cursor, insert_cursor, member_of,
  entry_member, refs_of, set_cursor, set_cursors,
}
use xchannel_net.Mux.Engine.Members.{wanted}

cursor_of-remove :
    (k j : Member) (m : Cursors)
    → cursor_of k (remove_cursor j m) ≡ (if member_eq j k then none else cursor_of k m)
unfolding cursor_of remove_cursor member_eq
cursor_of-remove k j [] = ground arith
cursor_of-remove k j ((i, v) ∷ m) = ground (
  arith,
  cursor_of-remove k j m,
  bytes_eq_iff i.name j.name,
  bytes_eq_iff i.name k.name,
  bytes_eq_iff j.name k.name,
)

pub cursor_of-insert :
    (k j : Member) (v : ℕ) (m : Cursors)
    → cursor_of k (insert_cursor j v m) ≡ (if member_eq j k then some v else cursor_of k m)
unfolding cursor_of insert_cursor
cursor_of-insert k j v m = ground (arith, cursor_of-remove k j m)

pub member_eq_refl : (k : Member) → member_eq k k ≡ true
unfolding member_eq
member_eq_refl k = ground (arith, bytes_eq_refl k.name)

-- A table that gives no ref and no member twice.
unfoldable pub Apart : SlotEntry → SlotEntry → Type 0
Apart e e' =
    (e.member_ref ≢ e'.member_ref)
    × (member_eq (entry_member e) (entry_member e') ≡ false)
    × (member_eq (entry_member e') (entry_member e) ≡ false)

unfoldable pub IsDistinct : List SlotEntry → Type 0
IsDistinct [] = Unit {0}
IsDistinct (e ∷ es) = All (Apart e) es × IsDistinct es

-- What a table's entry leaves of another member's cursor, and of its own.
set_cursor_other :
    (k j : Member) (c : ℕ) (m : Cursors)
    → member_eq j k ≡ false
    → cursor_of k (set_cursor j c m) ≡ cursor_of k m
unfolding set_cursor
set_cursor_other k j zero m h = ground (arith, cursor_of-remove k j m)
set_cursor_other k j (suc c) m h = ground (arith, cursor_of-insert k j c m)

set_cursor_own : (k : Member) (c : ℕ) (m : Cursors) → wanted (cursor_of k (set_cursor k c m)) ≡ c
unfolding set_cursor wanted
set_cursor_own k zero m = rw (cursor_of-remove k k m, member_eq_refl k) refl
set_cursor_own k (suc c) m = rw (cursor_of-insert k k c m, member_eq_refl k) (omega arith)

set_cursors_other :
    (k : Member) (es : List SlotEntry) (m : Cursors)
    → All (λ e. member_eq (entry_member e) k ≡ false) es
    → cursor_of k (set_cursors es m) ≡ cursor_of k m
unfolding set_cursors
set_cursors_other k [] m h = refl
set_cursors_other k (e ∷ es) m h =
    set_cursors_other k es _ h.1 ∙ set_cursor_other k (entry_member e) e.cursor m h.0

-- Elements apart from `e`.
others :
    (e : SlotEntry) (es : List SlotEntry)
    → All (Apart e) es
    → All (λ e'. member_eq (entry_member e') (entry_member e) ≡ false) es
unfolding Apart
others e [] h = tt
others e (e' ∷ es) h = (h.0.2, others e es h.1)

pub set_cursors_own :
    (e : SlotEntry) (es : List SlotEntry) (m : Cursors)
    → IsDistinct es
    → IsIn e es
    → wanted (cursor_of (entry_member e) (set_cursors es m)) ≡ e.cursor
unfolding set_cursors IsDistinct
set_cursors_own e [] m d i = absurd i
set_cursors_own e (e' ∷ es) m d (inl q) =
    subst
      (λ (f : SlotEntry).
        wanted
          (cursor_of (entry_member f) (set_cursors es (set_cursor (entry_member e') e'.cursor m)))
        ≡ f.cursor)
      (sym q)
      (ap wanted (set_cursors_other (entry_member e') es _ (others e' es d.0))
        ∙ set_cursor_own (entry_member e') e'.cursor m)
set_cursors_own e (e' ∷ es) m d (inr i) = set_cursors_own e es _ d.1 i

pub refs_other :
    (r : ℕ) (es : List SlotEntry) (m : Refs)
    → All (λ e. r ≢ e.member_ref) es
    → member_of r (refs_of es m) ≡ member_of r m
unfolding refs_of member_of
refs_other r [] m h = refl
refs_other r (e ∷ es) m h = refs_other r es _ h.1 ∙ ground (arith, h.0)

other_refs :
    (e : SlotEntry) (es : List SlotEntry)
    → All (Apart e) es
    → All (λ e'. e.member_ref ≢ e'.member_ref) es
unfolding Apart
other_refs e [] h = tt
other_refs e (e' ∷ es) h = (h.0.0, other_refs e es h.1)

pub refs_own :
    (e : SlotEntry) (es : List SlotEntry) (m : Refs)
    → IsDistinct es
    → IsIn e es
    → member_of e.member_ref (refs_of es m) ≡ some (entry_member e)
unfolding refs_of member_of IsDistinct
refs_own e [] m d i = absurd i
refs_own e (e' ∷ es) m d (inl q) =
    subst
      (λ (f : SlotEntry).
        member_of f.member_ref (refs_of es ((e'.member_ref, entry_member e') ∷ m))
        ≡ some (entry_member f))
      (sym q) (refs_other e'.member_ref es _ (other_refs e' es d.0) ∙ ground (arith))
refs_own e (e' ∷ es) m d (inr i) = refs_own e es _ d.1 i

-- A ref that the table gives is an entry's; any other is nobody's.
pub ref_cases :
    (r : ℕ) (es : List SlotEntry)
    → ((e : SlotEntry) × IsIn e es × (r ≡ e.member_ref)) ⊎ All (λ e. r ≢ e.member_ref) es
ref_cases r [] = inr tt
ref_cases r (e ∷ es) = elim (Bool-cases (r == e.member_ref)) [
  | inl same ↦ inl (e, inl refl, ground arith)
  | inr differ ↦ elim (ref_cases r es) [
    | inl (e', i, q) ↦ inl (e', inr i, q)
    | inr h ↦ inr (ground arith, h)
  ]
]

pub at_member :
    (P : SlotEntry → Type 0) (es : List SlotEntry) (e : SlotEntry) → All P es → IsIn e es → P e
at_member P [] e h i = absurd i
at_member P (f ∷ es) e h (inl q) = subst P (sym q) h.0
at_member P (f ∷ es) e h (inr i) = at_member P es e h.1 i

-- Two entries of a table are the same, or neither their refs nor their members are.
pub pair_cases :
    (e e' : SlotEntry) (es : List SlotEntry)
    → IsDistinct es
    → IsIn e es
    → IsIn e' es
    → (e' ≡ e) ⊎ Apart e' e
unfolding IsDistinct Apart
pair_cases e e' [] d i i' = absurd i
pair_cases e e' (f ∷ es) d (inl q) (inl q') = inl (q' ∙ sym q)
pair_cases e e' (f ∷ es) d (inl q) (inr i') =
    let a = at_member (Apart f) es e' d.0 i' in
    inr (subst (Apart e') (sym q) (λ r. a.0 (sym r), a.2, a.1))
pair_cases e e' (f ∷ es) d (inr i) (inl q') =
    inr (subst (λ f. Apart f e) (sym q') (at_member (Apart f) es e d.0 i))
pair_cases e e' (f ∷ es) d (inr i) (inr i') = pair_cases e e' es d.1 i i'
