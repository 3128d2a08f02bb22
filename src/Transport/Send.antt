-- ===== src/Transport/Send.antt =====
-- What a polled connection hands to its socket, however little the socket takes at a time.
use mathlib.Core.List.{append_assoc}
use xchannel_net.Base.{
  ℕ, zero, suc, ◌+◌, ◌≤◌, ◌<◌, ◌≡◌, refl, sym, ap, subst, ◌∙◌, inl, inr, Bool, true, false, List,
  [], ◌∷◌, ◌++◌, Bytes, All, length, take, drop, ltb, if◌then◌else◌, Bool-cases, arith, drop-drop,
  length-drop,
}
use xchannel_net.Transport.{
  Result, ok, err, write_zero, WriteAnswer, took, would_block, interrupted, broken, FramedConn,
  Flushed, sent_first, unsent, on_write, unless_drained, flush,
}
use xchannel_net.Transport.Receive.{drop_all}

unfoldable pub OutIsValid : FramedConn → Type 0
OutIsValid c = c.outbox_off ≤ length c.outbox

-- What was taken and what is left make up `xs`; nothing is left of it when it is drained.
pub record Kept (c : FramedConn) (xs : Bytes) (r : Flushed) : Type 0 where
  pub conserved : r.0 ++ unsent r.2 ≡ xs
  pub still_valid : OutIsValid r.2
  pub inbox_same : r.2.inbox ≡ c.inbox
  pub drained : r.1 ≡ ok true → unsent r.2 ≡ []

take-drop : (n : ℕ) (xs : Bytes) → take n xs ++ drop (length (take n xs)) xs ≡ xs
take-drop zero xs = refl
take-drop (suc n) [] = refl
take-drop (suc n) (x ∷ xs) = ap (◌∷◌ x) (take-drop n xs)

length-take_le : (n : ℕ) (xs : Bytes) → length (take n xs) ≤ length xs
length-take_le zero xs = omega arith
length-take_le (suc n) [] = omega arith
length-take_le (suc n) (x ∷ xs) = omega (arith, length-take_le n xs)

take_some : (n : ℕ) (xs : Bytes) → 0 < length xs → 0 < length (take (suc n) xs)
take_some n [] h = absurd (omega arith)
take_some n (x ∷ xs) h = omega arith

-- The connection after the socket took up to `n` bytes.
abbrev advanced : FramedConn → ℕ → FramedConn
advanced c n = record c { outbox_off = c.outbox_off + length (take n (drop c.outbox_off c.outbox)) }

advance :
    (c : FramedConn) (n : ℕ)
    → OutIsValid c
    → OutIsValid (advanced c n) × (take n (unsent c) ++ unsent (advanced c n) ≡ unsent c)
unfolding OutIsValid unsent
advance c n v = (
  omega
      (arith, length-take_le n (drop c.outbox_off c.outbox), length-drop c.outbox_off c.outbox, v),
  ap (◌++◌ (take n (drop c.outbox_off c.outbox)))
        (drop-drop (length (take n (drop c.outbox_off c.outbox))) c.outbox_off c.outbox)
      ∙ take-drop n (drop c.outbox_off c.outbox),
)

stopped :
    (c : FramedConn) (r : Result Bool) (later : List WriteAnswer)
    → OutIsValid c
    → (r ≡ ok true → unsent c ≡ [])
    → Kept c (unsent c) ([], r, c, later)
stopped c r later v d = record { conserved = refl; still_valid = v; inbox_same = refl; drained = d }

-- The test of the loop: what is spent is cleared.
spent_lem :
    (c : FramedConn) (later : List WriteAnswer) (r : Flushed)
    → OutIsValid c
    → Kept c (unsent c) r
    → Kept c (unsent c) (unless_drained c later r)
unfolding unless_drained OutIsValid unsent
spent_lem c later r v k = elim (Bool-cases (ltb c.outbox_off (length c.outbox))) [
  | inl more ↦
      subst
        (λ (b : Bool).
          Kept c (drop c.outbox_off c.outbox)
            (if b then r else ([], ok true, record c { outbox = []; outbox_off = 0 }, later)))
        (sym more) k
  | inr spent ↦
      subst
        (λ (b : Bool).
          Kept c (drop c.outbox_off c.outbox)
            (if b then r else ([], ok true, record c { outbox = []; outbox_off = 0 }, later)))
        (sym spent)
        (record {
          conserved = sym (drop_all c.outbox_off c.outbox (ground arith));
          still_valid = omega arith;
          inbox_same = refl;
          drained = λ _. refl;
        })
]

not_drained : (b : Bool) → Result.ok b ≡ ok true → b ≡ true
not_drained b e = cc

write_lem :
    (a : WriteAnswer) (later : List WriteAnswer) (c : FramedConn)
    → OutIsValid c
    → ((c' : FramedConn) → OutIsValid c' → Kept c' (unsent c') (flush later c'))
    → Kept c (unsent c) (on_write a c later (flush later))
unfolding on_write sent_first
write_lem (took zero) later c v more = stopped c (err write_zero) later v (λ e. absurd cc)
write_lem (took (suc n)) later c v more =
    let a = advance c (suc n) v in
    let k = more (advanced c (suc n)) a.0 in
    record {
      conserved =
          append_assoc (take (suc n) (unsent c)) _ _
          ∙ ap (◌++◌ (take (suc n) (unsent c))) k.conserved
          ∙ a.1;
      still_valid = k.still_valid;
      inbox_same = k.inbox_same;
      drained = k.drained;
    }
write_lem would_block later c v more = stopped c (ok false) later v (λ e. absurd cc)
write_lem interrupted later c v more = more c v
write_lem (broken x) later c v more = stopped c (err x) later v (λ e. absurd cc)

pub flush_lem :
    (later : List WriteAnswer) (c : FramedConn) → OutIsValid c → Kept c (unsent c) (flush later c)
unfolding flush
flush_lem [] c v = spent_lem c [] _ v (stopped c (ok false) [] v (λ e. absurd cc))
flush_lem (a ∷ later) c v = spent_lem c (a ∷ later) _ v (write_lem a later c v (flush_lem later))

-- A socket that may make the sender wait but neither fails nor takes nothing.
abbrev pub Serves : WriteAnswer → Type 0
Serves (took zero) = ⊥
Serves (took (suc n)) = Unit {0}
Serves would_block = Unit {0}
Serves interrupted = Unit {0}
Serves (broken e) = ⊥

-- A socket that takes something each time.
abbrev pub Takes : WriteAnswer → Type 0
Takes (took zero) = ⊥
Takes (took (suc n)) = Unit {0}
Takes would_block = ⊥
Takes interrupted = ⊥
Takes (broken e) = ⊥

-- A flush does not fail on such a socket, which still serves after it.
unfoldable pub Served : Flushed → Type 0
Served r = (d : Bool) × (r.1 ≡ ok d) × All Serves r.3

Served-if_spent :
    (c : FramedConn) (later : List WriteAnswer) (r : Flushed)
    → All Serves later
    → Served r
    → Served (unless_drained c later r)
unfolding unless_drained Served
Served-if_spent c later r h s = elim (Bool-cases (ltb c.outbox_off (length c.outbox))) [
  | inl more ↦ simp more s
  | inr spent ↦ simp spent (true, refl, h)
]

write-Served :
    (a : WriteAnswer) (later : List WriteAnswer) (c : FramedConn)
    → All Serves (a ∷ later)
    → ((c' : FramedConn) → Served (flush later c'))
    → Served (on_write a c later (flush later))
unfolding on_write sent_first Served
write-Served (took zero) later c h more = absurd h.0
write-Served (took (suc n)) later c h more = more (advanced c (suc n))
write-Served would_block later c h more = (false, refl, h.1)
write-Served interrupted later c h more = more c
write-Served (broken e) later c h more = absurd h.0

pub flush-Served :
    (later : List WriteAnswer) (c : FramedConn) → All Serves later → Served (flush later c)
unfolding flush Served
flush-Served [] c h = Served-if_spent c [] _ h (false, refl, h)
flush-Served (a ∷ later) c h =
    Served-if_spent c (a ∷ later) _ h (write-Served a later c h (λ c'. flush-Served later c' h.1))

-- A flush drains when the socket takes something each time, and often enough.
pub flush_drains :
    (later : List WriteAnswer) (c : FramedConn)
    → OutIsValid c
    → All Takes later
    → length (unsent c) ≤ length later
    → (flush later c).1 ≡ ok true
unfolding flush unless_drained on_write sent_first unsent OutIsValid
flush_drains [] c v h le = elim (Bool-cases (ltb c.outbox_off (length c.outbox))) [
  | inl more ↦ absurd (ground (arith, length-drop c.outbox_off c.outbox))
  | inr spent ↦ simp spent refl
]
flush_drains (took zero ∷ later) c v h le = absurd h.0
flush_drains (took (suc n) ∷ later) c v h le =
    elim (Bool-cases (ltb c.outbox_off (length c.outbox))) [
      | inl more ↦
          let a = advance c (suc n) v in
          simp more (
            flush_drains later (advanced c (suc n)) a.0 h.1 (
              omega (
                arith,
                length-drop (c.outbox_off + length (take (suc n) (drop c.outbox_off c.outbox)))
                    c.outbox,
                length-drop c.outbox_off c.outbox,
                take_some n (drop c.outbox_off c.outbox)
                    (ground (arith, length-drop c.outbox_off c.outbox)),
                le,
              )))
      | inr spent ↦ simp spent refl
    ]
flush_drains (would_block ∷ later) c v h le = absurd h.0
flush_drains (interrupted ∷ later) c v h le = absurd h.0
flush_drains (broken e ∷ later) c v h le = absurd h.0
