-- ===== src/Kinetic/Checks.antt =====
-- What the check for late exchanges of src/oio/blob/kinetic/coro/CoroutineClient.cpp does to the
-- invariant of a client, where it reads no element past its vector.
use oio_sds_cpp.Prelude.{
  ℕ, zero, suc, ltb, ◌≡◌, true, false, if◌then◌else◌, some, get_elem?, arith, some, Option-cases,
  inl, inr, subst,
}
use mathlib.Core.Option.{some-injective}
use oio_sds_cpp.Api.{etimedout}
use oio_sds_cpp.Kinetic.Client.{Pending, Client, abort_rpc, stalled_loop}
use oio_sds_cpp.Kinetic.Signals.{Inv, Kept, abort-Kept, Kept-trans}

stalled_next : Client → Pending → ℕ → Client
stalled_next c p now = if ltb p.deadline now then abort_rpc c p etimedout else c

stalled_inversion :
    (rounds i : ℕ) (c : Client) (now : ℕ) (c' : Client)
    → stalled_loop (suc rounds) i c now ≡ some c'
    → (p : Pending) × (get_elem? c.pending i ≡ some p)
      × (stalled_loop rounds (suc i) (stalled_next c p now) now ≡ some c')
unfolding stalled_loop stalled_next
stalled_inversion rounds i c now c' h = elim (Option-cases (get_elem? c.pending i)) [
  | inl e ↦ absurd (ground arith)
  | inr (p, e) ↦ (p, e, ground arith)
]

stalled_next-Kept :
    (c : Client) (id i : ℕ) (p : Pending) (now : ℕ)
    → Inv c
    → c.online ≡ true
    → get_elem? c.pending i ≡ some p
    → Kept id 0 c (stalled_next c p now) × ((stalled_next c p now).online ≡ true)
unfolding stalled_next
stalled_next-Kept c id i p now v o h =
    elim (ltb p.deadline now)
      as (λ b.
        Kept id 0 c (if b then abort_rpc c p etimedout else c)
        × ((if b then abort_rpc c p etimedout else c).online ≡ true)) [
          | true ↦ abort-Kept c id i p etimedout v o h
          | false ↦ (record { inv = v; same = omega arith }, o)
        ]

pub stalled_loop-Kept :
    (rounds i : ℕ) (c : Client) (now id : ℕ) (c' : Client)
    → Inv c
    → c.online ≡ true
    → stalled_loop rounds i c now ≡ some c'
    → Kept id 0 c c'
unfolding stalled_loop
stalled_loop-Kept zero i c now id c' v o h =
    subst (λ d. Kept id 0 c d) (some-injective _ _ h) (record { inv = v; same = omega arith })
stalled_loop-Kept (suc rounds) i c now id c' v o h =
    let (p, e, g) = stalled_inversion rounds i c now c' h in
    let (k, o') = stalled_next-Kept c id i p now v o e in
    Kept-trans id 0 0 c _ c' k
      (stalled_loop-Kept rounds (suc i) (stalled_next c p now) now id c' k.inv o' g)
