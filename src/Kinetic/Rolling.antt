-- ===== src/Kinetic/Rolling.antt =====
-- _rolling_delete of src/oio/blob/kinetic/coro/blob.cpp: orders of removal are sent to the drives a few
-- at a time.
use oio_sds_cpp.Prelude.{
  ℕ, zero, suc, ◌+◌, ◌-◌, ◌%◌, ◌≤◌, ◌<◌, ltb, ◌==◌, ◌&&◌, ◌≡◌, ◌∙◌, ap, false, if◌then◌else◌, List,
  [], ◌∷◌, ◌++◌, Option, some, none, arith, min, u32_mod, Bool-cases, inl, inr,
}

-- What _rolling_delete does with its operations, by their index: PendingDelete::Start, and the wait for
-- the reply.
pub data Order : Type 0 where
  starts : ℕ → Order
  waits : ℕ → Order

-- The first loop of _rolling_delete, from `i` on; `left` is what `i` lacks to the parallelism.
unfoldable pub pre_start : ℕ → ℕ → ℕ → List Order
pre_start n zero i = []
pre_start n (suc left) i =
    let rest = pre_start n left (i + 1) in if ltb i n then starts i ∷ rest else []

-- The second loop, from `i` on; `left` is what `i` lacks to the number of operations.
unfoldable pub rolling_loop : ℕ → ℕ → ℕ → ℕ → List Order
rolling_loop parallelism n zero i = []
rolling_loop parallelism n (suc left) i =
    let rest = rolling_loop parallelism n left (i + 1) in
    let next = (i + parallelism) % u32_mod in
    waits i ∷ (if ltb next n then starts next ∷ rest else rest)

-- _rolling_delete of `n` operations
unfoldable pub rolling_delete : ℕ → ℕ → List Order
unfolding pre_start rolling_loop
rolling_delete parallelism n = pre_start n parallelism 0 ++ rolling_loop parallelism n n 0

-- A pool that has started the operations below `started` and waited for those below `waited`. It takes
-- an operation that is the next one, a start only when fewer than `parallelism` are in flight, and a
-- wait only for what was started.
pub record Pool : Type 0 where
  pub started : ℕ
  pub waited : ℕ

abbrev pub take_order : ℕ → Pool → Order → Option Pool
take_order parallelism p (starts i) =
    if (i == p.started) && ltb (p.started - p.waited) parallelism
    then some (record p { started = p.started + 1 })
    else none
take_order parallelism p (waits i) =
    if (i == p.waited) && ltb p.waited p.started
    then some (record p { waited = p.waited + 1 })
    else none

abbrev pub take_orders : ℕ → Option Pool → List Order → Option Pool
take_orders parallelism none orders = none
take_orders parallelism (some p) [] = some p
take_orders parallelism (some p) (o ∷ orders) =
    take_orders parallelism (take_order parallelism p o) orders

take_orders-append :
    (m : ℕ) (p : Option Pool) (xs ys : List Order) (q : Pool)
    → take_orders m p xs ≡ some q
    → take_orders m p (xs ++ ys) ≡ take_orders m (some q) ys
take_orders-append m none xs ys q h = absurd (ground arith)
take_orders-append m (some p) [] ys q h = ap (λ x. take_orders m x ys) h
take_orders-append m (some p) (x ∷ xs) ys q h = take_orders-append m (take_order m p x) xs ys q h

-- The pool of the second loop when its index is `i`.
at_index : ℕ → ℕ → ℕ → Pool
at_index m n i = record { started = min n (i + m); waited = i }

waits_next :
    (m n i : ℕ)
    → 0 < m
    → i < n
    → take_order m (at_index m n i) (waits i)
      ≡ some (record { started = min n (i + m); waited = i + 1 })
unfolding at_index
waits_next m n i h k = ground arith

starts_next :
    (m n i : ℕ)
    → 0 < m
    → i + m < n
    → take_order m (record { started = min n (i + m); waited = i + 1 }) (starts (i + m))
      ≡ some (at_index m n (i + 1))
unfolding at_index
starts_next m n i h k = ground arith

at_end :
    (m n i : ℕ)
    → ltb (i + m) n ≡ false
    → record { started = min n (i + m); waited = i + 1 } ≡ at_index m n (i + 1)
unfolding at_index
at_end m n i h = ground arith

loop_orders :
    (m n left i : ℕ)
    → 0 < m
    → n + m ≤ u32_mod
    → i + left ≡ n
    → take_orders m (some (at_index m n i)) (rolling_loop m n left i)
      ≡ some (record { started = n; waited = n })
unfolding rolling_loop at_index
loop_orders m n zero i h b e = ground arith
loop_orders m n (suc left) i h b e =
    let later = loop_orders m n left (i + 1) h b (omega arith) in
    let no_wrap : (i + m) % u32_mod ≡ i + m = ground arith in
    let tail = rolling_loop m n left (i + 1) in
    rw no_wrap (elim (Bool-cases (ltb (i + m) n)) [
      | inl t ↦ rw t (
          ap (λ p. take_orders m p (starts (i + m) ∷ tail)) (waits_next m n i h (omega arith))
          ∙ ap (λ p. take_orders m p tail) (starts_next m n i h (ground arith))
          ∙ later)
      | inr f ↦ rw f (
          ap (λ p. take_orders m p tail) (waits_next m n i h (omega arith))
          ∙ ap (λ p. take_orders m (some p) tail) (at_end m n i f)
          ∙ later)
    ])

starts_first :
    (m n i : ℕ)
    → i < m
    → take_order m (record { started = i; waited = 0 }) (starts i)
      ≡ some (record { started = i + 1; waited = 0 })
starts_first m n i h = ground arith

pre_orders :
    (m n left i : ℕ)
    → i ≤ n
    → i + left ≡ m
    → take_orders m (some (record { started = i; waited = 0 })) (pre_start n left i)
      ≡ some (at_index m n 0)
unfolding pre_start at_index
pre_orders m n zero i h e = ground arith
pre_orders m n (suc left) i h e = elim (Bool-cases (ltb i n)) [
  | inl t ↦ rw t (
      ap (λ p. take_orders m p (pre_start n left (i + 1))) (starts_first m n i (omega arith))
      ∙ pre_orders m n left (i + 1) (ground arith) (omega arith))
  | inr f ↦ rw f (ground arith)
]

-- With a parallelism above 0 and fewer operations than an unsigned int counts, every operation is
-- started once, in order, waited for once, after its start, and no more of them than the parallelism
-- are in flight at a time.
pub rolling_delete-Pool :
    (parallelism n : ℕ)
    → 0 < parallelism
    → n + parallelism ≤ u32_mod
    → take_orders parallelism
        (some (record { started = 0; waited = 0 }))
        (rolling_delete parallelism n)
      ≡ some (record { started = n; waited = n })
unfolding rolling_delete
rolling_delete-Pool parallelism n h b =
    take_orders-append parallelism (some (record { started = 0; waited = 0 }))
      (pre_start n parallelism 0) (rolling_loop parallelism n n 0) _
      (pre_orders parallelism n parallelism 0 (omega arith) (omega arith))
    ∙ loop_orders parallelism n n 0 h b (omega arith)
