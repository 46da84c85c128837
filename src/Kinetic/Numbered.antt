-- ===== src/Kinetic/Numbered.antt =====
-- The keys that a KineticUpload (src/oio/blob/kinetic/coro/blob.cpp) gives to its blocks.
use oio_sds_cpp.Prelude.{
  ℕ, zero, suc, ◌+◌, ◌-◌, ◌%◌, ◌≤◌, ◌<◌, leb, ◌==◌, ◌≡◌, refl, sym, ◌∙◌, ap, List, [], ◌∷◌, ◌++◌,
  some, length, take, drop, Bytes, All, arith, Bool-cases, inl, inr, All-append, length-append,
  length-drop, length-take, get_elem?, u32_mod, subst,
}
use mathlib.Core.Option.{some-injective}
use oio_sds_cpp.Kinetic.Upload.{
  Put, KineticUpload, trigger_block, write, write_loop, write_round, flush, key_of, block_suffix,
}
use oio_sds_cpp.Kinetic.Blocks.{IsReady, round_Written, asserts_ready, write-IsReady}

-- The puts are the blocks of the name, numbered from `i` on.
abbrev pub Numbered : Bytes → ℕ → List Put → Type 0
Numbered name i [] = Unit
Numbered name i (p ∷ ps) =
    (p.key ≡ key_of name (block_suffix i (length p.value))) × Numbered name (i + 1) ps

pub record IsNumbered (u : KineticUpload) : Type 0 where
  pub next : u.next_client ≡ length u.ops
  pub keys : Numbered u.chunkid 0 u.ops
  pub sizes : All (λ p. length p.value ≤ u.buffer_limit) u.ops

Numbered-append :
    (name : Bytes) (i j : ℕ) (ps : List Put) (p : Put)
    → i + length ps ≡ j
    → Numbered name i ps
    → p.key ≡ key_of name (block_suffix j (length p.value))
    → Numbered name i (ps ++ p ∷ [])
Numbered-append name i j [] p e h k =
    (k ∙ ap (λ n. key_of name (block_suffix n (length p.value))) (omega arith), tt)
Numbered-append name i j (q ∷ ps) p e h k =
    (h.0, Numbered-append name (i + 1) j ps p (omega arith) h.1 k)

block_IsNumbered :
    (u : KineticUpload)
    → IsNumbered u
    → length u.ops + 1 < u32_mod
    → length u.buffer ≤ u.buffer_limit
    → IsNumbered (trigger_block u)
unfolding trigger_block
block_IsNumbered u h b k =
    let p : Put = record {
      client = get_elem? u.clients (u.next_client % length u.clients);
      key = key_of u.chunkid (block_suffix u.next_client (length u.buffer));
      value = u.buffer;
    } in
    let longer = length-append u.ops (p ∷ []) in
    let next = h.next in
    record {
      next = ground arith;
      keys = Numbered-append u.chunkid 0 u.next_client u.ops p (omega arith) h.keys refl;
      sizes = All-append (λ q. length q.value ≤ u.buffer_limit) u.ops (p ∷ []) h.sizes (k, tt);
    }

round_IsNumbered :
    (u : KineticUpload) (buf : Bytes)
    → IsReady u
    → IsNumbered u
    → length u.ops + 1 < u32_mod
    → IsNumbered (write_round u buf)
unfolding write_round
round_IsNumbered u buf r h b =
    let piece = take (u.buffer_limit - length u.buffer) buf in
    let u' : KineticUpload = record u { buffer = u.buffer ++ piece } in
    let same : IsNumbered u' = record { next = h.next; keys = h.keys; sizes = h.sizes } in
    elim (Bool-cases (leb u.buffer_limit (length (u.buffer ++ piece)))) [
      | inl t ↦ rw t (
          block_IsNumbered u' same b (
            omega (
              arith,
              length-append u.buffer piece,
              length-take (u.buffer_limit - length u.buffer) buf,
              r.below,
            )))
      | inr f ↦ rw f same
    ]

-- The blocks that were made and the bytes to come do not grow.
round_length :
    (u : KineticUpload) (b : ℕ) (buf : Bytes)
    → IsReady u
    → length (write_round u (b ∷ buf)).ops
        + length (drop (u.buffer_limit - length u.buffer) (b ∷ buf))
      ≤ length u.ops + length (b ∷ buf)
unfolding write_round trigger_block
round_length u b buf r =
    let piece = take (u.buffer_limit - length u.buffer) (b ∷ buf) in
    let below = r.below in
    let shorter = length-drop (u.buffer_limit - length u.buffer) (b ∷ buf) in
    elim (Bool-cases (leb u.buffer_limit (length (u.buffer ++ piece)))) [
      | inl t ↦ rw t (omega (arith, length-append u.ops))
      | inr f ↦ rw f (omega arith)
    ]

loop_IsNumbered :
    (fuel : ℕ) (u v : KineticUpload) (buf : Bytes)
    → IsReady u
    → IsNumbered u
    → length u.ops + length buf + 1 < u32_mod
    → write_loop fuel u buf ≡ some v
    → IsNumbered v × (length v.ops ≤ length u.ops + length buf)
unfolding write_loop
loop_IsNumbered fuel u v [] r h b e =
    subst (λ d. IsNumbered d × (length d.ops ≤ length u.ops + 0)) (some-injective u v e)
      (h, omega arith)
loop_IsNumbered zero u v (x ∷ buf) r h b e = absurd (ground arith)
loop_IsNumbered (suc fuel) u v (x ∷ buf) r h b e =
    let n = u.buffer_limit - length u.buffer in
    let shorter = round_length u x buf r in
    let (numbered, bound) =
      loop_IsNumbered fuel (write_round u (x ∷ buf)) v (drop n (x ∷ buf))
        (round_Written u (x ∷ buf) r).ready (round_IsNumbered u (x ∷ buf) r h (omega arith))
        (omega arith) (rw (asserts_ready u (x ∷ buf) r) at e) in
    (numbered, omega arith)

-- A write keeps the numbers of the blocks.
pub write-IsNumbered :
    (fuel : ℕ) (u v : KineticUpload) (buf : Bytes)
    → IsReady u
    → IsNumbered u
    → length u.ops + length buf + 1 < u32_mod
    → write fuel u buf ≡ some v
    → IsNumbered v × (length v.ops ≤ length u.ops + length buf)
write-IsNumbered fuel u v buf r h b e =
    loop_IsNumbered fuel u v buf r h b (sym (write-IsReady fuel u buf r) ∙ e)

pub flush-IsNumbered :
    (u : KineticUpload)
    → IsReady u
    → IsNumbered u
    → length u.ops + 1 < u32_mod
    → IsNumbered (flush u) × (length (flush u).ops ≤ length u.ops + 1)
unfolding flush trigger_block
flush-IsNumbered u r h b = elim (Bool-cases (length u.buffer == 0)) [
  | inl t ↦ rw t (h, omega arith)
  | inr f ↦
      rw f (block_IsNumbered u h b (omega (arith, r.below)), omega (arith, length-append u.ops))
]
