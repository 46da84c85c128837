-- ===== src/Kinetic/Stalled.antt =====
-- CoroutineClient::abort_stalled_rpc of src/oio/blob/kinetic/coro/CoroutineClient.cpp: a range-for over
-- the vector that its body erases from.
use oio_sds_cpp.Prelude.{
  ℕ, zero, suc, ◌+◌, ◌≤◌, ◌<◌, ltb, ◌≡◌, refl, ◌∙◌, ap, false, if◌then◌else◌, List, [], ◌∷◌, some,
  none, length, get_elem?, arith, some, Option-cases, Bool-cases, inl, inr,
}
use oio_sds_cpp.Api.{SysError, etimedout}
use oio_sds_cpp.Kinetic.Client.{
  Pending, Client, find_sequence, erase_sequence, pop_rpc, abort_rpc, stalled_loop,
  abort_stalled_rpc,
}
use oio_sds_cpp.Kinetic.Accounting.{Within, abort_rpc_lem, find_sequence-get_elem?}

length-erase-le : (s : ℕ) (ps : List Pending) → length (erase_sequence s ps) ≤ length ps
unfolding erase_sequence
length-erase-le s [] = omega arith
length-erase-le s (p ∷ ps) = ground (arith, length-erase-le s ps)

length-erase :
    (s : ℕ) (ps : List Pending) (p : Pending)
    → find_sequence s ps ≡ some p
    → length (erase_sequence s ps) < length ps
unfolding erase_sequence find_sequence
length-erase s [] p h = cc
length-erase s (q ∷ ps) p h = ground (arith, length-erase s ps p)

abort_rpc_le :
    (c : Client) (p : Pending) (err : SysError)
    → length (abort_rpc c p err).pending ≤ length c.pending
unfolding abort_rpc pop_rpc
abort_rpc_le c p err = ground (arith, length-erase-le p.sequence c.pending)

next_le :
    (c : Client) (p : Pending) (now : ℕ)
    → length (if ltb p.deadline now then abort_rpc c p etimedout else c).pending ≤ length c.pending
next_le c p now = ground (arith, abort_rpc_le c p etimedout)

get_elem?-lt : (ps : List Pending) (i : ℕ) (p : Pending) → get_elem? ps i ≡ some p → i < length ps
get_elem?-lt [] i p h = cc
get_elem?-lt (q ∷ ps) zero p h = omega arith
get_elem?-lt (q ∷ ps) (suc i) p h = omega (arith, get_elem?-lt ps i p h)

get_elem?-ne_none : (ps : List Pending) (i : ℕ) → i < length ps → get_elem? ps i ≡ none → ⊥
get_elem?-ne_none [] i l h = omega arith
get_elem?-ne_none (q ∷ ps) zero l h = cc
get_elem?-ne_none (q ∷ ps) (suc i) l h = get_elem?-ne_none ps i (omega arith) h

ltb_fresh : (d now : ℕ) → now ≤ d → ltb d now ≡ false
ltb_fresh d now h = ground arith

not_here :
    (c : Client) (i j : ℕ) (x p : Pending) (now : ℕ)
    → i ≤ j
    → get_elem? c.pending i ≡ some x
    → get_elem? c.pending j ≡ some p
    → p.deadline < now
    → ltb x.deadline now ≡ false
    → suc i ≤ j
not_here c i j x p now l q e d fine = ground (arith, ap (get_elem? c.pending))

stalled_some :
    (r i : ℕ) (c : Client) (now : ℕ) (p : Pending)
    → get_elem? c.pending i ≡ some p
    → stalled_loop (suc r) i c now
      ≡ stalled_loop r (suc i) (if ltb p.deadline now then abort_rpc c p etimedout else c) now
unfolding stalled_loop
stalled_some r i c now p e = rw (e, stalled_loop)

stalled_none :
    (r i : ℕ) (c : Client) (now : ℕ)
    → get_elem? c.pending i ≡ none
    → stalled_loop (suc r) i c now ≡ none
unfolding stalled_loop
stalled_none r i c now e = rw (e, stalled_loop)

-- Once the vector is shorter than the end that the loop took, the loop reads past it.
short_fault :
    (r i : ℕ) (c : Client) (now : ℕ)
    → length c.pending < i + suc r
    → stalled_loop (suc r) i c now ≡ none
short_fault zero i c now h = elim (Option-cases (get_elem? c.pending i)) [
  | inl e ↦ stalled_none zero i c now e
  | inr (p, e) ↦ absurd (omega (arith, get_elem?-lt c.pending i p e))
]
short_fault (suc k) i c now h = elim (Option-cases (get_elem? c.pending i)) [
  | inl e ↦ stalled_none (suc k) i c now e
  | inr (p, e) ↦
      stalled_some (suc k) i c now p e
      ∙ short_fault k (suc i) _ now (omega (arith, next_le c p now))
]

abort_lt :
    (c : Client) (i : ℕ) (p : Pending) (err : SysError)
    → Within 0 c.next_sequence c.pending
    → get_elem? c.pending i ≡ some p
    → length (abort_rpc c p err).pending < length c.pending
abort_lt c i p err w e = rw (abort_rpc_lem c i p err w e) (
    length-erase p.sequence c.pending p
      (find_sequence-get_elem? 0 c.next_sequence i c.pending p w e))

stalled_fault_from :
    (r i j : ℕ) (c : Client) (now : ℕ) (p : Pending)
    → Within 0 c.next_sequence c.pending
    → length c.pending ≡ i + r
    → i ≤ j
    → suc j < length c.pending
    → get_elem? c.pending j ≡ some p
    → p.deadline < now
    → stalled_loop r i c now ≡ none
stalled_fault_from zero i j c now p w h l m e d = absurd (omega arith)
stalled_fault_from (suc zero) i j c now p w h l m e d = absurd (omega arith)
stalled_fault_from (suc (suc k)) i j c now p w h l m e d =
    elim (Option-cases (get_elem? c.pending i)) [
      | inl q ↦ stalled_none (suc k) i c now q
      | inr (x, q) ↦ elim (Bool-cases (ltb x.deadline now)) [
        | inl late ↦
            stalled_some (suc k) i c now x q
            ∙ rw late (short_fault k (suc i) _ now (omega (arith, abort_lt c i x etimedout w q)))
        | inr fine ↦
            stalled_some (suc k) i c now x q
            ∙ rw fine (
                stalled_fault_from (suc k) (suc i) j c now p w (omega arith)
                  (not_here c i j x p now l q e d fine) m e d)
      ]
    ]

stalled_quiet :
    (r i : ℕ) (c : Client) (now : ℕ)
    → length c.pending ≡ i + r
    → ((j : ℕ) (p : Pending) → get_elem? c.pending j ≡ some p → now ≤ p.deadline)
    → stalled_loop r i c now ≡ some c
unfolding stalled_loop
stalled_quiet zero i c now h fresh = refl
stalled_quiet (suc r) i c now h fresh = elim (Option-cases (get_elem? c.pending i)) [
  | inl e ↦ absurd (get_elem?-ne_none c.pending i (omega arith) e)
  | inr (p, e) ↦
      stalled_some r i c now p e
      ∙ rw (ltb_fresh p.deadline now (fresh i p e))
          (stalled_quiet r (suc i) c now (omega arith) fresh)
]

-- The check leaves a client alone whose pending RPC are all in time.
pub abort_stalled_rpc_quiet :
    (c : Client) (now : ℕ)
    → ((j : ℕ) (p : Pending) → get_elem? c.pending j ≡ some p → now ≤ p.deadline)
    → abort_stalled_rpc c now ≡ some c
unfolding abort_stalled_rpc
abort_stalled_rpc_quiet c now fresh = stalled_quiet (length c.pending) 0 c now (omega arith) fresh

-- With the sequence numbers of the pending RPC in order, whenever one of them is late that is not the
-- last of the vector, the check reads past the end of the vector.
pub abort_stalled_rpc_fault :
    (c : Client) (now j : ℕ) (p : Pending)
    → Within 0 c.next_sequence c.pending
    → suc j < length c.pending
    → get_elem? c.pending j ≡ some p
    → p.deadline < now
    → abort_stalled_rpc c now ≡ none
unfolding abort_stalled_rpc
abort_stalled_rpc_fault c now j p w m e d =
    stalled_fault_from (length c.pending) 0 j c now p w (omega arith) (omega arith) m e d
