-- ===== src/Kinetic/Accounting.antt =====
-- Every RPC of src/oio/blob/kinetic/coro/CoroutineClient.cpp is signalled once: lemmas on the list of
-- the pending exchanges, and the invariant of a client.
use oio_sds_cpp.Prelude.{
  ℕ, zero, suc, ◌+◌, ◌≤◌, ◌==◌, ◌≡◌, refl, if◌then◌else◌, List, [], ◌∷◌, ◌++◌, map, some, length,
  get_elem?, arith, some,
}
use oio_sds_cpp.Api.{SysError}
use oio_sds_cpp.Kinetic.Client.{
  Pending, Answer, error, Client, find_sequence, erase_sequence, pop_rpc, abort_rpc,
}

abbrev pub count_pending : ℕ → List Pending → ℕ
count_pending id [] = 0
count_pending id (p ∷ ps) = (if p.id == id then 1 else 0) + count_pending id ps

abbrev pub count_signals : ℕ → List (ℕ × Answer) → ℕ
count_signals id [] = 0
count_signals id ((j, a) ∷ l) = (if j == id then 1 else 0) + count_signals id l

-- The exchanges named `id` that the client knows of: queued, sent, and signalled.
abbrev pub accounted : ℕ → Client → ℕ
accounted id c =
    count_pending id c.waiting + count_pending id c.pending + count_signals id c.signals

-- The sequence numbers rise along the list and stay below the next one.
abbrev pub Within : ℕ → ℕ → List Pending → Type 0
Within lo hi [] = lo ≤ hi
Within lo hi (p ∷ ps) = (lo ≤ p.sequence) × Within (suc p.sequence) hi ps

pub count_pending-append :
    (id : ℕ) (ps qs : List Pending)
    → count_pending id (ps ++ qs) ≡ count_pending id ps + count_pending id qs
count_pending-append id [] qs = omega arith
count_pending-append id (p ∷ ps) qs = omega (arith, count_pending-append id ps qs)

pub count_signals-append :
    (id : ℕ) (l m : List (ℕ × Answer))
    → count_signals id (l ++ m) ≡ count_signals id l + count_signals id m
count_signals-append id [] m = omega arith
count_signals-append id ((j, a) ∷ l) m = omega (arith, count_signals-append id l m)

pub count_signals-map :
    (id : ℕ) (a : Answer) (ps : List Pending)
    → count_signals id (map (λ p. (p.id, a)) ps) ≡ count_pending id ps
count_signals-map id a [] = refl
count_signals-map id a (p ∷ ps) = omega (arith, count_signals-map id a ps)

Within-weaken : (k lo hi : ℕ) (ps : List Pending) → k ≤ lo → Within lo hi ps → Within k hi ps
Within-weaken k lo hi [] h w = omega arith
Within-weaken k lo hi (p ∷ ps) h w = (omega arith, w.1)

pub Within-le : (lo hi : ℕ) (ps : List Pending) → Within lo hi ps → lo ≤ hi
Within-le lo hi [] w = w
Within-le lo hi (p ∷ ps) w = omega (arith, w.0, Within-le (suc p.sequence) hi ps w.1)

pub Within-append :
    (lo hi : ℕ) (ps : List Pending) (p : Pending)
    → Within lo hi ps
    → p.sequence ≡ hi
    → Within lo (hi + 1) (ps ++ p ∷ [])
Within-append lo hi [] p w e = (omega arith, omega arith)
Within-append lo hi (q ∷ ps) p w e = (w.0, Within-append (suc q.sequence) hi ps p w.1 e)

pub Within-raise : (lo hi n : ℕ) (ps : List Pending) → hi ≤ n → Within lo hi ps → Within lo n ps
Within-raise lo hi n [] h w = omega arith
Within-raise lo hi n (p ∷ ps) h w = (w.0, Within-raise (suc p.sequence) hi n ps h w.1)

pub Within-erase :
    (s lo hi : ℕ) (ps : List Pending) → Within lo hi ps → Within lo hi (erase_sequence s ps)
unfolding erase_sequence
Within-erase s lo hi [] w = w
Within-erase s lo hi (p ∷ ps) w =
    ground
      (arith, Within-erase s (suc p.sequence) hi ps w.1, Within-weaken lo (suc p.sequence) hi ps)

pub count_pending-erase :
    (id s : ℕ) (ps : List Pending) (p : Pending)
    → find_sequence s ps ≡ some p
    → count_pending id ps ≡ (if p.id == id then 1 else 0) + count_pending id (erase_sequence s ps)
unfolding find_sequence erase_sequence
count_pending-erase id s [] p h = cc
count_pending-erase id s (q ∷ ps) p h = ground (arith, count_pending-erase id s ps p)

get_elem?-Within :
    (lo hi i : ℕ) (ps : List Pending) (p : Pending)
    → Within lo hi ps
    → get_elem? ps i ≡ some p
    → lo ≤ p.sequence
get_elem?-Within lo hi i [] p w h = cc
get_elem?-Within lo hi zero (q ∷ ps) p w h = ground arith
get_elem?-Within lo hi (suc i) (q ∷ ps) p w h =
    omega (arith, get_elem?-Within (suc q.sequence) hi i ps p w.1 h)

-- Looked up by its number, a pending exchange is found, and no other one.
pub find_sequence-get_elem? :
    (lo hi i : ℕ) (ps : List Pending) (p : Pending)
    → Within lo hi ps
    → get_elem? ps i ≡ some p
    → find_sequence p.sequence ps ≡ some p
unfolding find_sequence
find_sequence-get_elem? lo hi i [] p w h = cc
find_sequence-get_elem? lo hi zero (q ∷ ps) p w h = ground arith
find_sequence-get_elem? lo hi (suc i) (q ∷ ps) p w h = ground (
  arith,
  find_sequence-get_elem? (suc q.sequence) hi i ps p w.1 h,
  get_elem?-Within (suc q.sequence) hi i ps p w.1 h,
)

pub get_elem?-append_last :
    (ps : List Pending) (p : Pending) → get_elem? (ps ++ p ∷ []) (length ps) ≡ some p
get_elem?-append_last [] p = refl
get_elem?-append_last (q ∷ ps) p = get_elem?-append_last ps p

-- Aborting a pending exchange takes that one off the list and signals it.
pub abort_rpc_lem :
    (c : Client) (i : ℕ) (p : Pending) (err : SysError)
    → Within 0 c.next_sequence c.pending
    → get_elem? c.pending i ≡ some p
    → abort_rpc c p err ≡ record c {
      pending = erase_sequence p.sequence c.pending;
      signals = c.signals ++ (p.id, error err) ∷ [];
    }
unfolding abort_rpc pop_rpc
abort_rpc_lem c i p err w h =
    ground (arith, find_sequence-get_elem? 0 c.next_sequence i c.pending p w h)

-- An abort changes neither what is accounted for nor the order of the pending exchanges.
pub abort_rpc-accounted :
    (c : Client) (i : ℕ) (p : Pending) (err : SysError) (id : ℕ)
    → Within 0 c.next_sequence c.pending
    → get_elem? c.pending i ≡ some p
    → (accounted id (abort_rpc c p err) ≡ accounted id c)
      × Within 0 c.next_sequence (abort_rpc c p err).pending
abort_rpc-accounted c i p err id w h = rw (abort_rpc_lem c i p err w h) (
  omega (
    arith,
    count_signals-append id c.signals ((p.id, error err) ∷ []),
    count_pending-erase id p.sequence c.pending p
        (find_sequence-get_elem? 0 c.next_sequence i c.pending p w h),
  ),
  Within-erase p.sequence 0 c.next_sequence c.pending w,
)
