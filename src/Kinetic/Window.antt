-- ===== src/Kinetic/Window.antt =====
-- What the reads of a KineticDownload (src/oio/blob/kinetic/coro/blob.cpp) give, one after another.
use oio_sds_cpp.Prelude.{
  ℕ, zero, suc, ◌≤◌, ◌<◌, ltb, ◌≡◌, refl, sym, ◌∙◌, ap, ◌&&◌, List, [], ◌∷◌, ◌++◌, some, length,
  Bytes, ℤ, to_int32, map, concat, arith, Bool-cases, inl, inr, append_assoc, length-append,
}
use oio_sds_cpp.Kinetic.Download.{
  PendingGet, KineticDownload, parallel_factor, is_eof, is_empty, fill, read, read_all, take_first,
}

-- The gets whose bytes were not given to the caller.
abbrev pub queued : KineticDownload → List PendingGet
queued d = d.running ++ d.waiting

fill-queued : (r w : List PendingGet) → queued (fill r w) ≡ r ++ w
unfolding fill
fill-queued r [] = refl
fill-queued r (p ∷ w) = elim (Bool-cases (ltb (length r) parallel_factor)) [
  | inl t ↦ rw t (fill-queued (r ++ p ∷ []) w ∙ append_assoc r (p ∷ []) w)
  | inr f ↦ rw f refl
]

fill_bound :
    (r w : List PendingGet)
    → length r ≤ parallel_factor
    → length (fill r w).running ≤ parallel_factor
unfolding fill
fill_bound r [] h = h
fill_bound r (p ∷ w) h = elim (Bool-cases (ltb (length r) parallel_factor)) [
  | inl t ↦ rw t (fill_bound (r ++ p ∷ []) w (ground (arith, length-append r (p ∷ []))))
  | inr f ↦ rw f h
]

-- A fill of a queue that is not empty leaves a get running.
fill_starts :
    (p : PendingGet) (r w : List PendingGet)
    → (rest : List PendingGet) × ((fill (p ∷ r) w).running ≡ p ∷ rest)
unfolding fill
fill_starts p r [] = (r, refl)
fill_starts p r (q ∷ w) = elim (Bool-cases (ltb (length (p ∷ r)) parallel_factor)) [
  | inl t ↦ rw t (fill_starts p (r ++ q ∷ []) w)
  | inr f ↦ rw f (r, refl)
]

-- One read of a download that has gets left: the first of them, and the others stay in order.
pub record OneRead (fetch : PendingGet → Bytes) (p : PendingGet) (rest : List PendingGet)
    (r : KineticDownload × Bytes × ℤ) : Type 0 where
  pub piece : r.1 ≡ fetch p
  pub size : r.2 ≡ to_int32 (length (fetch p))
  pub left : queued r.0 ≡ rest
  pub bound : length r.0.running < parallel_factor

take_first-OneRead :
    (fetch : PendingGet → Bytes) (buf : Bytes) (d : KineticDownload) (p q : PendingGet)
    (rest others running : List PendingGet)
    → d.running ≡ running
    → running ≡ q ∷ others
    → queued d ≡ p ∷ rest
    → length d.running ≤ parallel_factor
    → OneRead fetch p rest (take_first fetch buf d running)
unfolding take_first
take_first-OneRead fetch buf d p q rest others [] e f g h = absurd (ground arith)
take_first-OneRead fetch buf d p q rest others (x ∷ running) e f g h =
    let all : x ∷ (running ++ d.waiting) ≡ p ∷ rest = ap (λ l. l ++ d.waiting) (sym e) ∙ g in
    let same : x ≡ p = ground arith in
    record {
      piece = ap fetch same;
      size = ap (λ z. to_int32 (length (fetch z))) same;
      left = ground arith;
      bound = omega (arith, h, ap length e);
    }

fill_some :
    (d : KineticDownload) (p : PendingGet) (rest : List PendingGet)
    → queued d ≡ p ∷ rest
    → (q : PendingGet) × (others : List PendingGet) × ((fill d.running d.waiting).running
        ≡ q ∷ others)
unfolding fill
fill_some d p rest e = started d.running d.waiting e
  where
    started :
        (r w : List PendingGet)
        → r ++ w ≡ p ∷ rest
        → (q : PendingGet) × (others : List PendingGet) × ((fill r w).running ≡ q ∷ others)
    started [] [] e = absurd (ground arith)
    started [] (q ∷ w) e = let (o, f) = fill_starts q [] w in (q, o, f)
    started (q ∷ r) w e = let (o, f) = fill_starts q r w in (q, o, f)

-- While gets are queued, a read gives the bytes of the first of them, with their number, and keeps the
-- others in order; fewer than four are running after it.
pub read-OneRead :
    (fetch : PendingGet → Bytes) (d : KineticDownload) (buf : Bytes) (p : PendingGet)
    (rest : List PendingGet)
    → queued d ≡ p ∷ rest
    → length d.running ≤ parallel_factor
    → OneRead fetch p rest (read fetch d buf)
unfolding read
read-OneRead fetch d buf p rest e h =
    let (q, others, f) = fill_some d p rest e in
    take_first-OneRead fetch buf (fill d.running d.waiting) p q rest others
      (fill d.running d.waiting).running refl f (fill-queued d.running d.waiting ∙ e)
      (fill_bound d.running d.waiting h)

eof_iff : (d : KineticDownload) (l : List PendingGet) → queued d ≡ l → is_eof d ≡ is_empty l
eof_iff d l e = ends d.running d.waiting l e
  where
    ends : (r w l : List PendingGet) → r ++ w ≡ l → (is_empty w && is_empty r) ≡ is_empty l
    ends [] [] l e = ap is_empty e
    ends [] (x ∷ w) l e = ap is_empty e
    ends (x ∷ r) [] l e = ap is_empty e
    ends (x ∷ r) (y ∷ w) l e = ap is_empty e

-- With fuel for each queued get, reading to the end gives the bytes of all of them, in order.
pub read_all-queued :
    (fuel : ℕ) (fetch : PendingGet → Bytes) (d : KineticDownload) (l : List PendingGet)
    → queued d ≡ l
    → length d.running ≤ parallel_factor
    → length l ≤ fuel
    → read_all fuel fetch d ≡ some (concat (map fetch l))
unfolding read_all
read_all-queued zero fetch d [] e h k = rw (eof_iff d [] e) refl
read_all-queued zero fetch d (p ∷ l) e h k = absurd (omega arith)
read_all-queued (suc fuel) fetch d [] e h k = rw (eof_iff d [] e) refl
read_all-queued (suc fuel) fetch d (p ∷ l) e h k =
    let one = read-OneRead fetch d [] p l e h in
    let later =
      read_all-queued fuel fetch (read fetch d []).0 l one.left (omega (arith, one.bound))
        (omega arith) in
    rw (eof_iff d (p ∷ l) e) (rw later (ap (λ b. some (b ++ concat (map fetch l))) one.piece))
