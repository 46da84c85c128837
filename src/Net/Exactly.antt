-- ===== src/Net/Exactly.antt =====
-- What Socket::read_exactly of src/utils/net.cpp leaves in the buffer and in the stream.
use oio_sds_cpp.Prelude.{
  ℕ, zero, suc, ◌+◌, ◌-◌, ◌≤◌, ◌<◌, ◌≡◌, refl, sym, ◌∙◌, ap, Bool, List, [], ◌∷◌, ◌++◌, Bytes,
  length, length-append, append_assoc, arith, eq_nil_of_length, take, drop, subst, split_at, inl,
  inr,
}
use oio_sds_cpp.Api.{SysError, eagain}
use oio_sds_cpp.Net.{Poll, Outcome, done, blocked, aborted, failed, stop, verdict, Verdict-cases}
use oio_sds_cpp.Net.Reading.{
  ReadEvent, got, closed, fails, Read, timeout_error, read_loop, read_exactly, ReadConforms, stream,
  ReadsOn,
}

read_loop-stream :
    (len0 len : ℕ) (buf : Bytes) (es : List ReadEvent)
    → (read_loop len0 len buf es).received ++ stream (read_loop len0 len buf es).left
      ≡ buf ++ stream es
unfolding read_loop
read_loop-stream len0 zero buf es = refl
read_loop-stream len0 (suc n) buf [] = refl
read_loop-stream len0 (suc n) buf (got b ∷ es) =
    read_loop-stream len0 (suc n - length b) (buf ++ b) es ∙ append_assoc buf b (stream es)
read_loop-stream len0 (suc n) buf (closed ∷ es) = refl
read_loop-stream len0 (suc n) buf (fails e late poll ∷ es) =
    ground (arith, read_loop-stream len0 (suc n) buf es)

-- Whatever the outcome, the bytes in the buffer and those still in the stream are the peer's bytes, in
-- their order: none is lost, repeated or moved.
pub read_exactly-stream :
    (len : ℕ) (es : List ReadEvent)
    → (read_exactly len es).received ++ stream (read_exactly len es).left ≡ stream es
unfolding read_exactly
read_exactly-stream len es = read_loop-stream len len [] es

-- What each outcome says of the buffer: all of it is filled, or less; and the error EAGAIN says that
-- nothing was read.
abbrev pub Filled : ℕ → Outcome → Bytes → Type 0
Filled len done received = length received ≡ len
Filled len blocked received = length received < len
Filled len (failed e) received = (length received < len) × (e ≡ eagain → received ≡ [])
Filled len aborted received = ⊥

verdict-eq-eagain :
    (t e : SysError) (late : Bool) (poll : Poll) → verdict t e late poll ≡ stop eagain → t ≡ eagain
unfolding verdict
verdict-eq-eagain t e late poll h = ground arith

timeout_error-eq-eagain :
    (len0 len : ℕ) (buf : Bytes)
    → length buf + len ≡ len0
    → timeout_error len0 len ≡ eagain
    → buf ≡ []
timeout_error-eq-eagain len0 len buf h e = eq_nil_of_length buf (ground arith)

read_loop-Filled :
    (len0 len : ℕ) (buf : Bytes) (es : List ReadEvent)
    → length buf + len ≡ len0
    → ReadConforms len es
    → Filled len0 (read_loop len0 len buf es).outcome (read_loop len0 len buf es).received
unfolding read_loop
read_loop-Filled len0 zero buf es h c = omega arith
read_loop-Filled len0 (suc n) buf [] h c = omega arith
read_loop-Filled len0 (suc n) buf (got b ∷ es) h c =
    read_loop-Filled len0 (suc n - length b) (buf ++ b) es (omega (arith, length-append buf b)) c.2
read_loop-Filled len0 (suc n) buf (closed ∷ es) h c = (omega arith, λ e. cc)
read_loop-Filled len0 (suc n) buf (fails e late poll ∷ es) h c =
    let t : SysError = timeout_error len0 (suc n) in
    elim (Verdict-cases (verdict t e late poll)) [
      | inl v ↦ rw (v, read_loop) (read_loop-Filled len0 (suc n) buf es h c)
      | inr (err, v) ↦
          rw (v, read_loop)
            (
              omega arith,
              λ q.
                  timeout_error-eq-eagain len0 (suc n) buf h
                    (verdict-eq-eagain t e late poll (v ∙ ap stop q)),
            )
    ]

pub read_exactly-Filled :
    (len : ℕ) (es : List ReadEvent)
    → ReadConforms len es
    → Filled len (read_exactly len es).outcome (read_exactly len es).received
unfolding read_exactly
read_exactly-Filled len es c = read_loop-Filled len len [] es (omega arith) c

-- With a kernel that stores between one byte and what is asked for, EAGAIN is returned only if nothing
-- was read: the buffer is empty and the stream is untouched, so the caller may simply try again.
pub read_exactly_eagain :
    (len : ℕ) (es : List ReadEvent)
    → ReadConforms len es
    → (read_exactly len es).outcome ≡ failed eagain
    → ((read_exactly len es).received ≡ []) × (stream (read_exactly len es).left ≡ stream es)
read_exactly_eagain len es c h =
    let r : Read = read_exactly len es in
    let filled : Filled len (failed eagain) r.received =
      subst (λ o. Filled len o r.received) h (read_exactly-Filled len es c) in
    let none_read : r.received ≡ [] = filled.1 refl in
    (none_read, ap (λ b. b ++ stream r.left) (sym none_read) ∙ read_exactly-stream len es)

read_loop_total :
    (len0 len : ℕ) (buf : Bytes) (es : List ReadEvent)
    → ReadConforms len es
    → ReadsOn es
    → len ≤ length (stream es)
    → (read_loop len0 len buf es).outcome ≡ done
unfolding read_loop
read_loop_total len0 zero buf es c r h = refl
read_loop_total len0 (suc n) buf [] c r h = absurd (omega arith)
read_loop_total len0 (suc n) buf (got b ∷ es) c r h =
    read_loop_total len0 (suc n - length b) (buf ++ b) es c.2 r
      (omega (arith, length-append b (stream es)))
read_loop_total len0 (suc n) buf (closed ∷ es) c r h = absurd r
read_loop_total len0 (suc n) buf (fails e late poll ∷ es) c r h =
    rw (r.0 (timeout_error len0 (suc n)), read_loop) (read_loop_total len0 (suc n) buf es c r.1 h)

-- If the stream delivers enough before it fails for good, the read succeeds with its first bytes.
pub read_exactly_total :
    (len : ℕ) (es : List ReadEvent)
    → ReadConforms len es
    → ReadsOn es
    → len ≤ length (stream es)
    → ((read_exactly len es).outcome ≡ done)
      × ((read_exactly len es).received ≡ take len (stream es))
      × (stream (read_exactly len es).left ≡ drop len (stream es))
read_exactly_total len es c r h =
    let finished : (read_exactly len es).outcome ≡ done =
      unfold read_exactly in read_loop_total len len [] es c r h in
    let full : length (read_exactly len es).received ≡ len =
      subst (λ o. Filled len o (read_exactly len es).received) finished
        (read_exactly-Filled len es c) in
    let parts = split_at _ _ (stream es) len full (read_exactly-stream len es) in
    (finished, parts.0, parts.1)

read_loop-ReadsOn :
    (len0 len : ℕ) (buf : Bytes) (es : List ReadEvent)
    → ReadsOn es
    → ReadsOn (read_loop len0 len buf es).left
unfolding read_loop
read_loop-ReadsOn len0 zero buf es r = r
read_loop-ReadsOn len0 (suc n) buf [] r = tt
read_loop-ReadsOn len0 (suc n) buf (got b ∷ es) r =
    read_loop-ReadsOn len0 (suc n - length b) (buf ++ b) es r
read_loop-ReadsOn len0 (suc n) buf (closed ∷ es) r = absurd r
read_loop-ReadsOn len0 (suc n) buf (fails e late poll ∷ es) r =
    rw (r.0 (timeout_error len0 (suc n)), read_loop) (read_loop-ReadsOn len0 (suc n) buf es r.1)

-- The calls that a read leaves are as good as those it was given.
pub read_exactly-ReadsOn :
    (len : ℕ) (es : List ReadEvent) → ReadsOn es → ReadsOn (read_exactly len es).left
unfolding read_exactly
read_exactly-ReadsOn len es r = read_loop-ReadsOn len len [] es r
