-- ===== src/Net/Gather.antt =====
-- What the two Socket::send of src/utils/net.cpp put on the wire.
use oio_sds_cpp.Prelude.{
  ℕ, zero, suc, ◌-◌, ◌≤◌, ◌<◌, ltb, ◌≡◌, refl, sym, ◌∙◌, ap, List, [], ◌∷◌, ◌++◌, Bytes, length,
  length-append, append_assoc, append-nil, arith, inl, inr, take, drop, concat, some,
  take-append-drop, length-drop, drop-append, drop-append_past, eq_nil_of_length, Bool-cases,
  ltb→lt, ltb→le, subst,
}
use oio_sds_cpp.Api.{etimedout}
use oio_sds_cpp.Net.{Outcome, done, blocked, aborted, failed, verdict, Verdict-cases}
use oio_sds_cpp.Net.Sending.{
  WriteEvent, wrote, fails, Sent, send_loop, send, advance, gather_loop, send_iov, WriteConforms,
  room, WritesOn,
}

wire_step : (wire : Bytes) (n : ℕ) (buf : Bytes) → (wire ++ take n buf) ++ drop n buf ≡ wire ++ buf
wire_step wire n buf =
    append_assoc wire (take n buf) (drop n buf) ∙ ap (◌++◌ wire) (take-append-drop n buf)

-- The array after a partial write holds exactly the bytes that were not written, wherever the write
-- stopped, and the source's assertion holds.
pub advance_lem :
    (n : ℕ) (iov : List Bytes)
    → n ≤ length (concat iov)
    → (iov' : List Bytes) × (advance n iov ≡ some iov') × (concat iov' ≡ drop n (concat iov))
unfolding advance
advance_lem zero iov h = (iov, refl, refl)
advance_lem (suc n) [] h = absurd (omega arith)
advance_lem (suc n) (x ∷ rest) h = elim (Bool-cases (ltb (length x) (suc n))) [
  | inl past ↦
      let short : length x ≤ suc n = omega (arith, ltb→lt (length x) (suc n) past) in
      let (iov', e, d) =
        advance_lem (suc n - length x) rest (omega (arith, length-append x (concat rest))) in
      (iov', rw past e, d ∙ sym (drop-append_past (suc n) x (concat rest) short))
  | inr within ↦ (
    drop (suc n) x ∷ rest,
    rw within,
    sym (drop-append (suc n) x (concat rest) (ltb→le (length x) (suc n) within)),
  )
]

-- What may be unsent at each outcome; `aborted` stands for a failed assertion of the source.
abbrev pub Unsent : Outcome → Bytes → Type 0
Unsent done rest = rest ≡ []
Unsent aborted rest = ⊥
Unsent blocked rest = 0 < length rest
Unsent (failed e) rest = 0 < length rest

-- What is on the wire is a first part of the message: all of it after a success and less otherwise.
abbrev pub Wired : Bytes → Sent → Type 0
Wired message s = (rest : Bytes) × (s.wire ++ rest ≡ message) × Unsent s.outcome rest

send_loop-Wired :
    (buf wire : Bytes) (es : List WriteEvent) → Wired (wire ++ buf) (send_loop buf wire es)
unfolding send_loop
send_loop-Wired [] wire es = ([], refl, refl)
send_loop-Wired (x ∷ buf) wire [] = (x ∷ buf, refl, omega arith)
send_loop-Wired (x ∷ buf) wire (wrote n ∷ es) =
    let (rest, e, u) = send_loop-Wired (drop n (x ∷ buf)) (wire ++ take n (x ∷ buf)) es in
    (rest, e ∙ wire_step wire n (x ∷ buf), u)
send_loop-Wired (x ∷ buf) wire (fails e late poll ∷ es) =
    elim (Verdict-cases (verdict etimedout e late poll)) [
      | inl v ↦ rw (v, send_loop) (send_loop-Wired (x ∷ buf) wire es)
      | inr (err, v) ↦ rw (v, send_loop) (x ∷ buf, refl, omega arith)
    ]

-- Whatever the kernel answers, a single buffer is sent in order, each byte once, and a success means
-- all of it.
pub send-Wired : (buf : Bytes) (es : List WriteEvent) → Wired buf (send buf es)
unfolding send
send-Wired buf es = send_loop-Wired buf [] es

gather_loop-Wired :
    (left : ℕ) (iov : List Bytes) (wire : Bytes) (es : List WriteEvent)
    → left ≡ length (concat iov)
    → WriteConforms left es
    → Wired (wire ++ concat iov) (gather_loop left iov wire es)
unfolding gather_loop
gather_loop-Wired zero iov wire es h c = (concat iov, refl, eq_nil_of_length (concat iov) (sym h))
gather_loop-Wired (suc left) iov wire [] h c = (concat iov, refl, omega arith)
gather_loop-Wired (suc left) iov wire (wrote n ∷ es) h c =
    let (iov', a, d) = advance_lem n iov (omega arith) in
    let (rest, e, u) =
      gather_loop-Wired (suc left - n) iov' (wire ++ take n (concat iov)) es
        (rw d (omega (arith, length-drop n (concat iov)))) c.1 in
    rw (a, gather_loop) (rest, e ∙ rw d (wire_step wire n (concat iov)), u)
gather_loop-Wired (suc left) iov wire (fails e late poll ∷ es) h c =
    elim (Verdict-cases (verdict etimedout e late poll)) [
      | inl v ↦ rw (v, gather_loop) (gather_loop-Wired (suc left) iov wire es h c)
      | inr (err, v) ↦ rw (v, gather_loop) (concat iov, refl, omega arith)
    ]

-- With a kernel that takes no more than it is offered, an array of buffers is sent as their
-- concatenation, in order and each byte once, however the writes cut it; a success means all of it.
pub send_iov-Wired :
    (iov : List Bytes) (es : List WriteEvent)
    → WriteConforms (length (concat iov)) es
    → Wired (concat iov) (send_iov iov es)
unfolding send_iov
send_iov-Wired iov es c = gather_loop-Wired (length (concat iov)) iov [] es refl c

gather_loop_total :
    (left : ℕ) (iov : List Bytes) (wire : Bytes) (es : List WriteEvent)
    → left ≡ length (concat iov)
    → WriteConforms left es
    → WritesOn es
    → left ≤ room es
    → (gather_loop left iov wire es).outcome ≡ done
unfolding gather_loop
gather_loop_total zero iov wire es h c w r = refl
gather_loop_total (suc left) iov wire [] h c w r = absurd (omega arith)
gather_loop_total (suc left) iov wire (wrote n ∷ es) h c w r =
    let (iov', a, d) = advance_lem n iov (omega arith) in
    rw (a, gather_loop)
      (gather_loop_total (suc left - n) iov' (wire ++ take n (concat iov)) es
        (rw d (omega (arith, length-drop n (concat iov)))) c.1 w (omega arith))
gather_loop_total (suc left) iov wire (fails e late poll ∷ es) h c w r =
    rw (w.0, gather_loop) (gather_loop_total (suc left) iov wire es h c w.1 r)

-- If the kernel takes enough bytes before it fails for good, the array is sent whole.
pub send_iov_total :
    (iov : List Bytes) (es : List WriteEvent)
    → WriteConforms (length (concat iov)) es
    → WritesOn es
    → length (concat iov) ≤ room es
    → ((send_iov iov es).outcome ≡ done) × ((send_iov iov es).wire ≡ concat iov)
send_iov_total iov es c w r =
    let finished : (send_iov iov es).outcome ≡ done =
      unfold send_iov in gather_loop_total (length (concat iov)) iov [] es refl c w r in
    let (rest, e, u) = send_iov-Wired iov es c in
    let nothing : rest ≡ [] = subst (λ o. Unsent o rest) finished u in
    (finished, sym (append-nil (send_iov iov es).wire) ∙ rw nothing at e)
