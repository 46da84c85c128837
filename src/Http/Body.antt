-- ===== src/Http/Body.antt =====
-- What a sequence of http::Request::Write, closed by FinishRequest, puts on the wire (src/utils/http.cpp).
use oio_sds_cpp.Prelude.{
  ℕ, zero, suc, ◌+◌, ◌<◌, ◌≡◌, refl, sym, ◌∙◌, ap, false, List, [], ◌∷◌, ◌++◌, Option, some, none,
  Bytes, length, concat, ℤ, pos, negsuc, arith, append_assoc, append-nil, Bool-cases, Option-cases,
  inl, inr, subst,
}
use mathlib.Core.Option.{some-injective}
use oio_sds_cpp.Http.Channel.{Channel, Lawful}
use oio_sds_cpp.Http.Request.{
  Request, Code, ok, write, finish_request, chunk, last_chunk, trailer_lines, is_positive,
  write_body, finish_at,
}
use oio_sds_cpp.Http.Chunks.{decode, with_payload, decode-chunk, decode-last_chunk}

module _ (ch : Channel) where
  -- The result of a write that returned OK.
  abbrev pub accepted : Request × ch.State × Code → Option (Request × ch.State)
  accepted (r, s, ok) = some (r, s)
  accepted (r, s, _) = none

  abbrev pub next_write :
      Option (Request × ch.State)
      → (Request → ch.State → Option (Request × ch.State))
      → Option (Request × ch.State)
  next_write none k = none
  next_write (some (r, s)) k = k r s

  -- A caller that writes buffers one after another, as long as OK is returned.
  unfoldable pub write_all : Request → ch.State → List Bytes → Option (Request × ch.State)
  write_all r s [] = some (r, s)
  write_all r s (b ∷ bufs) =
      next_write (accepted (write ch r s (some b))) (λ r' s'. write_all r' s' bufs)

-- What stays of a request while its body is written.
pub record SameRequest (r r' : Request) : Type 0 where
  pub fields : r'.fields ≡ r.fields
  pub trailers : r'.trailers ≡ r.trailers
  pub content_length : r'.content_length ≡ r.content_length

abbrev pub chunks : List Bytes → Bytes
chunks [] = []
chunks ([] ∷ bufs) = chunks bufs
chunks ((b ∷ buf) ∷ bufs) = concat (chunk (b ∷ buf)) ++ chunks bufs

abbrev pub Chunked : ℤ → Type 0
Chunked (pos n) = ⊥
Chunked (negsuc n) = Unit {0}

decode-chunks :
    (bufs : List Bytes) (fuel : ℕ) (tail : Bytes)
    → length bufs < fuel
    → decode fuel (chunks bufs ++ (last_chunk ++ tail)) ≡ some (concat bufs, tail)
decode-chunks bufs zero tail h = absurd (omega arith)
decode-chunks [] (suc fuel) tail h = decode-last_chunk fuel tail
decode-chunks ([] ∷ bufs) (suc fuel) tail h = decode-chunks bufs (suc fuel) tail (omega arith)
decode-chunks ((b ∷ buf) ∷ bufs) (suc fuel) tail h =
    ap (decode (suc fuel))
      (append_assoc (concat (chunk (b ∷ buf))) (chunks bufs) (last_chunk ++ tail))
    ∙ decode-chunk fuel b buf (chunks bufs ++ (last_chunk ++ tail))
    ∙ ap (with_payload (b ∷ buf)) (decode-chunks bufs fuel tail (omega arith))

module _ (ch : Channel) (lawful : Lawful ch) where
  pub write_body-accepted :
      (r r' : Request) (s s' : ch.State) (iov : List Bytes) (n : ℕ)
      → accepted ch (write_body ch r s iov n) ≡ some (r', s')
      → (record r { sent = r.sent + n } ≡ r') × (ch.wire s' ≡ ch.wire s ++ concat iov)
  unfolding write_body
  write_body-accepted r r' s s' iov n e = elim (Bool-cases (ch.send s iov).1) [
    | inl t ↦
        let p = some-injective _ _ (rw t at e) in
        (
          ap (λ (q : Request × ch.State). q.0) p,
          ap ch.wire (sym (ap (λ (q : Request × ch.State). q.1) p)) ∙ lawful.all s iov t,
        )
    | inr f ↦ let h = rw f at e in cc
  ]

  not_positive : (z : ℤ) → Chunked z → is_positive z ≡ false
  not_positive (pos n) c = absurd c
  not_positive (negsuc n) c = refl

  -- One write of a chunked body.
  write-chunk :
      (r r' : Request) (s s' : ch.State) (b : ℕ) (buf : Bytes)
      → Chunked r.content_length
      → accepted ch (write ch r s (some (b ∷ buf))) ≡ some (r', s')
      → SameRequest r r' × (ch.wire s' ≡ ch.wire s ++ concat (chunk (b ∷ buf)))
  unfolding write
  write-chunk r r' s s' b buf c e =
      let (p, w) =
        write_body-accepted r r' s s' (chunk (b ∷ buf)) (length (b ∷ buf))
          (rw (not_positive r.content_length c) at e) in
      (
        record {
          fields = sym (ap Request.fields p);
          trailers = sym (ap Request.trailers p);
          content_length = sym (ap Request.content_length p);
        },
        w,
      )

  write_all-chunks :
      (r r' : Request) (s s' : ch.State) (bufs : List Bytes)
      → Chunked r.content_length
      → write_all ch r s bufs ≡ some (r', s')
      → SameRequest r r' × (ch.wire s' ≡ ch.wire s ++ chunks bufs)
  unfolding write_all
  write_all-chunks r r' s s' [] c e =
      let p = some-injective _ _ e in
      (
        record {
          fields = sym (ap (λ (q : Request × ch.State). (q.0).fields) p);
          trailers = sym (ap (λ (q : Request × ch.State). (q.0).trailers) p);
          content_length = sym (ap (λ (q : Request × ch.State). (q.0).content_length) p);
        },
        ap (λ (q : Request × ch.State). ch.wire q.1) (sym p) ∙ sym (append-nil (ch.wire s)),
      )
  write_all-chunks r r' s s' ([] ∷ bufs) c e = write_all-chunks r r' s s' bufs c (unfold write in e)
  write_all-chunks r r' s s' ((b ∷ buf) ∷ bufs) c e =
      elim (Option-cases (accepted ch (write ch r s (some (b ∷ buf))))) [
        | inl f ↦ let h = rw f at e in cc
        | inr ((r₁, s₁), t) ↦
            let (same, w) = write-chunk r r₁ s s₁ b buf c t in
            let (same', w') =
              write_all-chunks r₁ r' s₁ s' bufs (subst Chunked (sym same.content_length) c)
                (rw t at e) in
            (
              record {
                fields = same'.fields ∙ same.fields;
                trailers = same'.trailers ∙ same.trailers;
                content_length = same'.content_length ∙ same.content_length;
              },
              w'
                  ∙ ap (λ l. l ++ chunks bufs) w
                  ∙ append_assoc (ch.wire s) (concat (chunk (b ∷ buf))) (chunks bufs),
            )
      ]

  finish-last_chunk :
      (z : ℤ) (r : Request) (s s' : ch.State)
      → Chunked z
      → finish_at ch z r s ≡ (s', ok)
      → ch.wire s' ≡ ch.wire s ++ (last_chunk ++ concat (trailer_lines r.fields r.trailers))
  unfolding finish_at
  finish-last_chunk (pos n) r s s' c e = absurd c
  finish-last_chunk (negsuc n) r s s' c e =
      let a = ch.send s (last_chunk ∷ []) in
      let b = ch.send a.0 (trailer_lines r.fields r.trailers) in
      elim (Bool-cases a.1) [
        | inr f ↦ let h = rw f at e in let k = ap (λ (q : ch.State × Code). q.1) h in cc
        | inl t ↦ elim (Bool-cases b.1) [
          | inr f ↦ let h = rw (t, f) at e in let k = ap (λ (q : ch.State × Code). q.1) h in cc
          | inl t' ↦
              let h = rw (t, t') at e in
              ap (λ (q : ch.State × Code). ch.wire q.0) (sym h)
              ∙ lawful.all a.0 (trailer_lines r.fields r.trailers) t'
              ∙ ap (λ l. l ++ concat (trailer_lines r.fields r.trailers))
                  (lawful.all s (last_chunk ∷ []) t)
              ∙ append_assoc (ch.wire s) last_chunk (concat (trailer_lines r.fields r.trailers))
        ]
      ]

  -- A body of no announced length whose writes and end all returned OK is read by a receiver as the
  -- bytes that were written, whatever their cuts. The lines of the trailers are behind the end of the
  -- message, where the receiver expects the next one.
  pub decode-write_all :
      (r r' : Request) (s s' s'' : ch.State) (bufs : List Bytes) (following : Bytes)
      → Chunked r.content_length
      → write_all ch r s bufs ≡ some (r', s')
      → finish_request ch r' s' ≡ (s'', ok)
      → (body : Bytes) × (ch.wire s'' ≡ ch.wire s ++ body)
        × (decode (suc (length bufs)) (body ++ following)
            ≡ some (concat bufs, concat (trailer_lines r.fields r.trailers) ++ following))
  unfolding finish_request
  decode-write_all r r' s s' s'' bufs following c e f =
      let (same, w) = write_all-chunks r r' s s' bufs c e in
      let w' =
        finish-last_chunk r'.content_length r' s' s'' (subst Chunked (sym same.content_length) c)
          f in
      let lines : trailer_lines r'.fields r'.trailers ≡ trailer_lines r.fields r.trailers =
        rw (same.fields, same.trailers) refl in
      let tail = concat (trailer_lines r.fields r.trailers) in
      (
        chunks bufs ++ (last_chunk ++ tail),
        w'
            ∙ ap (λ l. l ++ (last_chunk ++ concat (trailer_lines r'.fields r'.trailers))) w
            ∙ ap (λ l. (ch.wire s ++ chunks bufs) ++ (last_chunk ++ concat l)) lines
            ∙ append_assoc (ch.wire s) (chunks bufs) (last_chunk ++ tail),
        ap (decode (suc (length bufs))) (
              append_assoc (chunks bufs) (last_chunk ++ tail) following
              ∙ ap (λ l. chunks bufs ++ l) (append_assoc last_chunk tail following))
            ∙ decode-chunks bufs (suc (length bufs)) (tail ++ following) (omega arith),
      )
