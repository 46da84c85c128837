-- ===== src/Http/Inline.antt =====
-- What http::Request puts on the wire for a body of an announced length (src/utils/http.cpp).
use oio_sds_cpp.Prelude.{
  ℕ, suc, ◌+◌, ◌==◌, ◌≡◌, sym, ◌∙◌, ap, true, if◌then◌else◌, List, [], ◌∷◌, ◌++◌, some, Bytes,
  length, concat, pos, arith, append_assoc, append-nil, length-append, Option-cases, inl, inr,
}
use mathlib.Core.Option.{some-injective}
use oio_sds_cpp.Http.Channel.{Channel, Lawful}
use oio_sds_cpp.Http.Request.{
  Request, ok, client_error, write, finish_request, finish_at, is_positive,
}
use oio_sds_cpp.Http.Body.{accepted, write_all, write_body-accepted}

module _ (ch : Channel) (lawful : Lawful ch) where
  write_inline :
      (n : ℕ) (r r' : Request) (s s' : ch.State) (b : ℕ) (buf : Bytes)
      → r.content_length ≡ pos (suc n)
      → accepted ch (write ch r s (some (b ∷ buf))) ≡ some (r', s')
      → (r'.content_length ≡ pos (suc n))
        × (r'.sent ≡ r.sent + length (b ∷ buf))
        × (ch.wire s' ≡ ch.wire s ++ (b ∷ buf))
  unfolding write
  write_inline n r r' s s' b buf z e =
      let positive : is_positive r.content_length ≡ true = ap is_positive z in
      let (p, w) =
        write_body-accepted ch lawful r r' s s' ((b ∷ buf) ∷ []) (length (b ∷ buf))
          (rw positive at e) in
      (
        sym (ap Request.content_length p) ∙ z,
        sym (ap Request.sent p),
        w ∙ ap (λ l. ch.wire s ++ l) (append-nil (b ∷ buf)),
      )

  inline_writes :
      (n : ℕ) (r r' : Request) (s s' : ch.State) (bufs : List Bytes)
      → r.content_length ≡ pos (suc n)
      → write_all ch r s bufs ≡ some (r', s')
      → (r'.content_length ≡ pos (suc n))
        × (r'.sent ≡ r.sent + length (concat bufs))
        × (ch.wire s' ≡ ch.wire s ++ concat bufs)
  unfolding write_all
  inline_writes n r r' s s' [] z e =
      let p = some-injective _ _ e in
      (
        ap (λ (q : Request × ch.State). (q.0).content_length) (sym p) ∙ z,
        ap (λ (q : Request × ch.State). (q.0).sent) (sym p) ∙ omega arith,
        ap (λ (q : Request × ch.State). ch.wire q.1) (sym p) ∙ sym (append-nil (ch.wire s)),
      )
  inline_writes n r r' s s' ([] ∷ bufs) z e = inline_writes n r r' s s' bufs z (unfold write in e)
  inline_writes n r r' s s' ((b ∷ buf) ∷ bufs) z e =
      elim (Option-cases (accepted ch (write ch r s (some (b ∷ buf))))) [
        | inl f ↦ let h = rw f at e in cc
        | inr ((r₁, s₁), t) ↦
            let (z', sent, w) = write_inline n r r₁ s s₁ b buf z t in
            let (z'', sent', w') = inline_writes n r₁ r' s₁ s' bufs z' (rw t at e) in
            (
              z'',
              omega (arith, sent, sent', length-append (b ∷ buf) (concat bufs)),
              w' ∙ ap (λ l. l ++ concat bufs) w ∙ append_assoc (ch.wire s) (b ∷ buf) (concat bufs),
            )
      ]

  -- A body of an announced length above 0 whose writes all returned OK is on the wire as it was
  -- written, and the end of the request is accepted exactly when as many bytes were written as announced.
  pub inline_body :
      (n : ℕ) (r r' : Request) (s s' : ch.State) (bufs : List Bytes)
      → r.content_length ≡ pos (suc n)
      → r.sent ≡ 0
      → write_all ch r s bufs ≡ some (r', s')
      → (ch.wire s' ≡ ch.wire s ++ concat bufs)
        × (finish_request ch r' s'
            ≡ (s', if length (concat bufs) == suc n then ok else client_error))
  unfolding finish_request finish_at
  inline_body n r r' s s' bufs z none_sent e =
      let (z', sent, w) = inline_writes n r r' s s' bufs z e in
      let total : r'.sent ≡ length (concat bufs) = omega arith in
      (
        w,
        ap (λ z. finish_at ch z r' s') z'
            ∙ ap (λ (m : ℕ). (s', if m == suc n then ok else client_error)) total,
      )
