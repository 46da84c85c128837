-- ===== src/Router/Chunk.antt =====
-- What RouterUpload::Write of src/oio/blob/router/blob.cpp makes of the bytes it is given.
use oio_sds_cpp.Prelude.{
  ℕ, zero, suc, ◌-◌, ◌+◌, ◌%◌, ◌≤◌, ◌<◌, leb, ◌≡◌, refl, sym, ◌∙◌, ap, true, if◌then◌else◌, [], ◌∷◌,
  ◌++◌, some, none, Bytes, length, take, drop, min, u32_mod, arith, length-append, length-drop,
  length-take, take_all, drop_all, Bool-cases, leb→le, leb→lt, inl, inr, append-nil,
}
use oio_sds_cpp.Router.Upload.{RouterUpload, local, write_loop, write, with_buffer}

local_lem :
    (size old len : ℕ) → old ≤ size → size < u32_mod → local size old len ≡ min (size - old) len
local_lem size old len h k =
    let rest : (size + u32_mod - old) % u32_mod ≡ size - old = omega arith in
    ap (λ n. min n len) rest

-- A full buffer takes nothing more.
full_stalls :
    (fuel size : ℕ) (buffer : Bytes) (b : ℕ) (buf : Bytes)
    → length buffer ≡ size
    → size < u32_mod
    → write_loop fuel size buffer (b ∷ buf) ≡ none
unfolding write_loop
full_stalls zero size buffer b buf h k = refl
full_stalls (suc fuel) size buffer b buf h k =
    let nothing : local size (length buffer) (length (b ∷ buf)) ≡ 0 =
      omega (arith, local_lem size (length buffer) (length (b ∷ buf)) (omega arith) k) in
    ap (λ n. write_loop fuel size (buffer ++ take n (b ∷ buf)) (drop n (b ∷ buf))) nothing
    ∙ ap (λ l. write_loop fuel size l (b ∷ buf)) (append-nil buffer)
    ∙ full_stalls fuel size buffer b buf h k

stalls :
    (fuel size : ℕ) (buffer buf : Bytes)
    → length buffer ≡ size
    → 0 < length buf
    → size < u32_mod
    → write_loop fuel size buffer buf ≡ none
stalls fuel size buffer [] h z k = absurd (omega arith)
stalls fuel size buffer (b ∷ buf) h z k = full_stalls fuel size buffer b buf h k

takes_all :
    (fuel size : ℕ) (buffer : Bytes) (b : ℕ) (buf : Bytes)
    → length buffer + length (b ∷ buf) ≤ size
    → size < u32_mod
    → write_loop (suc fuel) size buffer (b ∷ buf) ≡ some (buffer ++ b ∷ buf)
unfolding write_loop
takes_all fuel size buffer b buf h k =
    let x = b ∷ buf in
    let all : local size (length buffer) (length x) ≡ length x =
      omega (arith, local_lem size (length buffer) (length x) (omega arith) k) in
    ap (λ n. write_loop fuel size (buffer ++ take n x) (drop n x)) all
    ∙ ap (λ l. write_loop fuel size (buffer ++ take (length x) x) l)
        (drop_all (length x) x (omega arith))
    ∙ ap (λ l. some (buffer ++ l)) (take_all (length x) x (omega arith))

takes_some :
    (fuel size : ℕ) (buffer : Bytes) (b : ℕ) (buf : Bytes)
    → length buffer ≤ size
    → size < length buffer + length (b ∷ buf)
    → size < u32_mod
    → write_loop (suc fuel) size buffer (b ∷ buf) ≡ none
unfolding write_loop
takes_some fuel size buffer b buf h l k =
    let x = b ∷ buf in
    let n = size - length buffer in
    let part : local size (length buffer) (length x) ≡ n =
      omega (arith, local_lem size (length buffer) (length x) h k) in
    ap (λ m. write_loop fuel size (buffer ++ take m x) (drop m x)) part
    ∙ stalls fuel size (buffer ++ take n x) (drop n x)
        (omega (arith, length-append buffer (take n x), length-take n x))
        (omega (arith, length-drop n x)) k

-- A write to a buffer within the chunk size appends all the bytes when they fit, in one round, and
-- never ends when they do not.
pub write_lem :
    (fuel : ℕ) (u : RouterUpload) (buf : Bytes)
    → length u.buffer ≤ u.chunk_size
    → u.chunk_size < u32_mod
    → write (suc fuel) u buf ≡ (
        if leb (length u.buffer + length buf) u.chunk_size
        then some (record u { buffer = u.buffer ++ buf })
        else none)
unfolding write
write_lem fuel u [] h k =
    let fits : leb (length u.buffer + 0) u.chunk_size ≡ true = ground arith in
    rw fits (ap (λ l. some (record u { buffer = l })) (sym (append-nil u.buffer)))
write_lem fuel u (b ∷ buf) h k =
    elim (Bool-cases (leb (length u.buffer + length (b ∷ buf)) u.chunk_size)) [
      | inl t ↦
          rw t (ap (with_buffer u) (takes_all fuel u.chunk_size u.buffer b buf (leb→le _ _ t) k))
      | inr f ↦
          rw f (ap (with_buffer u) (takes_some fuel u.chunk_size u.buffer b buf h (leb→lt _ _ f) k))
    ]
