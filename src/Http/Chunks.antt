-- ===== src/Http/Chunks.antt =====
-- The chunked transfer coding of RFC 7230, section 4.1, as a receiver reads it: independent of the code
-- of src/utils/http.cpp that writes it.
use oio_sds_cpp.Prelude.{
  ℕ, zero, suc, ◌==◌, ◌≡◌, refl, ◌∙◌, ap, if◌then◌else◌, [], ◌∷◌, ◌++◌, Option, some, none, Bytes,
  length, take, drop, concat, All, arith, append_assoc, append-nil,
}
use oio_sds_cpp.Prelude.Hexadecimal.{
  hexadecimal, hex_value, is_hex_digit, IsHexDigit, hex_value-hexadecimal, hexadecimal-IsHexDigit,
}
use oio_sds_cpp.Http.Request.{crlf, chunk, last_chunk}

abbrev hex_run : Bytes → Bytes
hex_run [] = []
hex_run (c ∷ s) = let rest = hex_run s in if is_hex_digit c then c ∷ rest else []

after_crlf : Bytes → Option Bytes
after_crlf (a ∷ b ∷ s) = if a == 13 then (if b == 10 then some s else none) else none
after_crlf _ = none

abbrev pub with_payload : Bytes → Option (Bytes × Bytes) → Option (Bytes × Bytes)
with_payload payload none = none
with_payload payload (some (more, rest)) = some (payload ++ more, rest)

abbrev end_of_message : Option Bytes → Option (Bytes × Bytes)
end_of_message none = none
end_of_message (some rest) = some ([], rest)

-- `next` reads the chunks that follow.
abbrev after_payload :
    (Bytes → Option (Bytes × Bytes)) → Bytes → Option Bytes → Option (Bytes × Bytes)
after_payload next payload none = none
after_payload next payload (some s) = with_payload payload (next s)

abbrev chunk_data : (Bytes → Option (Bytes × Bytes)) → ℕ → Bytes → Option (Bytes × Bytes)
chunk_data next zero r = end_of_message (after_crlf r)
chunk_data next (suc n) r = after_payload next (take (suc n) r) (after_crlf (drop (suc n) r))

abbrev after_size : (Bytes → Option (Bytes × Bytes)) → ℕ → Option Bytes → Option (Bytes × Bytes)
after_size next size none = none
after_size next size (some r) = chunk_data next size r

-- A message without trailers: its payload, and the bytes behind it. `fuel` bounds the chunks.
unfoldable pub decode : ℕ → Bytes → Option (Bytes × Bytes)
unfolding after_crlf
decode zero s = none
decode (suc fuel) s =
    after_size (λ s'. decode fuel s') (hex_value 0 (hex_run s))
      (after_crlf (drop (length (hex_run s)) s))

hex_run-append : (ds tail : Bytes) → All IsHexDigit ds → hex_run (ds ++ 13 ∷ tail) ≡ ds
hex_run-append [] tail h = refl
hex_run-append (d ∷ ds) tail h =
    let later = hex_run-append ds tail h.1 in let digit = h.0 in ground arith

drop_first : (xs ys : Bytes) → drop (length xs) (xs ++ ys) ≡ ys
drop_first [] ys = refl
drop_first (x ∷ xs) ys = drop_first xs ys

take_first : (xs ys : Bytes) → take (length xs) (xs ++ ys) ≡ xs
take_first [] ys = refl
take_first (x ∷ xs) ys = ap (λ l. x ∷ l) (take_first xs ys)

decode_header :
    (fuel n : ℕ) (ds r : Bytes)
    → All IsHexDigit ds
    → hex_value 0 ds ≡ n
    → decode (suc fuel) (ds ++ (crlf ++ r)) ≡ chunk_data (λ s'. decode fuel s') n r
unfolding decode
decode_header fuel n ds r h v =
    let next = λ (s' : Bytes). decode fuel s' in
    let s = ds ++ (crlf ++ r) in
    ap (λ l. after_size next (hex_value 0 l) (after_crlf (drop (length l) s)))
      (hex_run-append ds (10 ∷ r) h)
    ∙ ap (λ l. after_size next (hex_value 0 ds) (after_crlf l)) (drop_first ds (crlf ++ r))
    ∙ ap (λ m. chunk_data next m r) v

-- A chunk that the code writes is read as its bytes.
pub decode-chunk :
    (fuel b : ℕ) (buf tail : Bytes)
    → decode (suc fuel) (concat (chunk (b ∷ buf)) ++ tail)
      ≡ with_payload (b ∷ buf) (decode fuel tail)
unfolding after_crlf
decode-chunk fuel b buf tail =
    let x = b ∷ buf in
    let ds = hexadecimal (length x) in
    let next = λ (s' : Bytes). decode fuel s' in
    let regroup : concat (chunk x) ++ tail ≡ ds ++ (crlf ++ (x ++ (crlf ++ tail))) =
      simp (append_assoc, append-nil) in
    ap (decode (suc fuel)) regroup
    ∙ decode_header fuel (length x) ds (x ++ (crlf ++ tail)) (hexadecimal-IsHexDigit (length x))
        (hex_value-hexadecimal (length x))
    ∙ ap (λ l. after_payload next l (after_crlf (drop (length x) (x ++ (crlf ++ tail)))))
        (take_first x (crlf ++ tail))
    ∙ ap (λ l. after_payload next x (after_crlf l)) (drop_first x (crlf ++ tail))

-- The last chunk that the code writes ends the message.
pub decode-last_chunk :
    (fuel : ℕ) (tail : Bytes) → decode (suc fuel) (last_chunk ++ tail) ≡ some ([], tail)
unfolding decode hex_value
decode-last_chunk fuel tail = refl
