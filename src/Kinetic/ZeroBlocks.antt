-- ===== src/Kinetic/ZeroBlocks.antt =====
-- KineticUpload::Write of src/oio/blob/kinetic/coro/blob.cpp with blocks of size 0.
use oio_sds_cpp.Prelude.{
  ℕ, zero, suc, ◌-◌, ◌≡◌, refl, ◌∙◌, ap, [], ◌∷◌, none, length, take, drop, Bytes, arith,
  if◌then◌else◌, Bool-cases, inl, inr,
}
use oio_sds_cpp.Kinetic.Upload.{
  KineticUpload, trigger_block, round_asserts, write_round, write_loop, write, write_asserts,
}

zero_round :
    (u : KineticUpload) (buf : Bytes)
    → u.buffer_limit ≡ 0
    → u.buffer ≡ []
    → ((write_round u buf).buffer_limit ≡ 0) × ((write_round u buf).buffer ≡ [])
unfolding write_round trigger_block
zero_round u buf h e = ground (arith, ap (λ n. take (n - length u.buffer) buf) h)

loop_zero_blocks :
    (fuel : ℕ) (u : KineticUpload) (b : ℕ) (buf : Bytes)
    → u.buffer_limit ≡ 0
    → u.buffer ≡ []
    → write_loop fuel u (b ∷ buf) ≡ none
unfolding write_loop
loop_zero_blocks zero u b buf h e = refl
loop_zero_blocks (suc fuel) u b buf h e =
    let none_fits : u.buffer_limit - length u.buffer ≡ 0 = omega (arith, h) in
    let (limit, empty) = zero_round u (b ∷ buf) h e in
    let next : write_loop fuel (write_round u (b ∷ buf))
          (drop (u.buffer_limit - length u.buffer) (b ∷ buf))
        ≡ none =
      ap (λ n. write_loop fuel (write_round u (b ∷ buf)) (drop n (b ∷ buf))) none_fits
      ∙ loop_zero_blocks fuel (write_round u (b ∷ buf)) b buf limit empty in
    elim (Bool-cases (round_asserts u (b ∷ buf))) [ inl t ↦ rw t next | inr f ↦ rw f refl ]

-- With blocks of size 0, which UploadBuilder::BlockSize accepts, a write of anything to a new buffer
-- never ends, whatever the fuel, unless an assertion ends the program.
pub write-zero_blocks :
    (fuel : ℕ) (u : KineticUpload) (b : ℕ) (buf : Bytes)
    → u.buffer_limit ≡ 0
    → u.buffer ≡ []
    → write fuel u (b ∷ buf) ≡ none
unfolding write
write-zero_blocks fuel u b buf h e = elim (Bool-cases (write_asserts u)) [
  | inl t ↦
      ap (λ c. if c then write_loop fuel u (b ∷ buf) else none) t
      ∙ loop_zero_blocks fuel u b buf h e
  | inr f ↦ ap (λ c. if c then write_loop fuel u (b ∷ buf) else none) f
]
