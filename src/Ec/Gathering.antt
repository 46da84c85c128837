-- ===== src/Ec/Gathering.antt =====
-- What EcDownload::create_frags_array_set of src/oio/blob/ec/blob.cpp gives to the decoder.
use Prim.Native.Nat.{bit_or}
use oio_sds_cpp.Prelude.{
  ℕ, zero, suc, ◌^◌, ◌≤◌, ◌<◌, leb, ◌==◌, ◌≡◌, refl, ◌∙◌, ap, Bool-cases, inl, inr, leb→le, leb→lt,
  true, false, if◌then◌else◌, List, [], ◌∷◌, ◌++◌, none, Bytes, length, arith,
}
use oio_sds_cpp.Ec.Bits.{le-bit_or_left, le-bit_or_right, two_le-pow}
use oio_sds_cpp.Ec.Code.{Code}
use oio_sds_cpp.Ec.Fragments.{Slots, no_fragments, with_fragment, add_frags, create_frags_array_set}

abbrev pub without_first : Slots → Slots
without_first [] = []
without_first (o ∷ rest) = none ∷ rest

-- `(missing_mask | 1L << i) == 1`
mask_behind : (mask i : ℕ) → (bit_or mask (2 ^ suc i) == 1) ≡ false
mask_behind mask i =
    let h = le-bit_or_right mask (2 ^ suc i) in let two = two_le-pow i in ground arith

mask_wide : (mask : ℕ) → 1 < mask → (bit_or mask 1 == 1) ≡ false
mask_wide mask h = let l = le-bit_or_left mask 1 in ground arith

mask_narrow : (mask : ℕ) → mask ≤ 1 → (bit_or mask 1 == 1) ≡ true
mask_narrow zero h = refl
mask_narrow (suc zero) h = refl
mask_narrow (suc (suc n)) h = absurd (omega arith)

module _ (c : Code) where
  -- The fragments that are there and have their magic number.
  unfoldable pub usable : Slots → List Bytes
  usable [] = []
  usable (o ∷ rest) = with_fragment c o (usable rest)

  pub length-usable_none : (n : ℕ) → length (usable (no_fragments n)) ≡ 0
  unfolding usable no_fragments
  length-usable_none zero = refl
  length-usable_none (suc n) = length-usable_none n

  add_frags_behind : (mask i : ℕ) (slots : Slots) → add_frags c mask (suc i) slots ≡ usable slots
  unfolding add_frags usable
  add_frags_behind mask i [] = refl
  add_frags_behind mask i (o ∷ rest) =
      rw (mask_behind mask i) (ap (with_fragment c o) (add_frags_behind mask (suc i) rest))

  add_frags_first :
      (mask : ℕ) (slots : Slots)
      → add_frags c mask 0 slots ≡ usable (if leb mask 1 then without_first slots else slots)
  unfolding add_frags usable
  add_frags_first mask [] = elim (Bool-cases (leb mask 1)) [ inl t ↦ rw t refl | inr f ↦ rw f refl ]
  add_frags_first mask (o ∷ rest) = elim (Bool-cases (leb mask 1)) [
    | inl t ↦ rw (t, mask_narrow mask (leb→le _ _ t)) (add_frags_behind mask 0 rest)
    | inr f ↦
        rw (f, mask_wide mask (leb→lt _ _ f))
          (ap (with_fragment c o) (add_frags_behind mask 0 rest))
  ]

  -- The array for the decoder has all the fragments that are there with their magic number, whatever
  -- is marked in the mask, but for the first data fragment, which is left out when no bit of the mask
  -- behind its lowest one is set.
  pub create_frags_array_set-usable :
      (data_slots parity_slots : Slots) (k mask : ℕ)
      → create_frags_array_set c data_slots parity_slots (suc k) mask
        ≡ usable (if leb mask 1 then without_first data_slots else data_slots)
          ++ usable parity_slots
  unfolding create_frags_array_set
  create_frags_array_set-usable data_slots parity_slots k mask =
      ap (λ l. l ++ add_frags c mask (suc k) parity_slots) (add_frags_first mask data_slots)
      ∙ ap (λ l. usable (if leb mask 1 then without_first data_slots else data_slots) ++ l)
          (add_frags_behind mask k parity_slots)
