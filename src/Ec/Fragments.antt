-- ===== src/Ec/Fragments.antt =====
-- The slots of EcDownload in src/oio/blob/ec/blob.cpp: the missing mask, and the fragments that are
-- given to the decoder.
use Prim.Native.Nat.{bit_or}
use oio_sds_cpp.Prelude.{
  ℕ, zero, suc, ◌+◌, ◌-◌, ◌^◌, ltb, ◌==◌, Bool, true, false, if◌then◌else◌, List, [], ◌∷◌, ◌++◌,
  Option, some, none, Bytes, get_elem?,
}
use oio_sds_cpp.Ec.Code.{Code, Heap}

-- encoded_data and encoded_parity, one behind the other.
abbrev pub Slots : Type 0
Slots = List (Option Bytes)

-- memset of a new array
unfoldable pub no_fragments : ℕ → Slots
no_fragments zero = []
no_fragments (suc n) = none ∷ no_fragments n

abbrev behind_first : Option Bytes → Option Slots → Option Slots
behind_first o none = none
behind_first o (some rest) = some (o ∷ rest)

-- `encoded_data[i] = p`, or `encoded_parity[i - K] = p`; `none` where the word is outside of both.
unfoldable pub set_slot : Slots → ℕ → Option Bytes → Option Slots
set_slot [] i p = none
set_slot (o ∷ rest) zero p = some (p ∷ rest)
set_slot (o ∷ rest) (suc i) p = behind_first o (set_slot rest i p)

-- EcDownload::add_item_to_missing_mask, at a position that is not negative.
abbrev pub add_item_to_missing_mask : ℕ → ℕ → ℕ
add_item_to_missing_mask mask pos = bit_or mask (2 ^ pos)

abbrev is_null : Heap → ℕ → Option (Option Bytes) → Bool
is_null h i (some (some f)) = false
is_null h i (some none) = true
is_null h i none = h.null_behind i

-- `!encoded_data[i]`, and `!encoded_parity[i]` from K on, where the index is not that of the fragment.
abbrev pub missing_at : Heap → ℕ → Slots → ℕ → Bool
missing_at h k slots i =
    if ltb i k then is_null h i (get_elem? slots i) else is_null h i (get_elem? slots (k + i))

-- The loop that sets up the mask: what is left of it, of n fragments, and the mask so far.
unfoldable pub missing_mask : Heap → ℕ → Slots → ℕ → ℕ → ℕ → ℕ
missing_mask h k slots n zero mask = mask
missing_mask h k slots n (suc left) mask =
    let i = n - suc left in
    missing_mask h k slots n left
      (if missing_at h k slots i then add_item_to_missing_mask mask (n - 1 - i) else mask)

module _ (c : Code) where
  -- A fragment is added when it is there and has its magic number.
  abbrev pub with_fragment : Option Bytes → List Bytes → List Bytes
  with_fragment none later = later
  with_fragment (some f) later = if c.has_magic f then f ∷ later else later

  -- A loop of create_frags_array_set, from a position on.
  unfoldable pub add_frags : ℕ → ℕ → Slots → List Bytes
  add_frags mask i [] = []
  add_frags mask i (o ∷ rest) =
      let later = add_frags mask (suc i) rest in
      if bit_or mask (2 ^ i) == 1 then later else with_fragment o later

  -- EcDownload::create_frags_array_set: the array, whose length is num_fragments.
  unfoldable pub create_frags_array_set : Slots → Slots → ℕ → ℕ → List Bytes
  unfolding add_frags
  create_frags_array_set data_slots parity_slots k mask =
      add_frags mask 0 data_slots ++ add_frags mask k parity_slots
