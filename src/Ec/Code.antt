-- ===== src/Ec/Code.antt =====
-- What src/oio/blob/ec/blob.cpp calls of liberasurecode, and what it takes from memory that it has not
-- set: parameters of the model.
use oio_sds_cpp.Prelude.{
  ℕ, ◌≤◌, ◌≡◌, ◌⊎◌, Bool, true, false, List, [], ◌∷◌, Option, some, none, Bytes, length, All,
}

-- liberasurecode with the backend RS_VAND: the numbers are K and M.
pub record Code : Type 0 where
  pub create : ℕ → ℕ → Bool  -- liberasurecode_instance_create gives a descriptor
  pub is_invalid : ℕ → ℕ → Bytes → Bool  -- is_invalid_fragment
  pub has_magic : Bytes → Bool  -- header->magic == LIBERASURECODE_FRAG_HEADER_MAGIC
  pub encode : ℕ → ℕ → Bytes → Option (List Bytes)  -- the data fragments, then the parity fragments
  pub decode : ℕ → ℕ → List Bytes → ℕ → Option Bytes  -- with the length of a fragment

-- Words of memory that the code reads before it sets them.
pub record Heap : Type 0 where
  pub first_data : Bool  -- whether the first word of a new array of data fragments is not null
  pub first_parity : Bool  -- the same of the parity fragments
  pub null_behind : ℕ → Bool  -- whether the word of the parity array at an index behind it is null
  pub behind : Bytes → Bytes  -- the memory behind a new copy of a fragment
  pub aligned : ℕ → Bool  -- posix_memalign has as many bytes

-- Some elements of a list, in its order.
pub data Part {ℓ} {A : Type ℓ} : List A → List A → Type ℓ where
  none_left : Part [] []
  kept : {x : A} {xs ys : List A} → Part xs ys → Part (x ∷ xs) (x ∷ ys)
  left_out : {x : A} {xs ys : List A} → Part xs ys → Part xs (x ∷ ys)

-- The fragments of some bytes: any K of them give the bytes again, and fewer never give others.
pub record Fragments (c : Code) (k m : ℕ) (x : Bytes) (size : ℕ) (fs : List Bytes) : Type 0 where
  pub well_formed :
      All (λ f. (c.is_invalid k m f ≡ false) × (c.has_magic f ≡ true) × (length f ≡ size)) fs
  pub enough : (gs : List Bytes) → Part gs fs → k ≤ length gs → c.decode k m gs size ≡ some x
  pub honest :
      (gs : List Bytes)
      → Part gs fs
      → (c.decode k m gs size ≡ none) ⊎ (c.decode k m gs size ≡ some x)
