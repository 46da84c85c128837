-- ===== src/Ec/Offered.antt =====
-- The slots of EcDownload in src/oio/blob/ec/blob.cpp, and what the decoder makes of those that hold
-- fragments of an object.
use oio_sds_cpp.Prelude.{
  ℕ, zero, suc, ◌<◌, ◌≡◌, refl, true, false, List, [], ◌∷◌, some, Bytes, All, length, get_elem?,
  arith,
}
use oio_sds_cpp.Ec.Command.{RawxUrlSet}
use oio_sds_cpp.Ec.Code.{Code, Fragments}
use oio_sds_cpp.Ec.Fragments.{Slots}

-- The numbers of the targets are those of slots.
abbrev pub InSlots : ℕ → List RawxUrlSet → Type 0
InSlots n ts = All (λ t. t.chunk_number < n) ts

pub get_elem?-some :
    (fs : List Bytes) (i : ℕ) → i < length fs → (f : Bytes) × (get_elem? fs i ≡ some f)
get_elem?-some [] i h = absurd (omega arith)
get_elem?-some (f ∷ fs) zero h = (f, refl)
get_elem?-some (f ∷ fs) (suc i) h = get_elem?-some fs i (omega arith)

pub magic_of :
    (c : Code) (k m : ℕ) (size : ℕ) (fs : List Bytes)
    → All (λ f. (c.is_invalid k m f ≡ false) × (c.has_magic f ≡ true) × (length f ≡ size)) fs
    → All (λ f. c.has_magic f ≡ true) fs
magic_of c k m size [] h = tt
magic_of c k m size (f ∷ fs) h = (h.0.1, magic_of c k m size fs h.1)
