-- ===== src/Ec/Slots.antt =====
-- How the slots of EcDownload in src/oio/blob/ec/blob.cpp agree with the fragments of an object.
use oio_sds_cpp.Prelude.{
  ℕ, zero, suc, ◌≤◌, leb, ◌≡◌, refl, sym, ◌∙◌, ap, Bool-cases, inl, inr, true, false, if◌then◌else◌,
  List, [], ◌∷◌, ◌++◌, some, none, Bytes, All, length, take, drop, take-append-drop, Bool, arith,
}
use oio_sds_cpp.Ec.Code.{Code, Part, none_left, kept, left_out}
use oio_sds_cpp.Ec.Fragments.{Slots, create_frags_array_set}
use oio_sds_cpp.Ec.Gathering.{usable, without_first, create_frags_array_set-usable}

-- The slots below a number hold fragments or nothing, and those from it on nothing.
pub data Agree : ℕ → Slots → List Bytes → Type 0 where
  all_seen : {n : ℕ} → Agree n [] []
  fresh : {os : Slots} {f : Bytes} {fs : List Bytes} → Agree 0 os fs → Agree 0 (none ∷ os) (f ∷ fs)
  absent :
      {n : ℕ} {os : Slots} {f : Bytes} {fs : List Bytes}
      → Agree n os fs
      → Agree (suc n) (none ∷ os) (f ∷ fs)
  present :
      {n : ℕ} {os : Slots} {f : Bytes} {fs : List Bytes}
      → Agree n os fs
      → Agree (suc n) (some f ∷ os) (f ∷ fs)

without_first-Agree :
    {n : ℕ} {os : Slots} {fs : List Bytes} → Agree n os fs → Agree n (without_first os) fs
without_first-Agree all_seen = all_seen
without_first-Agree (fresh a) = fresh a
without_first-Agree (absent a) = absent a
without_first-Agree (present a) = absent a

module _ (c : Code) where
  abbrev HasMagic : Bytes → Type 0
  HasMagic f = c.has_magic f ≡ true

  pub usable-Part :
      {n : ℕ} {os : Slots} {fs : List Bytes}
      → All HasMagic fs
      → Agree n os fs
      → Part (usable c os) fs
  unfolding usable
  usable-Part m all_seen = none_left
  usable-Part m (fresh a) = left_out (usable-Part m.1 a)
  usable-Part m (absent a) = left_out (usable-Part m.1 a)
  usable-Part m (present a) = rw m.0 (kept (usable-Part m.1 a))

  usable-append : (os ps : Slots) → usable c (os ++ ps) ≡ usable c os ++ usable c ps
  unfolding usable
  usable-append [] ps = refl
  usable-append (none ∷ os) ps = usable-append os ps
  usable-append (some f ∷ os) ps = elim (Bool-cases (c.has_magic f)) [
    | inl t ↦ rw t (ap (λ l. f ∷ l) (usable-append os ps))
    | inr g ↦ rw g (usable-append os ps)
  ]

  first_kept :
      (k : ℕ) (narrow : Bool) (os : Slots)
      → usable c (if narrow then without_first (take (suc k) os) else take (suc k) os)
          ++ usable c (drop (suc k) os)
        ≡ usable c (if narrow then without_first os else os)
  unfolding usable
  first_kept k true [] = refl
  first_kept k false [] = refl
  first_kept k true (o ∷ os) =
      sym (usable-append (none ∷ take k os) (drop k os))
      ∙ ap (λ l. usable c (none ∷ l)) (take-append-drop k os)
  first_kept k false (o ∷ os) =
      sym (usable-append (o ∷ take k os) (drop k os))
      ∙ ap (λ l. usable c (o ∷ l)) (take-append-drop k os)

  length-without_first :
      (os : Slots) → length (usable c os) ≤ suc (length (usable c (without_first os)))
  unfolding usable
  length-without_first [] = omega arith
  length-without_first (none ∷ os) = omega arith
  length-without_first (some f ∷ os) = elim (Bool-cases (c.has_magic f)) [
    | inl t ↦ rw t (omega arith)
    | inr g ↦ rw g (omega arith)
  ]

  -- What the decoder is given of slots that agree with some fragments: all of those that are there,
  -- or all but one.
  pub create_frags_array_set-Part :
      {n : ℕ} {os : Slots} {fs : List Bytes} (k mask : ℕ)
      → 1 ≤ k
      → All HasMagic fs
      → Agree n os fs
      → (gs : List Bytes) × (create_frags_array_set c (take k os) (drop k os) k mask ≡ gs)
        × Part gs fs
        × (length (usable c os) ≤ suc (length gs))
  create_frags_array_set-Part zero mask h m a = absurd (omega arith)
  create_frags_array_set-Part {n} {os} (suc k) mask h m a =
      let e = create_frags_array_set-usable c (take (suc k) os) (drop (suc k) os) k mask in
      elim (Bool-cases (leb mask 1)) [
        | inl t ↦ (
          usable c (without_first os),
          rw t at e ∙ first_kept k true os,
          usable-Part m (without_first-Agree a),
          length-without_first os,
        )
        | inr f ↦ (usable c os, rw f at e ∙ first_kept k false os, usable-Part m a, omega arith)
      ]
