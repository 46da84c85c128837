-- ===== src/Kinetic/Listed.antt =====
-- KineticListing::Prepare of src/oio/blob/kinetic/coro/blob.cpp names every key in its range once.
use oio_sds_cpp.Prelude.{
  ℕ, ◌+◌, ◌≤◌, List, [], ◌∷◌, ◌++◌, some, Bytes, length, ◌≡◌, refl, sym, ◌∙◌, ap, arith,
  length-append, subst,
}
use mathlib.Core.List.{Permᴰ}
use oio_sds_cpp.Api.{Status}
use oio_sds_cpp.Kinetic.Listing.{
  Range, range_start, range_end, cursors, named, KineticListing, prepare, listed_as,
}
use oio_sds_cpp.Kinetic.Batches.{InOrder, left_all, work_all, list_all-left_all}

-- All that the drives have behind the start of a name.
abbrev pub keys_of : Range → Bytes → List Bytes → List (Bytes × Bytes)
keys_of after name [] = []
keys_of after name (id ∷ clients) =
    named id (after id (range_start name) (range_end name)) ++ keys_of after name clients

left_all-cursors :
    (after : Range) (name : Bytes) (clients : List Bytes)
    → left_all after (range_end name) (cursors name clients) ≡ keys_of after name clients
left_all-cursors after name [] = refl
left_all-cursors after name (id ∷ clients) =
    ap (λ l. named id (after id (range_start name) (range_end name)) ++ l)
      (left_all-cursors after name clients)

work_all-cursors :
    (after : Range) (name : Bytes) (clients : List Bytes)
    → work_all after (range_end name) (cursors name clients)
      ≡ length (keys_of after name clients) + length clients
work_all-cursors after name [] = omega arith
work_all-cursors after name (id ∷ clients) = omega (
  arith,
  work_all-cursors after name clients,
  length-append (named id (after id (range_start name) (range_end name)))
      (keys_of after name clients),
)

listed_as-items :
    (items : List (Bytes × Bytes))
    → (l : KineticListing) × (rc : Status) × (listed_as (some items) ≡ some (l, rc))
      × (l.items ≡ items)
unfolding listed_as
listed_as-items [] = (_, _, refl, refl)
listed_as-items (i ∷ items) = (_, _, refl, refl)

-- With drives that give their keys in order, some in each reply, the preparation of a listing ends, with
-- fuel for each key and each drive, and its items are the keys that the drives have in the range of the
-- name, each once.
pub prepare-keys_of :
    (after range : Range) (batch fuel : ℕ) (name : Bytes) (clients : List Bytes)
    → InOrder after range batch (range_end name)
    → length (keys_of after name clients) + length clients ≤ fuel
    → (l : KineticListing) × (rc : Status) × (prepare fuel range name clients ≡ some (l, rc))
      × Permᴰ (keys_of after name clients) l.items
unfolding prepare
prepare-keys_of after range batch fuel name clients h b =
    let (items, e, d) =
      list_all-left_all after range batch (range_end name) fuel (cursors name clients) h
        (omega (arith, work_all-cursors after name clients)) in
    let (l, rc, f, g) = listed_as-items items in
    (
      l,
      rc,
      ap listed_as e ∙ f,
      subst (Permᴰ (keys_of after name clients)) (sym g)
          (subst (λ k. Permᴰ k items) (left_all-cursors after name clients) d),
    )
