-- ===== src/Examples/Listings.antt =====
-- Runs of the listings of src/oio/blob/kinetic/coro/blob.cpp.
use oio_sds_cpp.Prelude.{
  Bool, ap, ◌≡◌, refl, List, [], ◌∷◌, ◌++◌, arith, true, false, some, Bytes, bytes, bytes_lt,
  if◌then◌else◌, take, sym,
}
use mathlib.Core.List.{Permᴰ, cons≢nil, head-eq_of_cons-eq, tail-eq_of_cons-eq}
use oio_sds_cpp.Api.{Status}
use oio_sds_cpp.Kinetic.Listing.{KineticListing, Range, prepare, range_end, back}
use oio_sds_cpp.Kinetic.Batches.{InOrder}
use oio_sds_cpp.Kinetic.Listed.{keys_of, prepare-keys_of}

-- Each drive holds one block.
abbrev one_block : Bytes
one_block = bytes "blob-0-3"

abbrev one_each : Range
one_each id start end = if bytes_lt start one_block then one_block ∷ [] else []

at_most_one : Bool → List Bytes
at_most_one b = if b then one_block ∷ [] else []

one_each_replies : (b : Bool) → at_most_one b ≡ take 200 (at_most_one b)
unfolding at_most_one
one_each_replies true = refl
one_each_replies false = refl

one_each_ordered :
    (b : Bool) (k : Bytes) (keys rest : List Bytes)
    → at_most_one b ≡ (k ∷ keys) ++ rest
    → at_most_one (bytes_lt (back k keys) one_block) ≡ rest
unfolding at_most_one bytes_lt
one_each_ordered true k [] [] e =
    ap (λ l. at_most_one (bytes_lt l one_block)) (sym (head-eq_of_cons-eq e))
one_each_ordered true k [] (r ∷ rest) e = absurd (cons≢nil (sym (tail-eq_of_cons-eq e)))
one_each_ordered true k (x ∷ keys) rest e = absurd (cons≢nil (sym (tail-eq_of_cons-eq e)))
one_each_ordered false k keys rest e = absurd (cons≢nil (sym e))

one_each-InOrder : InOrder one_each one_each 200 (range_end (bytes "blob"))
unfolding bytes_lt at_most_one
one_each-InOrder = record {
  some_keys = omega arith;
  replies = λ id start. one_each_replies (bytes_lt start one_block);
  ordered = λ id start k keys rest e. one_each_ordered (bytes_lt start one_block) k keys rest e;
}

prepare-keys_of_example :
    (l : KineticListing) × (rc : Status) × (prepare 4 one_each
        (bytes "blob")
        (bytes "d1" ∷ bytes "d2" ∷ [])
      ≡ some (l, rc))
    × Permᴰ (keys_of one_each (bytes "blob") (bytes "d1" ∷ bytes "d2" ∷ [])) l.items
unfolding bytes_lt
prepare-keys_of_example =
    prepare-keys_of one_each one_each 200 4 (bytes "blob") (bytes "d1" ∷ bytes "d2" ∷ [])
      one_each-InOrder (omega arith)
