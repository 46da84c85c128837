-- ===== src/Kinetic/Ranges.antt =====
-- Which keys stand in the range that KineticListing::Prepare of src/oio/blob/kinetic/coro/blob.cpp asks
-- for. A drive orders its keys by their bytes.
use oio_sds_cpp.Prelude.{
  ℕ, ◌<◌, Bool, true, ◌&&◌, [], ◌∷◌, ◌++◌, Bytes, ◌≡◌, refl, ◌∙◌, ap, arith, append_assoc, bytes_lt,
  i32_limit, All,
}
use oio_sds_cpp.Prelude.Decimal.{decimal, decimal_starts, decimal-IsDigit, IsDigit}
use oio_sds_cpp.Kinetic.Upload.{dash, key_of, block_suffix}
use oio_sds_cpp.Kinetic.Keys.{block, parse_key, parse_key-block_suffix}
use oio_sds_cpp.Kinetic.Listing.{range_start, range_end}

abbrev pub in_range : Bytes → Bytes → Bool
in_range name key = bytes_lt (range_start name) key && bytes_lt key (range_end name)

bytes_lt-append : (xs ys zs : Bytes) → bytes_lt (xs ++ ys) (xs ++ zs) ≡ bytes_lt ys zs
unfolding bytes_lt
bytes_lt-append [] ys zs = refl
bytes_lt-append (x ∷ xs) ys zs = let later = bytes_lt-append xs ys zs in ground arith

in_range_lem :
    (name : Bytes) (c : ℕ) (tail : Bytes)
    → c < b'X'
    → in_range name (name ++ dash ∷ c ∷ tail) ≡ true
unfolding bytes_lt
in_range_lem name c tail h =
    let low = bytes_lt-append name (dash ∷ []) (dash ∷ c ∷ tail) in
    let high = bytes_lt-append name (dash ∷ c ∷ tail) (dash ∷ b'X' ∷ []) in
    rw (low, high) (ground arith)

-- The blocks of a name are in its range.
pub block_suffix-in_range :
    (name : Bytes) (n size : ℕ) → in_range name (key_of name (block_suffix n size)) ≡ true
block_suffix-in_range name n size =
    let (d, ds, e) = decimal_starts n in
    let digits : All IsDigit (d ∷ ds) = rw e at (decimal-IsDigit n) in
    let digit = digits.0 in
    ap (λ l. in_range name (name ++ dash ∷ (l ++ dash ∷ decimal size))) e
    ∙ in_range_lem name d (ds ++ dash ∷ decimal size) (omega arith)

-- So are the blocks of any other name that is this one, a dash, a byte below 'X' and anything more, and
-- a download takes their keys for blocks, with their own sequence numbers.
pub block_suffix-in_range_of_other :
    (name : Bytes) (c : ℕ) (more : Bytes) (n size : ℕ)
    → c < b'X'
    → n < i32_limit
    → size < i32_limit
    → (in_range name (key_of (name ++ dash ∷ c ∷ more) (block_suffix n size)) ≡ true)
      × (parse_key (key_of (name ++ dash ∷ c ∷ more) (block_suffix n size)) ≡ block n size)
block_suffix-in_range_of_other name c more n size h k l = (
  ap (in_range name) (append_assoc name (dash ∷ c ∷ more) (dash ∷ block_suffix n size))
      ∙ in_range_lem name c (more ++ dash ∷ block_suffix n size) h,
  parse_key-block_suffix (name ++ dash ∷ c ∷ more) n size k l,
)
