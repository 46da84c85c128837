-- ===== src/Kinetic/Keys.antt =====
-- The keys that KineticDownload::Prepare of src/oio/blob/kinetic/coro/blob.cpp reads back: a name, the
-- sequence number of a block and its size, or the mark of the manifest.
use oio_sds_cpp.Prelude.{
  ℕ, ◌-◌, ◌%◌, ◌<◌, ltb, leb, ◌==◌, ◌≡◌, ◌≢◌, refl, sym, ◌∙◌, ap, Bool, true, false, if◌then◌else◌,
  [], ◌∷◌, ◌++◌, Option, some, none, Bytes, All, arith, u32_mod, i32_limit, append_assoc,
}
use oio_sds_cpp.Prelude.Decimal.{
  decimal, digits_value, IsDigit, digits_value-decimal, decimal-IsDigit, decimal_starts,
}
use oio_sds_cpp.Prelude.Scan.{digit_run, skip_space, digit_run-All}
use oio_sds_cpp.Kinetic.Upload.{dash, key_of, block_suffix, manifest_suffix}

-- k.rfind('-'): what stands before the last dash, and what stands after it.
unfoldable pub rfind : Bytes → Option (Bytes × Bytes)
rfind [] = none
rfind (x ∷ xs) = elim (rfind xs) [
  | some (before, after) ↦ some (x ∷ before, after)
  | none ↦ if x == dash then some ([], xs) else none
]

-- The number of a run of digits as an `int`, then as a `uint32_t`; `none` where std::stoi throws.
unfoldable pub to_int : Bool → Bytes → Option ℕ
to_int negative [] = none
to_int false (c ∷ ds) = let v = digits_value 0 (c ∷ ds) in if ltb v i32_limit then some v else none
to_int true (c ∷ ds) =
    let v = digits_value 0 (c ∷ ds) in
    if leb v i32_limit then some ((u32_mod - v) % u32_mod) else none

unfoldable pub stoi_sign : Bytes → Option ℕ
unfolding to_int
stoi_sign [] = none
stoi_sign (c ∷ s) =
    if c == b'-'
    then to_int true (digit_run s)
    else if c == b'+'
    then to_int false (digit_run s)
    else to_int false (digit_run (c ∷ s))

-- std::stoi
unfoldable pub stoi : Bytes → Option ℕ
unfolding stoi_sign
stoi s = stoi_sign (skip_space s)

-- What a round of the loop over the keys makes of one.
pub data Parsed : Type 0 where
  malformed : Parsed
  manifest : Parsed
  block : ℕ → ℕ → Parsed  -- sequence, size
  throws : Parsed

abbrev pub starts_manifest : Bytes → Bool
starts_manifest [] = false
starts_manifest (c ∷ s) = c == b'#'

abbrev pub parse_sequence : Option (Bytes × Bytes) → ℕ → Parsed
parse_sequence none size = malformed
parse_sequence (some (name, digits)) size = elim (stoi digits) [
  | none ↦ throws
  | some seq ↦ block seq size
]

abbrev pub parse_size : Option (Bytes × Bytes) → Parsed
parse_size none = malformed
parse_size (some (rest, digits)) =
    if starts_manifest digits
    then manifest
    else elim (stoi digits) [ none ↦ throws | some size ↦ parse_sequence (rfind rest) size ]

unfoldable pub parse_key : Bytes → Parsed
parse_key key = parse_size (rfind key)

rfind-none : (xs : Bytes) → All (λ c. c ≢ dash) xs → rfind xs ≡ none
unfolding rfind
rfind-none [] h = refl
rfind-none (x ∷ xs) h = let later = rfind-none xs h.1 in ground arith

rfind_lem : (a b : Bytes) → All (λ c. c ≢ dash) b → rfind (a ++ dash ∷ b) ≡ some (a, b)
unfolding rfind
rfind_lem [] b h = rw (rfind-none b h) refl
rfind_lem (x ∷ a) b h = rw (rfind_lem a b h) refl

no_dash : (ds : Bytes) → All IsDigit ds → All (λ c. c ≢ dash) ds
no_dash [] h = tt
no_dash (d ∷ ds) h = (λ e. absurd (omega (arith, e, h.0)), no_dash ds h.1)

stoi_digits :
    (d : ℕ) (ds : Bytes)
    → All IsDigit (d ∷ ds)
    → digits_value 0 (d ∷ ds) < i32_limit
    → stoi (d ∷ ds) ≡ some (digits_value 0 (d ∷ ds))
unfolding stoi
stoi_digits d ds h k =
    let run = digit_run-All (d ∷ ds) h in
    let digit = h.0 in
    let no_space : skip_space (d ∷ ds) ≡ d ∷ ds = ground arith in
    let unsigned : stoi_sign (d ∷ ds) ≡ to_int false (digit_run (d ∷ ds)) = ground arith in
    ap stoi_sign no_space ∙ unsigned ∙ ap (to_int false) run ∙ ground arith

stoi-decimal : (n : ℕ) → n < i32_limit → stoi (decimal n) ≡ some n
stoi-decimal n h =
    let (d, ds, e) = decimal_starts n in
    let value : digits_value 0 (d ∷ ds) ≡ n =
      ap (digits_value 0) (sym e) ∙ digits_value-decimal n in
    ap stoi e
    ∙ stoi_digits d ds (rw e at (decimal-IsDigit n)) (omega (arith, value, h))
    ∙ ap some value

parse_sequence-decimal :
    (name : Bytes) (n size : ℕ)
    → n < i32_limit
    → parse_sequence (some (name, decimal n)) size ≡ block n size
parse_sequence-decimal name n size h =
    ap (λ (o : Option ℕ). elim o as (λ x. Parsed) [ none ↦ throws | some seq ↦ block seq size ])
      (stoi-decimal n h)

-- The key that an upload makes for a block names its sequence number and its size.
pub parse_key-block_suffix :
    (name : Bytes) (n size : ℕ)
    → n < i32_limit
    → size < i32_limit
    → parse_key (key_of name (block_suffix n size)) ≡ block n size
unfolding parse_key
parse_key-block_suffix name n size h k =
    let (d, ds, e) = decimal_starts size in
    let digits : All IsDigit (d ∷ ds) = rw e at (decimal-IsDigit size) in
    let digit = digits.0 in
    let not_manifest : starts_manifest (decimal size) ≡ false =
      ap starts_manifest e ∙ ground arith in
    ap (λ k. parse_size (rfind k))
      (sym (append_assoc name (dash ∷ decimal n) (dash ∷ decimal size)))
    ∙ ap parse_size
        (rfind_lem (name ++ dash ∷ decimal n) (decimal size) (no_dash _ (decimal-IsDigit size)))
    ∙ simp
        (
          not_manifest,
          stoi-decimal size k,
          rfind_lem name (decimal n) (no_dash _ (decimal-IsDigit n)),
        )
        (parse_sequence-decimal name n size h)

-- The key of a manifest is taken for one.
pub parse_key-manifest_suffix : (name : Bytes) → parse_key (key_of name manifest_suffix) ≡ manifest
unfolding parse_key
parse_key-manifest_suffix name =
    ap parse_size (rfind_lem name manifest_suffix (λ e. absurd (omega (arith, e)), tt))
