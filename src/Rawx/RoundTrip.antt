-- ===== src/Rawx/RoundTrip.antt =====
-- RawxUrl of src/oio/blob/rawx/blob.hpp: what is printed is parsed back.
use oio_sds_cpp.Prelude.{
  ℕ, zero, suc, ◌+◌, ◌-◌, ◌/◌, ◌%◌, ◌≤◌, ◌<◌, ltb, leb, ◌≡◌, ◌≢◌, refl, sym, ◌∙◌, ap, true, false,
  [], ◌∷◌, ◌++◌, some, Bytes, bytes, All, length, length-append, take, drop, ℤ, pos, arith,
  split_at, drop-append_past, take_all,
}
use oio_sds_cpp.Prelude.Decimal.{
  decimal, digits, digits_value, digits_value-decimal, decimal-IsDigit, IsDigit,
}
use oio_sds_cpp.Prelude.Scan.{index_of, index_from, substr, index_of-append, digit_run-All}
use oio_sds_cpp.Rawx.Url.{RawxUrl, parse, print_int, get_string, scan_int}

digits_more :
    (fuel n : ℕ) → 10 ≤ n → digits (suc fuel) n ≡ digits fuel (n / 10) ++ (48 + n % 10) ∷ []
unfolding digits
digits_more fuel n h = let big : ltb n 10 ≡ false = ground arith in rw big refl

digits_last : (fuel n : ℕ) → n < 10 → digits (suc fuel) n ≡ (48 + n) ∷ []
unfolding digits
digits_last fuel n h = let small : ltb n 10 ≡ true = ground arith in rw small refl

four_digits :
    (fuel n : ℕ)
    → 1000 ≤ n
    → n < 10000
    → (a : ℕ) × (b : ℕ) × (c : ℕ) × (d : ℕ) × (digits (suc (suc (suc (suc fuel)))) n
        ≡ a ∷ b ∷ c ∷ d ∷ [])
four_digits fuel n h k = (
  48 + n / 10 / 10 / 10,
  48 + n / 10 / 10 % 10,
  48 + n / 10 % 10,
  48 + n % 10,
  digits_more (suc (suc (suc fuel))) n (omega arith)
      ∙ ap (λ l. l ++ (48 + n % 10) ∷ [])
          (digits_more (suc (suc fuel)) (n / 10) (omega arith)
            ∙ ap (λ l. l ++ (48 + n / 10 % 10) ∷ [])
                (digits_more (suc fuel) (n / 10 / 10) (omega arith)
                  ∙ ap (λ l. l ++ (48 + n / 10 / 10 % 10) ∷ [])
                      (digits_last fuel (n / 10 / 10 / 10) (omega arith)))),
)

decimal_four :
    (n : ℕ)
    → 1000 ≤ n
    → n < 10000
    → (a : ℕ) × (b : ℕ) × (c : ℕ) × (d : ℕ) × (decimal n ≡ a ∷ b ∷ c ∷ d ∷ [])
unfolding decimal
decimal_four zero h k = absurd (omega arith)
decimal_four (suc zero) h k = absurd (omega arith)
decimal_four (suc (suc zero)) h k = absurd (omega arith)
decimal_four (suc (suc (suc m))) h k = four_digits m (suc (suc (suc m))) h k

-- The number that was printed is scanned.
scan_int-digits :
    (old : ℤ) (d : ℕ) (ds : Bytes)
    → All IsDigit (d ∷ ds)
    → scan_int old (d ∷ ds) ≡ pos (digits_value 0 (d ∷ ds))
unfolding scan_int
scan_int-digits old d ds h = let run = digit_run-All (d ∷ ds) h in let digit = h.0 in ground arith

take-front : (h rest : Bytes) → take (length h) (h ++ rest) ≡ h
take-front h rest = sym (split_at h rest (h ++ rest) (length h) refl refl).0

drop_behind : (h rest : Bytes) (k : ℕ) → drop (length h + k) (h ++ rest) ≡ drop k rest
drop_behind h rest k =
    drop-append_past (length h + k) h rest (omega arith) ∙ ap (λ m. drop m rest) (omega arith)

module _ (h id : Bytes) (a b c d : ℕ) where
  abbrev behind : Bytes
  behind = a ∷ b ∷ c ∷ d ∷ b'/' ∷ id

  abbrev printed : Bytes
  printed = bytes "http://" ++ (h ++ b':' ∷ behind)

  length-printed : length printed ≡ length h + (13 + length id)
  length-printed = omega (arith, length-append h (b':' ∷ behind))

  second_colon : All (λ x. b':' ≢ x) h → index_from (b':' ∷ []) printed 5 ≡ some (7 + length h)
  unfolding index_of
  second_colon free = let e = index_of-append b':' h behind free in grind arith

  host_cut :
      length h < 18446744073709551616
      → substr printed 7 ((7 + length h + 18446744073709551616 - 4 - 3) % 18446744073709551616)
        ≡ some h
  host_cut small =
      let inside : leb 7 (length printed) ≡ true = ground (arith, length-printed) in
      let count : (7 + length h + 18446744073709551616 - 4 - 3) % 18446744073709551616 ≡ length h =
        omega arith in
      rw (inside, count) (ap some (take-front h (b':' ∷ behind)))

  drop-printed : (k : ℕ) → drop (7 + length h + k) printed ≡ drop k (b':' ∷ behind)
  drop-printed k =
      let e : 7 + length h + k ≡ suc (suc (suc (suc (suc (suc (suc (length h + k))))))) =
        omega arith in
      ap (λ n. drop n printed) e ∙ drop_behind h (b':' ∷ behind) k

  port_cut : substr printed (7 + length h + 1) 4 ≡ some (a ∷ b ∷ c ∷ d ∷ [])
  port_cut =
      let inside : leb (7 + length h + 1) (length printed) ≡ true =
        ground (arith, length-printed) in
      rw inside (ap (λ l. some (take 4 l)) (drop-printed 1))

  id_cut : substr printed (7 + length h + 6) (length printed) ≡ some id
  id_cut =
      let inside : leb (7 + length h + 6) (length printed) ≡ true =
        ground (arith, length-printed) in
      rw inside (
        ap (λ l. some (take (length printed) l)) (drop-printed 6)
        ∙ ap some (take_all (length printed) id (omega (arith, length-printed))))

  parse-printed :
      (old : RawxUrl)
      → All (λ x. b':' ≢ x) h
      → length h < 18446744073709551616
      → parse old printed
        ≡ some (record { chunk_id = id; host = h; port = scan_int old.port (a ∷ b ∷ c ∷ d ∷ []) })
  unfolding parse
  parse-printed old free small = rw (second_colon free, host_cut small, port_cut, id_cut) refl

-- The address of a chunk that is printed as a URL is parsed back as it was, whatever the object held
-- before, when its port has four digits and its host no colon.
pub parse-get_string :
    (old u : RawxUrl) (n : ℕ)
    → u.port ≡ pos n
    → 1000 ≤ n
    → n < 10000
    → All (λ x. b':' ≢ x) u.host
    → length u.host < 18446744073709551616
    → parse old (get_string u) ≡ some u
parse-get_string old u n p low high free small =
    let (a, b, c, d, e) = decimal_four n low high in
    let shape : get_string u ≡ printed u.host u.chunk_id a b c d =
      ap
        (λ z.
          bytes "http://" ++ (u.host ++ (bytes ":" ++ (print_int z ++ (bytes "/" ++ u.chunk_id)))))
        p
      ∙ ap (λ l. bytes "http://" ++ (u.host ++ (bytes ":" ++ (l ++ (bytes "/" ++ u.chunk_id)))))
          e in
    let value : scan_int old.port (a ∷ b ∷ c ∷ d ∷ []) ≡ u.port =
      scan_int-digits old.port a (b ∷ c ∷ d ∷ []) (rw e at (decimal-IsDigit n))
      ∙ ap pos (ap (digits_value 0) (sym e) ∙ digits_value-decimal n)
      ∙ sym p in
    ap (parse old) shape
    ∙ parse-printed u.host u.chunk_id a b c d old free small
    ∙ ap (λ z. some (record u { port = z })) value
