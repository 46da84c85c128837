-- ===== src/Rawx/Url.antt =====
-- RawxUrl of src/oio/blob/rawx/blob.hpp: the address of a chunk.
use oio_sds_cpp.Prelude.{
  ℕ, zero, suc, ◌+◌, ◌-◌, ◌%◌, ◌==◌, Bool, true, false, if◌then◌else◌, [], ◌∷◌, ◌++◌, Option, some,
  none, Bytes, bytes, length, take, ℤ, pos, negsuc,
}
use oio_sds_cpp.Prelude.Decimal.{decimal, digits_value}
use oio_sds_cpp.Prelude.Scan.{digit_run, skip_space, index_of, index_from, substr}

pub record RawxUrl : Type 0 where
  pub chunk_id : Bytes
  pub host : Bytes
  pub port : ℤ

-- RawxUrl::RawxUrl and RawxUrl::Clear
abbrev pub empty_url : RawxUrl
empty_url = record { chunk_id = []; host = []; port = pos 0 }

abbrev negated : ℕ → ℤ
negated zero = pos 0
negated (suc n) = negsuc n

-- The digits behind a sign; none of them is the number 0.
abbrev signed : Bool → Bytes → ℤ
signed negative s = let v = digits_value 0 (digit_run s) in if negative then negated v else pos v

abbrev scan_sign : ℤ → Bytes → ℤ
scan_sign old [] = old
scan_sign old (c ∷ s) =
    if c == b'-' then signed true s else if c == b'+' then signed false s else signed false (c ∷ s)

-- ss >> port, of at most four characters: what the port was stays where there is nothing but spaces.
unfoldable pub scan_int : ℤ → Bytes → ℤ
unfolding digits_value
scan_int old s = scan_sign old (skip_space s)

-- ss << port
abbrev pub print_int : ℤ → Bytes
print_int (pos n) = decimal n
print_int (negsuc n) = b'-' ∷ decimal (suc n)

-- std::string::npos + 1
abbrev u64_mod : ℕ
u64_mod = 18446744073709551616

abbrev with_chunk : RawxUrl → Option Bytes → Option RawxUrl
with_chunk u none = none
with_chunk u (some id) = some (record u { chunk_id = id })

abbrev with_port : RawxUrl → Option Bytes → Bytes → ℕ → Option RawxUrl
with_port u none v at = none
with_port u (some digits) v at =
    with_chunk (record u { port = scan_int u.port digits }) (substr v (at + 6) (length v))

abbrev with_host : RawxUrl → Option Bytes → Bytes → ℕ → Option RawxUrl
with_host u none v at = none
with_host u (some host) v at = with_port (record u { host = host }) (substr v (at + 1) 4) v at

-- Both colons of a URL, and what is cut around them.
abbrev parse_colons : RawxUrl → Bytes → ℕ → Option ℕ → Option RawxUrl
parse_colons u v colon none = some u
parse_colons u v colon (some colon2) =
    with_host u (substr v (colon + 3) ((colon2 + u64_mod - colon - 3) % u64_mod)) v colon2

abbrev parse_url : RawxUrl → Bytes → Option ℕ → Option RawxUrl
parse_url u v none = some u
parse_url u v (some colon) = parse_colons u v colon (index_from (b':' ∷ []) v (colon + 1))

abbrev address_port : RawxUrl → Option Bytes → Option RawxUrl
address_port u none = none
address_port u (some digits) = some (record u { port = scan_int u.port digits })

abbrev parse_address : RawxUrl → Bytes → Option ℕ → Option RawxUrl
parse_address u v none = some u
parse_address u v (some colon) =
    address_port (record u { host = take colon v }) (substr v (colon + 1) 4)

abbrev parse_at : RawxUrl → Bytes → Option ℕ → Option RawxUrl
parse_at u v (some http) = parse_url u v (index_of (b':' ∷ []) v)
parse_at u v none = parse_address u v (index_of (b':' ∷ []) v)

-- RawxUrl::Parse; `none` where std::string::substr throws.
unfoldable pub parse : RawxUrl → Bytes → Option RawxUrl
unfolding index_of scan_int
parse u v = parse_at u v (index_of (bytes "http") v)

-- RawxUrl::Host_Port
abbrev pub host_port : RawxUrl → Bytes
host_port u = u.host ++ (bytes ":" ++ print_int u.port)

-- RawxUrl::GetString
abbrev pub get_string : RawxUrl → Bytes
get_string u =
    bytes "http://" ++ (u.host ++ (bytes ":" ++ (print_int u.port ++ (bytes "/" ++ u.chunk_id))))
