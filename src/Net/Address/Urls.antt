-- ===== src/Net/Address/Urls.antt =====
-- net::Addr of src/utils/net.cpp: the text of an address is parsed back.
use oio_sds_cpp.Prelude.{
  ℕ, ◌<◌, ◌==◌, leb, ◌&&◌, ◌≡◌, ◌≢◌, refl, sym, ◌∙◌, ap, true, false, [], ◌∷◌, ◌++◌, some, Bytes,
  All, arith, append_assoc,
}
use oio_sds_cpp.Prelude.Decimal.{
  decimal, digits_value, IsDigit, digits_value-decimal, decimal-IsDigit, decimal_starts,
}
use oio_sds_cpp.Prelude.Scan.{digit_run-All, rfind_char-append}
use oio_sds_cpp.Api.{SysError}
use oio_sds_cpp.Net.Address.{
  c_str, behind_digits, strtoull, port_parse, is_einval, Inet, Host, unset, ipv4, ipv6, Addr,
  without_bracket, parse, parse_colon, parse_port, parse_host, host_url,
}

-- inet_ntop prints what inet_pton reads, a text without the character 0; that of an IPv4 address does
-- not begin with a bracket.
pub record LawfulInet (inet : Inet) : Type 0 where
  pub read4 : (ip : inet.Ip4) → inet.pton4 (inet.ntop4 ip) ≡ some ip
  pub read6 : (ip : inet.Ip6) → inet.pton6 (inet.ntop6 ip) ≡ some ip
  pub text4 : (ip : inet.Ip4) → All (λ c. c ≢ 0) (inet.ntop4 ip)
  pub text6 : (ip : inet.Ip6) → All (λ c. c ≢ 0) (inet.ntop6 ip)
  pub starts4 : (ip : inet.Ip4) → (c : ℕ) × (s : Bytes) × (inet.ntop4 ip ≡ c ∷ s) × (c ≢ b'[')

c_str-All : (s : Bytes) → All (λ c. c ≢ 0) s → c_str s ≡ s
c_str-All [] h = refl
c_str-All (c ∷ s) h = let later = c_str-All s h.1 in grind arith

digits_not_zero : (ds : Bytes) → All IsDigit ds → All (λ c. c ≢ 0) ds
digits_not_zero [] h = tt
digits_not_zero (d ∷ ds) h = ((λ e. absurd (omega arith)), digits_not_zero ds h.1)

digits_not_colon : (ds : Bytes) → All IsDigit ds → All (λ c. b':' ≢ c) ds
digits_not_colon [] h = tt
digits_not_colon (d ∷ ds) h = ((λ e. absurd (omega arith)), digits_not_colon ds h.1)

behind_digits-All : (ds : Bytes) → All IsDigit ds → behind_digits ds ≡ []
behind_digits-All [] h = refl
behind_digits-All (d ∷ ds) h = let later = behind_digits-All ds h.1 in ground arith

strtoull-digits :
    (d : ℕ) (ds : Bytes)
    → All IsDigit (d ∷ ds)
    → digits_value 0 (d ∷ ds) < 18446744073709551616
    → strtoull (d ∷ ds) ≡ (digits_value 0 (d ∷ ds), [])
unfolding strtoull
strtoull-digits d ds h small =
    let run = digit_run-All (d ∷ ds) h in
    let behind = behind_digits-All (d ∷ ds) h in let digit = h.0 in ground arith

-- A port that is printed is parsed, but for 0 behind an errno of EINVAL.
pub port_parse-decimal :
    (errno : SysError) (port : ℕ)
    → port < 65536
    → ((port == 0) && is_einval errno) ≡ false
    → port_parse errno (decimal port) ≡ some port
unfolding port_parse
port_parse-decimal errno port h e =
    let (d, ds, s) = decimal_starts port in
    let value : digits_value 0 (d ∷ ds) ≡ port =
      ap (digits_value 0) (sym s) ∙ digits_value-decimal port in
    let number : strtoull (decimal port) ≡ (port, []) =
      ap strtoull s
      ∙ strtoull-digits d ds (rw s at (decimal-IsDigit port)) (omega (arith, value))
      ∙ ap (λ (v : ℕ). (v, [])) value in
    let fits : leb 65536 port ≡ false = ground arith in rw (number, e, fits) refl

module _ (inet : Inet) (law : LawfulInet inet) where
  without_bracket-append : (s : Bytes) → without_bracket inet (s ++ b']' ∷ []) ≡ s
  without_bracket-append [] = refl
  without_bracket-append (c ∷ []) = refl
  without_bracket-append (c ∷ d ∷ s) = ap (λ l. c ∷ l) (without_bracket-append (d ∷ s))

  -- The part of the text behind the last colon is the port.
  parse-text :
      (errno : SysError) (a : Addr inet) (host : Bytes) (port : ℕ)
      → port < 65536
      → ((port == 0) && is_einval errno) ≡ false
      → parse inet errno a (host ++ b':' ∷ decimal port) ≡ parse_host inet a host port
  unfolding parse
  parse-text errno a host port small e =
      let digits = decimal-IsDigit port in
      let port_read : port_parse errno (c_str (decimal port)) ≡ some port =
        ap (port_parse errno) (c_str-All (decimal port) (digits_not_zero (decimal port) digits))
        ∙ port_parse-decimal errno port small e in
      ap (parse_colon inet errno a)
        (rfind_char-append b':' host (decimal port) (digits_not_colon (decimal port) digits))
      ∙ ap (parse_port inet a host) port_read

  abbrev pub length_of : Host inet → ℕ
  length_of unset = 0
  length_of (ipv4 ip port) = 16
  length_of (ipv6 ip port) = 28

  abbrev pub PortIsValid : SysError → Host inet → Type 0
  PortIsValid errno unset = ⊥
  PortIsValid errno (ipv4 ip port) = (port < 65536) × (((port == 0) && is_einval errno) ≡ false)
  PortIsValid errno (ipv6 ip port) = (port < 65536) × (((port == 0) && is_einval errno) ≡ false)

  parse_host-ipv4 :
      (a : Addr inet) (ip : inet.Ip4) (port : ℕ)
      → parse_host inet a (inet.ntop4 ip) port ≡ (record { host = ipv4 ip port; len = 16 }, true)
  parse_host-ipv4 a ip port =
      let (c, s, e, no_bracket) = law.starts4 ip in
      let text : c_str (c ∷ s) ≡ c ∷ s = c_str-All (c ∷ s) (rw e at (law.text4 ip)) in
      let other : (c == b'[') ≡ false = grind arith in
      let ipv : inet.pton4 (c ∷ s) ≡ some ip = ap inet.pton4 (sym e) ∙ law.read4 ip in
      rw (e, other, text, ipv) refl

  parse_host-ipv6 :
      (a : Addr inet) (ip : inet.Ip6) (port : ℕ)
      → parse_host inet a (b'[' ∷ inet.ntop6 ip ++ b']' ∷ []) port
        ≡ (record { host = ipv6 ip port; len = 28 }, true)
  parse_host-ipv6 a ip port =
      rw
        (
          without_bracket-append (inet.ntop6 ip),
          c_str-All (inet.ntop6 ip) (law.text6 ip),
          law.read6 ip,
        )
        refl

  -- Addr::parse reads back what Addr::Url prints for an address of either family, whatever the object
  -- held before; the port 0 only where errno was not EINVAL.
  pub parse-host_url :
      (errno : SysError) (a : Addr inet) (h : Host inet)
      → PortIsValid errno h
      → parse inet errno a (host_url inet h) ≡ (record { host = h; len = length_of h }, true)
  parse-host_url errno a unset v = absurd v
  parse-host_url errno a (ipv4 ip port) v =
      parse-text errno a (inet.ntop4 ip) port v.0 v.1 ∙ parse_host-ipv4 a ip port
  parse-host_url errno a (ipv6 ip port) v =
      ap (λ l. parse inet errno a (b'[' ∷ l))
        (sym (append_assoc (inet.ntop6 ip) (b']' ∷ []) (b':' ∷ decimal port)))
      ∙ parse-text errno a (b'[' ∷ inet.ntop6 ip ++ b']' ∷ []) port v.0 v.1
      ∙ parse_host-ipv6 a ip port
