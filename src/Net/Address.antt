-- ===== src/Net/Address.antt =====
-- net::Addr of src/utils/net.cpp and src/utils/net.hpp: addresses and their text. inet_pton and inet_ntop
-- are the C library's: a parameter.
pub mod Urls
use oio_sds_cpp.Prelude.{
  ℕ, zero, suc, ◌+◌, ◌-◌, ◌*◌, ◌/◌, ◌%◌, ltb, leb, ◌==◌, ◌&&◌, ◌||◌, ◌≡◌, Bool, true, false, not,
  if◌then◌else◌, List, [], ◌∷◌, ◌++◌, Option, some, none, Bytes, bytes,
}
use oio_sds_cpp.Prelude.Decimal.{decimal, digits_value}
use oio_sds_cpp.Prelude.Scan.{digit_run, skip_space, is_digit, rfind_char}
use oio_sds_cpp.Api.{SysError, einval}

-- The bytes of a C string, up to the first that is 0.
abbrev pub c_str : Bytes → Bytes
c_str [] = []
c_str (c ∷ s) = let rest = c_str s in if c == 0 then [] else c ∷ rest

abbrev u64_mod : ℕ
u64_mod = 18446744073709551616

-- The digits behind a sign, as an unsigned long long, and what follows them.
abbrev saturated : Bool → ℕ → ℕ
saturated negative v =
    if leb u64_mod v then u64_mod - 1 else if negative then (u64_mod - v) % u64_mod else v

abbrev behind_digits : Bytes → Bytes
behind_digits [] = []
behind_digits (c ∷ s) = let rest = behind_digits s in if is_digit c then rest else c ∷ s

abbrev converted : Bool → Bytes → Bytes → Bytes → ℕ × Bytes
converted negative [] s start = (0, start)
converted negative (d ∷ ds) s start =
    (saturated negative (digits_value 0 (d ∷ ds)), behind_digits s)

abbrev signed : Bool → Bytes → Bytes → ℕ × Bytes
signed negative s start = converted negative (digit_run s) s start

abbrev strtoull_at : Bytes → Bytes → ℕ × Bytes
strtoull_at [] start = (0, start)
strtoull_at (c ∷ s) start =
    if c == b'-'
    then signed true s start
    else if c == b'+'
    then signed false s start
    else signed false (c ∷ s) start

-- strtoull(start, &end, 10): the number, and what `end` points to. It leaves `errno` where it finds no
-- digit, and sets it where it saturates.
unfoldable pub strtoull : Bytes → ℕ × Bytes
unfolding digits_value
strtoull start = strtoull_at (skip_space start) start

abbrev is_einval : SysError → Bool
is_einval einval = true
is_einval _ = false

abbrev is_empty : Bytes → Bool
is_empty [] = true
is_empty (c ∷ s) = false

-- _port_parse, with the `errno` of before it.
unfoldable pub port_parse : SysError → Bytes → Option ℕ
unfolding strtoull
port_parse errno start =
    let (port, end) = strtoull start in
    if (port == 0) && is_einval errno
    then none
    else if leb 65536 port
    then none
    else if is_empty end
    then some port
    else none

pub record Inet : Type 1 where
  pub Ip4 : Type 0
  pub Ip6 : Type 0
  pub pton4 : Bytes → Option Ip4
  pub pton6 : Bytes → Option Ip6
  pub ntop4 : Ip4 → Bytes
  pub ntop6 : Ip6 → Bytes

module _ (inet : Inet) where
  -- What `ss_` holds: its family, and the address and the port where it is one of the known ones.
  pub data Host : Type 0 where
    unset : Host
    ipv4 : inet.Ip4 → ℕ → Host
    ipv6 : inet.Ip6 → ℕ → Host

  pub record Addr : Type 0 where
    pub host : Host
    pub len : ℕ

  -- Addr::Addr and Addr::reset; 24 is sizeof(NetAddr).
  abbrev pub reset : Addr
  reset = record { host = unset; len = 24 }

  -- sa.back() == ']'
  abbrev without_bracket : Bytes → Bytes
  without_bracket [] = []
  without_bracket (c ∷ []) = if c == b']' then [] else c ∷ []
  without_bracket (c ∷ d ∷ s) = c ∷ without_bracket (d ∷ s)

  abbrev with_ipv6 : Addr → ℕ → Option inet.Ip6 → Addr × Bool
  with_ipv6 a port none = (record a { len = 28 }, false)
  with_ipv6 a port (some ip) = (record { host = ipv6 ip port; len = 28 }, true)

  abbrev with_ipv4 : Addr → ℕ → Option inet.Ip4 → Addr × Bool
  with_ipv4 a port none = (record a { len = 16 }, false)
  with_ipv4 a port (some ip) = (record { host = ipv4 ip port; len = 16 }, true)

  abbrev parse_host : Addr → Bytes → ℕ → Addr × Bool
  parse_host a [] port = with_ipv4 a port (inet.pton4 [])
  parse_host a (c ∷ sa) port =
      if c == b'['
      then with_ipv6 a port (inet.pton6 (c_str (without_bracket sa)))
      else with_ipv4 a port (inet.pton4 (c_str (c ∷ sa)))

  abbrev parse_port : Addr → Bytes → Option ℕ → Addr × Bool
  parse_port a sa none = (a, false)
  parse_port a sa (some port) = parse_host a sa port

  abbrev parse_colon : SysError → Addr → Option (Bytes × Bytes) → Addr × Bool
  parse_colon errno a none = (a, false)
  parse_colon errno a (some (sa, sp)) = parse_port a sa (port_parse errno (c_str sp))

  -- Addr::parse, of a text that is not empty, with the `errno` of before it.
  unfoldable pub parse : SysError → Addr → Bytes → Addr × Bool
  unfolding port_parse rfind_char
  parse errno a addr = parse_colon errno a (rfind_char b':' addr)

  -- Addr::Url
  abbrev pub host_url : Host → Bytes
  host_url unset = []
  host_url (ipv4 ip port) = inet.ntop4 ip ++ b':' ∷ decimal port
  host_url (ipv6 ip port) = b'[' ∷ inet.ntop6 ip ++ b']' ∷ b':' ∷ decimal port

  -- Addr::family_name
  abbrev pub family_name : Host → Bytes
  family_name (ipv4 ip port) = bytes "AF_INET"
  family_name (ipv6 ip port) = bytes "AF_INET6"
  family_name unset = bytes "PF_?"

  -- Addr::port, which gives the two bytes of the port as they are stored, the high one first.
  abbrev swapped : ℕ → ℕ
  swapped port = port % 256 * 256 + port / 256

  abbrev pub port_of : Host → ℕ
  port_of (ipv4 ip port) = swapped port
  port_of (ipv6 ip port) = swapped port
  port_of unset = 0
