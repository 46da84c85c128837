-- ===== src/Net/Socket.antt =====
-- net::Socket of src/utils/net.cpp: how connections are opened, closed and opened again. What the system
-- calls answer is an argument of each operation.
use oio_sds_cpp.Prelude.{
  ℕ, Bool, true, false, if◌then◌else◌, [], ◌∷◌, ◌++◌, ◌&&◌, Option, some, none, Bytes, ◌≡◌, refl,
  ap, ◌∙◌, sym, Bool-cases, Option-cases, inl, inr,
}
use oio_sds_cpp.Prelude.Decimal.{decimal}
use oio_sds_cpp.Api.{SysError}
use oio_sds_cpp.Net.Address.{Inet, Host, unset, ipv4, ipv6, Addr, reset, parse, host_url}
use oio_sds_cpp.Net.Address.Urls.{LawfulInet, PortIsValid, length_of, parse-host_url}

-- What socket(2), connect(2) and getsockname(2) answer, and errno before them: a descriptor or nothing,
-- whether the connection is made or in progress, and the local address.
pub record Answers (inet : Inet) : Type 0 where
  pub errno : SysError
  pub descriptor : Option ℕ
  pub connecting : Bool
  pub named : Option (Addr inet)

abbrev pub is_some {ℓ} : {A : Type ℓ} → Option A → Bool
is_some none = false
is_some (some a) = true

module _ (inet : Inet) where
  -- `fd` is `none` where it is -1.
  pub record Socket : Type 0 where
    pub fd : Option ℕ
    pub peer : Addr inet
    pub local : Addr inet

  -- Socket::Socket
  abbrev pub new_socket : Socket
  new_socket = record { fd = none; peer = reset inet; local = reset inet }

  -- Socket::close, and Socket::reset
  abbrev pub close : Socket → Socket
  close s = record s { fd = none }

  -- getsockname(2), once connect(2) did not fail.
  abbrev get_name : Socket → Option (Addr inet) → Socket × Bool
  get_name s none = (s, false)
  get_name s (some a) = (record s { local = a }, true)

  -- Socket::init, whose assertion fails where there is no descriptor, and the calls that follow it.
  abbrev connect_fd : Socket → Answers inet → Option ℕ → Option (Socket × Bool)
  connect_fd s k none = none
  connect_fd s k (some fd) = some (
      if k.connecting
      then get_name (record s { fd = some fd }) k.named
      else (record s { fd = some fd }, false))

  abbrev connect_peer : Socket → Answers inet → Addr inet × Bool → Option (Socket × Bool)
  connect_peer s k (peer, true) = connect_fd (record s { peer = peer }) k k.descriptor
  connect_peer s k (peer, false) = some (record s { peer = peer }, false)

  connect_url : Option ℕ → Socket → Answers inet → Bytes → Option (Socket × Bool)
  unfolding parse
  connect_url (some fd) s k url = none
  connect_url none s k [] = none
  connect_url none s k (c ∷ url) = connect_peer s k (parse inet k.errno s.peer (c ∷ url))

  -- Socket::connect; `none` where an assertion fails: on a socket that is open, for an empty text, or
  -- without a descriptor.
  unfoldable pub connect : Socket → Answers inet → Bytes → Option (Socket × Bool)
  unfolding connect_url
  connect s k url = connect_url s.fd s k url

  -- Socket::Reconnect
  unfoldable pub reconnect : Socket → Answers inet → Option (Socket × Bool)
  unfolding connect
  reconnect s k = connect (close s) k (host_url inet s.peer.host)

  connect_fd-fd :
      (s : Socket) (k : Answers inet) (fd : ℕ)
      → (s' : Socket) × (good : Bool) × (connect_fd s k (some fd) ≡ some (s', good))
        × (s'.fd ≡ some fd)
        × (s'.peer.host ≡ s.peer.host)
        × (good ≡ (k.connecting && is_some k.named))
  connect_fd-fd s k fd = elim (Bool-cases k.connecting) [
    | inr f ↦ rw f (record s { fd = some fd }, false, refl, refl, refl, refl)
    | inl t ↦ elim (Option-cases k.named) [
      | inl n ↦ rw (t, n) (record s { fd = some fd }, false, refl, refl, refl, refl)
      | inr (a, n) ↦ rw (t, n) (record s { fd = some fd; local = a }, true, refl, refl, refl, refl)
    ]
  ]

  -- The text of a known address is not empty.
  host_url_starts :
      (law : LawfulInet inet) (e : SysError) (h : Host inet)
      → PortIsValid inet law e h
      → (c : ℕ) × (url : Bytes) × (host_url inet h ≡ c ∷ url)
  host_url_starts law e unset v = absurd v
  host_url_starts law e (ipv4 ip port) v =
      let (c, s, t, no_bracket) = law.starts4 ip in (c, _, ap (λ l. l ++ b':' ∷ decimal port) t)
  host_url_starts law e (ipv6 ip port) v = (b'[', _, refl)

  -- A socket that has a peer and is connected again, where the kernel gives a descriptor, has that
  -- descriptor and the same peer as before, and succeeds exactly when the connection is made or in
  -- progress and the local address is known.
  pub reconnect-peer :
      (law : LawfulInet inet) (s : Socket) (k : Answers inet) (fd : ℕ)
      → PortIsValid inet law k.errno s.peer.host
      → k.descriptor ≡ some fd
      → (s' : Socket) × (good : Bool) × (reconnect s k ≡ some (s', good))
        × (s'.fd ≡ some fd)
        × (s'.peer.host ≡ s.peer.host)
        × (good ≡ (k.connecting && is_some k.named))
  unfolding reconnect connect connect_url
  reconnect-peer law s k fd v d =
      let (c, url, t) = host_url_starts law k.errno s.peer.host v in
      let back = parse-host_url inet law k.errno s.peer s.peer.host v in
      let p : Addr inet = record { host = s.peer.host; len = length_of inet law s.peer.host } in
      let e : reconnect s k ≡ connect_fd (record s { fd = none; peer = p }) k (some fd) =
        ap (connect_url none (close s) k) t
        ∙ ap (λ l. connect_peer (close s) k (parse inet k.errno s.peer l)) (sym t)
        ∙ ap (connect_peer (close s) k) back
        ∙ ap (connect_fd (record s { fd = none; peer = p }) k) d in
      let (s', good, r, fd_kept, peer_kept, g) =
        connect_fd-fd (record s { fd = none; peer = p }) k fd in
      (s', good, e ∙ r, fd_kept, peer_kept, g)
