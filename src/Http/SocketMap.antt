-- ===== src/Http/SocketMap.antt =====
-- SocketElement and SocketMap of src/oio/blob/http/socket_map.h: a connection is kept for each host, and
-- made again when it is not used for a while.
use oio_sds_cpp.Prelude.{
  ℕ, ◌+◌, ltb, ◌≡◌, Bool, false, if◌then◌else◌, Option, some, none, Bytes, bytes_eq, arith,
}
use oio_sds_cpp.Prelude.Map.{Map, find, insert, find-insert}

-- net::MillSocket as it is used here: a new one that is connected to a host, and an old one again.
pub record Sockets : Type 1 where
  pub Socket : Type 0
  pub connect : Bytes → Socket × Bool
  pub reconnect : Socket → Socket × Bool

abbrev max_delay : ℕ
max_delay = 5000

module _ (net : Sockets) where
  -- `socket` is `none` where the pointer is null, in an element that was never asked for.
  pub record SocketElement : Type 0 where
    pub socket : Option net.Socket
    pub is_open : Bool
    pub timer : ℕ

  abbrev new_element : SocketElement
  new_element = record { socket = none; is_open = false; timer = 0 }

  abbrev with_socket : SocketElement → net.Socket × Bool → SocketElement
  with_socket e (s, good) = record e { socket = some s; is_open = good }

  -- An open element whose time is over.
  abbrev renewed : SocketElement → Option net.Socket → SocketElement
  renewed e none = e
  renewed e (some s) = with_socket e (net.reconnect s)

  abbrev refreshed : SocketElement → Bytes → ℕ → SocketElement
  refreshed e host now =
      if e.is_open
      then (if ltb e.timer now then renewed e e.socket else e)
      else with_socket e (net.connect host)

  -- SocketElement::GetSocket, which reads the clock twice; the socket that it points to, or `none` for NULL.
  unfoldable pub get_element : SocketElement → Bytes → ℕ → ℕ → SocketElement × Option net.Socket
  get_element e host now later =
      let e' = refreshed e host now in
      (record e' { timer = later + max_delay }, if e'.is_open then e'.socket else none)

  abbrev element_at : Option SocketElement → SocketElement
  element_at none = new_element
  element_at (some e) = e

  abbrev put :
      Map SocketElement
      → Bytes
      → SocketElement × Option net.Socket
      → Map SocketElement × Option net.Socket
  put m host (e, s) = (insert m host e, s)

  -- SocketMap::GetSocket
  unfoldable pub get_socket :
      Map SocketElement → Bytes → ℕ → ℕ → Map SocketElement × Option net.Socket
  unfolding get_element
  get_socket m host now later = put m host (get_element (element_at (find m host)) host now later)

  -- A connection for one host leaves those of the others as they are.
  pub get_socket_other :
      (m : Map SocketElement) (host other : Bytes) (now later : ℕ)
      → bytes_eq host other ≡ false
      → find (get_socket m host now later).0 other ≡ find m other
  unfolding get_socket
  get_socket_other m host other now later h = grind (arith, find-insert, h)
