-- ===== src/Kinetic/Client.antt =====
-- src/oio/blob/kinetic/coro/CoroutineClient.cpp and PendingExchange.cpp: the RPC that a client has
-- queued, has sent, and has signalled. Coroutines switch only between the calls below: the write of a
-- request, which yields in Socket::send, starts in one event and ends in another. Sequence numbers are 64
-- bits wide and are not followed to their end.
use oio_sds_cpp.Prelude.{
  ℕ, zero, suc, ◌+◌, ltb, ◌==◌, ◌&&◌, Bool, true, false, if◌then◌else◌, List, [], ◌∷◌, ◌++◌, map,
  Option, some, none, length, get_elem?,
}
use oio_sds_cpp.Api.{SysError, no_error, econnreset, etimedout}

-- PendingExchange; `id` tells the exchanges apart, as their addresses do.
pub record Pending : Type 0 where
  pub id : ℕ
  pub sequence : ℕ
  pub deadline : ℕ

-- What the waiter finds once it is signalled.
pub data Answer : Type 0 where
  reply : Answer
  error : SysError → Answer

pub record Client : Type 0 where
  pub online : Bool  -- the consumer and the producer are running
  pub cnx_id : ℕ
  pub next_sequence : ℕ
  pub waiting : List Pending
  pub pending : List Pending
  pub writing : Option Pending  -- the exchange whose Write has not returned
  pub to_agent : ℕ  -- SIGNAL_AGENT_DATA sent and not received
  pub signals : List (ℕ × Answer)  -- each Signal(), with what was set before it

-- OIO_KINETIC_RPC_DEFAULT_TTL
abbrev pub rpc_default_ttl : ℕ
rpc_default_ttl = 10000

unfoldable pub find_sequence : ℕ → List Pending → Option Pending
find_sequence s [] = none
find_sequence s (p ∷ ps) = if s == p.sequence then some p else find_sequence s ps

unfoldable pub erase_sequence : ℕ → List Pending → List Pending
erase_sequence s [] = []
erase_sequence s (p ∷ ps) = if s == p.sequence then ps else p ∷ erase_sequence s ps

-- CoroutineClient::pop_rpc
unfoldable pub pop_rpc : Client → ℕ → Client × Option Pending
unfolding find_sequence erase_sequence
pop_rpc c s = elim (find_sequence s c.pending) [
  | none ↦ (c, none)
  | some p ↦ (record c { pending = erase_sequence s c.pending }, some p)
]

-- ManageReply or ManageError, then Signal
abbrev pub signal : Client → Pending → Answer → Client
signal c p a = record c { signals = c.signals ++ (p.id, a) ∷ [] }

abbrev pub connected_as : Client → ℕ → Client
connected_as c zero = c
connected_as c (suc id) = record c { cnx_id = suc id }

-- CoroutineClient::manage; `id` is the connection id of the message, 0 for none.
unfoldable pub manage : Client → ℕ → ℕ → Client
manage c id ack =
    let (c', found) = pop_rpc (connected_as c id) ack in
    elim found [ none ↦ c' | some p ↦ signal c' p reply ]

-- CoroutineClient::abort_rpc
unfoldable pub abort_rpc : Client → Pending → SysError → Client
abort_rpc c p err = (pop_rpc (signal c p (error err)) p.sequence).0

abbrev pub is_no_error : SysError → Bool
is_no_error no_error = true
is_no_error _ = false

-- CoroutineClient::start_rpc, up to where Write yields: the request is among the pending ones.
unfoldable pub start_rpc : Client → Pending → Client
start_rpc c p =
    let p' = record p { sequence = c.next_sequence } in
    record c {
      pending = c.pending ++ p' ∷ [];
      next_sequence = c.next_sequence + 1;
      writing = some p';
    }

-- The rest of start_rpc; `errcode` is what writing the request returned.
unfoldable pub end_write : Client → SysError → Client
end_write c errcode = elim c.writing [
  | none ↦ c
  | some p ↦
      let c' = record c { writing = none } in
      if is_no_error errcode then c' else abort_rpc c' p errcode
]

-- The producer, when it receives SIGNAL_AGENT_DATA.
unfoldable pub wake : Client → Client
wake c = elim c.waiting [ [] ↦ c | p ∷ rest ↦ start_rpc (record c { waiting = rest }) p ]

-- CoroutineClient::abort_all_rpc
unfoldable pub abort_all_rpc : Client → Client
abort_all_rpc c = record c {
  waiting = [];
  pending = [];
  signals = c.signals ++ map (λ p. (p.id, error econnreset)) (c.pending ++ c.waiting);
}

-- CoroutineClient::abort_stalled_rpc: a range-for over a vector from which its body erases. The end is
-- taken before the first round; `none` is a read past the elements that are left.
unfoldable pub stalled_loop : ℕ → ℕ → Client → ℕ → Option Client
stalled_loop zero i c now = some c
stalled_loop (suc rounds) i c now = elim (get_elem? c.pending i) [
  | none ↦ none
  | some p ↦
      stalled_loop rounds (suc i) (if ltb p.deadline now then abort_rpc c p etimedout else c) now
]

unfoldable pub abort_stalled_rpc : Client → ℕ → Option Client
unfolding stalled_loop
abort_stalled_rpc c now = stalled_loop (length c.pending) 0 c now

-- CoroutineClient::RPC at time `now`
unfoldable pub rpc : Client → ℕ → ℕ → Client
rpc c id now = record c {
  waiting =
      c.waiting
      ++ record { id = id; sequence = c.next_sequence; deadline = now + rpc_default_ttl } ∷ [];
  next_sequence = c.next_sequence + 1;
  to_agent = c.to_agent + 1;
}

-- Context::Reset
abbrev pub reset : Client → ℕ → Client
reset c now = record c { cnx_id = now; next_sequence = 1 }

-- CoroutineClient::CoroutineClient, at time `now`
abbrev pub new_client : ℕ → Client
new_client now = record {
  online = false;
  cnx_id = now;
  next_sequence = 1;
  waiting = [];
  pending = [];
  writing = none;
  to_agent = 0;
  signals = [];
}

-- What can happen to a client: a call of RPC, and the rounds of its agents.
pub data Event : Type 0 where
  calls : ℕ → ℕ → Event
  connects : ℕ → Event
  wakes : Event
  written : SysError → Event
  receives : ℕ → ℕ → Event
  checks : ℕ → Event
  disconnects : Event

unfoldable pub received_wake : ℕ → Client → Client
received_wake zero c = c
received_wake (suc n) c = wake (record c { to_agent = n })

abbrev pub is_none : Option Pending → Bool
is_none none = true
is_none (some p) = false

-- Whether the producer is at the head of its loop: it runs, and is not in a Write.
abbrev pub is_free : Client → Bool
is_free c = c.online && is_none c.writing

-- One event. The agents act only between the start and the end of a round of run_agents, which
-- resets the context first and aborts all RPC last, once both agents have ended.
unfoldable pub step : Client → Event → Option Client
unfolding received_wake
step c (calls id now) = some (rpc c id now)
step c (connects now) = some (if c.online then c else record (reset c now) { online = true })
step c wakes = some (if is_free c then received_wake c.to_agent c else c)
step c (written e) = some (if c.online then end_write c e else c)
step c (receives id ack) = some (if c.online then manage c id ack else c)
step c (checks now) = if is_free c then abort_stalled_rpc c now else some c
step c disconnects = some (if is_free c then record (abort_all_rpc c) { online = false } else c)

unfoldable pub run : Client → List Event → Option Client
run c [] = some c
run c (e ∷ es) = elim (step c e) [ none ↦ none | some c' ↦ run c' es ]
