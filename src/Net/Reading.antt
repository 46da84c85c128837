-- ===== src/Net/Reading.antt =====
-- Socket::read_exactly of src/utils/net.cpp.
use oio_sds_cpp.Prelude.{
  ℕ, zero, suc, ◌-◌, ◌≤◌, ◌<◌, ◌==◌, Bool, if◌then◌else◌, List, [], ◌∷◌, ◌++◌, Bytes, length, ◌≡◌,
}
use oio_sds_cpp.Api.{SysError, econnreset, eagain, etimedout}
use oio_sds_cpp.Net.{Poll, Outcome, done, blocked, failed, again, stop, verdict}

-- What one call of read(2) does: it stores bytes, it finds the stream closed, or it fails, with
-- whether the deadline is over by then, and with what PollIn answers.
pub data ReadEvent : Type 0 where
  got : Bytes → ReadEvent
  closed : ReadEvent
  fails : SysError → Bool → Poll → ReadEvent

-- The outcome, the bytes stored in the buffer, and the calls that were not made.
pub record Read : Type 0 where
  pub outcome : Outcome
  pub received : Bytes
  pub left : List ReadEvent

abbrev pub timeout_error : ℕ → ℕ → SysError
timeout_error len0 len = if len == len0 then eagain else etimedout

-- The loop, at `len` bytes to go.
unfoldable pub read_loop : ℕ → ℕ → Bytes → List ReadEvent → Read
unfolding verdict
read_loop len0 zero buf es = record { outcome = done; received = buf; left = es }
read_loop len0 (suc n) buf [] = record { outcome = blocked; received = buf; left = [] }
read_loop len0 (suc n) buf (got b ∷ es) = read_loop len0 (suc n - length b) (buf ++ b) es
read_loop len0 (suc n) buf (closed ∷ es) = record {
  outcome = failed econnreset;
  received = buf;
  left = es;
}
read_loop len0 (suc n) buf (fails e late poll ∷ es) =
    let rest = read_loop len0 (suc n) buf es in
    elim (verdict (timeout_error len0 (suc n)) e late poll) [
      | again ↦ rest
      | stop err ↦ record { outcome = failed err; received = buf; left = es }
    ]

-- Socket::read_exactly
unfoldable pub read_exactly : ℕ → List ReadEvent → Read
unfolding read_loop
read_exactly len es = read_loop len len [] es

-- read(2) stores at least one byte and at most what it is asked for.
abbrev pub ReadConforms : ℕ → List ReadEvent → Type 0
ReadConforms zero es = Unit
ReadConforms (suc n) [] = Unit
ReadConforms (suc n) (got b ∷ es) =
    (0 < length b) × (length b ≤ suc n) × ReadConforms (suc n - length b) es
ReadConforms (suc n) (closed ∷ es) = ReadConforms (suc n) es
ReadConforms (suc n) (fails e late poll ∷ es) = ReadConforms (suc n) es

-- All that the peer's stream delivers.
abbrev pub stream : List ReadEvent → Bytes
stream [] = []
stream (got b ∷ es) = b ++ stream es
stream (closed ∷ es) = stream es
stream (fails e late poll ∷ es) = stream es

-- No call ends the stream, fails for good or waits past the deadline.
abbrev pub ReadsOn : List ReadEvent → Type 0
ReadsOn [] = Unit
ReadsOn (got b ∷ es) = ReadsOn es
ReadsOn (closed ∷ es) = ⊥
ReadsOn (fails e late poll ∷ es) = ((t : SysError) → verdict t e late poll ≡ again) × ReadsOn es
