-- ===== src/Net/Sending.antt =====
-- The two Socket::send of src/utils/net.cpp: of one buffer, and of an array of buffers by writev(2).
use oio_sds_cpp.Prelude.{
  ℕ, zero, suc, ◌-◌, ◌+◌, ◌≤◌, ltb, Bool, if◌then◌else◌, List, [], ◌∷◌, ◌++◌, Bytes, length, take,
  drop, concat, Option, some, none, ◌≡◌,
}
use oio_sds_cpp.Api.{SysError, etimedout}
use oio_sds_cpp.Net.{Poll, Outcome, done, blocked, aborted, failed, again, stop, verdict}

-- What one call of write(2) or writev(2) does: it takes that many bytes, or it fails.
pub data WriteEvent : Type 0 where
  wrote : ℕ → WriteEvent
  fails : SysError → Bool → Poll → WriteEvent

-- The outcome, the bytes handed to the kernel so far, and the calls that were not made.
pub record Sent : Type 0 where
  pub outcome : Outcome
  pub wire : Bytes
  pub left : List WriteEvent

-- The loop of send(buf, len).
unfoldable pub send_loop : Bytes → Bytes → List WriteEvent → Sent
unfolding verdict
send_loop [] wire es = record { outcome = done; wire = wire; left = es }
send_loop (x ∷ buf) wire [] = record { outcome = blocked; wire = wire; left = [] }
send_loop (x ∷ buf) wire (wrote n ∷ es) = send_loop (drop n (x ∷ buf)) (wire ++ take n (x ∷ buf)) es
send_loop (x ∷ buf) wire (fails e late poll ∷ es) =
    let rest = send_loop (x ∷ buf) wire es in
    elim (verdict etimedout e late poll) [
      | again ↦ rest
      | stop err ↦ record { outcome = failed err; wire = wire; left = es }
    ]

-- Socket::send(const uint8_t *, size_t, int64_t)
unfoldable pub send : Bytes → List WriteEvent → Sent
unfolding send_loop
send buf es = send_loop buf [] es

-- The inner loop of the other one: the array moves past `rc` bytes. It is `none` where the source's
-- `assert(count > 0)` fails.
unfoldable pub advance : ℕ → List Bytes → Option (List Bytes)
advance zero iov = some iov
advance (suc n) [] = none
advance (suc n) (x ∷ rest) =
    let later = advance (suc n - length x) rest in
    if ltb (length x) (suc n) then later else some (drop (suc n) x ∷ rest)

-- The outer loop, at `left` bytes to go: `total - sent` of the source.
unfoldable pub gather_loop : ℕ → List Bytes → Bytes → List WriteEvent → Sent
unfolding verdict
gather_loop zero iov wire es = record { outcome = done; wire = wire; left = es }
gather_loop (suc left) iov wire [] = record { outcome = blocked; wire = wire; left = [] }
gather_loop (suc left) iov wire (wrote n ∷ es) =
    let rest =
      λ (iov' : List Bytes). gather_loop (suc left - n) iov' (wire ++ take n (concat iov)) es in
    elim (advance n iov) [
      | some iov' ↦ rest iov'
      | none ↦ record { outcome = aborted; wire = wire ++ take n (concat iov); left = es }
    ]
gather_loop (suc left) iov wire (fails e late poll ∷ es) =
    let rest = gather_loop (suc left) iov wire es in
    elim (verdict etimedout e late poll) [
      | again ↦ rest
      | stop err ↦ record { outcome = failed err; wire = wire; left = es }
    ]

-- Socket::send(struct iovec *, unsigned int, int64_t)
unfoldable pub send_iov : List Bytes → List WriteEvent → Sent
unfolding gather_loop
send_iov iov es = gather_loop (length (concat iov)) iov [] es

-- A call takes at most the bytes it is offered.
abbrev pub WriteConforms : ℕ → List WriteEvent → Type 0
WriteConforms zero es = Unit
WriteConforms (suc left) [] = Unit
WriteConforms (suc left) (wrote n ∷ es) = (n ≤ suc left) × WriteConforms (suc left - n) es
WriteConforms (suc left) (fails e late poll ∷ es) = WriteConforms (suc left) es

-- How many bytes the kernel is ready to take.
abbrev pub room : List WriteEvent → ℕ
room [] = 0
room (wrote n ∷ es) = n + room es
room (fails e late poll ∷ es) = room es

-- No call fails for good or waits past the deadline.
abbrev pub WritesOn : List WriteEvent → Type 0
WritesOn [] = Unit
WritesOn (wrote n ∷ es) = WritesOn es
WritesOn (fails e late poll ∷ es) = (verdict etimedout e late poll ≡ again) × WritesOn es
