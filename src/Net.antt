-- ===== src/Net.antt =====
-- src/utils/net.cpp: the loops by which a `Socket` reads and writes exactly what it is asked to. The
-- kernel and the poller are not part of the sources: each loop takes the list of what the successive
-- system calls answer. A list that ends before the loop does leaves the caller blocked.
pub mod Reading
pub mod Address
pub mod Socket
pub mod Receiving
pub mod Sending
pub mod Exactly
pub mod Gather
use oio_sds_cpp.Prelude.{Bool, true, false, if◌then◌else◌, Bytes, ◌≡◌, refl, ◌⊎◌, inl, inr}
use oio_sds_cpp.Api.{SysError, eintr, eagain, etimedout}

-- The bits MILLSOCKET_EVENT and MILLSOCKET_ERROR of what a poll returns.
pub record Poll : Type 0 where
  pub event : Bool
  pub error : Bool

pub data Outcome : Type 0 where
  done blocked aborted : Outcome
  failed : SysError → Outcome

-- What a loop does about a system call that returned -1: another round, or a return.
pub data Verdict : Type 0 where
  again : Verdict
  stop : SysError → Verdict

-- The branch on `errno` that the loops share; `expired` is the error for a deadline that is over.
unfoldable pub verdict : SysError → SysError → Bool → Poll → Verdict
verdict expired eintr late poll = again
verdict expired eagain late poll =
    if late
    then stop expired
    else if poll.error
    then again
    else if poll.event
    then again
    else stop expired
verdict expired e late poll = stop e

pub Verdict-cases : (v : Verdict) → (v ≡ again) ⊎ ((e : SysError) × (v ≡ stop e))
Verdict-cases again = inl refl
Verdict-cases (stop e) = inr (e, refl)
