-- ===== src/Examples/Drives.antt =====
-- Runs of the client of src/oio/blob/kinetic/coro/CoroutineClient.cpp.
use oio_sds_cpp.Prelude.{◌≡◌, none, refl, arith, List, [], ◌∷◌, true, false}
use oio_sds_cpp.Api.{econnreset}
use oio_sds_cpp.Kinetic.Client.{
  Client, Pending, abort_stalled_rpc, Event, calls, connects, wakes, written, end_write, abort_rpc,
  find_sequence, receives, new_client, step, reply, error, rpc, wake, start_rpc, manage, pop_rpc,
}
use oio_sds_cpp.Kinetic.Stalled.{abort_stalled_rpc_fault}
use oio_sds_cpp.Kinetic.History.{doubled_in}

-- The reply to the first call comes while its request is being written, and its Write then fails.
abbrev two_calls : List Event
two_calls = calls 1 7 ∷ connects 8 ∷ wakes ∷ receives 3 1 ∷ written econnreset ∷ calls 2 9 ∷ []

abbrev one_waits : Client
one_waits = record {
  online = true;
  cnx_id = 3;
  next_sequence = 3;
  waiting = record { id = 2; sequence = 2; deadline = 10009 } ∷ [];
  pending = [];
  writing = none;
  to_agent = 1;
  signals = (1, reply) ∷ (1, error econnreset) ∷ [];
}

-- The first exchange is signalled twice for one call.
signalled_twice : doubled_in 1 (new_client 5) two_calls ≡ 1
unfolding step rpc wake start_rpc end_write manage pop_rpc abort_rpc find_sequence
signalled_twice = refl

abbrev all_over : Client
all_over = record one_waits {
  online = false;
  waiting = [];
  signals = (1, reply) ∷ (1, error econnreset) ∷ (2, error econnreset) ∷ [];
}

abbrev two_pending : Client
two_pending = record (new_client 5) {
  pending =
      record { id = 1; sequence = 1; deadline = 100 }
      ∷ record { id = 2; sequence = 2; deadline = 900 }
      ∷ [];
  next_sequence = 3;
}

abbrev late : Pending
late = record { id = 1; sequence = 1; deadline = 100 }

abort_stalled_rpc_fault_example : abort_stalled_rpc two_pending 200 ≡ none
abort_stalled_rpc_fault_example =
    abort_stalled_rpc_fault two_pending 200 0 late (omega arith, (omega arith, omega arith))
      (omega arith) refl (omega arith)
