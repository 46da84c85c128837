-- ===== src/Kinetic/History.antt =====
-- The histories of a client of src/oio/blob/kinetic/coro/CoroutineClient.cpp.
use oio_sds_cpp.Prelude.{ℕ, ◌+◌, none, List, [], ◌∷◌, some, some}
use oio_sds_cpp.Kinetic.Client.{Client, Event, step}
use oio_sds_cpp.Kinetic.Writing.{doubled}
use oio_sds_cpp.Kinetic.Signals.{called}

abbrev pub called_in : ℕ → List Event → ℕ
called_in id [] = 0
called_in id (e ∷ es) = called id e + called_in id es

-- How often the exchanges named `id` are signalled again along a history.
abbrev pub doubled_in : ℕ → Client → List Event → ℕ
doubled_in id c [] = 0
doubled_in id c (e ∷ es) =
    doubled id c e + elim (step c e) [ none ↦ 0 | some d ↦ doubled_in id d es ]
