-- ===== src/Api/Protocol.antt =====
-- The order of calls that src/oio/api/blob.hpp asks of a transaction: `Prepare`, then one `Commit` or
-- `Abort`. A step relation that the concrete transactions are shown to follow.
use oio_sds_cpp.Prelude.{ℕ, ◌≤◌, arith}
use oio_sds_cpp.Api.{Step, init, prepared, done}

pub data Advance : Step → Step → Type 0 where
  stay : {s : Step} → Advance s s
  prepare : Advance init prepared
  finish : Advance prepared done

pub data Advances (s : Step) : Step → Type 0 where
  here : Advances s s
  next : {t u : Step} → Advances s t → Advance t u → Advances s u

abbrev pub rank : Step → ℕ
rank init = 0
rank prepared = 1
rank done = 2

pub Advance-rank : {s t : Step} → Advance s t → rank s ≤ rank t
Advance-rank stay = omega arith
Advance-rank prepare = omega arith
Advance-rank finish = omega arith

pub Advances-rank : {s t : Step} → Advances s t → rank s ≤ rank t
Advances-rank here = omega arith
Advances-rank (next a b) = omega (arith, Advances-rank a, Advance-rank b)
