-- ===== src/Rawx/Ends.antt =====
-- How the transactions of src/oio/blob/rawx/blob.cpp end, whatever they are wrapped around.
use oio_sds_cpp.Prelude.{◌≤◌, List, arith}
use oio_sds_cpp.Api.{init}
use oio_sds_cpp.Api.Transaction.{Transaction, Request, EndsOnce, ends, ends-le}
use oio_sds_cpp.Rawx.Wrapper.{rawx_transaction, prepare, commit, abort}

module _ (t : Transaction) where
  rawx-EndsOnce : EndsOnce (rawx_transaction t)
  unfolding prepare commit abort
  rawx-EndsOnce = record {
    prepare_left = λ w. ground arith;
    commit_left = λ w. ground arith;
    abort_left = λ w. ground arith;
    other_left = λ w o. omega arith;
  }

  -- However its calls are ordered, a new rawx transaction is committed or aborted with success at most
  -- once, even around an inner transaction that would accept more.
  pub rawx_ends_once :
      (calls : List (Request t.Other)) (inner : t.State)
      → ends (rawx_transaction t) calls (record { inner = inner; step = init }) ≤ 1
  rawx_ends_once calls inner =
      ends-le (rawx_transaction t) rawx-EndsOnce calls (record { inner = inner; step = init })
