-- ===== src/Rawx/Wrapper.antt =====
-- RawxUpload and RawxRemoval of src/oio/blob/rawx/blob.cpp: the steps of a transaction around an inner one.
use oio_sds_cpp.Prelude.{if◌then◌else◌, Option, some, none}
use oio_sds_cpp.Api.{Step, init, prepared, done, Status, status, internal_error, is_ok}
use oio_sds_cpp.Api.Transaction.{Transaction}

module _ (t : Transaction) where
  -- RawxUpload and RawxRemoval have the same fields.
  pub record RawxTransaction : Type 0 where
    pub inner : t.State
    pub step : Step

  -- What the inner transaction answers to Prepare, with the step that it leads to.
  abbrev prepared_by :
      RawxTransaction → Option (t.State × Status) → Option (RawxTransaction × Status)
  prepared_by w none = none
  prepared_by w (some (s, rc)) =
      some
        ((if is_ok rc then record { inner = s; step = prepared } else record w { inner = s }), rc)

  abbrev ended_by : Option (t.State × Status) → Option (RawxTransaction × Status)
  ended_by none = none
  ended_by (some (s, rc)) = some (record { inner = s; step = done }, rc)

  prepare_at : Step → RawxTransaction → Option (RawxTransaction × Status)
  prepare_at init w = prepared_by w (t.prepare w.inner)
  prepare_at _ w = some (w, status internal_error)

  -- RawxUpload::Prepare and RawxRemoval::Prepare
  unfoldable pub prepare : RawxTransaction → Option (RawxTransaction × Status)
  unfolding prepare_at
  prepare w = prepare_at w.step w

  commit_at : Step → RawxTransaction → Option (RawxTransaction × Status)
  commit_at prepared w = ended_by (t.commit w.inner)
  commit_at _ w = some (w, status internal_error)

  -- RawxUpload::Commit and RawxRemoval::Commit
  unfoldable pub commit : RawxTransaction → Option (RawxTransaction × Status)
  unfolding commit_at
  commit w = commit_at w.step w

  abort_at : Step → RawxTransaction → Option (RawxTransaction × Status)
  abort_at prepared w = ended_by (t.abort w.inner)
  abort_at _ w = some (w, status internal_error)

  -- RawxUpload::Abort and RawxRemoval::Abort
  unfoldable pub abort : RawxTransaction → Option (RawxTransaction × Status)
  unfolding abort_at
  abort w = abort_at w.step w

  -- RawxUpload::Write and RawxUpload::SetXattr, which pass on to the inner upload.
  abbrev pub pass_on : RawxTransaction → t.Other → RawxTransaction
  pass_on w o = record w { inner = t.other w.inner o }

  abbrev pub rawx_transaction : Transaction
  rawx_transaction = record {
    State = RawxTransaction;
    Other = t.Other;
    step = λ w. w.step;
    prepare = prepare;
    commit = commit;
    abort = abort;
    other = pass_on;
  }
