-- ===== src/Http/Outcomes.antt =====
-- How the transactions of src/oio/blob/http/blob.cpp end.
use oio_sds_cpp.Prelude.{
  ℕ, ◌≤◌, ◌≡◌, ◌==◌, true, false, if◌then◌else◌, List, [], ◌∷◌, some, Bytes, arith,
}
use oio_sds_cpp.Api.{init, prepared, status, success, is_ok, SysError, errno, not_found}
use oio_sds_cpp.Api.Transaction.{
  Transaction, Request, EndsOnce, ends, ends-le, ends_left, left_after,
}
use oio_sds_cpp.Http.Request.{Code, ok}
use oio_sds_cpp.Http.Exchange.{Exchange}
use oio_sds_cpp.Http.Upload.{HttpUpload, failure_status, drain}
use oio_sds_cpp.Http.Upload
use oio_sds_cpp.Http.Removal.{HttpRemoval}
use oio_sds_cpp.Http.Removal
use oio_sds_cpp.Http.Download.{HttpDownload}
use oio_sds_cpp.Http.Download

-- The other calls on an upload.
pub data UploadCall : Type 0 where
  writes : Bytes → UploadCall
  sets_xattr : Bytes → Bytes → UploadCall

module _ (x : Exchange) where
  abbrev upload_call : HttpUpload x → UploadCall → HttpUpload x
  upload_call u (writes buf) = Upload.write x u buf
  upload_call u (sets_xattr k v) = Upload.set_xattr x u k v

  abbrev pub upload_transaction : ℕ → Transaction
  upload_transaction fuel = record {
    State = HttpUpload x;
    Other = UploadCall;
    step = λ u. u.step;
    prepare = λ u. some (Upload.prepare x u);
    commit = λ u. Upload.commit x fuel u;
    abort = λ u. some (Upload.abort x u);
    other = upload_call;
  }

  failure_status-is_ok : (c : Code) → is_ok (failure_status c) ≡ false
  unfolding failure_status
  failure_status-is_ok c = ground arith

  upload_commit_left :
      (fuel : ℕ) (u : HttpUpload x)
      → left_after (λ (u : HttpUpload x). u.step) (Upload.commit x fuel u) ≤ ends_left u.step
  unfolding Upload.commit failure_status
  upload_commit_left fuel u = ground arith

  other_left :
      (u : HttpUpload x) (o : UploadCall) → ends_left (upload_call u o).step ≤ ends_left u.step
  unfolding Upload.write Upload.set_xattr
  other_left u (writes []) = omega arith
  other_left u (writes (b ∷ buf)) = omega arith
  other_left u (sets_xattr k v) = ground arith

  upload-EndsOnce : (fuel : ℕ) → EndsOnce (upload_transaction fuel)
  unfolding Upload.prepare Upload.abort
  upload-EndsOnce fuel = record {
    prepare_left = λ u. ground arith;
    commit_left = λ u. upload_commit_left fuel u;
    abort_left = λ u. ground arith;
    other_left = λ u o. other_left u o;
  }

  -- However its calls are ordered, and whatever the server answers, a new upload is committed or aborted
  -- with success at most once.
  pub upload_ends_once :
      (fuel : ℕ) (calls : List (Request UploadCall)) (io : x.State)
      → ends (upload_transaction fuel) calls (record { io = io; step = init }) ≤ 1
  upload_ends_once fuel calls io =
      ends-le (upload_transaction fuel) (upload-EndsOnce fuel) calls
        (record { io = io; step = init })

module _ (x : Exchange) (strerror : SysError → Bytes) where
  abbrev pub removal_transaction : Transaction
  removal_transaction = record {
    State = HttpRemoval x strerror;
    Other = ⊥;
    step = λ r. r.step;
    prepare = λ r. some (Removal.prepare x strerror r);
    commit = λ r. some (Removal.commit x strerror r);
    abort = λ r. some (Removal.abort x strerror r);
    other = λ r o. r;
  }

  removal-EndsOnce : EndsOnce removal_transaction
  unfolding Removal.prepare Removal.commit Removal.abort Removal.prepare_connected
      Removal.commit_connected Removal.on_continue Removal.on_final failure_status errno
  removal-EndsOnce = record {
    prepare_left = λ r. ground arith;
    commit_left = λ r. ground arith;
    abort_left = λ r. ground arith;
    other_left = λ r o. omega arith;
  }

  -- However its calls are ordered, and whatever the server answers, a new removal is committed or aborted
  -- with success at most once.
  pub removal_ends_once :
      (calls : List (Request ⊥)) (io : x.State)
      → ends removal_transaction calls (record { io = io; step = init }) ≤ 1
  removal_ends_once calls io =
      ends-le removal_transaction removal-EndsOnce calls (record { io = io; step = init })

  -- Once its request went through and headers were read, a download is prepared with success
  -- whatever the status of the reply is, 500 included, and only 404 is refused.
  pub download_accepts :
      (d : HttpDownload x strerror) (a b c : x.State)
      → d.step ≡ init
      → x.connected d.io ≡ true
      → x.write_headers d.io ≡ (a, ok)
      → x.finish_request a ≡ (b, ok)
      → x.read_headers b ≡ (c, ok)
      → Download.prepare x strerror d ≡ (
          if x.status_code c == 404
          then (record { io = x.skip (x.close c); step = init }, status not_found)
          else (record { io = c; step = prepared }, success))
  unfolding Download.prepare Download.prepare_connected
  download_accepts d a b c s k w f h = grind arith
