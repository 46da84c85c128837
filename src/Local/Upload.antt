-- ===== src/Local/Upload.antt =====
-- LocalUpload of src/oio/blob/local/blob.cpp: a blob is written to a pending file, which its commit renames.
pub mod Pending
pub mod Written
pub mod Sequence
pub mod Published
use oio_sds_cpp.Prelude.{
  ℕ, zero, suc, ltb, ◌==◌, Bool, true, false, if◌then◌else◌, [], ◌∷◌, ◌++◌, List, Option, some,
  none, Bytes, bytes, length, drop,
}
use oio_sds_cpp.Prelude.Map.{Map, insert}
use oio_sds_cpp.Api.{
  Step, init, prepared, done, Status, status, success, internal_error, forbidden, already, errno,
  is_ok, SysError, enoent, eexist, eperm, eacces, eintr, eagain, no_error,
}
use oio_sds_cpp.Local.FileSystem.{FileSystem, Answer, gives, fails, is_enoent, is_eintr, is_eagain}

pub record LocalUpload : Type 0 where
  pub path_final : Bytes
  pub path_temp : Bytes
  pub attributes : Map Bytes
  pub fd : Option ℕ  -- `none` is -1
  pub fmode : ℕ
  pub dmode : ℕ
  pub step : Step

-- UploadBuilder::Build
abbrev pub build : Bytes → ℕ → ℕ → LocalUpload
build path fmode dmode = record {
  path_final = path;
  path_temp = path ++ bytes ".pending";
  attributes = [];
  fd = none;
  fmode = fmode;
  dmode = dmode;
  step = init;
}

-- LocalUpload::SetXattr
abbrev pub set_xattr : LocalUpload → Bytes → Bytes → LocalUpload
set_xattr u k v = record u { attributes = insert u.attributes k v }

abbrev reverse_onto : Bytes → Bytes → Bytes
reverse_onto [] ys = ys
reverse_onto (x ∷ xs) ys = reverse_onto xs (x ∷ ys)

module _ (fs : FileSystem) (strerror : SysError → Bytes) where
  -- LocalUpload::resetFD
  abbrev pub reset_fd : LocalUpload → fs.State → LocalUpload × fs.State × Bool
  reset_fd u s = elim u.fd [
    | none ↦ (u, s, false)
    | some fd ↦ (record u { fd = none }, fs.close s fd, true)
  ]

  -- LocalUpload::unlinkTempAndReset
  abbrev pub unlink_temp_and_reset :
      LocalUpload → fs.State → Status → LocalUpload × fs.State × Status
  unlink_temp_and_reset u s rc =
      let (s', e) = fs.unlink s u.path_temp in
      let (u', s'', closed) = reset_fd u s' in (u', s'', rc)

  -- What createParent does after mkdir: 0 is `none`.
  abbrev after_mkdir :
      fs.State × Option SysError
      → (fs.State → fs.State × Option SysError)
      → fs.State × Option SysError
  after_mkdir (s, none) again = (s, none)
  after_mkdir (s, some e) again = if is_enoent e then again s else (s, some e)

  abbrev make_parent :
      ℕ → Bytes → fs.State → (fs.State → fs.State × Option SysError) → fs.State × Option SysError
  make_parent dmode [] s again = (s, none)
  make_parent dmode (c ∷ path) s again =
      after_mkdir (fs.mkdir s (reverse_onto (c ∷ path) []) dmode) again

  abbrev at_char :
      Bool
      → ℕ
      → Bytes
      → fs.State
      → (fs.State → fs.State × Option SysError)
      → fs.State × Option SysError
  at_char true dmode path s again = make_parent dmode path s again
  at_char false dmode path s again = again s

  -- LocalUpload::createParent, of the path backwards.
  unfoldable pub create_parent : ℕ → Bytes → fs.State → fs.State × Option SysError
  create_parent dmode [] s = (s, none)
  create_parent dmode (c ∷ path) s =
      at_char (c == b'/') dmode path s (λ s'. create_parent dmode path s')

  abbrev pub Answered : Type 0
  Answered = LocalUpload × fs.State × Status

  -- Once the pending file is open: the final one is looked for.
  abbrev check_final : LocalUpload → fs.State → Option SysError → Answered
  check_final u s none = unlink_temp_and_reset u s (status already)
  check_final u s (some e) =
      if is_enoent e then (u, s, success) else unlink_temp_and_reset u s (errno strerror e)

  abbrev open_error : SysError → Status
  open_error enoent = status forbidden
  open_error eexist = status already
  open_error eperm = status forbidden
  open_error eacces = status forbidden
  open_error _ = status internal_error

  -- The last attempt to open the pending file.
  abbrev opened_again : LocalUpload → fs.State × Answer ℕ → Answered
  opened_again u (s, gives fd) = check_final (record u { fd = some fd }) s (fs.stat s u.path_final)
  opened_again u (s, fails e) = (u, s, open_error e)

  abbrev retried : LocalUpload → fs.State × Option SysError → Answered
  retried u (s, some e) = (u, s, status forbidden)
  retried u (s, none) = opened_again u (fs.open_new s u.path_temp u.fmode)

  -- The first attempt, after which missing directories are made.
  opened : LocalUpload → fs.State × Answer ℕ → Answered
  unfolding create_parent errno
  opened u (s, gives fd) = check_final (record u { fd = some fd }) s (fs.stat s u.path_final)
  opened u (s, fails e) =
      if is_enoent e
      then retried u (create_parent u.dmode (reverse_onto u.path_temp []) s)
      else (u, s, open_error e)

  open_temp : Option ℕ → LocalUpload → fs.State → Answered
  unfolding opened
  open_temp (some fd) u s = (u, s, status internal_error)
  open_temp none u s = opened u (fs.open_new s u.path_temp u.fmode)

  abbrev prepared_if_ok : Answered → Answered
  prepared_if_ok (u, s, rc) = ((if is_ok rc then record u { step = prepared } else u), s, rc)

  prepare_at : Step → LocalUpload → fs.State → Answered
  unfolding open_temp
  prepare_at init u s = prepared_if_ok (open_temp u.fd u s)
  prepare_at _ u s = (u, s, status internal_error)

  -- LocalUpload::Prepare
  unfoldable pub prepare : LocalUpload → fs.State → Answered
  unfolding prepare_at
  prepare u s = prepare_at u.step u s

  -- The loop over the attributes; its errors are only logged.
  unfoldable pub set_attributes : ℕ → Map Bytes → fs.State → fs.State
  set_attributes fd [] s = s
  set_attributes fd ((k, v) ∷ attributes) s =
      set_attributes fd attributes (fs.fsetxattr s fd (bytes "user.grid." ++ k) v).0

  abbrev renamed : LocalUpload → fs.State × Option SysError → Answered
  renamed u (s, none) = (u, s, success)
  renamed u (s, some e) = unlink_temp_and_reset u s (errno strerror e)

  commit_fd : Option ℕ → LocalUpload → fs.State → Answered
  unfolding set_attributes errno
  commit_fd none u s = (u, s, status internal_error)
  commit_fd (some fd) u s =
      renamed (record u { fd = none })
        (fs.rename (fs.close (set_attributes fd u.attributes s) fd) u.path_temp u.path_final)

  commit_at : Step → LocalUpload → fs.State → Answered
  unfolding commit_fd
  commit_at prepared u s = commit_fd u.fd (record u { step = done }) s
  commit_at _ u s = (u, s, status internal_error)

  -- LocalUpload::Commit
  unfoldable pub commit : LocalUpload → fs.State → Answered
  unfolding commit_at
  commit u s = commit_at u.step u s

  abbrev abort_fd : Option ℕ → LocalUpload → fs.State → Answered
  abort_fd none u s = (u, s, success)
  abort_fd (some fd) u s = unlink_temp_and_reset (record u { fd = none }) (fs.close s fd) success

  abort_at : Step → LocalUpload → fs.State → Answered
  abort_at prepared u s = abort_fd u.fd (record u { step = done }) s
  abort_at _ u s = (u, s, status internal_error)

  -- LocalUpload::Abort
  unfoldable pub abort : LocalUpload → fs.State → Answered
  unfolding abort_at
  abort u s = abort_at u.step u s

  abbrev poll_again : fs.State × Bool → (fs.State → Option fs.State) → Option fs.State
  poll_again (s, true) again = again s
  poll_again (s, false) again = some s

  -- What a round of the loop of Write does with the answer of write(2).
  abbrev wrote :
      ℕ → Bytes → fs.State × Answer ℕ → (fs.State → Bytes → Option fs.State) → Option fs.State
  wrote fd buf (s, gives n) again =
      let rest = again s (drop n buf) in if ltb n (length buf) then rest else some s
  wrote fd buf (s, fails e) again =
      if is_eintr e
      then again s buf
      else if is_eagain e
      then poll_again (fs.poll s fd) (λ s'. again s' buf)
      else some s

  unfoldable pub write_loop : ℕ → ℕ → fs.State → Bytes → Option fs.State
  write_loop zero fd s buf = none
  write_loop (suc fuel) fd s buf =
      wrote fd buf (fs.write s fd buf) (λ s' buf'. write_loop fuel fd s' buf')

  write_fd : Step → Option ℕ → ℕ → fs.State → Bytes → Option fs.State
  unfolding write_loop
  write_fd prepared (some fd) fuel s buf = write_loop fuel fd s buf
  write_fd _ _ fuel s buf = none

  -- LocalUpload::Write; `none` where an assertion fails, and where the fuel ends.
  unfoldable pub write : ℕ → LocalUpload → fs.State → Bytes → Option fs.State
  unfolding write_fd
  write fuel u s buf = write_fd u.step u.fd fuel s buf
