-- ===== src/Local/FileSystem.antt =====
-- The system calls of src/oio/blob/local/blob.cpp, which are the kernel's: a parameter of the model.
use oio_sds_cpp.Prelude.{
  ℕ, ◌≡◌, ◌≢◌, Bool, true, false, if◌then◌else◌, [], ◌++◌, Option, some, none, Bytes, take,
  bytes_eq,
}
use oio_sds_cpp.Api.{SysError, enoent, eintr, eagain, no_error}

-- What a call gives, or its errno.
pub data Answer (A : Type 0) : Type 0 where
  gives : A → Answer A
  fails : SysError → Answer A

abbrev pub is_enoent : SysError → Bool
is_enoent enoent = true
is_enoent _ = false

abbrev pub is_eintr : SysError → Bool
is_eintr eintr = true
is_eintr _ = false

abbrev pub is_eagain : SysError → Bool
is_eagain eagain = true
is_eagain _ = false

pub record FileSystem : Type 1 where
  pub State : Type 0
  pub open_read : State → Bytes → State × Answer ℕ  -- O_RDONLY
  pub open_new : State → Bytes → ℕ → State × Answer ℕ  -- O_WRONLY | O_CREAT | O_EXCL
  pub close : State → ℕ → State
  pub lseek : State → ℕ → ℕ → State × Answer ℕ
  pub fstat : State → ℕ → Answer ℕ  -- the size
  pub read : State → ℕ → ℕ → State × Answer Bytes
  pub write : State → ℕ → Bytes → State × Answer ℕ
  pub poll : State → ℕ → State × Bool  -- fdwait: whether the file is ready
  pub stat : State → Bytes → Option SysError  -- `none` where the call is a success, here and below
  pub rename : State → Bytes → Bytes → State × Option SysError
  pub unlink : State → Bytes → State × Option SysError
  pub mkdir : State → Bytes → ℕ → State × Option SysError
  pub fsetxattr : State → ℕ → Bytes → Bytes → State × Option SysError

-- The regular files of a file system, by their paths, and what the calls of an upload do to them.
pub record Lawful (fs : FileSystem) : Type 0 where
  pub file : fs.State → Bytes → Option Bytes
  pub target : fs.State → ℕ → Option Bytes  -- the path that a descriptor was opened with
  pub opened :
      (s s' : fs.State) (p : Bytes) (mode fd : ℕ)
      → fs.open_new s p mode ≡ (s', gives fd)
      → (file s p ≡ none)
        × (target s' fd ≡ some p)
        × ((q : Bytes) → file s' q ≡ (if bytes_eq p q then some [] else file s q))
  pub not_opened :
      (s s' : fs.State) (p : Bytes) (mode : ℕ) (e : SysError)
      → fs.open_new s p mode ≡ (s', fails e)
      → (q : Bytes) → file s' q ≡ file s q
  pub written :
      (s s' : fs.State) (p b content : Bytes) (fd n : ℕ)
      → target s fd ≡ some p
      → file s p ≡ some content
      → fs.write s fd b ≡ (s', gives n)
      → (target s' fd ≡ some p)
        × ((q : Bytes)
            → file s' q ≡ (if bytes_eq p q then some (content ++ take n b) else file s q))
  pub not_written :
      (s s' : fs.State) (b : Bytes) (fd : ℕ) (e : SysError)
      → fs.write s fd b ≡ (s', fails e)
      → (target s' fd ≡ target s fd) × ((q : Bytes) → file s' q ≡ file s q)
  pub polled :
      (s : fs.State) (fd : ℕ)
      → (target (fs.poll s fd).0 fd ≡ target s fd)
        × ((q : Bytes) → file (fs.poll s fd).0 q ≡ file s q)
  pub renamed :
      (s s' : fs.State) (from to content : Bytes)
      → file s from ≡ some content
      → fs.rename s from to ≡ (s', none)
      → (q : Bytes)
      → file s' q
        ≡ (if bytes_eq to q then some content else if bytes_eq from q then none else file s q)
  pub unlinked :
      (s s' : fs.State) (p : Bytes)
      → fs.unlink s p ≡ (s', none)
      → (q : Bytes) → file s' q ≡ (if bytes_eq p q then none else file s q)
  pub not_found : (s : fs.State) (p : Bytes) → fs.stat s p ≡ some enoent → file s p ≡ none
  pub stat_errno : (s : fs.State) (p : Bytes) (e : SysError) → fs.stat s p ≡ some e → e ≢ no_error
  pub rename_errno :
      (s s' : fs.State) (from to : Bytes) (e : SysError)
      → fs.rename s from to ≡ (s', some e)
      → e ≢ no_error
  pub closed : (s : fs.State) (fd : ℕ) (q : Bytes) → file (fs.close s fd) q ≡ file s q
  pub made :
      (s : fs.State) (p : Bytes) (mode : ℕ) (q : Bytes) → file (fs.mkdir s p mode).0 q ≡ file s q
  pub marked : (s : fs.State) (fd : ℕ) (k v q : Bytes) → file (fs.fsetxattr s fd k v).0 q ≡ file s q
