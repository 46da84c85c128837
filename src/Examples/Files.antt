-- ===== src/Examples/Files.antt =====
-- Runs of src/oio/blob/local/blob.cpp on a small file system.
use oio_sds_cpp.Prelude.{
  ℕ, min, ◌≡◌, ◌≢◌, refl, sym, ◌∙◌, ap, true, if◌then◌else◌, List, [], ◌∷◌, ◌++◌, Option, some,
  none, Bytes, bytes, concat, length, take, drop, bytes_eq, bytes_lt, arith, pos, to_int32,
  Option-cases, inl, inr,
}
use oio_sds_cpp.Prelude.Map.{Map, find, insert, erase, find-insert, find-erase}
use oio_sds_cpp.Api.{prepared, SysError, enoent, eexist, eintr, eacces, other, is_ok, no_error}
use oio_sds_cpp.Local.FileSystem.{FileSystem, Lawful, Answer, gives, fails}
use oio_sds_cpp.Local.Upload.{LocalUpload, build, prepare, write, commit}
use oio_sds_cpp.Local.Upload.Sequence.{Parts, write_all}
use oio_sds_cpp.Local.Upload.Published.{writes_pending, commit_publishes}
use oio_sds_cpp.Local.Download.{LocalDownload, zeros, read, batch_size}
use oio_sds_cpp.Local.Download as Download
use oio_sds_cpp.Local.Download.Reading.{Readable, fetch, fetch_all}
use oio_sds_cpp.Local.Download.Loading.{read_failed}

-- The files, the path of the one that is written, and what is left of the one that is read.
abbrev Disk : Type 0
Disk = Map Bytes × Option Bytes × Bytes

abbrev created : Disk → Bytes → Option Bytes → Disk × Answer ℕ
created (m, t, r) p none = ((insert m p [], some p, r), gives 3)
created (m, t, r) p (some c) = ((m, t, r), fails eexist)

-- Two bytes at most are written at once.
abbrev grown : Disk → Bytes → Bytes → Option Bytes → Disk × Answer ℕ
grown (m, t, r) p b none = ((m, t, r), fails (other 9))
grown (m, t, r) p b (some c) =
    ((insert m p (c ++ take (min 2 (length b)) b), t, r), gives (min 2 (length b)))

abbrev grown_at : Disk → Bytes → Option Bytes → Disk × Answer ℕ
grown_at s b none = (s, fails (other 9))
grown_at s b (some p) = grown s p b (find s.0 p)

abbrev present : Option Bytes → Option SysError
present none = some enoent
present (some c) = none

abbrev moved : Disk → Bytes → Bytes → Option Bytes → Disk × Option SysError
moved (m, t, r) from to none = ((m, t, r), some enoent)
moved (m, t, r) from to (some c) = ((insert (erase m from) to c, t, r), none)

abbrev disk : FileSystem
disk = record {
  State = Disk;
  open_read = λ s p. (s, fails eacces);
  open_new = λ s p mode. created s p (find s.0 p);
  close = λ s fd. s;
  lseek = λ s fd n. (s, gives n);
  fstat = λ s fd. gives (length s.2);
  read = λ s fd n. ((s.0, s.1, drop (min 2 n) s.2), gives (take (min 2 n) s.2));
  write = λ s fd b. grown_at s b s.1;
  poll = λ s fd. (s, true);
  stat = λ s p. present (find s.0 p);
  rename = λ s from to. moved s from to (find s.0 from);
  unlink = λ s p. ((erase s.0 p, s.1, s.2), none);
  mkdir = λ s p mode. (s, some eexist);
  fsetxattr = λ s fd k v. (s, none);
}

disk_opened :
    (s s' : Disk) (p : Bytes) (o : Option Bytes) (fd : ℕ)
    → created s p o ≡ (s', gives fd)
    → find s.0 p ≡ o
    → (find s.0 p ≡ none)
      × (s'.1 ≡ some p)
      × ((q : Bytes) → find s'.0 q ≡ (if bytes_eq p q then some [] else find s.0 q))
disk_opened s s' p none fd e h = (
  h,
  ap (λ (a : Disk × Answer ℕ). (a.0).1) (sym e),
  λ q. ap (λ (a : Disk × Answer ℕ). find (a.0).0 q) (sym e) ∙ find-insert s.0 p q [],
)
disk_opened s s' p (some c) fd e h = let k = ap (λ (a : Disk × Answer ℕ). a.1) e in cc

disk_not_opened :
    (s s' : Disk) (p : Bytes) (o : Option Bytes) (x : SysError)
    → created s p o ≡ (s', fails x)
    → (q : Bytes) → find s'.0 q ≡ find s.0 q
disk_not_opened s s' p none x e q = let k = ap (λ (a : Disk × Answer ℕ). a.1) e in cc
disk_not_opened s s' p (some c) x e q = ap (λ (a : Disk × Answer ℕ). find (a.0).0 q) (sym e)

gives_same : (m n : ℕ) → Answer.gives m ≡ gives n → m ≡ n
gives_same m n e = cc

disk_written :
    (s s' : Disk) (p b content : Bytes) (n : ℕ)
    → s.1 ≡ some p
    → find s.0 p ≡ some content
    → grown s p b (some content) ≡ (s', gives n)
    → (s'.1 ≡ some p)
      × ((q : Bytes)
          → find s'.0 q ≡ (if bytes_eq p q then some (content ++ take n b) else find s.0 q))
disk_written s s' p b content n t c e =
    let k = gives_same (min 2 (length b)) n (ap (λ (a : Disk × Answer ℕ). a.1) e) in
    (
      ap (λ (a : Disk × Answer ℕ). (a.0).1) (sym e) ∙ t,
      λ q.
          ap (λ (a : Disk × Answer ℕ). find (a.0).0 q) (sym e)
          ∙ find-insert s.0 p q (content ++ take (min 2 (length b)) b)
          ∙ ap (λ (m : ℕ). if bytes_eq p q then some (content ++ take m b) else find s.0 q) k,
    )

disk_not_written :
    (s s' : Disk) (b : Bytes) (t : Option Bytes) (x : SysError)
    → grown_at s b t ≡ (s', fails x)
    → (s'.1 ≡ s.1) × ((q : Bytes) → find s'.0 q ≡ find s.0 q)
disk_not_written s s' b none x e = (
  ap (λ (a : Disk × Answer ℕ). (a.0).1) (sym e),
  λ q. ap (λ (a : Disk × Answer ℕ). find (a.0).0 q) (sym e),
)
disk_not_written s s' b (some p) x e = elim (Option-cases (find s.0 p)) [
  | inl n ↦
      let k = rw n at e in
      (
        ap (λ (a : Disk × Answer ℕ). (a.0).1) (sym k),
        λ q. ap (λ (a : Disk × Answer ℕ). find (a.0).0 q) (sym k),
      )
  | inr (c, f) ↦ let k = ap (λ (a : Disk × Answer ℕ). a.1) (rw f at e) in cc
]

disk_renamed :
    (s s' : Disk) (from to content : Bytes)
    → moved s from to (some content) ≡ (s', none)
    → (q : Bytes)
    → find s'.0 q
      ≡ (if bytes_eq to q then some content else if bytes_eq from q then none else find s.0 q)
disk_renamed s s' from to content e q =
    ap (λ (a : Disk × Option SysError). find (a.0).0 q) (sym e)
    ∙ find-insert (erase s.0 from) to q content
    ∙ ap (λ x. if bytes_eq to q then some content else x) (find-erase s.0 from q)

disk_rename_errno :
    (s s' : Disk) (from to : Bytes) (o : Option Bytes) (x : SysError)
    → moved s from to o ≡ (s', some x)
    → x ≢ no_error
disk_rename_errno s s' from to none x e =
    let k = ap (λ (a : Disk × Option SysError). a.1) e in λ z. cc
disk_rename_errno s s' from to (some c) x e =
    let k = ap (λ (a : Disk × Option SysError). a.1) e in cc

present_absent : (o : Option Bytes) → present o ≡ some enoent → o ≡ none
present_absent none e = refl
present_absent (some c) e = cc

present_errno : (o : Option Bytes) (x : SysError) → present o ≡ some x → x ≢ no_error
present_errno none x e = λ z. cc
present_errno (some c) x e = cc

abbrev disk-Lawful : Lawful disk
disk-Lawful = record {
  file = λ s q. find s.0 q;
  target = λ s fd. s.1;
  opened = λ s s' p mode fd e. disk_opened s s' p (find s.0 p) fd e refl;
  not_opened = λ s s' p mode x e. disk_not_opened s s' p (find s.0 p) x e;
  written = λ s s' p b content fd n t c e.
      disk_written s s' p b content n t c
        (ap (grown s p b) (sym c) ∙ ap (grown_at s b) (sym t) ∙ e);
  not_written = λ s s' b fd x e. disk_not_written s s' b s.1 x e;
  polled = λ s fd. (refl, λ q. refl);
  renamed = λ s s' from to content c e.
      disk_renamed s s' from to content (ap (moved s from to) (sym c) ∙ e);
  unlinked = λ s s' p e q.
      ap (λ (a : Disk × Option SysError). find (a.0).0 q) (sym e) ∙ find-erase s.0 p q;
  not_found = λ s p e. present_absent (find s.0 p) e;
  stat_errno = λ s p x e. present_errno (find s.0 p) x e;
  rename_errno = λ s s' from to x e. disk_rename_errno s s' from to (find s.0 from) x e;
  closed = λ s fd q. refl;
  made = λ s p mode q. refl;
  marked = λ s fd k v q. refl;
}

abbrev no_message : SysError → Bytes
no_message e = []

abbrev blank : Disk
blank = ((bytes "x", bytes "old") ∷ [], none, [])

abbrev attributes : Map Bytes
attributes = (bytes "k", bytes "v") ∷ []

abbrev pieces : List Bytes
pieces = bytes "abc" ∷ bytes "d" ∷ []

abbrev upload : LocalUpload
upload = record (build (bytes "f") 420 493) { attributes = attributes }

abbrev filled : Disk
filled = (
  (bytes "f.pending", bytes "abcd") ∷ (bytes "x", bytes "old") ∷ [],
  some (bytes "f.pending"),
  [],
)

upload-prepare : is_ok (prepare disk no_message upload blank).2 ≡ true
unfolding prepare find insert bytes_eq bytes_lt
upload-prepare = refl

upload-write_all :
    write_all disk no_message 5
      (prepare disk no_message upload blank).0
      (prepare disk no_message upload blank).1
      pieces
    ≡ some filled
unfolding prepare find insert bytes_eq bytes_lt write_all write
upload-write_all = refl

upload-commit :
    is_ok (commit disk no_message (prepare disk no_message upload blank).0 filled).2 ≡ true
unfolding prepare find insert erase bytes_eq bytes_lt commit
upload-commit = refl

writes_pending_example :
    (parts : List Bytes) × Parts parts pieces
    × ((q : Bytes)
        → find filled.0 q
          ≡ (if bytes_eq (bytes "f.pending") q then some (concat parts) else find blank.0 q))
writes_pending_example =
    writes_pending disk no_message disk-Lawful (bytes "f") 420 493 5 attributes pieces blank filled
      upload-prepare upload-write_all

commit_publishes_example :
    (parts : List Bytes) × Parts parts pieces
    × (find blank.0 (bytes "f") ≡ none)
    × ((q : Bytes)
        → find (commit disk no_message (prepare disk no_message upload blank).0 filled).1.0 q
          ≡ (if bytes_eq (bytes "f") q then some (concat parts) else find blank.0 q))
commit_publishes_example =
    commit_publishes disk no_message disk-Lawful (bytes "f") 420 493 5 attributes pieces blank
      filled upload-prepare upload-write_all upload-commit

abbrev disk-Readable : Readable disk 3
disk-Readable = record {
  remaining = λ s. s.2;
  given = λ s n. min 2 n;
  goes_on = λ s n h e. omega arith;
  taken = λ s n h. refl;
  left = λ s n h. refl;
}

-- A range was set, and does not count.
abbrev ranged : LocalDownload
ranged = record (Download.build (bytes "x")) {
  offset = 1;
  size_expected = 2;
  fd = some 3;
  step = prepared;
}

abbrev reading : Disk
reading = ([], none, bytes "abcde")

fetch_all_example : fetch disk no_message 4 5 6 ranged reading ≡ some (bytes "abcde")
fetch_all_example =
    fetch_all disk no_message 4 5 3 disk-Readable 6 ranged reading refl refl refl (omega arith)
      (omega arith)

-- The same disk, whose reads are interrupted.
abbrev interrupted : FileSystem
interrupted = record disk { read = λ s fd n. (s, fails eintr) }

read_failed_example :
    (read interrupted no_message 4 5 ranged reading []
      ≡ some (record ranged { buffer = zeros 2 }, reading, [], pos 0))
    × (read interrupted no_message 4 5 (record ranged { buffer = zeros 2 }) reading []
        ≡ some (record ranged { buffer = [] }, reading, zeros 2, to_int32 2))
read_failed_example =
    read_failed interrupted no_message 4 5 ranged reading reading 3 eintr [] [] refl refl refl
      (omega arith) refl refl
