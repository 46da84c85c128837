-- ===== src/Mem/RoundTrip.antt =====
-- An upload of src/oio/blob/mem/blob.cpp followed by a download, among other clients of the cache.
use oio_sds_cpp.Prelude.{
  ◌≡◌, ◌≢◌, ◌∙◌, List, [], ◌∷◌, ◌++◌, arith, Bytes, bytes_eq_iff, bytes_eq_refl, All, ap, ℤ,
  to_int32, length, append-nil, append_assoc,
}
use oio_sds_cpp.Prelude.Map.{Map}
use oio_sds_cpp.Api.{Status, success, prepared, done, status}
use oio_sds_cpp.Mem.{Cache}
use oio_sds_cpp.Mem
use oio_sds_cpp.Mem.Upload.{MemUpload}
use oio_sds_cpp.Mem.Upload
use oio_sds_cpp.Mem.Download
use oio_sds_cpp.Mem.Calls.{
  CacheCall, Slot, absent, uploading, stored, creates, commits, writes, target, slot_after, apply,
  view, view-apply, reply, reply-apply, get-view,
}

-- Between our `Prepare` and `Commit`: our writes, and calls of other clients.
pub data Turn : Type 0 where
  ours : Bytes → Turn
  theirs : CacheCall → Turn

abbrev pub Elsewhere : Bytes → Turn → Type 0
Elsewhere name (ours buf) = Unit
Elsewhere name (theirs call) = target call ≢ name

abbrev pub written : List Turn → Bytes
written [] = []
written (ours buf ∷ rest) = buf ++ written rest
written (theirs call ∷ rest) = written rest

unfoldable pub turns : MemUpload → Cache → List Turn → Cache
turns u c [] = c
turns u c (ours buf ∷ rest) = turns u (Upload.write u buf c) rest
turns u c (theirs call ∷ rest) = turns u (apply c call).0 rest

own_view :
    (c : Cache) (call : CacheCall) (s : Slot)
    → view c (target call) ≡ s
    → view (apply c call).0 (target call) ≡ slot_after call s
own_view c call s h = view-apply c call (target call) ∙ rw bytes_eq_refl (ap (slot_after call) h)

other_view :
    (c : Cache) (call : CacheCall) (j : Bytes)
    → target call ≢ j
    → view (apply c call).0 j ≡ view c j
other_view c call j h = ground (arith, view-apply c call j, bytes_eq_iff (target call) j)

write-view :
    (u : MemUpload) (c : Cache) (buf : Bytes) (a : Map Bytes) (x : Bytes)
    → view c u.name ≡ uploading a x
    → view (Upload.write u buf c) u.name ≡ uploading a (x ++ buf)
unfolding Upload.write apply
write-view u c buf a x h = own_view c (writes u.name buf) (uploading a x) h

view-turns :
    (u : MemUpload) (c : Cache) (ts : List Turn) (a : Map Bytes) (x : Bytes)
    → view c u.name ≡ uploading a x
    → All (Elsewhere u.name) ts
    → view (turns u c ts) u.name ≡ uploading a (x ++ written ts)
unfolding turns
view-turns u c [] a x h e = rw append-nil h
view-turns u c (ours buf ∷ rest) a x h e =
    rw (← append_assoc)
      (view-turns u (Upload.write u buf c) rest a (x ++ buf) (write-view u c buf a x h) e.1)
view-turns u c (theirs call ∷ rest) a x h e =
    view-turns u (apply c call).0 rest a x (other_view c call u.name e.0 ∙ h) e.1

prepare_free :
    (name : Bytes) (c : Cache)
    → view c name ≡ absent
    → Upload.prepare (Upload.build name) c
      ≡ (record { name = name; step = prepared }, (apply c (creates name)).0, success)
unfolding Upload.prepare apply
prepare_free name c h =
    let made : (Mem.create c name).1 ≡ success =
      unfold apply in
      (reply-apply c (creates name) ∙ ap (λ s. status (reply (creates name) s)) h) in
    ground (arith, made)

commit_own :
    (name : Bytes) (c : Cache) (a : Map Bytes) (x : Bytes)
    → view c name ≡ uploading a x
    → Upload.commit (record { name = name; step = prepared }) c
      ≡ (record { name = name; step = done }, (apply c (commits name)).0, success)
unfolding Upload.commit apply
commit_own name c a x h =
    let made : (Mem.commit c name).1 ≡ success =
      unfold apply in
      (reply-apply c (commits name) ∙ ap (λ s. status (reply (commits name) s)) h) in
    ground (arith, made)

download_stored :
    (name : Bytes) (c : Cache) (a : Map Bytes) (x : Bytes)
    → view c name ≡ stored a x
    → Download.prepare (Download.build name) c
      ≡ (record { name = name; value = x; step = prepared }, success)
unfolding Download.prepare
download_stored name c a x h = rw (get-view c [] name h)

-- An upload with the turns between its `Prepare` and its `Commit`, then a download: the three statuses
-- and what `Read` returns.
unfoldable pub exchange : Bytes → Cache → List Turn → Bytes → Status × Status × Status × Bytes × ℤ
exchange name c ts old =
    let (u, c', rc) = Upload.prepare (Upload.build name) c in
    let (u', c'', rc') = Upload.commit u (turns u c' ts) in
    let (d, rc'') = Download.prepare (Download.build name) c'' in
    let (d', buf, n) = Download.read d old in (rc, rc', rc'', buf, n)

-- What an upload wrote to a free name is what a download reads back, whatever other clients do to
-- other names in between.
pub upload-download :
    (name : Bytes) (c : Cache) (ts : List Turn) (old : Bytes)
    → view c name ≡ absent
    → All (Elsewhere name) ts
    → exchange name c ts old
      ≡ (success, success, success, written ts, to_int32 (length (written ts)))
unfolding exchange Download.read
upload-download name c ts old h e =
    let u : MemUpload = record { name = name; step = prepared } in
    let c' : Cache = (apply c (creates name)).0 in
    let filled : view (turns u c' ts) name ≡ uploading [] (written ts) =
      view-turns u c' ts [] [] (own_view c (creates name) absent h) e in
    let kept : view (apply (turns u c' ts) (commits name)).0 name ≡ stored [] (written ts) =
      own_view (turns u c' ts) (commits name) (uploading [] (written ts)) filled in
    rw (
      prepare_free name c h,
      commit_own name (turns u c' ts) [] (written ts) filled,
      download_stored name _ [] (written ts) kept,
    )
