-- ===== src/Kinetic/RoundTrip.antt =====
-- From a KineticUpload to a KineticDownload of src/oio/blob/kinetic/coro/blob.cpp, over drives that keep
-- what was put and list it in any order.
use oio_sds_cpp.Prelude.{
  ℕ, suc, ◌+◌, ◌≤◌, ◌<◌, ◌≡◌, refl, sym, ◌∙◌, ap, List, [], ◌∷◌, ◌++◌, map, some, length, Bytes,
  All, arith, append-nil, length-append, subst, i32_limit, concat,
}
use oio_sds_cpp.Prelude.Map.{Map}
use mathlib.Core.List.{Permᴰ}
use mathlib.Core.Option.{some-injective}
use oio_sds_cpp.Api.{success, prepared}
use oio_sds_cpp.Kinetic.Upload.{
  Put, KineticUpload, key_of, block_suffix, manifest_suffix, write, flush, commit, trigger_upload,
}
use oio_sds_cpp.Kinetic.Upload as Upload
use oio_sds_cpp.Kinetic.Blocks.{IsReady, Written, content, values, write-Written}
use oio_sds_cpp.Kinetic.Targets.{write-commit_targets}
use oio_sds_cpp.Kinetic.Sorting.{
  sort, Ascending, All-Perm, sort-Perm, sort-Ascending, Ascending-Distinct,
}
use oio_sds_cpp.Kinetic.Download.{PendingGet, KineticDownload, build, prepare, read_all}
use oio_sds_cpp.Kinetic.Window.{read_all-queued}
use oio_sds_cpp.Kinetic.Numbered.{Numbered, IsNumbered, write-IsNumbered}
use oio_sds_cpp.Kinetic.Stores.{commit-Stores}
use oio_sds_cpp.Kinetic.Gathered.{
  gets_of, gets_from, listed, drive_of, Readable, gets_of-Perm, add_keys-gets_of, gets_of-listed,
  Ascending-gets_from,
}

prepare_gathered :
    (items : List (Bytes × Bytes)) (gets : List PendingGet)
    → All Readable items
    → Permᴰ gets (gets_of items)
    → Ascending PendingGet.sequence gets
    → prepare build success items ≡ some (record { running = []; waiting = gets }, success)
unfolding prepare
prepare_gathered items gets h d a =
    let (chunks, e, d') = add_keys-gets_of [] items h in
    let whole : Permᴰ gets chunks =
      Permᴰ.trans d (subst (λ l. Permᴰ l chunks) (append-nil (gets_of items)) d') in
    let sorted : sort PendingGet.sequence chunks ≡ gets =
      sym (sort-Perm PendingGet.sequence whole (Ascending-Distinct PendingGet.sequence gets a))
      ∙ sort-Ascending PendingGet.sequence gets a in
    rw (e, sorted) refl

-- A listing of the blocks of a name and of its manifest, in any order, is gathered in the order of the
-- sequence numbers.
pub prepare-listed :
    (name : Bytes) (blocks : List Put) (m : Put) (items : List (Bytes × Bytes))
    → Numbered name 0 blocks
    → All (λ p. length p.value < i32_limit) blocks
    → length blocks ≤ i32_limit
    → m.key ≡ key_of name manifest_suffix
    → Permᴰ (map listed (blocks ++ m ∷ [])) items
    → prepare build success items
      ≡ some (record { running = []; waiting = gets_from 0 blocks }, success)
prepare-listed name blocks m items n s b e d =
    let (gets, readable) = gets_of-listed name 0 blocks m n s (omega arith) e in
    prepare_gathered items (gets_from 0 blocks) (All-Perm Readable d readable)
      (subst (λ l. Permᴰ l (gets_of items)) gets (gets_of-Perm d)) (Ascending-gets_from 0 blocks)

-- A drive gives back what was put under a key.
abbrev pub Stored : (Bytes → Bytes → Bytes) → Put → Type 0
Stored stored p = stored (drive_of p.client) p.key ≡ p.value

abbrev pub fetch_from : (Bytes → Bytes → Bytes) → PendingGet → Bytes
fetch_from stored g = stored g.client g.key

fetched-values :
    (stored : Bytes → Bytes → Bytes) (i : ℕ) (ps : List Put)
    → All (Stored stored) ps
    → concat (map (fetch_from stored) (gets_from i ps)) ≡ values ps
fetched-values stored i [] h = refl
fetched-values stored i (p ∷ ps) h = rw (h.0, fetched-values stored (i + 1) ps h.1) refl

length-gets_from : (i : ℕ) (ps : List Put) → length (gets_from i ps) ≡ length ps
length-gets_from i [] = refl
length-gets_from i (p ∷ ps) = ap suc (length-gets_from (i + 1) ps)

All-below :
    (a b : ℕ) (ps : List Put)
    → a < b
    → All (λ p. length p.value ≤ a) ps
    → All (λ p. length p.value < b) ps
All-below a b [] h l = tt
All-below a b (p ∷ ps) h l = (omega (arith, l.0), All-below a b ps h l.1)

All-first : (P : Put → Type 0) (xs ys : List Put) → All P (xs ++ ys) → All P xs
All-first P [] ys h = tt
All-first P (x ∷ xs) ys h = (h.0, All-first P xs ys h.1)

-- Take a committed upload with numbered blocks of fewer than 2 ^ 31 bytes, fewer than 2 ^ 31 of them,
-- and attributes that take less than one block. However the drives list its keys, a download whose
-- drives give back what was put is prepared with success, and reading it to its end gives all that was
-- written to the upload.
pub commit-download :
    (json : Map Bytes → Bytes) (fuel : ℕ) (u v : KineticUpload) (items : List (Bytes × Bytes))
    (stored : Bytes → Bytes → Bytes)
    → IsReady u
    → IsNumbered u
    → u.step ≡ prepared
    → length (json u.xattr) ≤ fuel
    → length (json u.xattr) < u.buffer_limit
    → length u.ops + u.buffer_limit + 2 < i32_limit
    → commit json fuel u ≡ some (v, success)
    → Permᴰ (map listed v.ops) items
    → All (Stored stored) v.ops
    → (d : KineticDownload) × (prepare build success items ≡ some (d, success))
      × (read_all (length v.ops) (fetch_from stored) d ≡ some (content u))
commit-download json fuel u v items stored r n p h k b c d given =
    let s = commit-Stores json fuel u v r n p h k (omega arith) c in
    let listed_as = subst (λ l. Permᴰ (map listed l) items) s.split d in
    let kept =
      All-first (Stored stored) s.blocks (s.last ∷ [])
        (subst (All (Stored stored)) s.split given) in
    let count = s.count in
    (
      _,
      prepare-listed u.chunkid s.blocks s.last items s.numbered
          (All-below u.buffer_limit i32_limit s.blocks (omega arith) s.sizes) (omega arith) s.mark
          listed_as,
      read_all-queued (length v.ops) (fetch_from stored) _ (gets_from 0 s.blocks) refl (omega arith)
            (omega (
              arith,
              length-gets_from 0 s.blocks,
              ap length s.split,
              length-append s.blocks (s.last ∷ []),
            ))
          ∙ ap some (fetched-values stored 0 s.blocks kept ∙ s.payload),
    )

-- A new upload that was prepared, with attributes.
abbrev pub ready_upload : List Bytes → ℕ → Bytes → Map Bytes → KineticUpload
ready_upload targets size name attributes = record (Upload.build targets size name) {
  xattr = attributes;
  step = prepared;
}

-- A buffer written to a prepared upload in blocks of a size above 0, with attributes that take less
-- than one block, and committed, is what a download of the keys gives back, however the drives list
-- them, if each drive gives back what was put under a key. The sizes stay below 2 ^ 31, where std::stoi
-- still reads them.
pub write-download :
    (targets : List Bytes) (size : ℕ) (name : Bytes) (attributes : Map Bytes) (buf : Bytes)
    (json : Map Bytes → Bytes) (w v : KineticUpload) (items : List (Bytes × Bytes))
    (stored : Bytes → Bytes → Bytes)
    → 0 < size
    → length (json attributes) < size
    → length buf + size + 2 < i32_limit
    → write (length buf) (ready_upload targets size name attributes) buf ≡ some w
    → commit json size w ≡ some (v, success)
    → Permᴰ (map listed v.ops) items
    → All (Stored stored) v.ops
    → (d : KineticDownload) × (prepare build success items ≡ some (d, success))
      × (read_all (length v.ops) (fetch_from stored) d ≡ some buf)
write-download targets size name attributes buf json w v items stored z k b e c d given =
    let u = ready_upload targets size name attributes in
    let ready : IsReady u = record {
      positive = z;
      below = z;
      started = refl;
      targets = write-commit_targets json (length buf) size u w v buf refl e c;
    } in
    let (w', e', x) = write-Written (length buf) u buf ready (omega arith) in
    let same : w' ≡ w = some-injective _ _ (sym e' ∙ e) in
    let x : Written u buf w = subst (Written u buf) same x in
    let (numbered, count) =
      write-IsNumbered (length buf) u w buf ready (record { next = refl; keys = tt; sizes = tt })
        (omega arith) e in
    let limit = x.same.limit in
    let attrs : length (json w.xattr) ≡ length (json attributes) =
      ap (λ m. length (json m)) x.same.xattr in
    let whole : content w ≡ buf = ap (λ l. values l ++ w.buffer) x.appended ∙ x.kept in
    subst
      (λ l.
        (d : KineticDownload) × (prepare build success items ≡ some (d, success))
        × (read_all (length v.ops) (fetch_from stored) d ≡ some l))
      whole
      (commit-download json size w v items stored x.ready numbered x.same.step (omega arith)
        (omega arith) (omega arith) c d given)
