-- ===== src/Local/Upload/Published.antt =====
-- Uploads of src/oio/blob/local/blob.cpp from their preparation to their commit.
use oio_sds_cpp.Prelude.{
  ℕ, ◌≡◌, refl, sym, ◌∙◌, ap, true, if◌then◌else◌, [], ◌∷◌, ◌++◌, List, Option, some, none, Bytes,
  bytes, concat, bytes_eq, bytes_eq_iff, bytes_eq_refl, Bool-cases, inl, inr,
}
use oio_sds_cpp.Prelude.Map.{Map}
use oio_sds_cpp.Api.{prepared, done, is_ok, SysError, errno-ok_iff}
use oio_sds_cpp.Local.FileSystem.{FileSystem, Lawful}
use oio_sds_cpp.Local.Upload.{
  LocalUpload, build, prepare, set_attributes, commit, commit_at, commit_fd, renamed,
}
use oio_sds_cpp.Local.Upload.Pending.{prepare-Opened, SameFiles}
use oio_sds_cpp.Local.Upload.Written.{Held}
use oio_sds_cpp.Local.Upload.Sequence.{Parts, write_all, write_all-AllAppended}

module _ (fs : FileSystem) (strerror : SysError → Bytes) (law : Lawful fs) where
  set_attributes-SameFiles :
      (fd : ℕ) (attributes : Map Bytes) (s : fs.State)
      → SameFiles fs strerror law s (set_attributes fs strerror fd attributes s)
  unfolding set_attributes
  set_attributes-SameFiles fd [] s = λ q. refl
  set_attributes-SameFiles fd ((k, v) ∷ attributes) s = λ q.
      set_attributes-SameFiles fd attributes (fs.fsetxattr s fd (bytes "user.grid." ++ k) v).0 q
      ∙ law.marked s fd (bytes "user.grid." ++ k) v q

  renamed-ok :
      (u : LocalUpload) (s : fs.State) (a : fs.State × Option SysError) (content : Bytes)
      → fs.rename s u.path_temp u.path_final ≡ a
      → law.file s u.path_temp ≡ some content
      → is_ok (renamed fs strerror u a).2 ≡ true
      → (q : Bytes)
      → law.file (renamed fs strerror u a).1 q ≡ (
          if bytes_eq u.path_final q
          then some content
          else if bytes_eq u.path_temp q
          then none
          else law.file s q)
  renamed-ok u s (s', none) content r c ok q =
      law.renamed s s' u.path_temp u.path_final content c r q
  renamed-ok u s (s', some e) content r c ok q =
      absurd (law.rename_errno s s' u.path_temp u.path_final e r ((errno-ok_iff strerror e).0 ok))

  commit-ok :
      (fd : ℕ) (u : LocalUpload) (s : fs.State) (content : Bytes)
      → u.step ≡ prepared
      → u.fd ≡ some fd
      → law.file s u.path_temp ≡ some content
      → is_ok (commit fs strerror u s).2 ≡ true
      → (q : Bytes)
      → law.file (commit fs strerror u s).1 q ≡ (
          if bytes_eq u.path_final q
          then some content
          else if bytes_eq u.path_temp q
          then none
          else law.file s q)
  unfolding commit commit_at commit_fd
  commit-ok fd u s content st d c ok q =
      let s₁ = fs.close (set_attributes fs strerror fd u.attributes s) fd in
      let same : SameFiles fs strerror law s s₁ = λ q.
        law.closed (set_attributes fs strerror fd u.attributes s) fd q
        ∙ set_attributes-SameFiles fd u.attributes s q in
      rw (st, d)
        (renamed-ok (record u { fd = none; step = done }) s₁ (fs.rename s₁ u.path_temp u.path_final)
            content refl (same u.path_temp ∙ c) (rw (st, d) at ok) q
          ∙ ap
              (λ x.
                if bytes_eq u.path_final q
                then some content
                else if bytes_eq u.path_temp q
                then none
                else x)
              (same q))

  -- Until it is committed, a new upload that was prepared with success has changed no file but the
  -- pending one, which holds a first part of each buffer that was written, in order.
  pub writes_pending :
      (path : Bytes) (fmode dmode fuel : ℕ) (attributes : Map Bytes) (bufs : List Bytes)
      (s s' : fs.State)
      → is_ok
          (prepare fs strerror (record (build path fmode dmode) { attributes = attributes }) s).2
        ≡ true
      → write_all fs strerror fuel
          (prepare fs strerror (record (build path fmode dmode) { attributes = attributes }) s).0
          (prepare fs strerror (record (build path fmode dmode) { attributes = attributes }) s).1
          bufs
        ≡ some s'
      → (parts : List Bytes) × Parts parts bufs
        × ((q : Bytes)
            → law.file s' q ≡ (
                if bytes_eq (path ++ bytes ".pending") q
                then some (concat parts)
                else law.file s q))
  writes_pending path fmode dmode fuel attributes bufs s s' ok w =
      let u = record (build path fmode dmode) { attributes = attributes } in
      let o = prepare-Opened fs strerror law u s ok in
      let p = path ++ bytes ".pending" in
      let r = prepare fs strerror u s in
      let same = bytes_eq_refl p in
      let held : Held fs strerror law o.descriptor p [] r.1 = record {
        held = o.held;
        file = o.files p ∙ rw same refl;
      } in
      let all =
        write_all-AllAppended fs strerror law fuel o.descriptor r.0 p [] bufs r.1 s'
          (ap LocalUpload.step o.upload) (ap LocalUpload.fd o.upload) held w in
      (
        all.parts,
        all.cuts,
        λ q. all.grown.files q ∙ elim (Bool-cases (bytes_eq p q)) [
          | inl t ↦ rw t refl
          | inr f ↦ let e = o.files q in rw f (e ∙ rw f refl)
        ],
      )

  -- What a commit leaves, in terms of the files before the upload.
  published :
      (path p content : Bytes) (s s' s'' : fs.State)
      → law.file s p ≡ none
      → ((q : Bytes) → law.file s' q ≡ (if bytes_eq p q then some content else law.file s q))
      → ((q : Bytes)
          → law.file s'' q ≡ (
              if bytes_eq path q
              then some content
              else if bytes_eq p q
              then none
              else law.file s' q))
      → (q : Bytes) → law.file s'' q ≡ (if bytes_eq path q then some content else law.file s q)
  published path p content s s' s'' absent before after q =
      after q ∙ elim (Bool-cases (bytes_eq path q)) [
        | inl t ↦ rw t refl
        | inr f ↦ elim (Bool-cases (bytes_eq p q)) [
          | inl t ↦ rw (f, t) (sym absent ∙ ap (law.file s) ((bytes_eq_iff p q).0 t))
          | inr f' ↦ let e = before q in rw (f, f') (e ∙ rw f' refl)
        ]
      ]

  -- An upload whose preparation and commit are successes has created one file, which was absent and
  -- holds a first part of each buffer that was written, in order; every other file is as it was.
  pub commit_publishes :
      (path : Bytes) (fmode dmode fuel : ℕ) (attributes : Map Bytes) (bufs : List Bytes)
      (s s' : fs.State)
      → is_ok
          (prepare fs strerror (record (build path fmode dmode) { attributes = attributes }) s).2
        ≡ true
      → write_all fs strerror fuel
          (prepare fs strerror (record (build path fmode dmode) { attributes = attributes }) s).0
          (prepare fs strerror (record (build path fmode dmode) { attributes = attributes }) s).1
          bufs
        ≡ some s'
      → is_ok
          (commit fs strerror
            (prepare fs strerror (record (build path fmode dmode) { attributes = attributes }) s).0
            s').2
        ≡ true
      → (parts : List Bytes) × Parts parts bufs
        × (law.file s path ≡ none)
        × ((q : Bytes)
            → law.file
                (commit fs strerror
                  (prepare fs strerror
                    (record (build path fmode dmode) { attributes = attributes })
                    s).0
                  s').1
                q
              ≡ (if bytes_eq path q then some (concat parts) else law.file s q))
  commit_publishes path fmode dmode fuel attributes bufs s s' ok w ok' =
      let u = record (build path fmode dmode) { attributes = attributes } in
      let o = prepare-Opened fs strerror law u s ok in
      let p = path ++ bytes ".pending" in
      let v = (prepare fs strerror u s).0 in
      let (parts, cuts, files) = writes_pending path fmode dmode fuel attributes bufs s s' ok w in
      let same = bytes_eq_refl p in
      let temp : law.file s' v.path_temp ≡ some (concat parts) =
        ap (λ (x : LocalUpload). law.file s' x.path_temp) o.upload ∙ files p ∙ rw same refl in
      let after =
        commit-ok o.descriptor v s' (concat parts) (ap LocalUpload.step o.upload)
          (ap LocalUpload.fd o.upload) temp ok' in
      let absent : law.file s path ≡ none = elim (Bool-cases (bytes_eq p path)) [
        | inl t ↦ let e = rw t at (sym o.no_final ∙ o.files path) in cc
        | inr f ↦ sym (rw f at (o.files path)) ∙ o.no_final
      ] in
      (
        parts,
        cuts,
        absent,
        published path p (concat parts) s s' (commit fs strerror v s').1 o.no_temp files (λ q.
            after q
            ∙ ap
                (λ (x : LocalUpload).
                  if bytes_eq x.path_final q
                  then some (concat parts)
                  else if bytes_eq x.path_temp q
                  then none
                  else law.file s' q)
                o.upload),
      )
