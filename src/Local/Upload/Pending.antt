-- ===== src/Local/Upload/Pending.antt =====
-- The files of src/oio/blob/local/blob.cpp while an upload is prepared and written.
use oio_sds_cpp.Prelude.{
  ℕ, ◌==◌, ◌≡◌, refl, sym, ◌∙◌, ap, Bool, true, false, if◌then◌else◌, [], ◌∷◌, Option, some, none,
  Bytes, bytes_eq, Bool-cases, inl, inr, arith,
}
use oio_sds_cpp.Api.{Step, init, prepared, done, success, is_ok, SysError, enoent, errno-ok_iff}
use oio_sds_cpp.Local.FileSystem.{FileSystem, Lawful, Answer, gives, fails, is_enoent}
use oio_sds_cpp.Local.Upload.{
  LocalUpload, reverse_onto, open_error, create_parent, make_parent, at_char, after_mkdir,
  check_final, opened, opened_again, retried, open_temp, prepare, prepare_at, Answered,
}

is_enoent_lem : (e : SysError) → is_enoent e ≡ true → e ≡ enoent
is_enoent_lem e t = ground arith

module _ (fs : FileSystem) (strerror : SysError → Bytes) (law : Lawful fs) where
  -- The same files, in two states of the kernel.
  abbrev pub SameFiles : fs.State → fs.State → Type 0
  SameFiles s s' = (q : Bytes) → law.file s' q ≡ law.file s q

  after_mkdir-SameFiles :
      (s : fs.State) (r : fs.State × Option SysError)
      (again : fs.State → fs.State × Option SysError)
      → SameFiles s r.0
      → ((s' : fs.State) → SameFiles s' (again s').0)
      → SameFiles s (after_mkdir fs strerror r again).0
  after_mkdir-SameFiles s (s', none) again h f q = h q
  after_mkdir-SameFiles s (s', some e) again h f q = elim (Bool-cases (is_enoent e)) [
    | inl t ↦ rw t (f s' q ∙ h q)
    | inr t ↦ rw t (h q)
  ]

  make_parent-SameFiles :
      (dmode : ℕ) (path : Bytes) (s : fs.State) (again : fs.State → fs.State × Option SysError)
      → ((s' : fs.State) → SameFiles s' (again s').0)
      → SameFiles s (make_parent fs strerror dmode path s again).0
  make_parent-SameFiles dmode [] s again f = λ q. refl
  make_parent-SameFiles dmode (c ∷ path) s again f =
      after_mkdir-SameFiles s _ again (law.made s _ dmode) f

  at_char-SameFiles :
      (b : Bool) (dmode : ℕ) (path : Bytes) (s : fs.State)
      (again : fs.State → fs.State × Option SysError)
      → ((s' : fs.State) → SameFiles s' (again s').0)
      → SameFiles s (at_char fs strerror b dmode path s again).0
  at_char-SameFiles true dmode path s again f = make_parent-SameFiles dmode path s again f
  at_char-SameFiles false dmode path s again f = f s

  create_parent-SameFiles :
      (dmode : ℕ) (path : Bytes) (s : fs.State)
      → SameFiles s (create_parent fs strerror dmode path s).0
  unfolding create_parent
  create_parent-SameFiles dmode [] s = λ q. refl
  create_parent-SameFiles dmode (c ∷ path) s =
      at_char-SameFiles (c == b'/') dmode path s _ (create_parent-SameFiles dmode path)

  -- The pending file of an upload is open, new and empty; there is no final file, and the other files
  -- are as they were.
  pub record Opened (u : LocalUpload) (s : fs.State) (r : Answered fs strerror) : Type 0 where
    pub descriptor : ℕ
    pub upload : r.0 ≡ record u { fd = some descriptor }
    pub held : law.target r.1 descriptor ≡ some u.path_temp
    pub no_final : law.file r.1 u.path_final ≡ none
    pub no_temp : law.file s u.path_temp ≡ none
    pub files :
        (q : Bytes) → law.file r.1 q ≡ (if bytes_eq u.path_temp q then some [] else law.file s q)

  -- The look for the final file is a success only where there is none.
  check_final-ok :
      (u : LocalUpload) (s : fs.State) (r : Option SysError)
      → fs.stat s u.path_final ≡ r
      → is_ok (check_final fs strerror u s r).2 ≡ true
      → (check_final fs strerror u s r ≡ (u, s, success)) × (law.file s u.path_final ≡ none)
  check_final-ok u s none e ok = cc
  check_final-ok u s (some e) st ok = elim (Bool-cases (is_enoent e)) [
    | inl t ↦ rw t (refl, law.not_found s u.path_final (st ∙ ap some (is_enoent_lem e t)))
    | inr f ↦ absurd (law.stat_errno s u.path_final e st ((errno-ok_iff strerror e).0 (rw f at ok)))
  ]

  open_error_fails : (e : SysError) → is_ok (open_error fs strerror e) ≡ false
  open_error_fails e = ground arith

  created-Opened :
      (u : LocalUpload) (s s' s'' : fs.State) (fd : ℕ)
      → SameFiles s s'
      → fs.open_new s' u.path_temp u.fmode ≡ (s'', gives fd)
      → is_ok (check_final fs strerror (record u { fd = some fd }) s'' (fs.stat s'' u.path_final)).2
        ≡ true
      → Opened u s
          (check_final fs strerror (record u { fd = some fd }) s'' (fs.stat s'' u.path_final))
  created-Opened u s s' s'' fd same e ok =
      let (absent, held, files) = law.opened s' s'' u.path_temp u.fmode fd e in
      let (result, no_final) =
        check_final-ok (record u { fd = some fd }) s'' (fs.stat s'' u.path_final) refl ok in
      rw result (record {
        descriptor = fd;
        upload = refl;
        held = held;
        no_final = no_final;
        no_temp = sym (same u.path_temp) ∙ absent;
        files = λ q. files q ∙ ap (λ x. if bytes_eq u.path_temp q then some [] else x) (same q);
      })

  opened_again-Opened :
      (u : LocalUpload) (s s' : fs.State) (a : fs.State × Answer ℕ)
      → SameFiles s s'
      → fs.open_new s' u.path_temp u.fmode ≡ a
      → is_ok (opened_again fs strerror u a).2 ≡ true
      → Opened u s (opened_again fs strerror u a)
  opened_again-Opened u s s' (s'', gives fd) same e ok = created-Opened u s s' s'' fd same e ok
  opened_again-Opened u s s' (s'', fails x) same e ok = let no = open_error_fails x in cc

  retried-Opened :
      (u : LocalUpload) (s : fs.State) (a : fs.State × Option SysError)
      → SameFiles s a.0
      → is_ok (retried fs strerror u a).2 ≡ true
      → Opened u s (retried fs strerror u a)
  retried-Opened u s (s', some e) same ok = cc
  retried-Opened u s (s', none) same ok =
      opened_again-Opened u s s' (fs.open_new s' u.path_temp u.fmode) same refl ok

  opened-Opened :
      (u : LocalUpload) (s : fs.State) (a : fs.State × Answer ℕ)
      → fs.open_new s u.path_temp u.fmode ≡ a
      → is_ok (opened fs strerror u a).2 ≡ true
      → Opened u s (opened fs strerror u a)
  unfolding opened
  opened-Opened u s (s', gives fd) e ok = created-Opened u s s s' fd (λ q. refl) e ok
  opened-Opened u s (s', fails x) e ok = elim (Bool-cases (is_enoent x)) [
    | inl t ↦ rw t (
        retried-Opened u s _
          (λ q.
            create_parent-SameFiles u.dmode (reverse_onto u.path_temp []) s' q
            ∙ law.not_opened s s' u.path_temp u.fmode x e q)
          (rw t at ok))
    | inr f ↦ let no = open_error_fails x in let ok' = rw f at ok in cc
  ]

  open_temp-Opened :
      (o : Option ℕ) (u : LocalUpload) (s : fs.State)
      → is_ok (open_temp fs strerror o u s).2 ≡ true
      → Opened u s (open_temp fs strerror o u s)
  unfolding open_temp
  open_temp-Opened none u s ok = opened-Opened u s (fs.open_new s u.path_temp u.fmode) refl ok
  open_temp-Opened (some fd) u s ok = cc

  prepare_at-Opened :
      (st : Step) (u : LocalUpload) (s : fs.State)
      → is_ok (prepare_at fs strerror st u s).2 ≡ true
      → Opened (record u { step = prepared }) s (prepare_at fs strerror st u s)
  unfolding prepare_at
  prepare_at-Opened init u s ok =
      let h = open_temp-Opened u.fd u s ok in
      rw ok (record {
        descriptor = h.descriptor;
        upload = ap (λ (v : LocalUpload). record v { step = prepared }) h.upload;
        held = h.held;
        no_final = h.no_final;
        no_temp = h.no_temp;
        files = h.files;
      })
  prepare_at-Opened prepared u s ok = cc
  prepare_at-Opened done u s ok = cc

  pub prepare-Opened :
      (u : LocalUpload) (s : fs.State)
      → is_ok (prepare fs strerror u s).2 ≡ true
      → Opened (record u { step = prepared }) s (prepare fs strerror u s)
  unfolding prepare
  prepare-Opened u s ok = prepare_at-Opened u.step u s ok
