-- ===== src/Local/Upload/Sequence.antt =====
-- Writes of LocalUpload of src/oio/blob/local/blob.cpp, one after another.
use oio_sds_cpp.Prelude.{
  ℕ, ◌≡◌, refl, sym, ◌∙◌, subst, [], ◌∷◌, ◌++◌, List, Option, some, none, Bytes, concat,
  Option-cases, inl, inr,
}
use mathlib.Core.Option.{some-injective}
use oio_sds_cpp.Api.{prepared, SysError}
use oio_sds_cpp.Local.FileSystem.{FileSystem, Lawful}
use oio_sds_cpp.Local.Upload.{LocalUpload, write, write_fd, write_loop}
use oio_sds_cpp.Local.Upload.Written.{
  Grown, Held, Grown-Held, Grown-trans, unchanged-Grown, write_loop-Appended,
}

-- Each part is a first part of its buffer.
abbrev pub Parts : List Bytes → List Bytes → Type 0
Parts [] [] = Unit {0}
Parts (part ∷ parts) (buf ∷ bufs) = ((rest : Bytes) × (part ++ rest ≡ buf)) × Parts parts bufs
Parts _ _ = ⊥

module _ (fs : FileSystem) (strerror : SysError → Bytes) where
  abbrev next_write : Option fs.State → (fs.State → Option fs.State) → Option fs.State
  next_write none again = none
  next_write (some s) again = again s

  -- A caller that writes buffers one after another.
  unfoldable pub write_all : ℕ → LocalUpload → fs.State → List Bytes → Option fs.State
  write_all fuel u s [] = some s
  write_all fuel u s (buf ∷ bufs) =
      next_write (write fs strerror fuel u s buf) (λ s'. write_all fuel u s' bufs)

module _ (fs : FileSystem) (strerror : SysError → Bytes) (law : Lawful fs) where
  pub record AllAppended (fd : ℕ) (p content : Bytes) (bufs : List Bytes) (s s' : fs.State)
      : Type 0 where
    pub parts : List Bytes
    pub cuts : Parts parts bufs
    pub grown : Grown fs strerror law fd p content (concat parts) s s'

  pub write_all-AllAppended :
      (fuel fd : ℕ) (u : LocalUpload) (p content : Bytes) (bufs : List Bytes) (s s' : fs.State)
      → u.step ≡ prepared
      → u.fd ≡ some fd
      → Held fs strerror law fd p content s
      → write_all fs strerror fuel u s bufs ≡ some s'
      → AllAppended fd p content bufs s s'
  unfolding write_all
  write_all-AllAppended fuel fd u p content [] s s' st d h e = record {
    parts = [];
    cuts = tt;
    grown =
        subst (Grown fs strerror law fd p content [] s) (some-injective _ _ e)
          (unchanged-Grown fs strerror law fd p content s s h.file h.held (λ q. refl));
  }
  write_all-AllAppended fuel fd u p content (buf ∷ bufs) s s' st d h e =
      elim (Option-cases (write fs strerror fuel u s buf)) [
        | inl f ↦ let k = rw f at e in cc
        | inr (s₁, w) ↦
            let one : write fs strerror fuel u s buf ≡ write_loop fs strerror fuel fd s buf =
              (unfold write write_fd in rw (st, d) refl) in
            let a =
              write_loop-Appended fs strerror law fuel fd p content buf s s₁ h (sym one ∙ w) in
            let all =
              write_all-AllAppended fuel fd u p (content ++ a.part) bufs s₁ s' st d
                (Grown-Held fs strerror law fd p content a.part s s₁ a.grown) (rw w at e) in
            record {
              parts = a.part ∷ all.parts;
              cuts = ((a.rest, a.cut), all.cuts);
              grown =
                  Grown-trans fs strerror law fd p content a.part (concat all.parts) s s₁ s' a.grown
                    all.grown;
            }
      ]
