-- ===== src/Local/Upload/Written.antt =====
-- What LocalUpload::Write of src/oio/blob/local/blob.cpp adds to the pending file.
use oio_sds_cpp.Prelude.{
  ℕ, zero, suc, ltb, ◌≡◌, refl, sym, ◌∙◌, ap, subst, Bool, true, false, if◌then◌else◌, [], ◌++◌,
  Option, some, Bytes, take, drop, length, bytes_eq, bytes_eq_iff, bytes_eq_refl, Bool-cases, inl,
  inr, append_assoc, append-nil, take-append-drop,
}
use mathlib.Core.Option.{some-injective}
use oio_sds_cpp.Api.{SysError}
use oio_sds_cpp.Local.FileSystem.{FileSystem, Lawful, Answer, gives, fails, is_eintr, is_eagain}
use oio_sds_cpp.Local.Upload.{write_loop, wrote, poll_again}

module _ (fs : FileSystem) (strerror : SysError → Bytes) (law : Lawful fs) where
  -- The file at a path has grown by some bytes, and no other file has changed.
  pub record Grown (fd : ℕ) (p content added : Bytes) (s s' : fs.State) : Type 0 where
    pub held : law.target s' fd ≡ some p
    pub files :
        (q : Bytes)
        → law.file s' q ≡ (if bytes_eq p q then some (content ++ added) else law.file s q)

  Grown-held :
      (fd : ℕ) (p content added : Bytes) (s s' : fs.State)
      → Grown fd p content added s s'
      → law.file s' p ≡ some (content ++ added)
  Grown-held fd p content added s s' g = let same = bytes_eq_refl p in g.files p ∙ rw same refl

  pub Grown-trans :
      (fd : ℕ) (p content added more : Bytes) (s s' s'' : fs.State)
      → Grown fd p content added s s'
      → Grown fd p (content ++ added) more s' s''
      → Grown fd p content (added ++ more) s s''
  Grown-trans fd p content added more s s' s'' g h = record {
    held = h.held;
    files = λ q. h.files q ∙ elim (Bool-cases (bytes_eq p q)) [
      | inl t ↦ rw t (ap some (append_assoc content added more))
      | inr f ↦ let e = g.files q in rw f (e ∙ rw f refl)
    ];
  }

  pub unchanged-Grown :
      (fd : ℕ) (p content : Bytes) (s s' : fs.State)
      → law.file s p ≡ some content
      → law.target s' fd ≡ some p
      → ((q : Bytes) → law.file s' q ≡ law.file s q)
      → Grown fd p content [] s s'
  unchanged-Grown fd p content s s' c t same = record {
    held = t;
    files = λ q. same q ∙ elim (Bool-cases (bytes_eq p q)) [
      | inl e ↦
          rw e (
            ap (law.file s) (sym ((bytes_eq_iff p q).0 e)) ∙ c ∙ ap some (sym (append-nil content)))
      | inr f ↦ rw f refl
    ];
  }

  -- A first part of the bytes was added.
  pub record Appended (fd : ℕ) (p content buf : Bytes) (s s' : fs.State) : Type 0 where
    pub part : Bytes
    pub rest : Bytes
    pub cut : part ++ rest ≡ buf
    pub grown : Grown fd p content part s s'

  pub record Held (fd : ℕ) (p content : Bytes) (s : fs.State) : Type 0 where
    pub held : law.target s fd ≡ some p
    pub file : law.file s p ≡ some content

  pub Grown-Held :
      (fd : ℕ) (p content added : Bytes) (s s' : fs.State)
      → Grown fd p content added s s'
      → Held fd p (content ++ added) s'
  Grown-Held fd p content added s s' g = record {
    held = g.held;
    file = Grown-held fd p content added s s' g;
  }

  -- The round ends, where nothing of the buffer was taken.
  stops :
      (fd : ℕ) (p content buf : Bytes) (s s' : fs.State)
      → Grown fd p content [] s s'
      → Appended fd p content buf s s'
  stops fd p content buf s s' g = record { part = []; rest = buf; cut = refl; grown = g }

  -- The round goes on, once a part of the buffer was taken.
  goes_on :
      (fd : ℕ) (p content part rest : Bytes) (s s' s'' : fs.State)
      → Grown fd p content part s s'
      → Appended fd p (content ++ part) rest s' s''
      → Appended fd p content (part ++ rest) s s''
  goes_on fd p content part rest s s' s'' g a = record {
    part = part ++ a.part;
    rest = a.rest;
    cut = append_assoc part a.part a.rest ∙ ap (λ l. part ++ l) a.cut;
    grown = Grown-trans fd p content part a.part s s' s'' g a.grown;
  }

  poll_again-Appended :
      (fd : ℕ) (p content buf : Bytes) (s s₁ s' : fs.State) (ready : Bool)
      (again : fs.State → Option fs.State)
      → Grown fd p content [] s s₁
      → (again s₁ ≡ some s' → Appended fd p content buf s s')
      → poll_again fs strerror (s₁, ready) again ≡ some s'
      → Appended fd p content buf s s'
  poll_again-Appended fd p content buf s s₁ s' true again g f e = f e
  poll_again-Appended fd p content buf s s₁ s' false again g f e =
      stops fd p content buf s s' (subst (Grown fd p content [] s) (some-injective _ _ e) g)

  -- One round, when the rounds that follow it append a part of what is left.
  wrote-Appended :
      (fd : ℕ) (p content buf : Bytes) (s s' : fs.State)
      (again : fs.State → Bytes → Option fs.State) (a : fs.State × Answer ℕ)
      → ((content' buf' : Bytes) (s₁ : fs.State)
          → Held fd p content' s₁
          → again s₁ buf' ≡ some s'
          → Appended fd p content' buf' s₁ s')
      → Held fd p content s
      → fs.write s fd buf ≡ a
      → wrote fs strerror fd buf a again ≡ some s'
      → Appended fd p content buf s s'
  wrote-Appended fd p content buf s s' again (s₁, gives n) later h w e =
      let (t, files) = law.written s s₁ p buf content fd n h.held h.file w in
      let g : Grown fd p content (take n buf) s s₁ = record { held = t; files = files } in
      elim (Bool-cases (ltb n (length buf))) [
        | inl more ↦
            subst (λ b. Appended fd p content b s s') (take-append-drop n buf)
              (goes_on fd p content (take n buf) (drop n buf) s s₁ s' g (
                later (content ++ take n buf) (drop n buf) s₁
                  (Grown-Held fd p content (take n buf) s s₁ g) (rw more at e)))
        | inr all ↦ record {
          part = take n buf;
          rest = drop n buf;
          cut = take-append-drop n buf;
          grown = subst (Grown fd p content (take n buf) s) (some-injective _ _ (rw all at e)) g;
        }
      ]
  wrote-Appended fd p content buf s s' again (s₁, fails x) later h w e =
      let (t, same) = law.not_written s s₁ buf fd x w in
      let g = unchanged-Grown fd p content s s₁ h.file (t ∙ h.held) same in
      let h₁ : Held fd p content s₁ = record { held = g.held; file = same p ∙ h.file } in
      let onward : again s₁ buf ≡ some s' → Appended fd p content buf s s' = λ k.
        goes_on fd p content [] buf s s₁ s' g
          (later (content ++ []) buf s₁ (Grown-Held fd p content [] s s₁ g) k) in
      let polls = law.polled s₁ fd in
      let s₂ = (fs.poll s₁ fd).0 in
      let g₂ =
        unchanged-Grown fd p content s s₂ h.file (polls.0 ∙ h₁.held) (λ q. polls.1 q ∙ same q) in
      elim (Bool-cases (is_eintr x)) [
        | inl t ↦ onward (rw t at e)
        | inr f ↦ elim (Bool-cases (is_eagain x)) [
          | inl t ↦
              poll_again-Appended fd p content buf s s₂ s' (fs.poll s₁ fd).1 (λ z. again z buf) g₂
                (λ k.
                  goes_on fd p content [] buf s s₂ s' g₂
                    (later (content ++ []) buf s₂ (Grown-Held fd p content [] s s₂ g₂) k))
                (rw (f, t) at e)
          | inr f' ↦
              stops fd p content buf s s'
                (subst (Grown fd p content [] s) (some-injective _ _ (rw (f, f') at e)) g)
        ]
      ]

  pub write_loop-Appended :
      (fuel fd : ℕ) (p content buf : Bytes) (s s' : fs.State)
      → Held fd p content s
      → write_loop fs strerror fuel fd s buf ≡ some s'
      → Appended fd p content buf s s'
  unfolding write_loop
  write_loop-Appended zero fd p content buf s s' h e = cc
  write_loop-Appended (suc fuel) fd p content buf s s' h e =
      wrote-Appended fd p content buf s s' (λ s₁ buf'. write_loop fs strerror fuel fd s₁ buf')
        (fs.write s fd buf)
        (λ content' buf' s₁ h' e'. write_loop-Appended fuel fd p content' buf' s₁ s' h' e') h refl e
