-- ===== src/Kinetic/Owned.antt =====
-- The number of an exchange that is being written, among the pending ones of
-- src/oio/blob/kinetic/coro/CoroutineClient.cpp.
use oio_sds_cpp.Prelude.{
  ℕ, suc, ◌==◌, ◌≡◌, refl, ap, true, false, if◌then◌else◌, List, [], ◌∷◌, ◌++◌, some, none, Option,
  All, Bool-cases, subst, arith, some, inl, inr,
}
use mathlib.Core.Option.{some-injective}
use oio_sds_cpp.Kinetic.Client.{Pending, find_sequence, erase_sequence}
use oio_sds_cpp.Kinetic.Accounting.{Within, Within-le}

-- No pending exchange but the one that is being written has its number.
abbrev pub Own : Option Pending → List Pending → Type 0
Own none ps = Unit
Own (some p) ps = All (λ q. q.sequence ≡ p.sequence → q.id ≡ p.id) ps

All-erase :
    (P : Pending → Type 0) (s : ℕ) (ps : List Pending) → All P ps → All P (erase_sequence s ps)
unfolding erase_sequence
All-erase P s [] a = tt
All-erase P s (q ∷ ps) a =
    elim (s == q.sequence) as (λ b. All P (if b then ps else q ∷ erase_sequence s ps)) [
      | true ↦ a.1
      | false ↦ (a.0, All-erase P s ps a.1)
    ]

pub Own-erase :
    (w : Option Pending) (s : ℕ) (ps : List Pending) → Own w ps → Own w (erase_sequence s ps)
Own-erase none s ps a = tt
Own-erase (some p) s ps a = All-erase _ s ps a

pub All-find :
    (P : Pending → Type 0) (s : ℕ) (ps : List Pending) (q : Pending)
    → All P ps
    → find_sequence s ps ≡ some q
    → P q × (q.sequence ≡ s)
unfolding find_sequence
All-find P s [] q a h = absurd cc
All-find P s (x ∷ ps) q a h = elim (Bool-cases (s == x.sequence)) [
  | inl t ↦
      let same : x ≡ q = some-injective _ _ (simp t at h) in
      (subst P same a.0, ground (arith, ap (λ y. y.sequence) same))
  | inr f ↦ All-find P s ps q a.1 (simp f at h)
]

pub Own-last :
    (lo : ℕ) (ps : List Pending) (p : Pending)
    → Within lo p.sequence ps
    → Own (some p) (ps ++ p ∷ [])
Own-last lo [] p w = ((λ e. refl), tt)
Own-last lo (q ∷ ps) p w =
    ((λ e. absurd (omega (arith, Within-le _ _ ps w.1))), Own-last (suc q.sequence) ps p w.1)
