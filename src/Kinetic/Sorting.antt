-- ===== src/Kinetic/Sorting.antt =====
-- Lists sorted by a number, stably, as std::forward_list::sort does.
use oio_sds_cpp.Prelude.{
  ℕ, ◌<◌, leb, ◌≡◌, ◌≢◌, refl, sym, ◌∙◌, ap, if◌then◌else◌, List, [], ◌∷◌, All, arith, subst,
}
use mathlib.Core.List.{Permᴰ}

module _ {ℓ} {A : Type ℓ} (rank : A → ℕ) where
  unfoldable pub insert_sorted : A → List A → List A
  insert_sorted x [] = x ∷ []
  insert_sorted x (y ∷ ys) =
      let rest = insert_sorted x ys in if leb (rank x) (rank y) then x ∷ y ∷ ys else y ∷ rest

  unfoldable pub sort : List A → List A
  unfolding insert_sorted
  sort [] = []
  sort (x ∷ xs) = insert_sorted x (sort xs)

  -- No two elements of the same rank.
  abbrev pub Distinct : List A → Type 0
  Distinct [] = Unit
  Distinct (x ∷ xs) = All (λ y. rank x ≢ rank y) xs × Distinct xs

  abbrev pub Ascending : List A → Type 0
  Ascending [] = Unit
  Ascending (x ∷ xs) = All (λ y. rank x < rank y) xs × Ascending xs

module _ {ℓ} {A : Type ℓ} where
  pub All-Perm {κ} : (P : A → Type κ) {xs ys : List A} → Permᴰ xs ys → All P xs → All P ys
  All-Perm P Permᴰ.nil h = h
  All-Perm P (Permᴰ.cons e d) h = (subst P e h.0, All-Perm P d h.1)
  All-Perm P (Permᴰ.swap e f) h = (subst P f h.1.0, (subst P e h.0, h.1.1))
  All-Perm P (Permᴰ.trans d d') h = All-Perm P d' (All-Perm P d h)

module _ {ℓ} {A : Type ℓ} (rank : A → ℕ) where
  pub Distinct-Perm : {xs ys : List A} → Permᴰ xs ys → Distinct rank xs → Distinct rank ys
  Distinct-Perm Permᴰ.nil h = h
  Distinct-Perm (Permᴰ.cons {a} {b} {l₂ = l₂} e d) h = (
    subst (λ z. All (λ y. rank z ≢ rank y) l₂) e (All-Perm (λ y. rank a ≢ rank y) d h.0),
    Distinct-Perm d h.1,
  )
  Distinct-Perm (Permᴰ.swap {l = l} e f) h = (
    (
      λ q. h.0.0 (ap rank e ∙ sym q ∙ ap rank (sym f)),
      subst (λ z. All (λ y. rank z ≢ rank y) l) f h.1.0,
    ),
    (subst (λ z. All (λ y. rank z ≢ rank y) l) e h.0.1, h.1.1),
  )
  Distinct-Perm (Permᴰ.trans d d') h = Distinct-Perm d' (Distinct-Perm d h)

  insert_comm :
      (x y : A) (zs : List A)
      → rank x ≢ rank y
      → insert_sorted rank x (insert_sorted rank y zs)
        ≡ insert_sorted rank y (insert_sorted rank x zs)
  unfolding insert_sorted
  insert_comm x y [] h = ground arith
  insert_comm x y (z ∷ zs) h = let rest = insert_comm x y zs h in ground arith

  -- The order in which elements of different ranks come does not matter to the sort.
  pub sort-Perm : {xs ys : List A} → Permᴰ xs ys → Distinct rank xs → sort rank xs ≡ sort rank ys
  unfolding sort
  sort-Perm Permᴰ.nil h = refl
  sort-Perm (Permᴰ.cons {a} {b} {l₂ = l₂} e d) h =
      ap (insert_sorted rank a) (sort-Perm d h.1) ∙ ap (λ z. insert_sorted rank z (sort rank l₂)) e
  sort-Perm (Permᴰ.swap {a} {b} {a'} {b'} {l} e f) h =
      insert_comm a b (sort rank l) h.0.0
      ∙ ap (λ z. insert_sorted rank z (insert_sorted rank a (sort rank l))) f
      ∙ ap (λ z. insert_sorted rank a' (insert_sorted rank z (sort rank l))) e
  sort-Perm (Permᴰ.trans d d') h = sort-Perm d h ∙ sort-Perm d' (Distinct-Perm d h)

  insert_first :
      (x : A) (xs : List A) → All (λ y. rank x < rank y) xs → insert_sorted rank x xs ≡ x ∷ xs
  unfolding insert_sorted
  insert_first x [] h = refl
  insert_first x (y ∷ ys) h = let below = h.0 in ground arith

  pub sort-Ascending : (xs : List A) → Ascending rank xs → sort rank xs ≡ xs
  unfolding sort
  sort-Ascending [] h = refl
  sort-Ascending (x ∷ xs) h =
      ap (insert_sorted rank x) (sort-Ascending xs h.1) ∙ insert_first x xs h.0

  All-below : (x : A) (xs : List A) → All (λ y. rank x < rank y) xs → All (λ y. rank x ≢ rank y) xs
  All-below x [] h = tt
  All-below x (y ∷ ys) h = (λ e. absurd (omega (arith, e, h.0)), All-below x ys h.1)

  pub Ascending-Distinct : (xs : List A) → Ascending rank xs → Distinct rank xs
  Ascending-Distinct [] h = tt
  Ascending-Distinct (x ∷ xs) h = (All-below x xs h.0, Ascending-Distinct xs h.1)
