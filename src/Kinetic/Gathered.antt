-- ===== src/Kinetic/Gathered.antt =====
-- What KineticDownload::Prepare (src/oio/blob/kinetic/coro/blob.cpp) makes of a listing in any order.
use oio_sds_cpp.Prelude.{
  ℕ, ◌+◌, ◌≤◌, ◌<◌, ◌≡◌, ◌≢◌, refl, ◌∙◌, ap, List, [], ◌∷◌, ◌++◌, map, Option, some, none, length,
  Bytes, All, arith, subst, i32_limit,
}
use mathlib.Core.List.{Permᴰ}
use mathlib.Core.List.Permᴰ
use oio_sds_cpp.Kinetic.Upload.{Put, key_of, manifest_suffix}
use oio_sds_cpp.Kinetic.Keys.{
  Parsed, malformed, manifest, block, throws, parse_key, parse_key-block_suffix,
  parse_key-manifest_suffix,
}
use oio_sds_cpp.Kinetic.Sorting.{Ascending}
use oio_sds_cpp.Kinetic.Download.{PendingGet, add_key, add_keys}
use oio_sds_cpp.Kinetic.Numbered.{Numbered}

-- The gets that a key of a listing gives.
abbrev pub gets_of_parsed : Bytes × Bytes → Parsed → List PendingGet
gets_of_parsed item (block seq size) =
    record { sequence = seq; size = size; client = item.0; key = item.1 } ∷ []
gets_of_parsed item _ = []

abbrev pub gets_of : List (Bytes × Bytes) → List PendingGet
gets_of [] = []
gets_of (item ∷ items) = gets_of_parsed item (parse_key item.1) ++ gets_of items

abbrev pub Readable : Bytes × Bytes → Type 0
Readable item = parse_key item.1 ≢ throws

module _ {ℓ} {A : Type ℓ} where
  pub append_swap : (xs ys zs : List A) → Permᴰ (xs ++ (ys ++ zs)) (ys ++ (xs ++ zs))
  append_swap [] ys zs = Permᴰ.refl (ys ++ zs)
  append_swap (x ∷ xs) ys zs =
      Permᴰ.trans (Permᴰ.cons refl (append_swap xs ys zs))
        (Permᴰ.symm (Permᴰ.middle x ys (xs ++ zs)))

pub gets_of-Perm : {xs ys : List (Bytes × Bytes)} → Permᴰ xs ys → Permᴰ (gets_of xs) (gets_of ys)
gets_of-Perm Permᴰ.nil = Permᴰ.nil
gets_of-Perm (Permᴰ.cons {a} {b} {l₁} {l₂} e d) =
    subst (λ z. Permᴰ (gets_of (a ∷ l₁)) (gets_of_parsed z (parse_key z.1) ++ gets_of l₂)) e
      (Permᴰ.append_left (gets_of_parsed a (parse_key a.1)) (gets_of-Perm d))
gets_of-Perm (Permᴰ.swap {a} {b} {a'} {b'} {l} e f) =
    subst (λ z. Permᴰ (gets_of (a ∷ b ∷ l)) (gets_of (a' ∷ z ∷ l))) e
      (subst (λ z. Permᴰ (gets_of (a ∷ b ∷ l)) (gets_of (z ∷ a ∷ l))) f
        (append_swap (gets_of_parsed a (parse_key a.1)) (gets_of_parsed b (parse_key b.1))
          (gets_of l)))
gets_of-Perm (Permᴰ.trans d d') = Permᴰ.trans (gets_of-Perm d) (gets_of-Perm d')

-- The loop over a listing whose keys can be read: the chunks, in some order.
pub add_keys-gets_of :
    (acc : List PendingGet) (items : List (Bytes × Bytes))
    → All Readable items
    → (chunks : List PendingGet) × (add_keys (some acc) items ≡ some chunks)
      × Permᴰ (gets_of items ++ acc) chunks
unfolding add_keys
add_keys-gets_of acc [] h = (acc, refl, Permᴰ.refl acc)
add_keys-gets_of acc ((id, key) ∷ items) h =
    next (λ acc'. add_keys-gets_of acc' items h.1) (parse_key key) refl
  where
    next :
        ((acc' : List PendingGet)
          → (chunks : List PendingGet) × (add_keys (some acc') items ≡ some chunks)
            × Permᴰ (gets_of items ++ acc') chunks)
        → (p : Parsed) → parse_key key ≡ p
        → (chunks : List PendingGet) × (add_keys (add_key acc id key p) items ≡ some chunks)
          × Permᴰ ((gets_of_parsed (id, key) p ++ gets_of items) ++ acc) chunks
    next later malformed e = later acc
    next later manifest e = later acc
    next later (block seq size) e =
        let g : PendingGet = record { sequence = seq; size = size; client = id; key = key } in
        let (chunks, f, d) = later (g ∷ acc) in
        (chunks, f, Permᴰ.trans (Permᴰ.symm (Permᴰ.middle g (gets_of items) acc)) d)
    next later throws e = absurd (h.0 e)

-- A put as a listing names it, and as a download gets it.
abbrev pub drive_of : Option Bytes → Bytes
drive_of none = []
drive_of (some id) = id

abbrev pub listed : Put → Bytes × Bytes
listed p = (drive_of p.client, p.key)

abbrev pub gets_from : ℕ → List Put → List PendingGet
gets_from i [] = []
gets_from i (p ∷ ps) =
    record { sequence = i; size = length p.value; client = drive_of p.client; key = p.key }
    ∷ gets_from (i + 1) ps

pub gets_of-listed :
    (name : Bytes) (i : ℕ) (ps : List Put) (m : Put)
    → Numbered name i ps
    → All (λ p. length p.value < i32_limit) ps
    → i + length ps ≤ i32_limit
    → m.key ≡ key_of name manifest_suffix
    → (gets_of (map listed (ps ++ m ∷ [])) ≡ gets_from i ps)
      × All Readable (map listed (ps ++ m ∷ []))
gets_of-listed name i [] m h s b e =
    let parsed : parse_key m.key ≡ manifest = ap parse_key e ∙ parse_key-manifest_suffix name in
    (rw parsed refl, (λ t. ground arith, tt))
gets_of-listed name i (p ∷ ps) m h s b e =
    let parsed : parse_key p.key ≡ block i (length p.value) =
      ap parse_key h.0 ∙ parse_key-block_suffix name i (length p.value) (omega arith) s.0 in
    let (later, readable) = gets_of-listed name (i + 1) ps m h.1 s.1 (omega arith) e in
    (rw parsed (rw later refl), (λ t. ground arith, readable))

gets_from-Ascending :
    (j i : ℕ) (ps : List Put) → j < i → All (λ g. j < PendingGet.sequence g) (gets_from i ps)
gets_from-Ascending j i [] h = tt
gets_from-Ascending j i (p ∷ ps) h = (h, gets_from-Ascending j (i + 1) ps (omega arith))

pub Ascending-gets_from : (i : ℕ) (ps : List Put) → Ascending PendingGet.sequence (gets_from i ps)
Ascending-gets_from i [] = tt
Ascending-gets_from i (p ∷ ps) =
    (gets_from-Ascending i (i + 1) ps (omega arith), Ascending-gets_from (i + 1) ps)
