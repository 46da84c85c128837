-- ===== src/Kinetic/Stores.antt =====
-- What the drives hold after KineticUpload::Commit of src/oio/blob/kinetic/coro/blob.cpp.
use oio_sds_cpp.Prelude.{
  ℕ, ◌+◌, ◌≤◌, ◌<◌, ◌≡◌, refl, sym, ◌∙◌, ap, List, [], ◌∷◌, ◌++◌, some, length, Bytes, All, arith,
  subst, u32_mod,
}
use oio_sds_cpp.Prelude.Map.{Map}
use mathlib.Core.Option.{some-injective}
use oio_sds_cpp.Api.{success, Status, prepared}
use oio_sds_cpp.Kinetic.Upload.{
  Put, KineticUpload, key_of, manifest_suffix, flush, commit, trigger_upload,
}
use oio_sds_cpp.Kinetic.Blocks.{IsReady, content, values, write-Written}
use oio_sds_cpp.Kinetic.Manifest.{commit-small_attributes, commit_prepared, flush-Flushed}
use oio_sds_cpp.Kinetic.Numbered.{Numbered, IsNumbered, write-IsNumbered, flush-IsNumbered}

tail_eq :
    (x y : Put) (xs ys : List Put) (a b : Put)
    → x ∷ (xs ++ a ∷ []) ≡ y ∷ (ys ++ b ∷ [])
    → xs ++ a ∷ [] ≡ ys ++ b ∷ []
tail_eq x y xs ys a b e = ground arith

snoc_injective : (xs ys : List Put) (a b : Put) → xs ++ a ∷ [] ≡ ys ++ b ∷ [] → (xs ≡ ys) × (a ≡ b)
snoc_injective [] [] a b e = (refl, ground arith)
snoc_injective [] (y ∷ []) a b e = absurd (ground arith)
snoc_injective [] (y ∷ z ∷ ys) a b e = absurd (ground arith)
snoc_injective (x ∷ []) [] a b e = absurd (ground arith)
snoc_injective (x ∷ z ∷ xs) [] a b e = absurd (ground arith)
snoc_injective (x ∷ xs) (y ∷ ys) a b e =
    let (f, g) = snoc_injective xs ys a b (tail_eq x y xs ys a b e) in
    let head : x ≡ y = ground arith in (rw (head, f) refl, g)

-- What the drives hold after the commit of an upload whose attributes take less than one block.
pub record Stores (u : KineticUpload) (ops : List Put) : Type 0 where
  pub blocks : List Put
  pub last : Put
  pub split : ops ≡ blocks ++ last ∷ []
  pub mark : last.key ≡ key_of u.chunkid manifest_suffix
  pub numbered : Numbered u.chunkid 0 blocks
  pub sizes : All (λ p. length p.value ≤ u.buffer_limit) blocks
  pub count : length blocks ≤ length u.ops + 1 + u.buffer_limit
  pub payload : values blocks ≡ content u

pub commit-Stores :
    (json : Map Bytes → Bytes) (fuel : ℕ) (u v : KineticUpload)
    → IsReady u
    → IsNumbered u
    → u.step ≡ prepared
    → length (json u.xattr) ≤ fuel
    → length (json u.xattr) < u.buffer_limit
    → length u.ops + u.buffer_limit + 2 < u32_mod
    → commit json fuel u ≡ some (v, success)
    → Stores u v.ops
unfolding trigger_upload
commit-Stores json fuel u v r n p h k b c =
    let (v', blocks, m, e, ops, key, payload, value) =
      commit-small_attributes json fuel u r p h k in
    let f = flush-Flushed u u.buffer refl r in
    let (x, ex, w) = write-Written fuel (flush u) (json u.xattr) f.ready h in
    let same : v'.ops ≡ v.ops =
      ap (λ (q : KineticUpload × Status). (q.0).ops) (some-injective _ _ (sym e ∙ c)) in
    let made =
      ap (λ (q : KineticUpload × Status). (q.0).ops)
        (some-injective _ _
          (sym e ∙ commit_prepared json fuel u x p r.targets w.ready.targets ex)) in
    let (flushed, grown) = flush-IsNumbered u r n (omega arith) in
    let (numbered, longer) =
      write-IsNumbered fuel (flush u) x (json u.xattr) f.ready flushed (omega arith) ex in
    let (is_x, is_m) = snoc_injective blocks x.ops m _ (sym ops ∙ made) in
    record {
      blocks = blocks;
      last = m;
      split = sym same ∙ ops;
      mark = key;
      numbered =
          subst (λ l. Numbered u.chunkid 0 l) (sym is_x)
            (subst (λ name. Numbered name 0 x.ops) (w.same.chunkid ∙ f.same.chunkid) numbered.keys);
      sizes =
          subst (λ l. All (λ q. length q.value ≤ u.buffer_limit) l) (sym is_x)
            (subst (λ n. All (λ q. length q.value ≤ n) x.ops) (w.same.limit ∙ f.same.limit)
              numbered.sizes);
      count = omega (arith, ap length is_x);
      payload = payload;
    }
