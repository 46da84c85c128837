-- ===== src/Kinetic/Manifest.antt =====
-- What KineticUpload::Commit of src/oio/blob/kinetic/coro/blob.cpp leaves on the drives: the blocks of
-- the payload, and a manifest with the attributes.
use oio_sds_cpp.Prelude.{
  ℕ, ◌+◌, ◌≤◌, ◌<◌, ◌≡◌, ◌⊎◌, refl, sym, ◌∙◌, ap, true, false, Bool, ◌||◌, ◌==◌, List, [], ◌∷◌,
  ◌++◌, some, length, Bytes, All, arith, length-append, append-nil, inl, inr, Bool-cases, map,
  eq_nil_of_length,
}
use oio_sds_cpp.Prelude.Map.{Map}
use oio_sds_cpp.Api.{prepared, done, success, status, network_error, init}
use oio_sds_cpp.Kinetic.Upload.{
  Put, KineticUpload, can_trigger, trigger_upload, trigger_block, write, flush, commit, key_of,
  manifest_suffix, Reply, prepare, KeyRange, new_range, all_ok, range_replies,
}
use oio_sds_cpp.Kinetic.Blocks.{values, content, IsReady, SameUpload, values-append, write-Written}

-- The blocks and the manifest of a commit. `rest` is the part of the attributes that went into blocks.
pub record Committed (json : Map Bytes → Bytes) (u v : KineticUpload) : Type 0 where
  pub blocks : List Put
  pub manifest : Put
  pub rest : Bytes
  pub ops : v.ops ≡ blocks ++ manifest ∷ []
  pub key : manifest.key ≡ key_of u.chunkid manifest_suffix
  pub split : rest ++ manifest.value ≡ json u.xattr
  pub payload : values blocks ≡ content u ++ rest
  pub short : length manifest.value < u.buffer_limit
  pub whole : (rest ≡ []) ⊎ (u.buffer_limit ≤ length rest)
  pub over : v.step ≡ done

-- After a flush the buffer is empty and the blocks hold all that was written.
pub record Flushed (u v : KineticUpload) : Type 0 where
  pub ready : IsReady v
  pub same : SameUpload u v
  pub empty : v.buffer ≡ []
  pub all : values v.ops ≡ content u

pub flush-Flushed : (u : KineticUpload) (b : Bytes) → u.buffer ≡ b → IsReady u → Flushed u (flush u)
unfolding flush trigger_block
flush-Flushed u [] e r =
    let stays : flush u ≡ u = ground arith in
    rw stays (record {
      ready = r;
      same = record { clients = refl; limit = refl; chunkid = refl; xattr = refl; step = refl };
      empty = e;
      all = sym (append-nil (values u.ops)) ∙ ap (λ x. values u.ops ++ x) (sym e);
    })
flush-Flushed u (x ∷ b) e r =
    let leaves : flush u ≡ trigger_block u = ground arith in
    rw leaves (record {
      ready = record {
        positive = r.positive;
        below = r.positive;
        started = r.started;
        targets = r.targets;
      };
      same = record { clients = refl; limit = refl; chunkid = refl; xattr = refl; step = refl };
      empty = refl;
      all = values-append u.ops _ ∙ ap (λ y. values u.ops ++ y) (append-nil u.buffer);
    })

values_full :
    (n : ℕ) (ps : List Put)
    → All (λ p. length p.value ≡ n) ps
    → (values ps ≡ []) ⊎ (n ≤ length (values ps))
values_full n [] h = inl refl
values_full n (p ∷ ps) h = inr (omega (arith, length-append p.value (values ps), h.0))

second_passes : (a b : Bool) → b ≡ true → (a || b) ≡ true
second_passes true b h = refl
second_passes false b h = h

pub commit_prepared :
    (json : Map Bytes → Bytes) (fuel : ℕ) (u v : KineticUpload)
    → u.step ≡ prepared
    → can_trigger u ≡ true
    → can_trigger v ≡ true
    → write fuel (flush u) (json u.xattr) ≡ some v
    → commit json fuel u ≡ some (record (trigger_upload v manifest_suffix) { step = done }, success)
unfolding commit
commit_prepared json fuel u v p a b e =
    let passes = second_passes (length u.buffer == 0) (can_trigger u) a in
    simp (p, passes, e, b) refl

-- A commit of a prepared upload ends, with fuel for each byte of the attributes: it puts blocks and
-- then the manifest under its key. The blocks hold the payload, and behind it whatever of the
-- attributes filled whole blocks; the manifest holds the others.
pub commit-Committed :
    (json : Map Bytes → Bytes) (fuel : ℕ) (u : KineticUpload)
    → IsReady u
    → u.step ≡ prepared
    → length (json u.xattr) ≤ fuel
    → (v : KineticUpload) × (commit json fuel u ≡ some (v, success)) × Committed json u v
unfolding trigger_upload
commit-Committed json fuel u r p h =
    let f = flush-Flushed u u.buffer refl r in
    let (v, e, w) = write-Written fuel (flush u) (json u.xattr) f.ready h in
    (
      _,
      commit_prepared json fuel u v p r.targets w.ready.targets e,
      record {
        blocks = v.ops;
        manifest = _;
        rest = values w.blocks;
        ops = refl;
        key = ap (λ c. key_of c manifest_suffix) (w.same.chunkid ∙ f.same.chunkid);
        split = w.kept ∙ ap (λ b. b ++ json u.xattr) f.empty;
        payload =
            ap values w.appended
            ∙ values-append (flush u).ops w.blocks
            ∙ ap (λ x. x ++ values w.blocks) f.all;
        short = rw (← f.same.limit, ← w.same.limit) w.ready.below;
        whole = rw (← f.same.limit) (values_full (flush u).buffer_limit w.blocks w.full);
        over = refl;
      },
    )

small_rest :
    (json : Map Bytes → Bytes) (u v : KineticUpload) (c : Committed json u v)
    → length (json u.xattr) < u.buffer_limit
    → length c.rest ≡ 0
small_rest json u v c n =
    let sizes : length c.rest + length c.manifest.value ≡ length (json u.xattr) =
      sym (length-append c.rest c.manifest.value) ∙ ap length c.split in
    elim c.whole [ inl e ↦ ap length e | inr k ↦ absurd (omega arith) ]

large_rest :
    (json : Map Bytes → Bytes) (u v : KineticUpload) (c : Committed json u v)
    → u.buffer_limit ≤ length (json u.xattr)
    → length (content u) < length (values c.blocks)
large_rest json u v c n =
    let sizes : length c.rest + length c.manifest.value ≡ length (json u.xattr) =
      sym (length-append c.rest c.manifest.value) ∙ ap length c.split in
    let all : length (values c.blocks) ≡ length (content u) + length c.rest =
      ap length c.payload ∙ length-append (content u) c.rest in
    let short = c.short in omega arith

-- When the attributes take less than one block, and the fuel counts each of their bytes, the commit of a
-- prepared upload that has drives and a name, blocks of a size above 0 and a buffer that is not full
-- passes its assertions and succeeds, and it keeps the attributes out of the blocks: these hold the
-- payload, and the manifest, the last put, holds the attributes under the key of the manifest.
pub commit-small_attributes :
    (json : Map Bytes → Bytes) (fuel : ℕ) (u : KineticUpload)
    → IsReady u
    → u.step ≡ prepared
    → length (json u.xattr) ≤ fuel
    → length (json u.xattr) < u.buffer_limit
    → (v : KineticUpload) × (blocks : List Put) × (manifest : Put) × (commit json fuel u
        ≡ some (v, success))
      × (v.ops ≡ blocks ++ manifest ∷ [])
      × (manifest.key ≡ key_of u.chunkid manifest_suffix)
      × (values blocks ≡ content u)
      × (manifest.value ≡ json u.xattr)
commit-small_attributes json fuel u r p h n =
    let (v, e, c) = commit-Committed json fuel u r p h in
    let none_left : c.rest ≡ [] = eq_nil_of_length c.rest (small_rest json u v c n) in
    (
      v,
      c.blocks,
      c.manifest,
      e,
      c.ops,
      c.key,
      c.payload ∙ ap (λ l. content u ++ l) none_left ∙ append-nil (content u),
      ap (λ l. l ++ c.manifest.value) (sym none_left) ∙ c.split,
    )

-- When the attributes take a block or more, a commit that succeeds has put a part of them behind the
-- payload, in the blocks.
pub commit-large_attributes :
    (json : Map Bytes → Bytes) (fuel : ℕ) (u : KineticUpload)
    → IsReady u
    → u.step ≡ prepared
    → length (json u.xattr) ≤ fuel
    → u.buffer_limit ≤ length (json u.xattr)
    → (v : KineticUpload) × (blocks : List Put) × (manifest : Put) × (commit json fuel u
        ≡ some (v, success))
      × (v.ops ≡ blocks ++ manifest ∷ [])
      × (length (content u) < length (values blocks))
commit-large_attributes json fuel u r p h n =
    let (v, e, c) = commit-Committed json fuel u r p h in
    (v, c.blocks, c.manifest, e, c.ops, large_rest json u v c n)

unasked :
    (c : Bytes) (r : KeyRange) (rest : List Bytes)
    → all_ok (r ∷ map (λ _. new_range) (c ∷ rest)) ≡ false
unasked c r rest = elim (Bool-cases r.ok) [ inl e ↦ rw e refl | inr e ↦ rw e refl ]

-- With two drives or more, no upload gets past Prepare: whatever the drives reply, it fails with
-- NetworkError and the upload stays as it was.
pub prepare-two_clients :
    (u : KineticUpload) (a b : Bytes) (rest : List Bytes) (replies : List Reply)
    → u.step ≡ init
    → u.clients ≡ a ∷ b ∷ rest
    → prepare u replies ≡ (u, status network_error)
unfolding prepare
prepare-two_clients u a b rest replies s c =
    let h = unasked b (range_replies new_range replies) rest in rw (s, c) (rw h refl)
