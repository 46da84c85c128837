-- ===== src/Kinetic/Targets.antt =====
-- The assertions on the drives and the name of a KineticUpload (src/oio/blob/kinetic/coro/blob.cpp): an
-- upload that gets through Write and Commit has both.
use oio_sds_cpp.Prelude.{
  ℕ, zero, suc, ◌-◌, leb, ◌==◌, ◌||◌, ◌≡◌, refl, ◌∙◌, true, false, Bool, Bool-cases, inl, inr,
  Option-cases, if◌then◌else◌, [], ◌∷◌, ◌++◌, Option, some, none, length, take, drop, Bytes, sym,
  subst,
}
use oio_sds_cpp.Prelude.Map.{Map}
use mathlib.Core.Option.{some-injective}
use oio_sds_cpp.Api.{prepared, success}
use oio_sds_cpp.Kinetic.Upload.{
  KineticUpload, can_trigger, trigger_block, round_asserts, write_round, write_loop, write_asserts,
  write, flush, commit,
}

-- The drives, the name and the step are the same.
record SameTargets (u v : KineticUpload) : Type 0 where
  clients : v.clients ≡ u.clients
  chunkid : v.chunkid ≡ u.chunkid
  step : v.step ≡ u.step

SameTargets-trans : (u v w : KineticUpload) → SameTargets u v → SameTargets v w → SameTargets u w
SameTargets-trans u v w a b = record {
  clients = b.clients ∙ a.clients;
  chunkid = b.chunkid ∙ a.chunkid;
  step = b.step ∙ a.step;
}

passed_some :
    (b : Bool) (o : Option KineticUpload) (w : KineticUpload)
    → (if b then o else none) ≡ some w
    → o ≡ some w
passed_some true o w h = h
passed_some false o w h = absurd cc

round-SameTargets : (u : KineticUpload) (buf : Bytes) → SameTargets u (write_round u buf)
unfolding write_round trigger_block
round-SameTargets u buf =
    let piece = take (u.buffer_limit - length u.buffer) buf in
    elim (Bool-cases (leb u.buffer_limit (length (u.buffer ++ piece)))) [
      | inl t ↦ record { clients = rw t refl; chunkid = rw t refl; step = rw t refl }
      | inr f ↦ record { clients = rw f refl; chunkid = rw f refl; step = rw f refl }
    ]

loop_inversion :
    (fuel : ℕ) (u : KineticUpload) (b : ℕ) (buf : Bytes) (w : KineticUpload)
    → write_loop (suc fuel) u (b ∷ buf) ≡ some w
    → write_loop fuel (write_round u (b ∷ buf)) (drop (u.buffer_limit - length u.buffer) (b ∷ buf))
      ≡ some w
unfolding write_loop
loop_inversion fuel u b buf w h = passed_some (round_asserts u (b ∷ buf)) _ w h

loop-SameTargets :
    (fuel : ℕ) (u : KineticUpload) (buf : Bytes) (w : KineticUpload)
    → write_loop fuel u buf ≡ some w
    → SameTargets u w
unfolding write_loop
loop-SameTargets zero u [] w h =
    subst (SameTargets u) (some-injective _ _ h)
      (record { clients = refl; chunkid = refl; step = refl })
loop-SameTargets (suc fuel) u [] w h =
    subst (SameTargets u) (some-injective _ _ h)
      (record { clients = refl; chunkid = refl; step = refl })
loop-SameTargets zero u (b ∷ buf) w h = absurd cc
loop-SameTargets (suc fuel) u (b ∷ buf) w h =
    SameTargets-trans u (write_round u (b ∷ buf)) w (round-SameTargets u (b ∷ buf))
      (loop-SameTargets fuel _ _ w (loop_inversion fuel u b buf w h))

write-SameTargets :
    (fuel : ℕ) (u : KineticUpload) (buf : Bytes) (w : KineticUpload)
    → write fuel u buf ≡ some w
    → SameTargets u w
unfolding write
write-SameTargets fuel u buf w h =
    loop-SameTargets fuel u buf w (passed_some (write_asserts u) _ w h)

trigger_same : (u v : KineticUpload) → SameTargets u v → can_trigger v ≡ can_trigger u
trigger_same u v s = rw (s.clients, s.chunkid) refl

flush-SameTargets : (u : KineticUpload) → SameTargets u (flush u)
unfolding flush trigger_block
flush-SameTargets u = elim (Bool-cases (length u.buffer == 0)) [
  | inl t ↦ record { clients = rw t refl; chunkid = rw t refl; step = rw t refl }
  | inr f ↦ record { clients = rw f refl; chunkid = rw f refl; step = rw f refl }
]

commit_no_write :
    (json : Map Bytes → Bytes) (n : ℕ) (w v : KineticUpload)
    → w.step ≡ prepared
    → write n (flush w) (json w.xattr) ≡ none
    → commit json n w ≡ some (v, success)
    → ⊥
unfolding commit
commit_no_write json n w v p e c = elim (Bool-cases ((length w.buffer == 0) || can_trigger w)) [
  | inl t ↦ cc (simp (p, t, e) at c)
  | inr f ↦ cc (simp (p, f) at c)
]

commit_finishes :
    (json : Map Bytes → Bytes) (n : ℕ) (w x v : KineticUpload)
    → w.step ≡ prepared
    → write n (flush w) (json w.xattr) ≡ some x
    → commit json n w ≡ some (v, success)
    → can_trigger x ≡ true
unfolding commit
commit_finishes json n w x v p e c = elim (Bool-cases (can_trigger x)) [
  | inl t ↦ t
  | inr f ↦ elim (Bool-cases ((length w.buffer == 0) || can_trigger w)) [
    | inl t ↦ absurd (cc (simp (p, t, e, f) at c))
    | inr g ↦ absurd (cc (simp (p, g) at c))
  ]
]

commit-can_trigger :
    (json : Map Bytes → Bytes) (n : ℕ) (w v : KineticUpload)
    → w.step ≡ prepared
    → commit json n w ≡ some (v, success)
    → can_trigger w ≡ true
commit-can_trigger json n w v p c = elim (Option-cases (write n (flush w) (json w.xattr))) [
  | inl e ↦ absurd (commit_no_write json n w v p e c)
  | inr (x, e) ↦
      let s =
        SameTargets-trans w (flush w) x (flush-SameTargets w)
          (write-SameTargets n (flush w) (json w.xattr) x e) in
      sym (trigger_same w x s) ∙ commit_finishes json n w x v p e c
]

-- A write of anything that ends, or a commit that ends, has passed the assertions of TriggerUpload: a
-- prepared upload without a drive or without a name is not committed.
pub write-commit_targets :
    (json : Map Bytes → Bytes) (fuel n : ℕ) (u w v : KineticUpload) (buf : Bytes)
    → u.step ≡ prepared
    → write fuel u buf ≡ some w
    → commit json n w ≡ some (v, success)
    → can_trigger u ≡ true
write-commit_targets json fuel n u w v buf p h c =
    let s = write-SameTargets fuel u buf w h in
    sym (trigger_same u w s) ∙ commit-can_trigger json n w v (s.step ∙ p) c
