-- ===== src/Kinetic/Blocks.antt =====
-- What KineticUpload::Write of src/oio/blob/kinetic/coro/blob.cpp makes of the bytes it is given.
use oio_sds_cpp.Prelude.{
  ℕ, zero, suc, ◌-◌, ◌≤◌, ◌<◌, leb, ◌≡◌, refl, sym, ◌∙◌, ap, true, false, List, [], ◌∷◌, ◌++◌, some,
  none, length, take, drop, Bytes, All, All-append, arith, length-append, append_assoc, append-nil,
  take-append-drop, length-take, length-drop, Bool, not, ◌&&◌, if◌then◌else◌, Bool-cases, inl, inr,
}
use oio_sds_cpp.Kinetic.Upload.{
  Put, KineticUpload, can_trigger, trigger_block, round_asserts, write_round, write_loop, write,
  is_empty, is_prepared, write_asserts,
}
use oio_sds_cpp.Api.{prepared}

abbrev pub values : List Put → Bytes
values [] = []
values (p ∷ ps) = p.value ++ values ps

-- All that was written to an upload and has not been dropped.
abbrev pub content : KineticUpload → Bytes
content u = values u.ops ++ u.buffer

pub record IsReady (u : KineticUpload) : Type 0 where
  pub positive : 0 < u.buffer_limit
  pub below : length u.buffer < u.buffer_limit
  pub started : u.step ≡ prepared
  pub targets : can_trigger u ≡ true

-- What a write leaves alone.
pub record SameUpload (u v : KineticUpload) : Type 0 where
  pub clients : v.clients ≡ u.clients
  pub limit : v.buffer_limit ≡ u.buffer_limit
  pub chunkid : v.chunkid ≡ u.chunkid
  pub xattr : v.xattr ≡ u.xattr
  pub step : v.step ≡ u.step

-- Between `u` and `v` the bytes `buf` were written: the new blocks are full, and nothing is lost.
pub record Written (u : KineticUpload) (buf : Bytes) (v : KineticUpload) : Type 0 where
  pub ready : IsReady v
  pub same : SameUpload u v
  pub blocks : List Put
  pub appended : v.ops ≡ u.ops ++ blocks
  pub full : All (λ p. length p.value ≡ u.buffer_limit) blocks
  pub kept : values blocks ++ v.buffer ≡ u.buffer ++ buf

pub values-append : (ps qs : List Put) → values (ps ++ qs) ≡ values ps ++ values qs
values-append [] qs = refl
values-append (p ∷ ps) qs = rw (values-append ps qs) (sym (append_assoc p.value _ _))

partial_round :
    (u : KineticUpload) (buf : Bytes)
    → IsReady u
    → leb u.buffer_limit (length (u.buffer ++ take (u.buffer_limit - length u.buffer) buf)) ≡ false
    → (write_round u buf
        ≡ record u { buffer = u.buffer ++ take (u.buffer_limit - length u.buffer) buf })
      × (length (u.buffer ++ take (u.buffer_limit - length u.buffer) buf) < u.buffer_limit)
unfolding write_round
partial_round u buf r h = (rw h, ground arith)

full_round :
    (u : KineticUpload) (buf : Bytes)
    → IsReady u
    → leb u.buffer_limit (length (u.buffer ++ take (u.buffer_limit - length u.buffer) buf)) ≡ true
    → (write_round u buf
        ≡ trigger_block
            (record u { buffer = u.buffer ++ take (u.buffer_limit - length u.buffer) buf }))
      × (length (u.buffer ++ take (u.buffer_limit - length u.buffer) buf) ≡ u.buffer_limit)
unfolding write_round
full_round u buf r h = (
  rw h,
  ground (
    arith,
    length-append u.buffer (take (u.buffer_limit - length u.buffer) buf),
    length-take (u.buffer_limit - length u.buffer) buf,
  ),
)

pub round_Written :
    (u : KineticUpload) (buf : Bytes)
    → IsReady u
    → Written u (take (u.buffer_limit - length u.buffer) buf) (write_round u buf)
unfolding trigger_block
round_Written u buf r =
    let piece = take (u.buffer_limit - length u.buffer) buf in
    elim (Bool-cases (leb u.buffer_limit (length (u.buffer ++ piece)))) [
      | inl h ↦
          let (e, n) = full_round u buf r h in
          rw e (record {
            ready = record {
              positive = r.positive;
              below = r.positive;
              started = r.started;
              targets = r.targets;
            };
            same = record {
              clients = refl;
              limit = refl;
              chunkid = refl;
              xattr = refl;
              step = refl;
            };
            blocks = _ ∷ [];
            appended = refl;
            full = (n, tt);
            kept = append-nil _ ∙ append-nil _;
          })
      | inr h ↦
          let (e, n) = partial_round u buf r h in
          rw e (record {
            ready = record {
              positive = r.positive;
              below = n;
              started = r.started;
              targets = r.targets;
            };
            same = record {
              clients = refl;
              limit = refl;
              chunkid = refl;
              xattr = refl;
              step = refl;
            };
            blocks = [];
            appended = sym (append-nil u.ops);
            full = tt;
            kept = refl;
          })
    ]

nothing-Written : (u : KineticUpload) → IsReady u → Written u [] u
nothing-Written u r = record {
  ready = r;
  same = record { clients = refl; limit = refl; chunkid = refl; xattr = refl; step = refl };
  blocks = [];
  appended = sym (append-nil u.ops);
  full = tt;
  kept = sym (append-nil u.buffer);
}

Written-trans :
    (u v w : KineticUpload) (a b c : Bytes)
    → a ++ b ≡ c
    → Written u a v
    → Written v b w
    → Written u c w
Written-trans u v w a b c e x y = record {
  ready = y.ready;
  same = record {
    clients = y.same.clients ∙ x.same.clients;
    limit = y.same.limit ∙ x.same.limit;
    chunkid = y.same.chunkid ∙ x.same.chunkid;
    xattr = y.same.xattr ∙ x.same.xattr;
    step = y.same.step ∙ x.same.step;
  };
  blocks = x.blocks ++ y.blocks;
  appended = y.appended ∙ ap (λ l. l ++ y.blocks) x.appended ∙ append_assoc u.ops x.blocks y.blocks;
  full =
      All-append (λ p. length p.value ≡ u.buffer_limit) x.blocks y.blocks x.full
        (rw x.same.limit at y.full);
  kept =
      rw (values-append x.blocks y.blocks)
        (append_assoc (values x.blocks) (values y.blocks) w.buffer)
      ∙ ap (λ l. values x.blocks ++ l) y.kept
      ∙ sym (append_assoc (values x.blocks) v.buffer b)
      ∙ ap (λ l. l ++ b) x.kept
      ∙ append_assoc u.buffer a b
      ∙ ap (λ l. u.buffer ++ l) e;
}

-- A round of the loop passes its assertions where there is a drive and a name.
pub asserts_ready : (u : KineticUpload) (buf : Bytes) → IsReady u → round_asserts u buf ≡ true
unfolding round_asserts
asserts_ready u buf r =
    let some_drive = r.targets in
    elim (Bool-cases
      (leb u.buffer_limit (length (u.buffer ++ take (u.buffer_limit - length u.buffer) buf)))) [
        | inl t ↦ rw t some_drive
        | inr f ↦ rw f refl
      ]

loop_Written :
    (fuel : ℕ) (u : KineticUpload) (buf : Bytes)
    → IsReady u
    → length buf ≤ fuel
    → (v : KineticUpload) × (write_loop fuel u buf ≡ some v) × Written u buf v
unfolding write_loop
loop_Written zero u [] r h = (u, refl, nothing-Written u r)
loop_Written (suc fuel) u [] r h = (u, refl, nothing-Written u r)
loop_Written zero u (b ∷ buf) r h = absurd (omega arith)
loop_Written (suc fuel) u (b ∷ buf) r h =
    let n = u.buffer_limit - length u.buffer in
    let x = round_Written u (b ∷ buf) r in
    let (v, e, y) =
      loop_Written fuel (write_round u (b ∷ buf)) (drop n (b ∷ buf)) x.ready
        (omega (arith, length-drop n (b ∷ buf), r.below)) in
    (
      v,
      rw (asserts_ready u (b ∷ buf) r) e,
      Written-trans u (write_round u (b ∷ buf)) v (take n (b ∷ buf)) (drop n (b ∷ buf)) (b ∷ buf)
          (take-append-drop n (b ∷ buf)) x y,
    )

second_holds : (a b : Bool) → (a && b) ≡ true → b ≡ true
second_holds true b h = h
second_holds false b h = absurd cc

asserts_write : (u : KineticUpload) → IsReady u → write_asserts u ≡ true
asserts_write u r =
    let drives = second_holds (not (is_empty u.chunkid)) (not (is_empty u.clients)) r.targets in
    ap (λ s. is_prepared s && not (is_empty u.clients)) r.started ∙ drives

-- The assertions of a write hold of an upload that is ready.
pub write-IsReady :
    (fuel : ℕ) (u : KineticUpload) (buf : Bytes)
    → IsReady u
    → write fuel u buf ≡ write_loop fuel u buf
unfolding write
write-IsReady fuel u buf r = ap (λ b. if b then write_loop fuel u buf else none) (asserts_write u r)

-- With blocks of a size above 0 and fuel for each byte, a write to a prepared upload that has drives
-- and a name, and whose buffer is not full, ends and passes its assertions: the bytes are appended, in
-- order, to full blocks and a buffer that is again not full.
pub write-Written :
    (fuel : ℕ) (u : KineticUpload) (buf : Bytes)
    → IsReady u
    → length buf ≤ fuel
    → (v : KineticUpload) × (write fuel u buf ≡ some v) × Written u buf v
write-Written fuel u buf r h =
    let (v, e, w) = loop_Written fuel u buf r h in (v, write-IsReady fuel u buf r ∙ e, w)
