-- ===== src/Ec/Fetching.antt =====
-- What EcDownload of src/oio/blob/ec/blob.cpp gets from the rawx services.
use oio_sds_cpp.Prelude.{
  ℕ, zero, suc, ◌+◌, ◌≤◌, ◌<◌, leb, ◌≡◌, ◌⊎◌, refl, ◌∙◌, ap, Bool-cases, inl, inr, true, false,
  List, [], ◌∷◌, some, none, Bytes, length, ℤ, eq_nil_of_length, leb→le, to_int32, arith,
}
use oio_sds_cpp.Api.{status, internal_error, is_ok, prepared}
use oio_sds_cpp.Rawx.Url.{host_port}
use oio_sds_cpp.Rawx.Download as RawxDownloads
use oio_sds_cpp.Rawx.Download.{Source, RawxDownload}
use oio_sds_cpp.Rawx.Reading.{Delivers, ended, piece, read-Delivers}
use oio_sds_cpp.Ec.Command.{RawxUrlSet}
use oio_sds_cpp.Ec.Code.{Code, Heap}
use oio_sds_cpp.Ec.Fetch.{
  Services, missing, fragment, read_fragment, fragment_download, fetch_over, fetch,
}
use oio_sds_cpp.Ec.Download.{EcDownload, returns, prepare_loop, prepare}
use oio_sds_cpp.Ec.Fragments.{Slots, no_fragments, set_slot}
use oio_sds_cpp.Ec.Offered.{InSlots}

set_slot-none :
    (slots : Slots) (i : ℕ)
    → i < length slots
    → (slots' : Slots) × (set_slot slots i none ≡ some slots') × (length slots' ≡ length slots)
unfolding set_slot
set_slot-none [] i h = absurd (omega arith)
set_slot-none (o ∷ rest) zero h = (none ∷ rest, refl, omega arith)
set_slot-none (o ∷ rest) (suc i) h =
    let (rest', e, l) = set_slot-none rest i (omega arith) in
    (o ∷ rest', rw e refl, omega (arith, l))

module _ (src : Source) where
  -- A download that is not accepted, or that delivers some blob within the fuel.
  pub data Answers (fuel : ℕ) (s : src.State) : Type 0 where
    refuses : is_ok (src.prepare s).1 ≡ false → Answers fuel s
    delivers :
        (n : ℕ) (blob : Bytes) (s' : src.State)
        → is_ok (src.prepare s).1 ≡ true
        → suc n ≤ fuel
        → Delivers src n (src.prepare s).0 blob s'
        → Answers fuel s

  eof_at_end :
      {n : ℕ} {s s' : src.State} {blob : Bytes} → Delivers src n s blob s' → src.is_eof s' ≡ true
  eof_at_end (ended e) = e
  eof_at_end (piece e f d) = eof_at_end d

  abbrev ready : src.State → RawxUrlSet → RawxDownload src
  ready s t = record (fragment_download src s t) { step = prepared }

  -- A read of the download of a fragment takes a range of size 0.
  read_nothing :
      (n fuel : ℕ) (inner s' : src.State) (t : RawxUrlSet) (blob : Bytes)
      → n ≤ fuel
      → Delivers src n inner blob s'
      → (rc : ℤ) × (RawxDownloads.read src fuel (ready inner t) []
          ≡ RawxDownloads.returns (ready s' t, [], rc))
  read_nothing n fuel inner s' t blob h del =
      let r = read-Delivers src n fuel (ready inner t) s' blob [] refl h del in
      elim (Bool-cases (leb (length blob) 0)) [
        | inl e ↦
            let nil : blob ≡ [] = eq_nil_of_length blob (omega (arith, leb→le _ _ e)) in
            (
              to_int32 (length blob),
              r
                  ∙ rw e
                      (ap (λ b. RawxDownloads.returns (ready s' t, b, to_int32 (length blob))) nil),
            )
        | inr f ↦
            let some_bytes : leb 0 (length blob) ≡ true = ground arith in
            (to_int32 0, r ∙ rw (f, some_bytes) refl)
      ]

  read_fragment_end :
      (fuel : ℕ) (d : RawxDownload src) (buf : Bytes)
      → src.is_eof d.inner ≡ true
      → read_fragment src fuel d buf ≡ fragment buf
  unfolding read_fragment
  read_fragment_end zero d buf e = rw e refl
  read_fragment_end (suc fuel) d buf e = rw e refl

  -- A fragment is fetched empty, whatever the service holds.
  read_fragment-Delivers :
      (n fuel : ℕ) (inner s' : src.State) (t : RawxUrlSet) (blob : Bytes)
      → suc n ≤ fuel
      → Delivers src n inner blob s'
      → read_fragment src fuel (ready inner t) [] ≡ fragment []
  unfolding read_fragment
  read_fragment-Delivers n zero inner s' t blob h del = absurd (omega arith)
  read_fragment-Delivers n (suc fuel) inner s' t blob h del =
      let (rc, r) = read_nothing n fuel inner s' t blob (omega arith) del in
      elim (Bool-cases (src.is_eof inner)) [
        | inl e ↦ rw e refl
        | inr f ↦ rw (f, r) (read_fragment_end fuel (ready s' t) [] (eof_at_end del))
      ]

  fetch_over-Answers :
      (fuel : ℕ) (inner : src.State) (t : RawxUrlSet)
      → Answers fuel inner
      → (fetch_over src fuel inner t ≡ missing) ⊎ (fetch_over src fuel inner t ≡ fragment [])
  unfolding fetch_over RawxDownloads.prepare
  fetch_over-Answers fuel inner t (refuses e) = inl (rw e refl)
  fetch_over-Answers fuel inner t (delivers n blob s' e h d) =
      inr (rw e (read_fragment-Delivers n fuel (src.prepare inner).0 s' t blob h d))

  fetch-Answers :
      (v : Services src) (fuel : ℕ)
      → ((s : src.State) → Answers fuel s)
      → (s : v.State) (t : RawxUrlSet)
      → ((fetch src v fuel s t).1 ≡ missing) ⊎ ((fetch src v fuel s t).1 ≡ fragment [])
  unfolding fetch
  fetch-Answers v fuel all s t = elim (Bool-cases (v.get_socket s (host_port t.url)).1) [
    | inl e ↦ rw e (fetch_over-Answers fuel _ t (all _))
    | inr f ↦ inl (rw f refl)
  ]

module _ (c : Code) (h : Heap) (src : Source) (v : Services src) (fuel : ℕ) where
  -- No valid fragment ever comes: the loop runs over all the targets.
  loop_fails :
      (d : EcDownload) (s : v.State) (ts : List RawxUrlSet) (n : ℕ) (slots : Slots) (size : ℕ)
      → 1 ≤ d.param.k
      → c.is_invalid d.param.k d.param.m (h.behind []) ≡ true
      → ((s : v.State) (t : RawxUrlSet)
          → ((fetch src v fuel s t).1 ≡ missing) ⊎ ((fetch src v fuel s t).1 ≡ fragment []))
      → InSlots n ts
      → length slots ≡ n
      → prepare_loop c h src v fuel d s ts slots 0 size ≡ returns (d, status internal_error)
  unfolding prepare_loop
  loop_fails d s [] n slots size one bad all inside l = refl
  loop_fails d s (t ∷ ts) n slots size one bad all inside l =
      let (slots', set, l') = set_slot-none slots t.chunk_number (omega (arith, inside.0)) in
      let few : leb d.param.k 0 ≡ false = ground arith in
      let next = λ (size' : ℕ).
        loop_fails d (fetch src v fuel s t).0 ts n slots' size' one bad all inside.1 (l' ∙ l) in
      elim (all s t) [
        | inl e ↦ rw (e, set, few) (next size)
        | inr e ↦ rw (e, bad, set, few) (next 0)
      ]

  length-no_fragments : (n : ℕ) → length (no_fragments n) ≡ n
  unfolding no_fragments
  length-no_fragments zero = refl
  length-no_fragments (suc n) = omega (arith, length-no_fragments n)

  prepare_fails :
      (d : EcDownload) (s : v.State)
      → 1 ≤ d.param.k
      → c.is_invalid d.param.k d.param.m (h.behind []) ≡ true
      → ((s : v.State) (t : RawxUrlSet)
          → ((fetch src v fuel s t).1 ≡ missing) ⊎ ((fetch src v fuel s t).1 ≡ fragment []))
      → InSlots (d.param.k + d.param.m) d.param.targets
      → prepare c h src v fuel d s ≡ returns (record d { done = false }, status internal_error)
  unfolding prepare
  prepare_fails d s one bad all inside =
      let n = d.param.k + d.param.m in
      let loop =
        loop_fails (record d { done = false }) s d.param.targets n (no_fragments n) 0 one bad all
          inside (length-no_fragments n) in
      elim (Bool-cases (c.create d.param.k d.param.m)) [
        | inr f ↦ rw f refl
        | inl e ↦ elim (Bool-cases h.first_data) [
          | inr f ↦ rw (e, f) refl
          | inl w ↦ elim (Bool-cases h.first_parity) [
            | inr f ↦ rw (e, w, f) refl
            | inl z ↦ rw (e, w, z) loop
          ]
        ]
      ]

-- Over rawx services, a download of an erasure-coded object is never prepared with success: the
-- command of a fragment has the range of size 0, so that a fragment of any bytes is read as an empty
-- one. The check of a fragment is taken to refuse what lies behind the
-- copy of an empty one, and each service to refuse the
-- download or to deliver some blob, of at most as many pieces as the fuel less one.
pub prepare_over_rawx :
    (src : Source) (v : Services src) (c : Code) (h : Heap) (fuel : ℕ) (d : EcDownload)
    (s : v.State)
    → 1 ≤ d.param.k
    → c.is_invalid d.param.k d.param.m (h.behind []) ≡ true
    → InSlots (d.param.k + d.param.m) d.param.targets
    → ((s : src.State) → Answers src fuel s)
    → prepare c h src v fuel d s ≡ returns (record d { done = false }, status internal_error)
prepare_over_rawx src v c h fuel d s one bad inside all =
    prepare_fails c h src v fuel d s one bad (fetch-Answers src v fuel all) inside
