-- ===== src/Ec/Download.antt =====
-- EcDownload of src/oio/blob/ec/blob.cpp: the fragments are fetched until the decoder gives the bytes.
use oio_sds_cpp.Prelude.{
  ℕ, ◌+◌, ltb, leb, Bool, true, false, if◌then◌else◌, List, [], ◌∷◌, ◌++◌, Option, some, none,
  Bytes, ℤ, pos, length, take, drop, to_int32,
}
use oio_sds_cpp.Prelude.Map.{Map, insert}
use oio_sds_cpp.Api.{Status, success, status, internal_error}
use oio_sds_cpp.Rawx.Command.{Range}
use oio_sds_cpp.Ec.Command.{RawxUrlSet, EcCommand}
use oio_sds_cpp.Ec.Code.{Code, Heap}
use oio_sds_cpp.Rawx.Download.{Source}
use oio_sds_cpp.Ec.Fetch.{Services, Fetched, missing, stuck, beyond, fragment, fetch}
use oio_sds_cpp.Ec.Fragments.{Slots, no_fragments, set_slot, missing_mask, create_frags_array_set}

-- What Prepare comes to: it does not return, it goes outside of its memory, or it returns.
pub data Outcome (A : Type 0) : Type 0 where
  spins outside : Outcome A
  returns : A → Outcome A

pub record EcDownload : Type 0 where
  pub buffer : Bytes
  pub xattr : Map Bytes
  pub param : EcCommand
  pub done : Bool

-- EcDownload::set_param
abbrev pub set_param : EcDownload → EcCommand → EcDownload
set_param d c = record d { param = c }

-- EcDownload::SetXattr
abbrev pub set_xattr : EcDownload → Bytes → Bytes → EcDownload
set_xattr d key v = record d { xattr = insert d.xattr key v }

-- EcDownload::IsEof
abbrev pub is_eof : EcDownload → Bool
is_eof d = d.done

-- EcDownload::Read, of a download and `*buf`.
unfoldable pub read : EcDownload → Bytes → EcDownload × Bytes × ℤ
read d buf =
    if leb (length d.buffer) 0
    then (d, buf, pos 0)
    else (record d { buffer = []; done = true }, d.buffer, to_int32 (length d.buffer))

-- What Prepare copies of the decoded bytes; `none` where it copies from behind them.
unfoldable pub cut : Range → Bytes → Option Bytes
cut r out =
    if ltb (length out) r.size
    then some out
    else if leb (r.start + r.size) (length out)
    then some (take r.size (drop r.start out))
    else none

module _ (c : Code) (h : Heap) where
  -- The sanity check of a fragment: it reads the header at the start of the copy, and in the memory
  -- behind it where the fragment is shorter.
  abbrev pub checked : EcCommand → Bytes → Option Bytes
  checked e f = if c.is_invalid e.k e.m (f ++ h.behind f) then none else some f

  -- What the decoder makes of the slots.
  unfoldable pub decoded : EcCommand → Slots → ℕ → Option Bytes
  unfolding missing_mask create_frags_array_set
  decoded e slots size =
      let n = e.k + e.m in
      c.decode e.k e.m
        (create_frags_array_set c (take e.k slots) (drop e.k slots) e.k
          (missing_mask h e.k slots n n 0))
        size

  abbrev pub counted : Option Bytes → ℕ → ℕ
  counted none valid = valid
  counted (some f) valid = 1 + valid

  abbrev with_buffer : EcDownload → Option Bytes → Outcome (EcDownload × Status)
  with_buffer d none = outside
  with_buffer d (some buffer) = returns (record d { buffer = buffer }, success)

  -- The bytes that were decoded end the loop; otherwise it goes on.
  abbrev pub after_decode :
      EcDownload → Option Bytes → Outcome (EcDownload × Status) → Outcome (EcDownload × Status)
  after_decode d none later = later
  after_decode d (some out) later = with_buffer d (cut d.param.range out)

  -- A round with the fragment that was fetched, and the length of a fragment as it was.
  abbrev pub with_fetched :
      EcCommand
      → Fetched
      → ℕ
      → (Option Bytes → ℕ → Outcome (EcDownload × Status))
      → Outcome (EcDownload × Status)
  with_fetched e missing size go = go none size
  with_fetched e stuck size go = spins
  with_fetched e beyond size go = outside
  with_fetched e (fragment b) size go = go (checked e b) (length b)

  abbrev pub with_slots :
      Option Slots → (Slots → Outcome (EcDownload × Status)) → Outcome (EcDownload × Status)
  with_slots none go = outside
  with_slots (some slots) go = go slots

  module _ (src : Source) (v : Services src) (fuel : ℕ) where
    -- The loop of Prepare: over the targets, the slots, the number of valid fragments and the length
    -- of the fragment that was read last.
    unfoldable pub prepare_loop :
        EcDownload → v.State → List RawxUrlSet → Slots → ℕ → ℕ → Outcome (EcDownload × Status)
    unfolding decoded cut set_slot fetch
    prepare_loop d s [] slots valid size = returns (d, status internal_error)
    prepare_loop d s (t ∷ ts) slots valid size =
        let (s', f) = fetch src v fuel s t in
        with_fetched d.param f size (λ p size'.
          with_slots (set_slot slots t.chunk_number p) (λ slots'.
            let rest = prepare_loop d s' ts slots' (counted p valid) size' in
            if leb d.param.k (counted p valid)
            then after_decode d (decoded d.param slots' size') rest
            else rest))

    -- EcDownload::Prepare, from a state of the services.
    unfoldable pub prepare : EcDownload → v.State → Outcome (EcDownload × Status)
    unfolding prepare_loop no_fragments
    prepare d s =
        let d' = record d { done = false } in
        let e = d.param in
        let loop = prepare_loop d' s e.targets (no_fragments (e.k + e.m)) 0 0 in
        let refused = returns (d', status internal_error) in
        if c.create e.k e.m
        then (if h.first_data then (if h.first_parity then loop else refused) else refused)
        else refused
