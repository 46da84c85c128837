-- ===== src/Router/Prepared.antt =====
-- What RouterDownload::Prepare of src/oio/blob/router/blob.cpp gives of a blob at a rawx service.
use oio_sds_cpp.Prelude.{
  ℕ, zero, suc, ◌+◌, ◌≤◌, leb, ◌≡◌, refl, Bool-cases, inl, inr, true, false, if◌then◌else◌, Bytes,
  length, take, drop, arith,
}
use oio_sds_cpp.Api.{Status, success, is_ok, prepared}
use oio_sds_cpp.Rawx.Url.{host_port}
use oio_sds_cpp.Rawx.Command.{Range, RawxCommand}
use oio_sds_cpp.Rawx.Builder.{new_builder}
use oio_sds_cpp.Rawx.Builder as RawxBuilders
use oio_sds_cpp.Rawx.Download as RawxDownloads
use oio_sds_cpp.Rawx.Download.{Source, RawxDownload}
use oio_sds_cpp.Rawx.Reading.{Delivers, ended, piece, read-Delivers}
use oio_sds_cpp.Ec.Code.{Code, Heap}
use oio_sds_cpp.Ec.Download.{Outcome, spins, outside, returns}
use oio_sds_cpp.Ec.Fetch.{Services}
use oio_sds_cpp.Router.Download.{RouterDownload, rawx, read_rawx, prepare_rawx, prepare}

-- What a read of a range makes of a blob.
abbrev pub range_of : Range → Bytes → Outcome Bytes
range_of r blob =
    if leb (length blob) r.size
    then returns blob
    else if leb (r.start + r.size) (length blob)
    then returns (take r.size (drop r.start blob))
    else outside

abbrev pub with_range : RouterDownload → Outcome Bytes → Outcome (RouterDownload × Status)
with_range d (returns buffer) = returns (record d { buffer = buffer; done = false }, success)
with_range d outside = outside
with_range d spins = spins

module _ (src : Source) where
  eof_at_end :
      {n : ℕ} {s s' : src.State} {blob : Bytes} → Delivers src n s blob s' → src.is_eof s' ≡ true
  eof_at_end (ended e) = e
  eof_at_end (piece e f d) = eof_at_end d

  read_rawx_end :
      (fuel : ℕ) (d : RawxDownload src) (buffer : Bytes)
      → src.is_eof d.inner ≡ true
      → read_rawx src fuel d buffer ≡ returns buffer
  unfolding read_rawx
  read_rawx_end zero d buffer e = rw e refl
  read_rawx_end (suc fuel) d buffer e = rw e refl

  read_rawx-Delivers :
      (n fuel : ℕ) (d : RawxDownload src) (s' : src.State) (blob buffer : Bytes)
      → d.step ≡ prepared
      → src.is_eof d.inner ≡ false
      → suc n ≤ fuel
      → Delivers src n d.inner blob s'
      → read_rawx src fuel d buffer ≡ range_of d.command.range blob
  unfolding read_rawx
  read_rawx-Delivers n zero d s' blob buffer st more h del = absurd (omega arith)
  read_rawx-Delivers n (suc fuel) d s' blob buffer st more h del =
      let r = read-Delivers src n fuel d s' blob buffer st (omega arith) del in
      let range = d.command.range in
      let over = λ (b : Bytes). read_rawx_end fuel (record d { inner = s' }) b (eof_at_end del) in
      elim (Bool-cases (leb (length blob) range.size)) [
        | inl small ↦ rw (more, r, small) (over blob)
        | inr big ↦ elim (Bool-cases (leb (range.start + range.size) (length blob))) [
          | inl inside ↦ rw (more, r, big, inside) (over (take range.size (drop range.start blob)))
          | inr past ↦ rw (more, r, big, past) refl
        ]
      ]

  -- The download over the socket of a state, as the builder makes it.
  abbrev pub built : (v : Services src) → v.State → RawxCommand → src.State
  built v s command =
      v.build (v.get_socket s (host_port command.url)).0
        (RawxBuilders.set_param new_builder command)

  -- Take a rawx download of the router whose service is connected, accepts it, and delivers some blob,
  -- not empty, of fewer pieces than the fuel. Prepare is a success with the bytes of the range, or with
  -- the whole blob where it is not longer than the size of the range; where the range ends behind the
  -- blob, it copies bytes from outside of it. What the download held before is dropped.
  pub prepare-Delivers :
      (v : Services src) (c : Code) (h : Heap) (n fuel : ℕ) (d : RouterDownload) (s : v.State)
      (s' : src.State) (blob : Bytes)
      → d.encoding ≡ rawx
      → (v.get_socket s (host_port d.rawx_param.url)).1 ≡ true
      → is_ok (src.prepare (built v s d.rawx_param)).1 ≡ true
      → src.is_eof (src.prepare (built v s d.rawx_param)).0 ≡ false
      → suc n ≤ fuel
      → Delivers src n (src.prepare (built v s d.rawx_param)).0 blob s'
      → prepare src v c h fuel d s ≡ with_range d (range_of d.rawx_param.range blob)
  unfolding prepare prepare_rawx RawxDownloads.prepare
  prepare-Delivers v c h n fuel d s s' blob e on ok more enough del =
      let start : src.State = (src.prepare (built v s d.rawx_param)).0 in
      let dl : RawxDownload src = record {
        inner = start;
        command = d.rawx_param;
        step = prepared;
      } in
      let read = read_rawx-Delivers n fuel dl s' blob d.buffer refl more enough del in
      let range = d.rawx_param.range in
      rw (e, on, ok, read)
        (elim (Bool-cases (leb (length blob) range.size)) [
          | inl small ↦ rw small refl
          | inr big ↦ elim (Bool-cases (leb (range.start + range.size) (length blob))) [
            | inl inside ↦ rw (big, inside) refl
            | inr past ↦ rw (big, past) refl
          ]
        ])
