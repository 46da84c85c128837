-- ===== src/Rawx/Reading.antt =====
-- What RawxDownload::Read of src/oio/blob/rawx/blob.cpp gives, of what the inner download delivers.
use oio_sds_cpp.Prelude.{
  ℕ, zero, suc, ◌+◌, ltb, leb, ◌≤◌, ◌≡◌, refl, sym, ◌∙◌, ap, true, false, if◌then◌else◌, [], ◌++◌,
  some, none, Bytes, ℤ, length, length-take, length-drop, Bool-cases, inl, inr, take, drop,
  to_int32, append_assoc, append-nil, arith,
}
use oio_sds_cpp.Api.{prepared}
use oio_sds_cpp.Rawx.Download.{
  Source, RawxDownload, spins, over_read, returns, read, read_all, in_range,
}

module _ (src : Source) where
  -- A download that appends the bytes of a blob piece by piece, and then tells the end.
  pub data Delivers : ℕ → src.State → Bytes → src.State → Type 0 where
    ended : {s : src.State} → src.is_eof s ≡ true → Delivers 0 s [] s
    piece :
        {n : ℕ} {s s' s'' : src.State} {p rest : Bytes}
        → src.is_eof s ≡ false
        → ((buf : Bytes) → (r : ℤ) × (src.read s buf ≡ (s', buf ++ p, r)))
        → Delivers n s' rest s''
        → Delivers (suc n) s (p ++ rest) s''

  -- A download that never tells the end, and whose reads change nothing.
  pub record Stuck (s : src.State) : Type 0 where
    pub goes_on : src.is_eof s ≡ false
    pub same : (buf : Bytes) → (r : ℤ) × (src.read s buf ≡ (s, buf, r))

  at_eof :
      (fuel : ℕ) (s : src.State) (temp : Bytes)
      → src.is_eof s ≡ true
      → read_all src fuel s temp ≡ some (s, temp)
  unfolding read_all
  at_eof zero s temp e = rw e refl
  at_eof (suc fuel) s temp e = rw e refl

  read_all-Delivers :
      {n : ℕ} {s s' : src.State} {blob : Bytes} (fuel : ℕ) (temp : Bytes)
      → n ≤ fuel
      → Delivers n s blob s'
      → read_all src fuel s temp ≡ some (s', temp ++ blob)
  unfolding read_all
  read_all-Delivers fuel temp h (ended {s} e) =
      at_eof fuel s temp e ∙ ap (λ l. some (s, l)) (sym (append-nil temp))
  read_all-Delivers zero temp h (piece e f d) = absurd (omega arith)
  read_all-Delivers (suc fuel) temp h (piece {n} {s} {s'} {s''} {p} {rest} e f d) =
      let (r, g) = f temp in
      rw (e, g)
        (read_all-Delivers fuel (temp ++ p) (omega arith) d
          ∙ ap (λ l. some (s'', l)) (append_assoc temp p rest))

  read_all-Stuck :
      (fuel : ℕ) (s : src.State) → Stuck s → (temp : Bytes) → read_all src fuel s temp ≡ none
  unfolding read_all
  read_all-Stuck zero s h temp = rw h.goes_on refl
  read_all-Stuck (suc fuel) s h temp =
      let (r, g) = h.same temp in rw (h.goes_on, g) (read_all-Stuck fuel s h temp)

  -- A read of a prepared download gives the range of its command where the blob holds it, the whole
  -- blob where it is not longer than the size of the range, and else copies bytes from behind the blob.
  pub read-Delivers :
      (n fuel : ℕ) (d : RawxDownload src) (s' : src.State) (blob buf : Bytes)
      → d.step ≡ prepared
      → n ≤ fuel
      → Delivers n d.inner blob s'
      → read src fuel d buf ≡ (
          if leb (length blob) d.command.range.size
          then returns (record d { inner = s' }, blob, to_int32 (length blob))
          else if leb (d.command.range.start + d.command.range.size) (length blob)
          then returns (
            record d { inner = s' },
            take d.command.range.size (drop d.command.range.start blob),
            to_int32 d.command.range.size,
          )
          else over_read)
  unfolding read in_range
  read-Delivers n fuel d s' blob buf st h del =
      let e = read_all-Delivers fuel [] h del in
      let r = d.command.range in
      let cut = length-take r.size (drop r.start blob) in
      let left = length-drop r.start blob in
      rw (st, e)
        (elim (Bool-cases (leb (length blob) r.size)) [
          | inl small ↦
              let no : ltb r.size (length blob) ≡ false = ground arith in rw (small, no) refl
          | inr big ↦
              let yes : ltb r.size (length blob) ≡ true = ground arith in
              elim (Bool-cases (leb (r.start + r.size) (length blob))) [
                | inl inside ↦
                    let n : length (take r.size (drop r.start blob)) ≡ r.size = ground arith in
                    rw (big, yes, inside, n) refl
                | inr outside ↦ rw (big, yes, outside) refl
              ]
        ])

  -- When the inner download neither ends nor gives anything more, a read never returns.
  pub read-Stuck :
      (fuel : ℕ) (d : RawxDownload src) (buf : Bytes)
      → d.step ≡ prepared
      → Stuck d.inner
      → read src fuel d buf ≡ spins
  unfolding read
  read-Stuck fuel d buf st h = rw (st, read_all-Stuck fuel d.inner h []) refl
