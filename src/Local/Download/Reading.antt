-- ===== src/Local/Download/Reading.antt =====
-- What the reads of LocalDownload of src/oio/blob/local/blob.cpp give.
use oio_sds_cpp.Prelude.{
  ℕ, zero, suc, ◌+◌, ◌<◌, ◌≡◌, ◌≢◌, refl, ◌∙◌, ap, false, if◌then◌else◌, [], ◌∷◌, ◌++◌, Option,
  some, none, Bytes, take, drop, length, arith, take-append-drop, ℤ, length-drop,
}
use oio_sds_cpp.Api.{prepared, done, SysError}
use oio_sds_cpp.Local.FileSystem.{FileSystem, gives}
use oio_sds_cpp.Local.Download.{LocalDownload, is_eof, batch_size, zeros, loaded, buffered, read}
use oio_sds_cpp.Local.Download.Loading.{batch_size-positive, read_loads, load_end, load_some}

-- read(2) of a regular file: the next bytes, up to as many as were asked for, at least one unless the file
-- is at its end.
pub record Readable (fs : FileSystem) (fd : ℕ) : Type 0 where
  pub remaining : fs.State → Bytes
  pub given : fs.State → ℕ → ℕ
  pub goes_on : (s : fs.State) (size : ℕ) → 0 < size → remaining s ≢ [] → 0 < given s size
  pub taken :
      (s : fs.State) (size : ℕ)
      → 0 < size
      → (fs.read s fd size).1 ≡ gives (take (given s size) (remaining s))
  pub left :
      (s : fs.State) (size : ℕ)
      → 0 < size
      → remaining (fs.read s fd size).0 ≡ drop (given s size) (remaining s)

not_nil_length : (l : Bytes) → l ≢ [] → 0 < length l
not_nil_length [] h = absurd (h refl)
not_nil_length (x ∷ l) h = omega arith

module _ (fs : FileSystem) (strerror : SysError → Bytes) (batch attempts : ℕ) where
  abbrev next_read :
      Option (LocalDownload × fs.State × Bytes × ℤ)
      → (LocalDownload → fs.State → Bytes → Option Bytes)
      → Option Bytes
  next_read none again = none
  next_read (some (d, s, buf, n)) again = again d s buf

  -- A caller that reads until the end, with a new vector at each call.
  unfoldable pub fetch : ℕ → LocalDownload → fs.State → Option Bytes
  fetch zero d s = if is_eof d then some [] else none
  fetch (suc fuel) d s =
      let rest =
        next_read (read fs strerror batch attempts d s [])
          (λ d' s' buf. elim (fetch fuel d' s') [ none ↦ none | some bs ↦ some (buf ++ bs) ]) in
      if is_eof d then some [] else rest

  not_eof : (d : LocalDownload) → d.step ≡ prepared → is_eof d ≡ false
  not_eof d st = rw st refl

  fetch_done :
      (fuel : ℕ) (d : LocalDownload) (s : fs.State) → d.step ≡ done → fetch fuel d s ≡ some []
  unfolding fetch
  fetch_done zero d s st = rw st refl
  fetch_done (suc fuel) d s st = rw st refl

  abbrev then_fetch : ℕ → Option (LocalDownload × fs.State × Bytes × ℤ) → Option Bytes
  then_fetch fuel r =
      next_read r
        (λ d' s' buf. elim (fetch fuel d' s') [ none ↦ none | some bs ↦ some (buf ++ bs) ])

  fetch_prepared :
      (fuel : ℕ) (d : LocalDownload) (s : fs.State)
      → d.step ≡ prepared
      → fetch (suc fuel) d s ≡ then_fetch fuel (read fs strerror batch attempts d s [])
  unfolding fetch
  fetch_prepared fuel d s st =
      ap (λ b. if b then some [] else then_fetch fuel (read fs strerror batch attempts d s []))
        (not_eof d st)

  -- The read at the end of the file, and one before it.
  fetch_end :
      (fuel fd : ℕ) (d : LocalDownload) (s s' : fs.State)
      → d.step ≡ prepared
      → d.fd ≡ some fd
      → d.buffer ≡ []
      → fs.read s fd (batch_size batch d) ≡ (s', gives [])
      → fetch (suc fuel) d s ≡ some []
  fetch_end fuel fd d s s' st f b r =
      let size = batch_size batch d in
      fetch_prepared fuel d s st
      ∙ ap (then_fetch fuel) (
          read_loads fs strerror batch attempts d s [] fd st f b
          ∙ ap
              (λ x.
                loaded fs strerror batch attempts []
                  (some (buffered fs strerror batch attempts size x)))
              (load_end fs strerror batch attempts attempts fd size d s s' r))
      ∙ ap (λ x. elim x [ none ↦ none | some bs ↦ some bs ])
          (fetch_done fuel (record d { step = done; buffer = zeros size }) s' refl)

  fetch_more :
      (fuel fd : ℕ) (d : LocalDownload) (s s' : fs.State) (c : ℕ) (bs rest : Bytes)
      → d.step ≡ prepared
      → d.fd ≡ some fd
      → d.buffer ≡ []
      → fs.read s fd (batch_size batch d) ≡ (s', gives (c ∷ bs))
      → fetch fuel (record d { buffer = []; size_read = d.size_read + length (c ∷ bs) }) s'
        ≡ some rest
      → fetch (suc fuel) d s ≡ some (c ∷ bs ++ rest)
  fetch_more fuel fd d s s' c bs rest st f b r later =
      let size = batch_size batch d in
      fetch_prepared fuel d s st
      ∙ ap (then_fetch fuel) (
          read_loads fs strerror batch attempts d s [] fd st f b
          ∙ ap
              (λ x.
                loaded fs strerror batch attempts []
                  (some (buffered fs strerror batch attempts size x)))
              (load_some fs strerror batch attempts attempts fd size d s s' c bs r))
      ∙ ap (λ x. elim x [ none ↦ none | some more ↦ some (c ∷ bs ++ more) ]) later

  -- The list of bytes that are taken and left, by what there was.
  fetch_round :
      (fuel fd : ℕ) (d : LocalDownload) (s s' : fs.State) (n : ℕ) (left : Bytes)
      → d.step ≡ prepared
      → d.fd ≡ some fd
      → d.buffer ≡ []
      → (left ≢ [] → 0 < n)
      → fs.read s fd (batch_size batch d) ≡ (s', gives (take n left))
      → ((k : ℕ)
          → left ≢ []
          → fetch fuel (record d { buffer = []; size_read = k }) s' ≡ some (drop n left))
      → fetch (suc fuel) d s ≡ some left
  fetch_round fuel fd d s s' zero [] st f b h r later = fetch_end fuel fd d s s' st f b r
  fetch_round fuel fd d s s' (suc n) [] st f b h r later = fetch_end fuel fd d s s' st f b r
  fetch_round fuel fd d s s' zero (c ∷ cs) st f b h r later =
      absurd (let p = h (λ e. cc) in omega arith)
  fetch_round fuel fd d s s' (suc n) (c ∷ cs) st f b h r later =
      fetch_more fuel fd d s s' c (take n cs) (drop n cs) st f b r (later _ (λ e. cc))
      ∙ ap (λ l. some (c ∷ l)) (take-append-drop n cs)

  -- A prepared download that is read until its end gives all that is left of the file, whatever range
  -- was set: neither the offset nor the size of a range changes what is read.
  pub fetch_all :
      (fd : ℕ) (file : Readable fs fd) (fuel : ℕ) (d : LocalDownload) (s : fs.State)
      → d.step ≡ prepared
      → d.fd ≡ some fd
      → d.buffer ≡ []
      → 0 < batch
      → length (file.remaining s) < fuel
      → fetch fuel d s ≡ some (file.remaining s)
  fetch_all fd file zero d s st f b h long = absurd (omega arith)
  fetch_all fd file (suc fuel) d s st f b h long =
      let size = batch_size batch d in
      let positive = batch_size-positive fs strerror batch attempts d h in
      let s' = (fs.read s fd size).0 in
      let n = file.given s size in
      let left = length-drop n (file.remaining s) in
      fetch_round fuel fd d s s' n (file.remaining s) st f b (λ e. file.goes_on s size positive e)
        (ap (λ a. (s', a)) (file.taken s size positive))
        (λ k e.
          let some_taken = file.goes_on s size positive e in
          fetch_all fd file fuel (record d { buffer = []; size_read = k }) s' st f refl h
            (omega (
              arith,
              ap length (file.left s size positive),
              left,
              not_nil_length (file.remaining s) e,
            ))
          ∙ ap some (file.left s size positive))
