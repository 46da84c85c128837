-- ===== src/Local/Download/Loading.antt =====
-- How LocalDownload of src/oio/blob/local/blob.cpp fills its buffer, and what a failure leaves in it.
use oio_sds_cpp.Prelude.{
  ℕ, zero, suc, ◌+◌, ◌<◌, ◌≡◌, refl, ◌∙◌, ap, false, [], ◌∷◌, some, Bytes, length, arith, pos,
  to_int32,
}
use oio_sds_cpp.Api.{prepared, done, SysError}
use oio_sds_cpp.Local.FileSystem.{FileSystem, gives, fails, is_eagain}
use oio_sds_cpp.Local.Download.{
  LocalDownload, batch_size, zeros, load_and_retry, load_buffer, load_fd, loaded, buffered, read,
  read_at, read_buffer,
}

length-zeros : (n : ℕ) → length (zeros n) ≡ n
unfolding zeros
length-zeros zero = refl
length-zeros (suc n) = omega (arith, length-zeros n)

zeros_starts : (n : ℕ) → 0 < n → (m : ℕ) × (zeros n ≡ 0 ∷ zeros m)
unfolding zeros
zeros_starts zero h = absurd (omega arith)
zeros_starts (suc n) h = (n, refl)

module _ (fs : FileSystem) (strerror : SysError → Bytes) (batch attempts : ℕ) where
  pub batch_size-positive : (d : LocalDownload) → 0 < batch → 0 < batch_size batch d
  batch_size-positive d h = ground arith

  load_failed :
      (attempts fd size : ℕ) (d : LocalDownload) (s s' : fs.State) (e : SysError)
      → is_eagain e ≡ false
      → fs.read s fd size ≡ (s', fails e)
      → load_and_retry fs strerror batch attempts attempts fd size d s ≡ (d, s', [])
  unfolding load_and_retry
  load_failed zero fd size d s s' e n r = rw (r, n) refl
  load_failed (suc attempts) fd size d s s' e n r = rw (r, n) refl

  -- A read with an empty buffer fills it first.
  pub read_loads :
      (d : LocalDownload) (s : fs.State) (buf : Bytes) (fd : ℕ)
      → d.step ≡ prepared
      → d.fd ≡ some fd
      → d.buffer ≡ []
      → read fs strerror batch attempts d s buf
        ≡ loaded fs strerror batch attempts buf (
            some (
              buffered fs strerror batch attempts
                (batch_size batch d)
                (load_and_retry fs strerror batch attempts attempts fd (batch_size batch d) d s)))
  unfolding read read_at load_buffer load_fd
  read_loads d s buf fd st f b =
      ap (λ z. read_at fs strerror batch attempts z d s buf) st
      ∙ ap (λ z. read_buffer fs strerror batch attempts z d s buf) b
      ∙ ap (λ z. loaded fs strerror batch attempts buf (load_fd fs strerror batch attempts z d s)) f

  read_buffered :
      (d : LocalDownload) (s : fs.State) (buf : Bytes) (x : ℕ) (xs : Bytes)
      → d.step ≡ prepared
      → d.buffer ≡ x ∷ xs
      → read fs strerror batch attempts d s buf
        ≡ some (record d { buffer = [] }, s, d.buffer, to_int32 (length d.buffer))
  unfolding read
  read_buffered d s buf x xs st b = rw (st, b) refl

  -- A read that fails, by an interruption for instance, returns 0 and leaves zeros in the buffer of the
  -- download: the next read asks the kernel for nothing and gives these zeros as the bytes of the blob.
  pub read_failed :
      (d : LocalDownload) (s s' : fs.State) (fd : ℕ) (e : SysError) (buf buf' : Bytes)
      → d.step ≡ prepared
      → d.fd ≡ some fd
      → d.buffer ≡ []
      → 0 < batch
      → is_eagain e ≡ false
      → fs.read s fd (batch_size batch d) ≡ (s', fails e)
      → (read fs strerror batch attempts d s buf
          ≡ some (record d { buffer = zeros (batch_size batch d) }, s', buf, pos 0))
        × (read fs strerror batch attempts
              (record d { buffer = zeros (batch_size batch d) })
              s'
              buf'
            ≡ some (
              record d { buffer = [] },
              s',
              zeros (batch_size batch d),
              to_int32 (batch_size batch d),
            ))
  read_failed d s s' fd e buf buf' st f b h stays r =
      let size = batch_size batch d in
      let positive = batch_size-positive d h in
      let failed = load_failed attempts fd size d s s' e stays r in
      let k = length-zeros size in
      (
        read_loads d s buf fd st f b
            ∙ ap
                (λ x.
                  loaded fs strerror batch attempts buf
                    (some (buffered fs strerror batch attempts size x)))
                failed,
        (let (m, z) = zeros_starts size positive in
            read_buffered (record d { buffer = zeros size }) s' buf' 0 (zeros m) st z
            ∙ ap (λ n. some (record d { buffer = [] }, s', zeros size, to_int32 n)) k),
      )

  pub load_end :
      (attempts fd size : ℕ) (d : LocalDownload) (s s' : fs.State)
      → fs.read s fd size ≡ (s', gives [])
      → load_and_retry fs strerror batch attempts attempts fd size d s
        ≡ (record d { step = done }, s', [])
  unfolding load_and_retry
  load_end zero fd size d s s' r = rw r refl
  load_end (suc attempts) fd size d s s' r = rw r refl

  pub load_some :
      (attempts fd size : ℕ) (d : LocalDownload) (s s' : fs.State) (c : ℕ) (bs : Bytes)
      → fs.read s fd size ≡ (s', gives (c ∷ bs))
      → load_and_retry fs strerror batch attempts attempts fd size d s
        ≡ (record d { size_read = d.size_read + length (c ∷ bs) }, s', c ∷ bs)
  unfolding load_and_retry
  load_some zero fd size d s s' c bs r = rw r refl
  load_some (suc attempts) fd size d s s' c bs r = rw r refl
