-- ===== src/Ec/Addressed.antt =====
-- The uploads of src/oio/blob/ec/blob.cpp are built for the addresses of their targets.
use oio_sds_cpp.Prelude.{◌≡◌, refl, Option, some, none, Bytes, bytes}
use oio_sds_cpp.Prelude.Map.{Map, find}
use oio_sds_cpp.Rawx.Url.{RawxUrl}
use oio_sds_cpp.Rawx.Builder.{
  RawxBuilder, container_id, content_path, content_id, content_version, storage_policy, mime_type,
  chunk_method,
}
use oio_sds_cpp.Ec.Command.{RawxUrlSet, EcCommand}
use oio_sds_cpp.Ec.Upload.{Services, set_found, looked_up, and_then, fragment_upload}

-- A builder that was made is for an address.
abbrev pub ForUrl : RawxUrl → Option RawxBuilder → Type 0
ForUrl u none = Unit
ForUrl u (some b) = b.rawx_param.url ≡ u

and_then-ForUrl :
    (u : RawxUrl) (o : Option RawxBuilder) (f : RawxBuilder → Option RawxBuilder)
    → ((b : RawxBuilder) → b.rawx_param.url ≡ u → ForUrl u (f b))
    → ForUrl u o
    → ForUrl u (and_then o f)
and_then-ForUrl u none f k h = tt
and_then-ForUrl u (some b) f k h = k b h

set_found-ForUrl :
    (u : RawxUrl) (set : RawxBuilder → Bytes → RawxBuilder) (b : RawxBuilder) (o : Option Bytes)
    → ((w : Bytes) → (set b w).rawx_param.url ≡ u)
    → ForUrl u (set_found set b o)
set_found-ForUrl u set b none k = tt
set_found-ForUrl u set b (some w) k = k w

module _ (v : Services) where
  -- The builder of an upload of a fragment has the address of its target.
  pub fragment_upload-ForUrl :
      (e : EcCommand) (x : Map Bytes) (t : RawxUrlSet) → ForUrl t.url (fragment_upload v e x t)
  unfolding fragment_upload
  fragment_upload-ForUrl e x t =
      let u = t.url in
      let id = set_found-ForUrl u container_id _ (find x (bytes "container-id")) (λ w. refl) in
      let path =
        and_then-ForUrl u _ (looked_up x (bytes "content-path") content_path)
          (λ b h. set_found-ForUrl u content_path b (find x (bytes "content-path")) (λ w. h)) id in
      let content =
        and_then-ForUrl u _ (looked_up x (bytes "content-id") content_id)
          (λ b h. set_found-ForUrl u content_id b (find x (bytes "content-id")) (λ w. h)) path in
      let version : RawxBuilder → Bytes → RawxBuilder = λ b s. content_version b (v.version s) in
      let versioned =
        and_then-ForUrl u _ (looked_up x (bytes "content-version") version)
          (λ b h. set_found-ForUrl u version b (find x (bytes "content-version")) (λ w. h))
          content in
      let policy =
        and_then-ForUrl u _ (λ b. some (storage_policy b (bytes "SINGLE"))) (λ b h. h) versioned in
      let mime =
        and_then-ForUrl u _ (looked_up x (bytes "content-mime-type") mime_type)
          (λ b h. set_found-ForUrl u mime_type b (find x (bytes "content-mime-type")) (λ w. h))
          policy in
      and_then-ForUrl u _ (λ b. some (chunk_method b (bytes "plain/nb_copy=1"))) (λ b h. h) mime
