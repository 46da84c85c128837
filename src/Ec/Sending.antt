-- ===== src/Ec/Sending.antt =====
-- What EcUpload::Commit of src/oio/blob/ec/blob.cpp leaves at the rawx services.
use oio_sds_cpp.Prelude.{
  ◌≡◌, refl, sym, ◌∙◌, ap, Bool-cases, Option-cases, inl, inr, true, List, [], ◌∷◌, Option, some,
  none, Bytes, bytes, length, get_elem?, All, ◌++◌, append_assoc, append-nil, subst,
}
use oio_sds_cpp.Prelude.Map.{Map, find}
use oio_sds_cpp.Api.{success, is_ok}
use oio_sds_cpp.Rawx.Url.{RawxUrl, host_port}
use oio_sds_cpp.Rawx.Builder.{RawxBuilder}
use oio_sds_cpp.Ec.Command.{RawxUrlSet, EcCommand}
use oio_sds_cpp.Ec.Code.{Code, Heap, Part, none_left, kept, left_out}
use oio_sds_cpp.Ec.Download.{returns}
use oio_sds_cpp.Ec.Offered.{InSlots, get_elem?-some}
use oio_sds_cpp.Ec.Upload.{
  Services, EcUpload, fragment_upload, and_send, with_success, send, send_all, commit,
}
use oio_sds_cpp.Ec.Addressed.{ForUrl, fragment_upload-ForUrl}

abbrev attribute_keys : List Bytes
attribute_keys =
    bytes "container-id"
    ∷ bytes "content-path"
    ∷ bytes "content-id"
    ∷ bytes "content-version"
    ∷ bytes "content-mime-type"
    ∷ []

-- The five attributes that Commit looks up.
abbrev pub HasAttributes : Map Bytes → Type 0
HasAttributes x = All (λ k. (w : Bytes) × (find x k ≡ some w)) attribute_keys

-- Services that keep, besides, the address of the upload that was prepared last, and all that was
-- written to uploads, with their addresses.
abbrev pub logged : Services → Services
logged v = record {
  State = v.State × RawxUrl × List (RawxUrl × Bytes);
  get_socket =
      λ (s, url, log) p. let (s', connected) = v.get_socket s p in ((s', url, log), connected);
  prepare = λ (s, url, log) b. let (s', rc) = v.prepare s b in ((s', b.rawx_param.url, log), rc);
  write = λ (s, url, log) f. (v.write s f, url, log ++ (url, f) ∷ []);
  commit = λ (s, url, log). let (s', rc) = v.commit s in ((s', url, log), rc);
  abort = λ (s, url, log). let (s', rc) = v.abort s in ((s', url, log), rc);
  remove = λ (s, url, log) b. let (s', rc) = v.remove s b in ((s', url, log), rc);
  commit_removal = λ (s, url, log). let (s', rc) = v.commit_removal s in ((s', url, log), rc);
  version = v.version;
}

abbrev with_own : RawxUrl → Option Bytes → List (RawxUrl × Bytes) → List (RawxUrl × Bytes)
with_own url none l = l
with_own url (some f) l = (url, f) ∷ l

-- The address of each target with the fragment of its number.
abbrev pub addressed : List Bytes → List RawxUrlSet → List (RawxUrl × Bytes)
addressed fs [] = []
addressed fs (t ∷ ts) = with_own t.url (get_elem? fs t.chunk_number) (addressed fs ts)

Part-refl : {A : Type 0} (x : A) → Part (x ∷ []) (x ∷ [])
Part-refl x = kept none_left

Part-skip : {A : Type 0} (x : A) → Part [] (x ∷ [])
Part-skip x = left_out none_left

Part-append :
    {A : Type 0} (x : A) (xs ys zs : List A)
    → Part xs (x ∷ [])
    → Part ys zs
    → Part (xs ++ ys) (x ∷ zs)
Part-append x _ ys zs (kept none_left) q = kept q
Part-append x _ ys zs (left_out none_left) q = left_out q

module _ (v : Services) where
  fragment_upload_made :
      (e : EcCommand) (x : Map Bytes) (t : RawxUrlSet)
      → HasAttributes x
      → (b : RawxBuilder) × (fragment_upload v e x t ≡ some b)
  unfolding fragment_upload
  fragment_upload_made e x t a = elim (Option-cases (fragment_upload v e x t)) [
    | inr made ↦ made
    | inl h ↦ let k = rw (a.0.1, a.1.0.1, a.1.1.0.1, a.1.1.1.0.1, a.1.1.1.1.0.1) at h in absurd cc
  ]

  same_upload :
      (e : EcCommand) (x : Map Bytes) (t : RawxUrlSet)
      → fragment_upload (logged v) e x t ≡ fragment_upload v e x t
  unfolding fragment_upload
  same_upload e x t = refl

  -- What a round does with the services and with the log: at most the target's own fragment is written.
  record Round (e : EcCommand) (x : Map Bytes) (fs : List Bytes) (s : v.State) (a : RawxUrl)
      (l : List (RawxUrl × Bytes)) (t : RawxUrlSet) (f : Bytes) : Type 0 where
    after : v.State
    url : RawxUrl
    writes : List (RawxUrl × Bytes)
    returned : send v e x fs s t ≡ returns after
    recorded : send (logged v) e x fs (s, a, l) t ≡ returns (after, url, l ++ writes)
    own : Part writes ((t.url, f) ∷ [])

  send-Round :
      (e : EcCommand) (x : Map Bytes) (fs : List Bytes) (s : v.State) (a : RawxUrl)
      (l : List (RawxUrl × Bytes)) (t : RawxUrlSet) (f : Bytes)
      → HasAttributes x
      → get_elem? fs t.chunk_number ≡ some f
      → Round e x fs s a l t f
  unfolding send
  send-Round e x fs s a l t f all at =
      let (b, made) = fragment_upload_made e x t all in
      let logged_made : fragment_upload (logged v) e x t ≡ some b = same_upload e x t ∙ made in
      let same : b.rawx_param.url ≡ t.url =
        subst (ForUrl t.url) made (fragment_upload-ForUrl v e x t) in
      let s1 = (v.get_socket s (host_port t.url)).0 in
      elim (Bool-cases (v.get_socket s (host_port t.url)).1) [
        | inr off ↦ record {
          after = s1;
          url = a;
          writes = [];
          returned = rw off refl;
          recorded = rw (off, append-nil l) refl;
          own = Part-skip _;
        }
        | inl on ↦ elim (Bool-cases (is_ok (v.prepare s1 b).1)) [
          | inl ok ↦ record {
            after = (v.commit (v.write (v.prepare s1 b).0 f)).0;
            url = b.rawx_param.url;
            writes = (b.rawx_param.url, f) ∷ [];
            returned = rw (on, made, at, ok) refl;
            recorded = rw (on, logged_made, at, ok) refl;
            own = rw same (Part-refl _);
          }
          | inr bad ↦ record {
            after = (v.abort (v.prepare s1 b).0).0;
            url = b.rawx_param.url;
            writes = [];
            returned = rw (on, made, at, bad) refl;
            recorded =
                rw (on, logged_made, at, bad)
                  (ap (λ m. returns ((v.abort (v.prepare s1 b).0).0, b.rawx_param.url, m))
                    (sym (append-nil l)));
            own = Part-skip _;
          }
        ]
      ]

  -- What the loop does with the services and with the log.
  record Sent (e : EcCommand) (x : Map Bytes) (fs : List Bytes) (s : v.State) (a : RawxUrl)
      (l : List (RawxUrl × Bytes)) (ts : List RawxUrlSet) : Type 0 where
    after : v.State
    url : RawxUrl
    writes : List (RawxUrl × Bytes)
    returned : send_all v e x fs s ts ≡ returns after
    recorded : send_all (logged v) e x fs (s, a, l) ts ≡ returns (after, url, l ++ writes)
    own : Part writes (addressed fs ts)

  send_all-Sent :
      (e : EcCommand) (x : Map Bytes) (fs : List Bytes) (s : v.State) (a : RawxUrl)
      (l : List (RawxUrl × Bytes)) (ts : List RawxUrlSet)
      → HasAttributes x
      → InSlots (length fs) ts
      → Sent e x fs s a l ts
  unfolding send_all
  send_all-Sent e x fs s a l [] all inside = record {
    after = s;
    url = a;
    writes = [];
    returned = refl;
    recorded = rw (append-nil l) refl;
    own = none_left;
  }
  send_all-Sent e x fs s a l (t ∷ ts) all inside =
      let (f, at) = get_elem?-some fs t.chunk_number inside.0 in
      let r = send-Round e x fs s a l t f all at in
      let q = send_all-Sent e x fs r.after r.url (l ++ r.writes) ts all inside.1 in
      record {
        after = q.after;
        url = q.url;
        writes = r.writes ++ q.writes;
        returned = ap (λ o. and_send v o (λ s1. send_all v e x fs s1 ts)) r.returned ∙ q.returned;
        recorded =
            ap (λ o. and_send (logged v) o (λ s1. send_all (logged v) e x fs s1 ts)) r.recorded
            ∙ q.recorded
            ∙ ap (λ m. returns (q.after, q.url, m)) (append_assoc l r.writes q.writes);
        own = rw at (Part-append (t.url, f) r.writes q.writes (addressed fs ts) r.own q.own);
      }

-- A commit of an upload that has the attributes of its fragments returns success, whatever the rawx
-- services answer, and keeping a log of what is written changes nothing. What it writes, in order, is
-- a part of the list of the targets: to each target at most once, the fragment of its own number, to its
-- own address. The numbers of the targets are those of fragments, and the buffer is allocated and
-- encoded.
pub commit-Sent :
    (v : Services) (c : Code) (h : Heap) (u : EcUpload) (s : v.State) (fs : List Bytes)
    (url : RawxUrl) (log : List (RawxUrl × Bytes))
    → h.aligned (length u.buffer) ≡ true
    → c.create u.param.k u.param.m ≡ true
    → c.encode u.param.k u.param.m u.buffer ≡ some fs
    → HasAttributes u.xattr
    → InSlots (length fs) u.param.targets
    → (s' : v.State) × (url' : RawxUrl) × (writes : List (RawxUrl × Bytes)) × (commit v c h u s
        ≡ returns (s', success))
      × (commit (logged v) c h u (s, url, log) ≡ returns ((s', url', log ++ writes), success))
      × Part writes (addressed fs u.param.targets)
unfolding commit
commit-Sent v c h u s fs url log al made coded all inside =
    let q = send_all-Sent v u.param u.xattr fs s url log u.param.targets all inside in
    (
      q.after,
      q.url,
      q.writes,
      rw (al, made, coded) (ap (with_success v) q.returned),
      rw (al, made, coded) (ap (with_success (logged v)) q.recorded),
      q.own,
    )
