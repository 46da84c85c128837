-- ===== src/Examples/Erasure.antt =====
-- Runs of src/oio/blob/ec and src/oio/blob/router, with a code that repeats the bytes.
use oio_sds_cpp.Prelude.{
  if◌then◌else◌, ◌==◌, ℕ, suc, ◌≡◌, refl, Bool, true, false, List, [], ◌∷◌, ◌++◌, Option, some,
  none, Bytes, bytes, pos, arith,
}
use oio_sds_cpp.Prelude.Map.{find}
use oio_sds_cpp.Api.{success, status, internal_error}
use oio_sds_cpp.Rawx.Url.{RawxUrl, empty_url}
use oio_sds_cpp.Rawx.Command as RawxCommands
use oio_sds_cpp.Rawx.Download.{Source}
use oio_sds_cpp.Rawx.Reading.{ended, piece}
use oio_sds_cpp.Ec.Command.{RawxUrlSet, EcCommand, empty_command}
use oio_sds_cpp.Ec.Code.{Code, Heap, Part, Fragments}
use oio_sds_cpp.Ec.Fragments.{Slots, create_frags_array_set}
use oio_sds_cpp.Ec.Gathering.{usable, create_frags_array_set-usable}
use oio_sds_cpp.Ec.Download.{returns, prepare}
use oio_sds_cpp.Ec.Fetch.{Services}
use oio_sds_cpp.Ec.Fetching.{Answers, delivers, prepare_over_rawx}
use oio_sds_cpp.Ec.Upload as Uploads
use oio_sds_cpp.Ec.Upload.{EcUpload, commit}
use oio_sds_cpp.Ec.Sending.{logged, commit-Sent}
use oio_sds_cpp.Router.Download as Router
use oio_sds_cpp.Router.Download.{RouterDownload, rawx, ec_download}
use oio_sds_cpp.Router.Prepared.{range_of, with_range, prepare-Delivers}

abbrev refuses_empty : ℕ → ℕ → Bytes → Bool
refuses_empty k m [] = true
refuses_empty k m (b ∷ f) = false

abbrev first_of : ℕ → ℕ → List Bytes → ℕ → Option Bytes
first_of k m [] size = none
first_of k m (g ∷ gs) size = some g

-- K is 1 and M is 1: both fragments are the bytes.
abbrev twice : Code
twice = record {
  create = λ k m. true;
  is_invalid = refuses_empty;
  has_magic = λ f. true;
  encode = λ k m x. some (x ∷ x ∷ []);
  decode = first_of;
}

abbrev heap : Heap
heap = record {
  first_data = true;
  first_parity = true;
  null_behind = λ i. false;
  behind = λ f. [];
  aligned = λ n. true;
}

abbrev object : Bytes
object = bytes "object"

abbrev pieces : List Bytes
pieces = object ∷ object ∷ []

abbrev target : ℕ → RawxUrlSet
target n = record { url = empty_url; chunk_number = n }

abbrev command : EcCommand
command = record empty_command {
  range = record { start = 1; size = 3 };
  targets = target 0 ∷ target 1 ∷ [];
  k = 1;
  m = 1;
}

abbrev both : Slots
both = some object ∷ some object ∷ []

-- The mask of two slots whose last one is missing: the first data fragment is left out.
create_frags_array_set-usable_example :
    create_frags_array_set twice (some object ∷ []) (none ∷ []) 1 1 ≡ []
unfolding usable
create_frags_array_set-usable_example =
    create_frags_array_set-usable twice (some object ∷ []) (none ∷ []) 0 1

-- Rawx services that hold the object, each in a piece.
abbrev whole : Source
whole = record {
  State = Bool;
  prepare = λ s. (false, success);
  is_eof = λ s. s;
  read = λ s buf. (true, buf ++ object, pos 0);
}

abbrev services : Services whole
services = record { State = ℕ; get_socket = λ s name. (suc s, true); build = λ s b. false }

whole-Answers : (s : Bool) → Answers whole 5 s
whole-Answers s =
    delivers 1 (object ++ []) true refl (omega arith)
      (piece refl (λ buf. (pos 0, refl)) (ended refl))

prepare_over_rawx_example :
    prepare twice heap whole services 5 (ec_download command) 0
    ≡ returns (ec_download command, status internal_error)
prepare_over_rawx_example =
    prepare_over_rawx whole services twice heap 5 (ec_download command) 0 (omega arith) refl
      (omega arith, (omega arith, tt)) whole-Answers

abbrev routed : RouterDownload
routed = record {
  buffer = [];
  xattr = [];
  ec_param = empty_command;
  rawx_param = record RawxCommands.empty_command { range = record { start = 1; size = 3 } };
  encoding = rawx;
  done = true;
}

prepare-Delivers_example :
    Router.prepare whole services twice heap 5 routed 0
    ≡ with_range routed (range_of (record { start = 1; size = 3 }) object)
prepare-Delivers_example =
    prepare-Delivers whole services twice heap 1 5 routed 0 true object refl refl refl refl
      (omega arith) (piece refl (λ buf. (pos 0, refl)) (ended refl))

ranged_bytes : range_of (record { start = 1; size = 3 }) object ≡ returns (bytes "bje")
ranged_bytes = refl

-- Services that accept the first upload only.
abbrev first_only : Uploads.Services
first_only = record {
  State = ℕ;
  get_socket = λ s p. (s, true);
  prepare = λ s b. (suc s, if s == 0 then success else status internal_error);
  write = λ s f. s;
  commit = λ s. (s, success);
  abort = λ s. (s, success);
  remove = λ s b. (s, success);
  commit_removal = λ s. (s, success);
  version = λ s. pos 1;
}

abbrev sending : EcUpload
sending = record {
  buffer = object;
  xattr =
      (bytes "container-id", bytes "C")
      ∷ (bytes "content-id", bytes "I")
      ∷ (bytes "content-mime-type", bytes "text/plain")
      ∷ (bytes "content-path", bytes "P")
      ∷ (bytes "content-version", bytes "1")
      ∷ [];
  param = command;
}

commit-Sent_example :
    (s' : ℕ) × (url : RawxUrl) × (writes : List (RawxUrl × Bytes)) × (commit first_only twice heap
        sending 0
      ≡ returns (s', success))
    × (commit (logged first_only) twice heap sending (0, empty_url, [])
        ≡ returns ((s', url, writes), success))
    × Part writes ((empty_url, object) ∷ (empty_url, object) ∷ [])
unfolding find oio_sds_cpp.Prelude.bytes_eq
commit-Sent_example =
    commit-Sent first_only twice heap sending 0 pieces empty_url [] refl refl refl
      ((_, refl), ((_, refl), ((_, refl), ((_, refl), ((_, refl), tt)))))
      (omega arith, (omega arith, tt))
