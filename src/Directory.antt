-- ===== src/Directory.antt =====
-- DirectoryClient and OioUrl of src/oio/directory/dir.cpp and dir.hpp, with OioError::Decode of
-- src/oio/api/common.cpp. JSON is rapidjson's, and the call of http::Parameters that of the client: both
-- are parameters here.
use oio_sds_cpp.Prelude.{
  ℕ, Bool, true, false, [], ◌∷◌, ◌++◌, Option, some, none, Bytes, bytes, ◌≡◌, refl, ap, not,
  Bool-cases, inl, inr, if◌then◌else◌,
}
use oio_sds_cpp.Prelude.Map.{Map, insert}
use oio_sds_cpp.Api.{Status, success, is_ok, oio_error_set, oio_error_set-fails}
use oio_sds_cpp.Http.Request.{Code, ok, client_error, server_error, network_error, done}
use oio_sds_cpp.Http.Parameters.{Parameters, new_parameters}

-- What the client uses of rapidjson.
pub record Json : Type 1 where
  pub Value : Type 0
  pub parse : Bytes → Option Value
  pub is_object : Value → Bool  -- what HasMember asserts
  pub member : Value → Bytes → Option Value  -- HasMember and operator[], of an object
  pub as_int : Value → Option ℕ  -- IsInt and GetInt, as an unsigned int
  pub as_text : Value → Option Bytes  -- IsString and GetString
  pub write_properties : Map Bytes → Bytes  -- an object, in a member `properties` of another

-- The socket of a client, and http::Parameters::DoCall over it.
pub record Caller : Type 1 where
  pub State : Type 0
  pub do_call : State → Parameters → State × Parameters × Code

pub record OioUrl : Type 0 where
  pub ns : Bytes
  pub account : Bytes
  pub container : Bytes
  pub srv_type : Bytes
  pub path : Bytes
  pub cid : Bytes

-- OioUrl::URL
abbrev pub print_url : OioUrl → Bytes
print_url u =
    u.ns
    ++ bytes "/"
    ++ u.account
    ++ bytes "/"
    ++ u.container
    ++ bytes "/"
    ++ u.srv_type
    ++ bytes "/"
    ++ u.path

abbrev type_part : Bytes → Bytes
type_part [] = bytes "&type=meta2"
type_part (c ∷ s) = bytes "&type=" ++ c ∷ s

-- SELECTOR
abbrev pub selector : OioUrl → Bytes → Bytes
selector u str =
    bytes "/v3.0/"
    ++ u.ns
    ++ bytes "/reference/"
    ++ str
    ++ bytes "?acct="
    ++ u.account
    ++ bytes "&ref="
    ++ u.container
    ++ type_part u.srv_type

-- The operations whose replies are only decoded.
pub data Operation : Type 0 where
  create unlink destroy del_properties renew set_properties : Operation

-- The words of the operations in the selectors.
abbrev pub word : Operation → Bytes
word create = bytes "create"
word unlink = bytes "unlink"
word destroy = bytes "destroy"
word del_properties = bytes "del_properties"
word renew = bytes "Renew"
word set_properties = bytes "set_properties"

module _ (j : Json) where
  abbrev with_message : Status → ℕ → Option Bytes → Status × Bool
  with_message e code none = (e, false)
  with_message e code (some msg) = (record e { code = code; msg = msg }, true)

  abbrev and_then : {A B : Type 0} → Option A → (A → Option B) → Option B
  and_then none f = none
  and_then (some a) f = f a

  abbrev with_code : Status → j.Value → Option ℕ → Status × Bool
  with_code e doc none = (e, false)
  with_code e doc (some code) =
      with_message e code (and_then (j.member doc (bytes "message")) j.as_text)

  -- `none` where the assertion of HasMember ends the program.
  abbrev with_document : Status → Option j.Value → Option (Status × Bool)
  with_document e none = some (e, false)
  with_document e (some doc) =
      if j.is_object doc
      then some (with_code e doc (and_then (j.member doc (bytes "status")) j.as_int))
      else none

  -- OioError::Decode
  unfoldable pub decode : Status → Bytes → Option (Status × Bool)
  decode e encoded = with_document e (j.parse encoded)

  -- Whether a body is JSON, but not an object.
  abbrev pub is_other_json : Option j.Value → Bool
  is_other_json none = false
  is_other_json (some doc) = not (j.is_object doc)

  module _ (h : Caller) where
    pub record DirectoryClient : Type 0 where
      pub url : OioUrl
      pub properties : Map Bytes  -- of the payload `output`
      pub socket : h.State

    -- DirectoryClient::AddProperties
    abbrev pub add_properties : DirectoryClient → Bytes → Bytes → DirectoryClient
    add_properties d k v = record d { properties = insert d.properties k v }

    abbrev decoded_as : Option (Status × Bool) → Option Status
    decoded_as none = none
    decoded_as (some (e, found)) = some e

    abbrev decoded : Code → Parameters → Option Status
    decoded ok p = decoded_as (decode success p.body_out)
    decoded _ p = some (oio_error_set 4294967295 (bytes "HTTP_exec exec error"))

    -- DirectoryClient::http_call; no status where an assertion ends the program.
    unfoldable pub http_call : DirectoryClient → Parameters → DirectoryClient × Option Status
    unfolding decode oio_error_set
    http_call d p =
        let (s, p', rc) = h.do_call d.socket p in (record d { socket = s }, decoded rc p')

    -- The parameters of the call of an operation.
    abbrev pub parameters : DirectoryClient → Operation → Parameters
    parameters d set_properties =
        new_parameters (bytes "POST") (selector d.url (word set_properties))
          (j.write_properties d.properties)
    parameters d o = new_parameters (bytes "POST") (selector d.url (word o)) []

    -- DirectoryClient::Create, Unlink, Destroy, DelProperties, Renew and SetProperties
    unfoldable pub perform : DirectoryClient → Operation → DirectoryClient × Option Status
    unfolding http_call
    perform d o = http_call d (parameters d o)

    with_message-is_ok :
        (e : Status) (code : ℕ) (m : Option Bytes) → is_ok (with_message e code m).0 ≡ is_ok e
    with_message-is_ok e code none = refl
    with_message-is_ok e code (some m) = refl

    with_code-is_ok :
        (e : Status) (doc : j.Value) (code : Option ℕ) → is_ok (with_code e doc code).0 ≡ is_ok e
    with_code-is_ok e doc none = refl
    with_code-is_ok e doc (some code) =
        with_message-is_ok e code (and_then (j.member doc (bytes "message")) j.as_text)

    -- Whether a call is a success, of one that returns.
    abbrev pub ends_ok : Option Status → Option Bool
    ends_ok none = none
    ends_ok (some e) = some (is_ok e)

    -- What is expected of an operation, from the code and the body of its reply.
    abbrev pub expected : Code → Bytes → Option Bool
    expected ok body = if is_other_json (j.parse body) then none else some true
    expected _ body = some false

    document_ends :
        (doc : Option j.Value)
        → ends_ok (decoded_as (with_document success doc))
          ≡ (if is_other_json doc then none else some true)
    document_ends none = refl
    document_ends (some doc) = elim (Bool-cases (j.is_object doc)) [
      | inl t ↦ rw t (
          ap some (with_code-is_ok success doc (and_then (j.member doc (bytes "status")) j.as_int)))
      | inr f ↦ rw f refl
    ]

    decoded_ends : (rc : Code) (p : Parameters) → ends_ok (decoded rc p) ≡ expected rc p.body_out
    unfolding decode
    decoded_ends ok p = document_ends (j.parse p.body_out)
    decoded_ends client_error p =
        ap some (oio_error_set-fails 4294967295 (bytes "HTTP_exec exec error")).0
    decoded_ends server_error p =
        ap some (oio_error_set-fails 4294967295 (bytes "HTTP_exec exec error")).0
    decoded_ends network_error p =
        ap some (oio_error_set-fails 4294967295 (bytes "HTTP_exec exec error")).0
    decoded_ends done p = ap some (oio_error_set-fails 4294967295 (bytes "HTTP_exec exec error")).0

    -- An operation of the directory fails when its HTTP call does. When the call is a success, the
    -- operation does not return where the body of the reply is JSON but not an object, on which
    -- HasMember asserts; on any other body it is a success, whatever error that body tells: the status
    -- that is decoded changes the code, not the cause.
    pub perform-is_ok :
        (d : DirectoryClient) (o : Operation)
        → ends_ok (perform d o).1
          ≡ (let (s, p, rc) = h.do_call d.socket (parameters d o) in expected rc p.body_out)
    unfolding perform http_call
    perform-is_ok d o =
        decoded_ends (h.do_call d.socket (parameters d o)).2 (h.do_call d.socket (parameters d o)).1
