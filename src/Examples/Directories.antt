-- ===== src/Examples/Directories.antt =====
-- A run of the client of src/oio/directory/dir.cpp.
use oio_sds_cpp.Prelude.{
  ℕ, suc, ◌≡◌, refl, true, false, Bool, ◌==◌, ◌∷◌, none, [], some, Bytes, bytes,
}
use oio_sds_cpp.Api.{success}
use oio_sds_cpp.Http.Request.{ok}
use oio_sds_cpp.Directory.{
  Json, Caller, DirectoryClient, perform, perform-is_ok, ends_ok, decode, http_call, destroy,
}

-- Stands for the test of an object.
abbrev is_braced : Bytes → Bool
is_braced [] = false
is_braced (c ∷ s) = c == b'{'

-- Every document tells the status 420.
abbrev one_document : Json
one_document = record {
  Value = Bytes;
  parse = λ b. some b;
  is_object = is_braced;
  member = λ v k. some k;
  as_int = λ v. some 420;
  as_text = λ v. some v;
  write_properties = λ m. [];
}

abbrev replies_error : Caller
replies_error = record {
  State = ℕ;
  do_call = λ s p. (suc s, record p { body_out = bytes "{}" }, ok);
}

abbrev reference : DirectoryClient one_document replies_error
reference = record {
  url = record {
    ns = bytes "NS";
    account = bytes "A";
    container = bytes "C";
    srv_type = [];
    path = [];
    cid = [];
  };
  properties = [];
  socket = 0;
}

perform-is_ok_example :
    ends_ok one_document replies_error (perform one_document replies_error reference destroy).1
    ≡ some true
perform-is_ok_example = perform-is_ok one_document replies_error reference destroy

-- The code of the reply is there, with a cause of success.
code_of_reply :
    (perform one_document replies_error reference destroy).1
    ≡ some (record success { code = 420; msg = bytes "message" })
unfolding perform http_call decode
code_of_reply = refl

abbrev replies_list : Caller
replies_list = record {
  State = ℕ;
  do_call = λ s p. (suc s, record p { body_out = bytes "[]" }, ok);
}

-- A reply that is an empty list ends the program.
ends_at_list :
    (perform one_document replies_list
      (record { url = reference.url; properties = []; socket = 0 })
      destroy).1
    ≡ none
unfolding perform http_call decode
ends_at_list = refl
