-- ===== src/Flash/Http.antt =====
-- FlashHTTPAdapter (src/long_haul/work/flash_http.py): requests, answers, and what is read of a
-- request. Serving has the routes.
-- Parameters: what the fixture is given, `json.loads` on a body, the views of a JSON value as an
-- object and as a string, and `json.dumps` on an answer, which may raise. The bytes and headers of
-- an answer are left out. An exception of the stream is a fault that its `read` returns.
pub mod Serving
pub mod Routes
pub mod Sessions
mod Examples
use long_haul.Prelude.{
  ℕ, ◌+◌, ◌*◌, ◌-◌, Bool, true, false, not, ◌&&◌, ◌||◌, Option, none, some, List, [], ◌∷◌, ltb, leb,
  nat_eq, if◌then◌else◌, is_none, length, all, Text, codes, ◌==◌, contains,
}
use long_haul.Prelude.Results.{
  Fault, Result, ok, err, value_error, key_error, type_error, runtime_error, lease_error,
  verification_error, lifecycle_error, service_error, ◌>>=◌, ◌>>◌, raise_if,
}
use long_haul.Prelude.Dict.{Dict, get, keys}
use long_haul.Prelude.Strings.{strip, rstrip, drop_while, split_on}
use long_haul.Work.Contracts.{WorkContract, FlashExecutionExtension, CapabilityState, admits}
use long_haul.Flash.Clock.{Exec}
use long_haul.Flash.Fixture.{Delivery, Injected, Fixture, claim, renew, abandon, complete}

-- The entries of the WSGI environment that the adapter reads.
pub record Environ : Type 0 where
  pub request_method : Option Text
  pub path_info : Option Text
  pub content_type : Option Text
  pub content_length : Option Text
  pub input : Option (ℕ → Result (List ℕ))

-- The JSON objects that the adapter answers with.
pub data Payload (Json : Type 0) : Type 0 where
  error : Text → Payload Json
  declined no_work abandoned : Payload Json
  claimed : Delivery → Payload Json
  renewed : Text → ℕ → Payload Json
  completed : Option Json → Payload Json

-- What the adapter takes from a JSON library and does not implement.
pub record Decoder (Json : Type 0) : Type 0 where
  pub parse : List ℕ → Result Json
  pub as_object : Json → Option (Dict Json)
  pub as_string : Json → Option Text
  pub encode : Payload Json → Result Text

pub record Response (Json : Type 0) : Type 0 where
  pub status : Text
  pub payload : Payload Json
  pub allow : Option Text

pub record FlashHttpAdapter : Type 0 where
  pub max_body_bytes : ℕ
  pub admitted : Bool

abbrev pub admits_contract :
    Option FlashExecutionExtension → CapabilityState → Option ℕ → Bool → Bool
admits_contract none state memory initialized = false
admits_contract (some extension) state memory initialized =
    admits extension state memory initialized

-- __init__
unfoldable pub create :
    WorkContract → CapabilityState → Option ℕ → Bool → ℕ → Result FlashHttpAdapter
unfolding admits
create contract state memory initialized max_body_bytes = do
  raise_if (ltb max_body_bytes 1) value_error
  ok (record {
    max_body_bytes = max_body_bytes;
    admitted = admits_contract contract.flash_execution state memory initialized;
  })

-- environ.get(key, "")
abbrev pub or_empty : Option Text → Text
or_empty none = []
or_empty (some text) = text

-- str.lower of one code point below 256, which is what WSGI passes
abbrev pub lower_code : ℕ → ℕ
lower_code c =
    if (leb 65 c && leb c 90) || (leb 192 c && leb c 222 && not (nat_eq c 215)) then c + 32 else c

unfoldable pub lower : Text → Text
lower [] = []
lower (c ∷ cs) = lower_code c ∷ lower cs

-- The first piece of a split text.
abbrev pub first_piece : List Text → Text
first_piece [] = []
first_piece (piece ∷ pieces) = piece

-- content_type.split(";", 1)[0].strip().lower() == "application/json"
unfoldable pub is_json : Text → Bool
unfolding split_on strip lower ◌==◌
is_json content_type =
    lower (strip (first_piece (split_on 59 content_type))) == codes "application/json"

abbrev pub is_digit : ℕ → Bool
is_digit c = leb 48 c && leb c 57

-- int(text) of decimal digits, read from the left
unfoldable pub decimal_value : ℕ → Text → ℕ
decimal_value seen [] = seen
decimal_value seen (c ∷ cs) = decimal_value (seen * 10 + (c - 48)) cs

-- int() refuses a longer text with a ValueError: sys.get_int_max_str_digits().
abbrev pub max_str_digits : ℕ
max_str_digits = 4300

-- isascii() and isdecimal()
abbrev pub is_decimal : Text → Bool
is_decimal [] = false
is_decimal (c ∷ cs) = all is_digit (c ∷ cs)

-- What _read_body returns; `too_large` is its _BodyTooLarge.
pub data Body : Type 0 where
  too_large : Body
  body : List ℕ → Body

abbrev pub read_input : Option (ℕ → Result (List ℕ)) → ℕ → Result (List ℕ)
read_input none size = ok []
read_input (some read) size = read size

abbrev pub read_exactly : Option (ℕ → Result (List ℕ)) → ℕ → Result Body
read_exactly input size = do
  bytes ← read_input input size
  raise_if (not (nat_eq (length bytes) size)) value_error
  ok (body bytes)

abbrev pub read_sized : FlashHttpAdapter → Environ → Option Text → Result Body
read_sized adapter environ none = err value_error
read_sized adapter environ (some raw) = do
  raise_if (not (is_decimal raw) || ltb max_str_digits (length raw)) value_error
  if ltb adapter.max_body_bytes (decimal_value 0 raw)
      then ok too_large
      else read_exactly environ.input (decimal_value 0 raw)

-- _read_body
unfoldable pub read_body : FlashHttpAdapter → Environ → Result Body
unfolding decimal_value
read_body adapter environ = read_sized adapter environ environ.content_length

abbrev pub operation_in : Text → List Text → Option Text
operation_in job_id (v ∷ jobs ∷ job ∷ operation ∷ []) =
    if v == codes "v1" && jobs == codes "jobs" && job == job_id then some operation else none
operation_in job_id _ = none

abbrev pub is_slash : ℕ → Bool
is_slash c = nat_eq c 47

-- _operation_from_path
unfoldable pub operation_from_path : Text → Text → Option Text
unfolding split_on rstrip drop_while ◌==◌
operation_from_path job_id path =
    operation_in job_id (split_on 47 (rstrip is_slash (drop_while is_slash path)))

-- The except clauses; LeaseError, VerificationError and LeaseLifecycleError are ValueErrors.
abbrev pub fault_response : {Json : Type 0} → Fault → Response Json
fault_response lease_error = record {
  status = codes "409 Conflict";
  payload = error (codes "lease_conflict");
  allow = none;
}
fault_response verification_error = record {
  status = codes "422 Unprocessable Entity";
  payload = error (codes "invalid_result");
  allow = none;
}
fault_response value_error = record {
  status = codes "400 Bad Request";
  payload = error (codes "invalid_request");
  allow = none;
}
fault_response lifecycle_error = record {
  status = codes "400 Bad Request";
  payload = error (codes "invalid_request");
  allow = none;
}
fault_response _ = record {
  status = codes "500 Internal Server Error";
  payload = error (codes "internal_error");
  allow = none;
}
