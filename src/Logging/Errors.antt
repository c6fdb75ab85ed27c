-- ===== src/Logging/Errors.antt =====
-- common/errors/all-exceptions.filter.ts: what a client is told of an exception, and what is logged.
-- A request is what the log takes of it.
use mib_server.Prelude.{
  ℕ, ◌≡◌, refl, String, str_eq, Bool, true, false, Option, none, some, leb, if◌then◌else◌,
  Bool-cases, inl, inr,
}
use mib_server.Prelude.Int.{pos}
use mib_server.Logging.Redaction.{Value, Fields}

-- What is thrown: an `HttpException` with its status and its response, another `Error`, or any value.
pub data Thrown : Type 0 where
  http_text : ℕ → String → Thrown
  http_object : ℕ → Fields → Thrown
  error : String → String → String → Thrown
  other : Value → Thrown

-- The fields of a logged line, with the response of the exception where it has one; the detail of
-- an exception that is not one of HTTP.
pub record ErrorLine : Type 0 where
  pub request_id : String
  pub method : String
  pub path : String
  pub status_code : ℕ
  pub response : Value

pub data Logged : Type 0 where
  server_error : ErrorLine → Thrown → Logged
  client_error : ErrorLine → Logged

unfoldable pub status_of : Thrown → ℕ
status_of (http_text status s) = status
status_of (http_object status fields) = status
status_of _ = 500

unfoldable pub payload_of : Thrown → Value
payload_of (http_text status s) = Value.text s
payload_of (http_object status fields) = Value.object fields
payload_of _ = Value.undefined

-- `{ ...payload, [key]: value }`
abbrev pub set_field : String → Value → Fields → Fields
set_field key v Fields.end = Fields.field key v Fields.end
set_field key v (Fields.field k w fields) =
    if str_eq k key then Fields.field k v fields else Fields.field k w (set_field key v fields)

-- The message stands in the body only where the payload is no object.
unfoldable pub message_of : Value → Value
message_of (Value.text s) = Value.text s
message_of _ = Value.text "Internal server error"

unfoldable pub body_of : ℕ → Value → Fields
unfolding message_of
body_of status (Value.object fields) = set_field "statusCode" (Value.number (pos status)) fields
body_of status payload =
    Fields.field "statusCode" (Value.number (pos status))
      (Fields.field "message" (message_of payload) Fields.end)

-- `catch`: the status and the body of the answer, and the line that is logged
unfoldable pub catch_exception : String → String → String → Thrown → (ℕ × Fields) × Logged
unfolding status_of payload_of body_of
catch_exception request_id method path exception =
    let status = status_of exception in
    let line : ErrorLine = record {
      request_id = request_id;
      method = method;
      path = path;
      status_code = status;
      response = payload_of exception;
    } in
    (
      (status, body_of status (payload_of exception)),
      if leb 500 status then server_error line exception else client_error line,
    )

abbrev pub lookup_field : String → Fields → Option Value
lookup_field key Fields.end = none
lookup_field key (Fields.field k v fields) =
    if str_eq k key then some v else lookup_field key fields

lookup_field-set_field :
    (key : String) (v : Value) (fields : Fields)
    → str_eq key key ≡ true
    → lookup_field key (set_field key v fields) ≡ some v
lookup_field-set_field key v Fields.end h = rw h refl
lookup_field-set_field key v (Fields.field k w fields) h = elim (Bool-cases (str_eq k key)) [
  | inl e ↦ rw e (rw e refl)
  | inr e ↦ rw e (rw e (lookup_field-set_field key v fields h))
]

body_of-status :
    (status : ℕ) (payload : Value)
    → lookup_field "statusCode" (body_of status payload) ≡ some (Value.number (pos status))
unfolding body_of
body_of-status status (Value.object fields) =
    lookup_field-set_field "statusCode" (Value.number (pos status)) fields refl
body_of-status status Value.undefined = refl
body_of-status status Value.null = refl
body_of-status status (Value.boolean b) = refl
body_of-status status (Value.number n) = refl
body_of-status status (Value.text s) = refl
body_of-status status (Value.array items) = refl

-- An exception that is none of HTTP.
abbrev pub is_foreign : Thrown → Bool
is_foreign (error name message stack) = true
is_foreign (other v) = true
is_foreign _ = false

foreign-alike :
    (request_id method path : String) (a b : Thrown)
    → is_foreign a ≡ true
    → is_foreign b ≡ true
    → (catch_exception request_id method path a).0 ≡ (catch_exception request_id method path b).0
unfolding catch_exception
foreign-alike request_id method path (http_text _ _) b ha hb = absurd (cc)
foreign-alike request_id method path (http_object _ _) b ha hb = absurd (cc)
foreign-alike request_id method path a (http_text _ _) ha hb = absurd (cc)
foreign-alike request_id method path a (http_object _ _) ha hb = absurd (cc)
foreign-alike request_id method path (error _ _ _) (error _ _ _) ha hb = refl
foreign-alike request_id method path (error _ _ _) (other _) ha hb = refl
foreign-alike request_id method path (other _) (error _ _ _) ha hb = refl
foreign-alike request_id method path (other _) (other _) ha hb = refl

-- The body's status code is always the status of the answer, also where the exception's response has
-- a status of its own; and of an exception that is none of HTTP the client is told nothing: any two
-- of them are answered alike.
pub catch_exception-tells :
    (request_id method path : String) (exception unlike : Thrown)
    → (lookup_field "statusCode" (catch_exception request_id method path exception).0.1
        ≡ some (Value.number (pos (catch_exception request_id method path exception).0.0)))
      × (is_foreign exception ≡ true
          → is_foreign unlike ≡ true
          → (catch_exception request_id method path exception).0
            ≡ (catch_exception request_id method path unlike).0)
unfolding catch_exception
catch_exception-tells request_id method path exception unlike = (
  body_of-status (status_of exception) (payload_of exception),
  foreign-alike request_id method path exception unlike,
)
