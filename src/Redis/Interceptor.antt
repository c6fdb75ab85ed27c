-- ===== src/Redis/Interceptor.antt =====
-- common/idempotency/idempotency.interceptor.ts and idempotency-key.util.ts. Texts are measured in
-- bytes, which are UTF-16 units for the ASCII keys in use; `trim` belongs to the runtime.
use Prim.Native.String.{◌++◌ as ◌+++◌, len, slice}
use mib_server.Prelude.{
  ℕ, String, str_eq, Bool, ◌||◌, ◌&&◌, Option, none, some, List, [], ◌∷◌, if◌then◌else◌, ltb, leb,
  Result, ok, err,
}
use mib_server.Http.{HttpError}
use mib_server.Redis.Store.{Server}
use mib_server.Redis.Idempotency.{
  Json, BeginResult, begin_request_idempotency, wait_for_completion, complete_request_idempotency,
  fail_request_idempotency,
}

abbrev pub key_min_length : ℕ
key_min_length = 8

abbrev pub key_max_length : ℕ
key_max_length = 128

-- `normalizeIdempotencyClientKey`
unfoldable pub normalize_idempotency_client_key : (String → String) → Option String → Option String
normalize_idempotency_client_key trim none = none
normalize_idempotency_client_key trim (some raw) =
    let key = trim raw in
    if str_eq key ""
    then none
    else if ltb (len key) key_min_length || ltb key_max_length (len key)
    then none
    else some key

-- `buildScopedIdempotencyKey`
abbrev pub build_scoped_idempotency_key : String → String → String
build_scoped_idempotency_key scope client_key = scope +++ (":" +++ client_key)

abbrev pub join_parts : List String → String
join_parts [] = ""
join_parts (p ∷ []) = p
join_parts (p ∷ q ∷ ps) = p +++ (":" +++ join_parts (q ∷ ps))

-- The loop of `deriveIdempotencyKeyFromBody` over the fields; `field` is `getNestedBodyField` and
-- `String(value)`, with a value that is missing or null given as `none`.
unfoldable pub collect_parts : (String → Option String) → List String → Option (List String)
collect_parts field [] = some []
collect_parts field (f ∷ fs) =
    let rest = collect_parts field fs in
    elim (field f) [
      | none ↦ none
      | some value ↦
          if str_eq value ""
          then none
          else elim rest [ none ↦ none | some parts ↦ some (value ∷ parts) ]
    ]

abbrev pub key_or_slice : Option String → String → Option String
key_or_slice (some key) derived = some key
key_or_slice none derived =
    if leb key_min_length (len derived) then some (slice derived 0 key_max_length) else none

-- `deriveIdempotencyKeyFromBody`
unfoldable pub derive_idempotency_key_from_body :
    (String → String) → (String → Option String) → List String → Option String
unfolding collect_parts normalize_idempotency_client_key
derive_idempotency_key_from_body trim field fields = elim (collect_parts field fields) [
  | none ↦ none
  | some parts ↦
      key_or_slice (normalize_idempotency_client_key trim (some (join_parts parts)))
        (join_parts parts)
]

-- `IdempotentOptions`, as far as the code reads it, with the defaults filled in.
pub record IdempotentOptions : Type 0 where
  pub scope : String
  pub required : Bool
  pub processing_ttl : ℕ
  pub result_ttl : ℕ
  pub body_key_fields : List String

-- `resolveClientKey`: the header, or the fields of the body
unfoldable pub resolve_client_key :
    (String → String) → Option String → (String → Option String) → List String → Option String
unfolding normalize_idempotency_client_key derive_idempotency_key_from_body
resolve_client_key trim header field fields = elim (normalize_idempotency_client_key trim header) [
  | some key ↦ some key
  | none ↦ elim fields [ [] ↦ none | f ∷ fs ↦ derive_idempotency_key_from_body trim field (f ∷ fs) ]
]

pub data Prepared : Type 0 where
  skip : Prepared
  replayed : ℕ → String → Prepared
  proceeds : String → Prepared

-- What a request sees of time and of the others: the times of its two attempts, what others do
-- inside each, the polls between, and the state of the server when the second attempt begins.
pub record Surroundings (R : Type 0) : Type 0 where
  pub first_at : ℕ
  pub second_at : ℕ
  pub first_race : R → R
  pub second_race : R → R
  pub polls : ℕ
  pub poll_world : R → ℕ → ℕ × R
  pub waited : R → R

-- What the handler gave: a status code with a body, or an exception.
pub data Handled : Type 0 where
  answered : ℕ → String → Handled
  threw : HttpError → Handled

-- The status that is stored: that of the response where it is one, else the default
abbrev pub code_of : ℕ → ℕ → ℕ
code_of status default_code = if leb 200 status && ltb status 600 then status else default_code

module _ {R : Type 0} (server : Server R) (json : Json) where
  -- The end of `prepare`, by the second attempt.
  abbrev pub settle : String → BeginResult × R → Result HttpError Prepared × R
  settle scope_key (BeginResult.proceed, r) = (ok (proceeds scope_key), r)
  settle scope_key (BeginResult.replay code body, r) = (ok (replayed code body), r)
  settle scope_key (BeginResult.in_progress, r) =
      (err (HttpError.conflict "相同幂等键的请求正在处理中，请稍后重试"), r)

  -- The wait and the second attempt, where the first found the request in progress.
  unfoldable pub wait_and_retry : Surroundings R → String → ℕ → R → Result HttpError Prepared × R
  unfolding wait_for_completion begin_request_idempotency
  wait_and_retry w scope_key ttl r =
      elim (wait_for_completion server json w.polls (w.poll_world r) scope_key) [
        | some (code, body) ↦ (ok (replayed code body), w.waited r)
        | none ↦ settle scope_key (
            begin_request_idempotency server json w.second_at w.second_at w.second_race scope_key
              ttl (w.waited r))
      ]

  -- `prepare`, with the client key resolved
  unfoldable pub prepare :
      Surroundings R → IdempotentOptions → Option String → R → Result HttpError Prepared × R
  unfolding wait_and_retry begin_request_idempotency
  prepare w meta none r =
      if meta.required
      then (err (HttpError.bad_request "Idempotency-Key header is required"), r)
      else (ok skip, r)
  prepare w meta (some client_key) r =
      let scope_key = build_scoped_idempotency_key meta.scope client_key in
      let (begun, r') =
        begin_request_idempotency server json w.first_at w.first_at w.first_race scope_key
          meta.processing_ttl r in
      elim begun [
        | BeginResult.proceed ↦ (ok (proceeds scope_key), r')
        | BeginResult.replay code body ↦ (ok (replayed code body), r')
        | BeginResult.in_progress ↦ wait_and_retry w scope_key meta.processing_ttl r'
      ]

  -- The pipe behind `next.handle()` of a request that proceeds
  unfoldable pub finish : ℕ → ℕ → String → ℕ → Handled → R → Result HttpError String × R
  unfolding complete_request_idempotency fail_request_idempotency
  finish now default_code scope_key ttl (threw error) r =
      (err error, fail_request_idempotency server json now scope_key r)
  finish now default_code scope_key ttl (answered status body) r =
      let code = code_of status default_code in
      if leb 200 code && ltb code 300
      then (ok body, complete_request_idempotency server json now now scope_key code body ttl r)
      else (ok body, fail_request_idempotency server json now scope_key r)
