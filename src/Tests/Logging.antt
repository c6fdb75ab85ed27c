-- ===== src/Tests/Logging.antt =====
-- What is logged of a student's data and of an administrator's request.
use Prim.Native.String.{len}
use mib_server.Prelude.{if◌then◌else◌, ◌≡◌, refl, str_eq, true, none, some, [], ◌∷◌}
use mib_server.Prelude.Int.{pos}
use mib_server.Rbac.Permissions.{UserRole}
use mib_server.Logging.Redaction.{SliceRuntime, Value, Fields, redact_for_log}
use mib_server.Logging.Redacted.{is_clean, IsMasked, redact_for_log-IsMasked}
use mib_server.Logging.Visits.{count_of, count_all}
use mib_server.Logging.Access.{RouteRuntime, Request, is_mutation}
use mib_server.Logging.Errors.{
  error, other, catch_exception, lookup_field, is_foreign, catch_exception-tells,
}

-- Keys in lower case but for one, and slices that are marked.
abbrev js : SliceRuntime
js = record {
  to_lower = λ s. if str_eq s "qrToken" then "qrtoken" else s;
  length = len;
  slice = λ s from to. "*";
}

abbrev student : Value
student = Value.object (
    Fields.field "name" (Value.text "Amy") (
      Fields.field "login" (Value.object (Fields.field "password" (Value.text "secret") Fields.end))
        (Fields.field "phone" (Value.text "13800138000") Fields.end)))

redacted :
    redact_for_log js student
    ≡ Value.object (
        Fields.field "name" (Value.text "Amy") (
          Fields.field "login"
            (Value.object Fields.end)
            (Fields.field "phone" (Value.text "******") Fields.end)))
unfolding redact_for_log
redacted = refl

-- The token of a QR code is kept: its key is compared in lower case with "qrToken".
qr_token_kept :
    redact_for_log js (Value.object (Fields.field "qrToken" (Value.text "secret") Fields.end))
    ≡ Value.object (Fields.field "qrToken" (Value.text "secret") Fields.end)
unfolding redact_for_log
qr_token_kept = refl

redact_for_log-IsMasked_example :
    (is_clean js (redact_for_log js student) ≡ true) × IsMasked js (redact_for_log js student)
redact_for_log-IsMasked_example = redact_for_log-IsMasked js student

two_visits : count_of "GET /a" (count_all ("GET /a" ∷ "GET /b" ∷ "GET /a" ∷ []) []) ≡ 2
unfolding count_all
two_visits = refl

abbrev routes : RouteRuntime
routes = record {
  before_question = λ s. s;
  replace_uuid = λ s. s;
  replace_long_id = λ s. s;
  replace_number = λ s. s;
}

abbrev change : Request
change = record {
  id = "r1";
  method = "POST";
  original_url = "/users";
  url = "/users";
  ip = none;
  user_agent = none;
  user = some (record { user_id = "kim"; username = "kim"; role = UserRole.admin });
  body = Value.object (Fields.field "password" (Value.text "secret") Fields.end);
}

changes : is_mutation "POST" ≡ true
unfolding is_mutation
changes = refl

catch_exception-tells_example :
    (lookup_field "statusCode"
        (catch_exception "r1" "GET" "/a" (error "TypeError" "x is undefined" "at a.ts:1")).0.1
      ≡ some (
          Value.number (
            pos
              (catch_exception "r1" "GET" "/a"
                (error "TypeError" "x is undefined" "at a.ts:1")).0.0)))
    × (is_foreign (error "TypeError" "x is undefined" "at a.ts:1") ≡ true
        → is_foreign (other Value.null) ≡ true
        → (catch_exception "r1" "GET" "/a" (error "TypeError" "x is undefined" "at a.ts:1")).0
          ≡ (catch_exception "r1" "GET" "/a" (other Value.null)).0)
catch_exception-tells_example =
    catch_exception-tells "r1" "GET" "/a" (error "TypeError" "x is undefined" "at a.ts:1")
      (other Value.null)
