-- ===== src/Logging/Trail.antt =====
-- What every request leaves behind: common/interceptors/access-behavior.interceptor.ts.
use mib_server.Prelude.{String, str_eq, Bool, true, false, not, ◌&&◌, some, List, any}
use mib_server.Logging.Redaction.{Value, Fields}
use mib_server.Logging.Access.{LogLine, secret_keys}

abbrev pub is_admin_audit : LogLine → Bool
is_admin_audit (LogLine.admin_audit base action) = true
is_admin_audit _ = false

-- No field of the list.
abbrev pub has_none : List String → Fields → Bool
has_none keys Fields.end = true
has_none keys (Fields.field key v fields) = not (any (str_eq key) keys) && has_none keys fields

abbrev pub hides_keys : List String → Value → Bool
hides_keys keys (Value.object fields) = has_none keys fields
hides_keys keys v = true

-- The body of an access line has none of the secret keys.
abbrev pub hides_secrets : LogLine → Bool
hides_secrets (LogLine.http_access base key slow (some body)) = hides_keys secret_keys body
hides_secrets line = true
