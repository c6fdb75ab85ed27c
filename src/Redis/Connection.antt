-- ===== src/Redis/Connection.antt =====
-- infrastructure/redis/redis.service.ts: the connection, and the commands beside those of `Store`.
-- The client's answer to a ping and its events are arguments; log lines are left out.
use mib_server.Prelude.{
  ℕ, ◌-◌, String, Bool, true, false, none, some, List, [], ◌∷◌, Result, ok, err, if◌then◌else◌,
}
use mib_server.Prelude.Int.{ℤ, pos, negsuc}
use mib_server.Config.Env.{NodeEnv, is_production_env}
use mib_server.Redis.Store.{Server, is_some}

-- `bindEvents`
pub data ClientEvent : Type 0 where
  ready close reconnecting failed : ClientEvent

-- The flag `ready` after an event.
unfoldable pub on_event : ClientEvent → Bool → Bool
on_event ClientEvent.ready was = true
on_event ClientEvent.close was = false
on_event ClientEvent.reconnecting was = false
on_event ClientEvent.failed was = false

unfoldable pub on_events : List ClientEvent → Bool → Bool
unfolding on_event
on_events [] was = was
on_events (event ∷ events) was = on_events events (on_event event was)

-- `onModuleInit`: the flag, or what is thrown in production
unfoldable pub on_module_init : NodeEnv → Result String Unit → Result String Bool
on_module_init node_env (ok _) = ok true
on_module_init node_env (err error) = if is_production_env node_env then err error else ok false

-- `healthCheck`, with the time before and after the ping
pub data Health : Type 0 where
  healthy : ℕ → Health
  unhealthy : String → Health

unfoldable pub health_check : ℕ → ℕ → Result String Unit → Health
health_check start done (ok _) = healthy (done - start)
health_check start done (err error) = unhealthy error

-- `formatError`: `JSON.stringify` may throw
pub data RedisError : Type 0 where
  an_error : String → RedisError
  a_text : String → RedisError
  a_value : Result Unit String → RedisError

unfoldable pub format_error : RedisError → String
format_error (an_error message) = message
format_error (a_text s) = s
format_error (a_value (ok json)) = json
format_error (a_value (err _)) = "Unknown Redis error"

-- `serialize` and `deserialize`, for values that are texts or other JSON; a text that is JSON is
-- read as the value it stands for.
pub data Stored (V : Type 0) : Type 0 where
  text : String → Stored V
  json : V → Stored V

unfoldable pub serialize : {V : Type 0} → (V → String) → Stored V → String
serialize stringify (text s) = s
serialize stringify (json v) = stringify v

unfoldable pub deserialize : {V : Type 0} → (String → Result Unit (Stored V)) → String → Stored V
deserialize parse s = elim (parse s) [ ok v ↦ v | err _ ↦ text s ]

module _ {R : Type 0} (server : Server R) where
  -- `expire`: whether the key is there
  unfoldable pub expire_key : ℕ → String → ℕ → R → Bool × R
  expire_key now key ttl r = (is_some (server.get now key r), server.expire now key ttl r)

  -- `ttl`: -2 for no key, -1 for a key without an expiry
  unfoldable pub ttl : ℕ → String → R → ℤ
  ttl now key r = elim (server.get now key r) [
    | none ↦ negsuc 1
    | some _ ↦ elim (server.ttl_of now key r) [ none ↦ negsuc 0 | some seconds ↦ pos seconds ]
  ]
