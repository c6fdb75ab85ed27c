-- ===== src/Redis/Business.antt =====
-- infrastructure/redis/redis-business.service.ts: the cache, login sessions, rate limits, marks of
-- idempotency, and locks on one resource. Values are read and written by functions of the runtime.
use Prim.Native.String.{◌++◌ as ◌+++◌}
use mib_server.Prelude.{
  ℕ, String, Bool, true, false, Option, none, some, [], ◌∷◌, Result, if◌then◌else◌,
}
use mib_server.Http.{HttpError}
use mib_server.Redis.Store.{
  Server, set, set_nx, del, get_value, get_or_set, acquire_lock, renew_lock, release_lock,
  rate_limit,
}
use mib_server.Redis.Locks.{
  LockError, business_lock_key, login_session_key, run_with_business_locks,
}
use mib_server.Redis.Idempotency.{idempotency_key}

-- `cacheKey`
abbrev pub cache_key : String → String → String
cache_key namespace id = "cache:" +++ (namespace +++ (":" +++ id))

module _ {R V : Type 0} (server : Server R) (deserialize : String → Option V)
    (serialize : V → String) where
  -- `getCache`, `setCache`, `deleteCache`, `remember`
  unfoldable pub get_cache : ℕ → String → String → R → Option V
  unfolding get_value
  get_cache now namespace id r = get_value server deserialize now (cache_key namespace id) r

  unfoldable pub set_cache : ℕ → String → String → V → ℕ → R → R
  unfolding set
  set_cache now namespace id value ttl r =
      set server now (cache_key namespace id) (serialize value) ttl r

  unfoldable pub delete_cache : ℕ → String → String → R → ℕ × R
  unfolding del
  delete_cache now namespace id r = del server now (cache_key namespace id) r

  unfoldable pub remember : ℕ → String → String → ℕ → V → R → V × R
  unfolding get_or_set
  remember now namespace id ttl value r =
      get_or_set server deserialize serialize now (cache_key namespace id) ttl value r

  -- `saveLoginSession`, `getLoginSession`, `removeLoginSession`
  unfoldable pub save_login_session : ℕ → String → String → V → ℕ → R → R
  unfolding set
  save_login_session now user_id token_id payload ttl r =
      set server now (login_session_key server user_id token_id) (serialize payload) ttl r

  unfoldable pub get_login_session : ℕ → String → String → R → Option V
  unfolding get_value
  get_login_session now user_id token_id r =
      get_value server deserialize now (login_session_key server user_id token_id) r

  unfoldable pub remove_login_session : ℕ → String → String → R → ℕ × R
  unfolding del
  remove_login_session now user_id token_id r =
      del server now (login_session_key server user_id token_id) r

  -- `markIdempotency`: whether the key was there, and its value then; without a value the mark is
  -- "PENDING"
  abbrev pub mark_of : Option V → String
  mark_of none = "PENDING"
  mark_of (some value) = serialize value

  unfoldable pub mark_idempotency : ℕ → String → ℕ → Option V → R → (Bool × Option V) × R
  unfolding set_nx get_value
  mark_idempotency now business_key ttl value r =
      let key = idempotency_key business_key in
      let (created, r') = set_nx server now key (mark_of value) ttl r in
      if created then ((false, none), r') else ((true, get_value server deserialize now key r'), r')

  -- `completeIdempotency`
  unfoldable pub complete_idempotency : ℕ → String → V → ℕ → R → R
  unfolding set
  complete_idempotency now business_key value ttl r =
      set server now (idempotency_key business_key) (serialize value) ttl r

module _ {R : Type 0} (server : Server R) where
  -- `checkRateLimit`: whether the call is allowed, the count, the limit and the seconds left
  unfoldable pub check_rate_limit : ℕ → String → String → ℕ → ℕ → R → (Bool × ℕ × ℕ × ℕ) × R
  unfolding rate_limit
  check_rate_limit now scope subject limit window r =
      let ((allowed, current, left), r') =
        rate_limit server now (scope +++ (":" +++ subject)) limit window r in
      ((allowed, current, limit, left), r')

  -- `acquireBusinessLock`, `renewBusinessLock`, `releaseBusinessLock`
  unfoldable pub acquire_business_lock : ℕ → String → ℕ → String → R → Option String × R
  unfolding acquire_lock
  acquire_business_lock now resource ttl token r =
      acquire_lock server now (business_lock_key resource) ttl token r

  unfoldable pub renew_business_lock : ℕ → String → String → ℕ → R → Bool × R
  unfolding renew_lock
  renew_business_lock now resource token ttl r =
      renew_lock server now (business_lock_key resource) token ttl r

  unfoldable pub release_business_lock : ℕ → String → String → R → Bool × R
  unfolding release_lock
  release_business_lock now resource token r =
      release_lock server now (business_lock_key resource) token r

  -- `runWithBusinessLock`
  unfoldable pub run_with_business_lock :
      {A : Type 0}
      → ℕ
      → ℕ
      → String
      → ℕ
      → (String → String)
      → Option ℕ
      → Option HttpError
      → Option (ℕ × Result HttpError A)
      → (R → R)
      → R
      → Result LockError A × R
  unfolding run_with_business_locks
  run_with_business_lock now done resource ttl token ms on_busy ends world r =
      run_with_business_locks server now done (resource ∷ []) ttl token ms on_busy ends world r
