-- ===== src/Redis/Locks.antt =====
-- infrastructure/redis/redis-business.service.ts: locks, sessions, the token blacklist and
-- verification codes; redis-lock.errors.ts. A run of `fn` under locks is one step here, with the
-- time at which it ends, so the timer that renews the locks is left out: `fn` either ends within
-- its timeout with a result, or the timeout wins the race.
use Prim.Native.String.{◌++◌ as ◌+++◌}
use mib_server.Prelude.{
  ℕ, ◌-◌, ◌*◌, max, String, str_eq, Bool, true, false, Option, none, some, if◌then◌else◌, ltb, List,
  [], ◌∷◌, ◌++◌, Result, ok, err,
}
use Prim.Native.String.{compare}
use Prim.Native.Nat.{Ordering}
use mib_server.Http.{HttpError}
use mib_server.Redis.Store.{Server, set, del, exists, acquire_lock, release_lock, is_some}

pub record HeldLock : Type 0 where
  pub resource : String
  pub token : String

pub data LockError : Type 0 where
  busy : String → LockError
  operation_timeout : List String → ℕ → LockError
  thrown : HttpError → LockError

abbrev pub business_lock_key : String → String
business_lock_key resource = "biz:" +++ resource

-- `[...new Set(resources)].sort()`, for texts whose UTF-8 and UTF-16 orders agree
abbrev pub drop_eq : String → List String → List String
drop_eq x [] = []
drop_eq x (y ∷ ys) = if str_eq x y then drop_eq x ys else y ∷ drop_eq x ys

unfoldable pub distinct : List String → List String
distinct [] = []
distinct (r ∷ rs) = r ∷ drop_eq r (distinct rs)

abbrev pub text_le : String → String → Bool
text_le s t = elim (compare s t) [ Ordering.gt ↦ false | _ ↦ true ]

abbrev pub insert_text : String → List String → List String
insert_text s [] = s ∷ []
insert_text s (t ∷ ts) = if text_le s t then s ∷ t ∷ ts else t ∷ insert_text s ts

unfoldable pub sort_texts : List String → List String
sort_texts [] = []
sort_texts (s ∷ ss) = insert_text s (sort_texts ss)

-- What the loop that acquires has come to.
pub data Acquired (R : Type 0) : Type 0 where
  all_held : List HeldLock → R → Acquired R
  busy_at : String → List HeldLock → R → Acquired R

module _ {R : Type 0} (server : Server R) where
  -- `saveLoginSession`, `removeLoginSession`
  abbrev pub login_session_key : String → String → String
  login_session_key user_id token_id = "auth:session:" +++ (user_id +++ (":" +++ token_id))

  -- `blacklistToken`, `isTokenBlacklisted`
  abbrev pub token_blacklist_key : String → String
  token_blacklist_key token_id = "auth:blacklist:" +++ token_id

  unfoldable pub blacklist_token : ℕ → String → ℕ → R → R
  unfolding set
  blacklist_token now token_id ttl r = set server now (token_blacklist_key token_id) "1" ttl r

  unfoldable pub is_token_blacklisted : ℕ → String → R → Bool
  unfolding exists
  is_token_blacklisted now token_id r = exists server now (token_blacklist_key token_id) r

  -- `setVerificationCode`, `consumeVerificationCode`
  abbrev pub verification_code_key : String → String → String
  verification_code_key scene target = "verify:" +++ (scene +++ (":" +++ target))

  unfoldable pub set_verification_code : ℕ → String → String → String → ℕ → R → R
  unfolding set
  set_verification_code now scene target code ttl r =
      set server now (verification_code_key scene target) code ttl r

  -- `read_text` is what `deserialize` gives where that is a text: the digits of a number are read as
  -- a number, which equals no code.
  abbrev pub is_code : Option String → String → Bool
  is_code none code = false
  is_code (some cached) code = str_eq cached code

  -- `consumeVerificationCode`; `meanwhile` is what other requests do between the GET and the DEL, and
  -- the DEL counts whether or not the key is still there.
  unfoldable pub consume_verification_code :
      (String → Option String) → (R → R) → ℕ → String → String → String → R → Bool × R
  unfolding del
  consume_verification_code read_text meanwhile now scene target code r =
      elim (server.get now (verification_code_key scene target) r) [
        | none ↦ (false, r)
        | some stored ↦
            if is_code (read_text stored) code
            then (true, (del server now (verification_code_key scene target) (meanwhile r)).1)
            else (false, r)
      ]

  -- `releaseHeldBusinessLocks`: last acquired, first released
  unfoldable pub release_held_business_locks : ℕ → List HeldLock → R → R
  unfolding release_lock
  release_held_business_locks now [] r = r
  release_held_business_locks now (h ∷ hs) r =
      (release_lock server now (business_lock_key h.resource) h.token
        (release_held_business_locks now hs r)).1

  -- The loop that acquires; `token` gives the token of each lock.
  unfoldable pub acquire_all :
      ℕ → ℕ → (String → String) → List String → List HeldLock → R → Acquired R
  unfolding acquire_lock
  acquire_all now ttl token [] held r = all_held held r
  acquire_all now ttl token (resource ∷ rest) held r =
      let (got, r') = acquire_lock server now (business_lock_key resource) ttl (token resource) r in
      let next =
        acquire_all now ttl token rest
          (held ++ record { resource = resource; token = token resource } ∷ []) r' in
      if is_some got then next else busy_at resource held r'

  -- `RunWithBusinessLockOptions`, as far as it is read here: the timeout, and what `onBusy` throws
  -- `operationTimeoutMs ?? Math.max(1000, (ttlSeconds - 1) * 1000)`
  abbrev pub timeout_ms : Option ℕ → ℕ → ℕ
  timeout_ms none ttl = max 1000 ((ttl - 1) * 1000)
  timeout_ms (some ms) ttl = ms

  abbrev pub busy_error : Option HttpError → String → LockError
  busy_error none resource = busy resource
  busy_error (some thrown_by_on_busy) resource = thrown thrown_by_on_busy

  abbrev pub as_thrown : {A : Type 0} → Result HttpError A → Result LockError A
  as_thrown (ok a) = ok a
  as_thrown (err e) = err (thrown e)

  -- `Promise.race` of `fn` and the timer: `ends` is when `fn` settles, in milliseconds, and how.
  unfoldable pub race_timeout :
      {A : Type 0} → List String → ℕ → Option (ℕ × Result HttpError A) → Result LockError A
  race_timeout sorted ms none = err (operation_timeout sorted ms)
  race_timeout sorted ms (some (at, result)) =
      if ltb at ms then as_thrown result else err (operation_timeout sorted ms)

  -- The run of `fn` and the `finally`: `world` is what has become of the server meanwhile.
  unfoldable pub run_held :
      {A : Type 0}
      → ℕ
      → ℕ
      → List String
      → Option (ℕ × Result HttpError A)
      → (R → R)
      → List HeldLock
      → R
      → Result LockError A × R
  unfolding race_timeout release_held_business_locks
  run_held done ms sorted ends world held r =
      (race_timeout sorted ms ends, release_held_business_locks done held (world r))

  -- `runWithBusinessLocks`, begun at `now` and over at `done`
  unfoldable pub run_with_business_locks :
      {A : Type 0}
      → ℕ
      → ℕ
      → List String
      → ℕ
      → (String → String)
      → Option ℕ
      → Option HttpError
      → Option (ℕ × Result HttpError A)
      → (R → R)
      → R
      → Result LockError A × R
  unfolding acquire_all run_held distinct sort_texts
  run_with_business_locks now done resources ttl token ms on_busy ends world r =
      let sorted = sort_texts (distinct resources) in
      elim (acquire_all now ttl token sorted [] r) [
        | all_held held r' ↦ run_held done (timeout_ms ms ttl) sorted ends world held r'
        | busy_at resource held r' ↦
            (err (busy_error on_busy resource), release_held_business_locks now held r')
      ]
