-- ===== src/Redis/Store.antt =====
-- infrastructure/redis/redis.service.ts over the commands of a Redis server. The server and its
-- client are not part of the repository: `Server` is a record of the commands that are sent, with
-- what their documentation says of the keys that are live. Values are kept as texts; the JSON of a
-- value that is not a text is an argument where it matters.
use Prim.Native.String.{◌++◌ as ◌+++◌}
use mib_server.Prelude.{
  ℕ, ◌+◌, ◌-◌, ◌≡◌, String, str_eq, Bool, true, false, ◌&&◌, Option, none, some, if◌then◌else◌, ltb,
  leb, ◌==◌,
}

-- The commands on a state `R` of the server. Each is sent at a time, in seconds; a key that is past
-- its expiry is gone.
pub record Server (R : Type 0) : Type 0 where
  -- `GET`, and the seconds left of a key that has an expiry
  pub get : ℕ → String → R → Option String
  pub ttl_of : ℕ → String → R → Option ℕ
  -- `SET key value`, `SET key value EX seconds`, `DEL key`, `EXPIRE key seconds`
  pub put : String → String → R → R
  pub put_ex : ℕ → String → String → ℕ → R → R
  pub remove : String → R → R
  pub expire : ℕ → String → ℕ → R → R
  -- `INCR`: the new value
  pub incr : ℕ → String → R → ℕ × R
  pub get_put :
      (now : ℕ) (k j v : String) (r : R)
      → get now j (put k v r) ≡ (if str_eq k j then some v else get now j r)
  pub get_put_ex :
      (now at : ℕ) (k j v : String) (s : ℕ) (r : R)
      → get at j (put_ex now k v s r)
        ≡ (if str_eq k j then (if ltb at (now + s) then some v else none) else get at j r)
  pub get_remove :
      (now : ℕ) (k j : String) (r : R)
      → get now j (remove k r) ≡ (if str_eq k j then none else get now j r)
  pub get_expire :
      (now at : ℕ) (k j : String) (s : ℕ) (r : R)
      → get at j (expire now k s r)
        ≡ (if str_eq k j then (if ltb at (now + s) then get now j r else none) else get at j r)
  pub get_incr_other :
      (now at : ℕ) (k j : String) (r : R)
      → str_eq k j ≡ false
      → get at j (incr now k r).1 ≡ get at j r
  pub ttl_put_ex :
      (now at : ℕ) (k j v : String) (s : ℕ) (r : R)
      → ttl_of at j (put_ex now k v s r) ≡ (
          if str_eq k j
          then (if ltb at (now + s) then some (now + s - at) else none)
          else ttl_of at j r)
  pub ttl_remove :
      (now : ℕ) (k j : String) (r : R)
      → ttl_of now j (remove k r) ≡ (if str_eq k j then none else ttl_of now j r)
  pub ttl_incr :
      (now at : ℕ) (k j : String) (r : R)
      → leb now at ≡ true
      → ttl_of at j (incr now k r).1 ≡ ttl_of at j r

abbrev pub is_some {ℓ} : {A : Type ℓ} → Option A → Bool
is_some none = false
is_some (some a) = true

module _ {R : Type 0} (server : Server R) where
  -- `set`: with an expiry where the seconds are positive
  unfoldable pub set : ℕ → String → String → ℕ → R → R
  set now key value ttl r =
      if ltb 0 ttl then server.put_ex now key value ttl r else server.put key value r

  -- `setNx`: whether the key was set
  unfoldable pub set_nx : ℕ → String → String → ℕ → R → Bool × R
  unfolding set
  set_nx now key value ttl r =
      if is_some (server.get now key r) then (false, r) else (true, set now key value ttl r)

  -- `del` of one key: how many were there
  unfoldable pub del : ℕ → String → R → ℕ × R
  del now key r = (if is_some (server.get now key r) then 1 else 0, server.remove key r)

  -- `exists`
  unfoldable pub exists : ℕ → String → R → Bool
  exists now key r = is_some (server.get now key r)

  -- `incr`: the expiry is set when the counter begins
  unfoldable pub incr_with_ttl : ℕ → String → ℕ → R → ℕ × R
  incr_with_ttl now key ttl r =
      let (value, r') = server.incr now key r in
      (value, if value == 1 && ltb 0 ttl then server.expire now key ttl r' else r')

  -- `get`: what `deserialize` makes of the stored text; JSON's null counts as none
  unfoldable pub get_value : {V : Type 0} → (String → Option V) → ℕ → String → R → Option V
  get_value deserialize now key r = elim (server.get now key r) [
    | none ↦ none
    | some stored ↦ deserialize stored
  ]

  -- `getOrSet`; `value` is what the factory gives
  unfoldable pub get_or_set :
      {V : Type 0} → (String → Option V) → (V → String) → ℕ → String → ℕ → V → R → V × R
  unfolding get_value set
  get_or_set deserialize serialize now key ttl value r = elim (get_value deserialize now key r) [
    | some cached ↦ (cached, r)
    | none ↦ (value, set now key (serialize value) ttl r)
  ]

  -- `acquireLock`, with the token that the default argument makes
  unfoldable pub acquire_lock : ℕ → String → ℕ → String → R → Option String × R
  unfolding set_nx
  acquire_lock now key ttl token r =
      let (locked, r') = set_nx now ("lock:" +++ key) token ttl r in
      (if locked then some token else none, r')

  -- The scripts of `renewLock` and `releaseLock`: only where the token still matches.
  abbrev pub holds : Option String → String → Bool
  holds none token = false
  holds (some t) token = str_eq t token

  unfoldable pub renew_lock : ℕ → String → String → ℕ → R → Bool × R
  renew_lock now key token ttl r =
      if holds (server.get now ("lock:" +++ key) r) token
      then (true, server.expire now ("lock:" +++ key) ttl r)
      else (false, r)

  unfoldable pub release_lock : ℕ → String → String → R → Bool × R
  release_lock now key token r =
      if holds (server.get now ("lock:" +++ key) r) token
      then (true, server.remove ("lock:" +++ key) r)
      else (false, r)

  -- `rateLimit`: the key's seconds left are what `TTL` answers, here with 0 for its -1 and -2
  abbrev pub ttl_or_zero : Option ℕ → ℕ
  ttl_or_zero none = 0
  ttl_or_zero (some s) = s

  unfoldable pub rate_limit : ℕ → String → ℕ → ℕ → R → (Bool × ℕ × ℕ) × R
  unfolding incr_with_ttl
  rate_limit now key limit window r =
      let (current, r') = incr_with_ttl now ("rate:" +++ key) window r in
      ((leb current limit, current, ttl_or_zero (server.ttl_of now ("rate:" +++ key) r')), r')
