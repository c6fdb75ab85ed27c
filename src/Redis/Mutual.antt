-- ===== src/Redis/Mutual.antt =====
-- What the locks of infrastructure/redis promise: one holder at a time, and none left behind.
use Prim.Native.String.{◌++◌ as ◌+++◌}
use mib_server.Prelude.{
  ℕ, ◌+◌, ◌≡◌, refl, String, str_eq, true, false, inl, inr, Option, none, some, List, [], ◌∷◌, All,
  Bool-cases, Option-cases, eq_refl, ltb, Result,
}
use mib_server.Http.{HttpError}
use mib_server.Redis.Store.{
  Server, is_some, holds, acquire_lock, release_lock, set_nx, set, renew_lock, del,
}
use mib_server.Redis.Locks.{
  HeldLock, business_lock_key, release_held_business_locks, run_held, verification_code_key,
  is_code, consume_verification_code,
}

abbrev pub redis_key : String → String
redis_key resource = "lock:" +++ business_lock_key resource

module _ {R : Type 0} (server : Server R) where
  -- A lock that was taken for some seconds refuses every other taker until they are over, and
  -- neither a release nor a renewal with another token has any effect.
  pub acquire_lock-excludes :
      (now at : ℕ) (key token other : String) (ttl ttl' : ℕ) (r : R)
      → (acquire_lock server now key ttl token r).0 ≡ some token
      → ltb 0 ttl ≡ true
      → ltb at (now + ttl) ≡ true
      → str_eq token other ≡ false
      → ((acquire_lock server at key ttl' other (acquire_lock server now key ttl token r).1).0
          ≡ none)
        × (release_lock server at key other (acquire_lock server now key ttl token r).1
            ≡ (false, (acquire_lock server now key ttl token r).1))
        × (renew_lock server at key other ttl' (acquire_lock server now key ttl token r).1
            ≡ (false, (acquire_lock server now key ttl token r).1))
  unfolding acquire_lock set_nx set release_lock renew_lock
  acquire_lock-excludes now at key token other ttl ttl' r got some_time soon differ =
      elim (Bool-cases (is_some (server.get now ("lock:" +++ key) r))) [
        | inl taken ↦ absurd (cc (rw taken at got))
        | inr free ↦
            let there : server.get at ("lock:" +++ key)
                  (server.put_ex now ("lock:" +++ key) token ttl r)
                ≡ some token =
              simp (server.get_put_ex, eq_refl ("lock:" +++ key), soon) in
            simp (free, some_time, there, differ) (refl, refl, refl)
      ]

  -- Releasing a lock leaves no value that matches the token.
  release_lock-frees :
      (now : ℕ) (key token : String) (r : R)
      → holds server
          (server.get now ("lock:" +++ key) (release_lock server now key token r).1)
          token
        ≡ false
  unfolding release_lock
  release_lock-frees now key token r =
      elim (Bool-cases (holds server (server.get now ("lock:" +++ key) r) token)) [
        | inl e ↦ simp (e, server.get_remove, eq_refl ("lock:" +++ key))
        | inr e ↦ simp e
      ]

  -- What is not held before another lock is released is not held after.
  release_lock-keeps :
      (now : ℕ) (key token j other : String) (r : R)
      → holds server (server.get now j r) other ≡ false
      → holds server (server.get now j (release_lock server now key token r).1) other ≡ false
  unfolding release_lock
  release_lock-keeps now key token j other r h =
      elim (Bool-cases (holds server (server.get now ("lock:" +++ key) r) token)) [
        | inl e ↦ elim (Bool-cases (str_eq ("lock:" +++ key) j)) [
          | inl s ↦ simp (e, server.get_remove, s)
          | inr s ↦ simp (e, server.get_remove, s, h)
        ]
        | inr e ↦ simp (e, h)
      ]

  All-not_held :
      (now : ℕ) (key token : String) (hs : List HeldLock) (r : R)
      → All (λ h. holds server (server.get now (redis_key h.resource) r) h.token ≡ false) hs
      → All
          (λ h.
            holds server
              (server.get now (redis_key h.resource) (release_lock server now key token r).1)
              h.token
            ≡ false)
          hs
  All-not_held now key token [] r k = tt
  All-not_held now key token (h ∷ hs) r k = (
    release_lock-keeps now key token (redis_key h.resource) h.token r k.0,
    All-not_held now key token hs r k.1,
  )

  released :
      (now : ℕ) (hs : List HeldLock) (r : R)
      → All
          (λ h.
            holds server
              (server.get now (redis_key h.resource) (release_held_business_locks server now hs r))
              h.token
            ≡ false)
          hs
  unfolding release_held_business_locks
  released now [] r = tt
  released now (h ∷ hs) r = (
    release_lock-frees now (business_lock_key h.resource) h.token
        (release_held_business_locks server now hs r),
    All-not_held now (business_lock_key h.resource) h.token hs
        (release_held_business_locks server now hs r) (released now hs r),
  )

  -- However a run under locks ends, with an answer, an exception or the timeout, and whatever
  -- happened on the server meanwhile, none of its locks is held by its token afterwards.
  pub run_held-releases :
      {A : Type 0} (done ms : ℕ) (sorted : List String) (ends : Option (ℕ × Result HttpError A))
      (world : R → R) (held : List HeldLock) (r : R)
      → All
          (λ h.
            holds server
              (server.get done
                (redis_key h.resource)
                (run_held server done ms sorted ends world held r).1)
              h.token
            ≡ false)
          held
  unfolding run_held
  run_held-releases done ms sorted ends world held r = released done held (world r)

  -- A verification code that was accepted is not accepted again by a request that begins after the
  -- answer, whatever code it gives and whatever other requests did between the GET and the DEL of
  -- either, if no code was set since the answer. Two requests that both read before either deletes
  -- are both accepted.
  pub consume_verification_code-once :
      (read_text : String → Option String) (meanwhile meanwhile' : R → R) (now later : ℕ)
      (scene target code again : String) (r : R)
      → (consume_verification_code server read_text meanwhile now scene target code r).0 ≡ true
      → consume_verification_code server read_text meanwhile' later scene target again
          (consume_verification_code server read_text meanwhile now scene target code r).1
        ≡ (false, (consume_verification_code server read_text meanwhile now scene target code r).1)
  unfolding consume_verification_code del
  consume_verification_code-once read_text meanwhile meanwhile' now later scene target code again r
        h =
      elim (Option-cases (server.get now (verification_code_key server scene target) r)) [
        | inr (stored, e) ↦ elim (Bool-cases (is_code server (read_text stored) code)) [
          | inl s ↦ simp (
            e,
            s,
            server.get_remove,
            eq_refl (verification_code_key server scene target),
            consume_verification_code,
          )
          | inr s ↦ absurd (cc (rw s at (rw (e, consume_verification_code) at h)))
        ]
        | inl e ↦ absurd (cc (rw (e, consume_verification_code) at h))
      ]
