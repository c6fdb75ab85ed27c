-- ===== src/Redis/Progress.antt =====
-- A run under locks that are free runs: infrastructure/redis/redis-business.service.ts.
use text.Mathlib.TextLemmas.{append_cancel_left}
use mib_server.Prelude.{
  sym, ◌∙◌, eq_iff, ℕ, ◌≡◌, refl, String, str_eq, Bool, true, false, inl, inr, Option, some, List,
  [], ◌∷◌, ◌++◌, any, arith, Bool-cases, ltb, Result,
}
use mib_server.Http.{HttpError}
use mib_server.Redis.Store.{Server, is_some, set}
use mib_server.Redis.Locks.{
  HeldLock, all_held, business_lock_key, acquire_all, race_timeout, run_held, as_thrown, timeout_ms,
  run_with_business_locks, sort_texts, distinct,
}
use mib_server.Redis.Mutual.{redis_key}
use mib_server.Redis.Distinct.{all_differ, order-differ, order-free}

redis_key-differ : (a b : String) → str_eq a b ≡ false → str_eq (redis_key a) (redis_key b) ≡ false
redis_key-differ a b h = elim (Bool-cases (str_eq (redis_key a) (redis_key b))) [
  | inl e ↦
      let same : a ≡ b = append_cancel_left "biz:" a b (
        append_cancel_left "lock:" (business_lock_key a) (business_lock_key b)
          ((eq_iff (redis_key a) (redis_key b)).0 e)) in
      absurd (cc (sym h ∙ (eq_iff a b).1 same))
  | inr e ↦ e
]

module _ {R : Type 0} (server : Server R) where
  -- The lock of a resource is held by someone.
  abbrev pub is_taken : ℕ → R → String → Bool
  is_taken now r resource = is_some (server.get now (redis_key resource) r)

  set-other :
      (now : ℕ) (key other value : String) (ttl : ℕ) (r : R)
      → str_eq key other ≡ false
      → server.get now other (set server now key value ttl r) ≡ server.get now other r
  unfolding set
  set-other now key other value ttl r h = elim (Bool-cases (ltb 0 ttl)) [
    | inl e ↦ rw e (simp (server.get_put_ex, h))
    | inr e ↦ rw e (simp (server.get_put, h))
  ]

  still_free :
      (now ttl : ℕ) (resource token : String) (rest : List String) (r : R)
      → any (str_eq resource) rest ≡ false
      → any (is_taken now r) rest ≡ false
      → any (is_taken now (set server now (redis_key resource) token ttl r)) rest ≡ false
  still_free now ttl resource token [] r differ free = refl
  still_free now ttl resource token (x ∷ rest) r differ free =
      let other : str_eq (redis_key resource) (redis_key x) ≡ false =
        redis_key-differ resource x (ground arith) in
      rw (set-other now (redis_key resource) (redis_key x) token ttl r other)
        (ground (arith, still_free now ttl resource token rest r))

  acquire_all-end :
      (now ttl : ℕ) (token : String → String) (held : List HeldLock) (r : R)
      → acquire_all server now ttl token [] held r ≡ all_held held r
  unfolding acquire_all
  acquire_all-end now ttl token held r = refl

  acquire_all-step :
      (now ttl : ℕ) (token : String → String) (resource : String) (rest : List String)
      (held : List HeldLock) (r : R)
      → is_taken now r resource ≡ false
      → acquire_all server now ttl token (resource ∷ rest) held r
        ≡ acquire_all server now ttl token rest
            (held ++ (record { resource = resource; token = token resource } ∷ []))
            (set server now (redis_key resource) (token resource) ttl r)
  unfolding acquire_all
  acquire_all-step now ttl token resource rest held r free = rw (free, acquire_all) refl

  acquire_all-free :
      (now ttl : ℕ) (token : String → String) (rs : List String) (held : List HeldLock) (r : R)
      → all_differ rs ≡ true
      → any (is_taken now r) rs ≡ false
      → (all : List HeldLock) × (r' : R) × (acquire_all server now ttl token rs held r
          ≡ all_held all r')
  acquire_all-free now ttl token [] held r differ free =
      (held, r, acquire_all-end now ttl token held r)
  acquire_all-free now ttl token (resource ∷ rest) held r differ free =
      let here : is_taken now r resource ≡ false = ground arith in
      let (all, r', e) =
        acquire_all-free now ttl token rest
          (held ++ (record { resource = resource; token = token resource } ∷ []))
          (set server now (redis_key resource) (token resource) ttl r) (ground arith)
          (still_free now ttl resource (token resource) rest r (ground arith) (ground arith)) in
      (all, r', acquire_all-step now ttl token resource rest held r here ∙ e)

  -- Where none of the locks is held and `fn` ends before its timeout, the run gives what `fn` gives,
  -- an answer or an exception, whatever the order, the repetitions and the number of the resources.
  pub run_with_business_locks-runs :
      {A : Type 0} (now done : ℕ) (resources : List String) (ttl : ℕ) (token : String → String)
      (ms : Option ℕ) (on_busy : Option HttpError) (at : ℕ) (result : Result HttpError A)
      (world : R → R) (r : R)
      → any (is_taken now r) resources ≡ false
      → ltb at (timeout_ms server ms ttl) ≡ true
      → (run_with_business_locks server now done resources ttl token ms on_busy
          (some (at, result))
          world
          r).0
        ≡ as_thrown server result
  unfolding run_with_business_locks run_held race_timeout
  run_with_business_locks-runs now done resources ttl token ms on_busy at result world r free
        in_time =
      let order = sort_texts (distinct resources) in
      let (all, r', e) =
        acquire_all-free now ttl token order [] r (order-differ resources)
          (order-free (is_taken now r) resources free) in
      rw (e, run_with_business_locks) (rw in_time refl)
