-- ===== src/Tests/Redis.antt =====
-- Locks, request idempotency and verification codes over the server in memory.
use mib_server.Prelude.{
  str_eq, if◌then◌else◌, Option, String, ℕ, ◌≡◌, refl, true, false, none, some, [], ◌∷◌, ok, Result,
  All,
}
use mib_server.Http.{HttpError}
use mib_server.Redis.Store.{holds, acquire_lock, release_lock, renew_lock, set_nx, set}
use mib_server.Redis.Progress.{run_with_business_locks-runs}
use mib_server.Redis.Locks.{
  HeldLock, run_with_business_locks, as_thrown, run_held, set_verification_code,
  consume_verification_code,
}
use mib_server.Redis.Idempotency.{BeginResult, begin_request_idempotency}
use mib_server.Redis.Interceptor.{answered, threw, finish, code_of}
use mib_server.Redis.Mutual.{
  acquire_lock-excludes, run_held-releases, consume_verification_code-once, redis_key,
}
use mib_server.Redis.Replay.{
  finish-replays, finish-frees, begin_request_idempotency-excludes, as_it_is,
}
use mib_server.Redis.Memory.{Keys, memory_server, memory_json}

abbrev no_keys : Keys
no_keys key = none

acquire_first : (acquire_lock memory_server 100 "biz:coach" 30 "token 1" no_keys).0 ≡ some "token 1"
unfolding acquire_lock set_nx set
acquire_first = refl

abbrev taken : Keys
unfolding acquire_lock
taken = (acquire_lock memory_server 100 "biz:coach" 30 "token 1" no_keys).1

acquire_lock-excludes_example :
    ((acquire_lock memory_server 120 "biz:coach" 30 "token 2"
        (acquire_lock memory_server 100 "biz:coach" 30 "token 1" no_keys).1).0
      ≡ none)
    × (release_lock memory_server 120 "biz:coach" "token 2"
          (acquire_lock memory_server 100 "biz:coach" 30 "token 1" no_keys).1
        ≡ (false, (acquire_lock memory_server 100 "biz:coach" 30 "token 1" no_keys).1))
    × (renew_lock memory_server 120 "biz:coach" "token 2" 30
          (acquire_lock memory_server 100 "biz:coach" 30 "token 1" no_keys).1
        ≡ (false, (acquire_lock memory_server 100 "biz:coach" 30 "token 1" no_keys).1))
acquire_lock-excludes_example =
    acquire_lock-excludes memory_server 100 120 "biz:coach" "token 1" "token 2" 30 30 no_keys
      acquire_first refl refl refl

abbrev held_coach : HeldLock
held_coach = record { resource = "coach"; token = "token 1" }

abbrev result : Result HttpError ℕ
result = ok 3

run_held-releases_example :
    All
      (λ h.
        holds memory_server
          (memory_server.get 101
            (redis_key h.resource)
            (run_held memory_server 101 14000
              ("coach" ∷ [])
              (some (900, result))
              as_it_is
              (held_coach ∷ [])
              taken).1)
          h.token
        ≡ false)
      (held_coach ∷ [])
run_held-releases_example =
    run_held-releases memory_server 101 14000 ("coach" ∷ []) (some (900, result)) as_it_is
      (held_coach ∷ []) taken

consume_first :
    (consume_verification_code memory_server some as_it_is 5 "login" "amy" "kx34"
      (set_verification_code memory_server 1 "login" "amy" "kx34" 60 no_keys)).0
    ≡ true
unfolding consume_verification_code set_verification_code
consume_first = refl

consume_verification_code-once_example :
    consume_verification_code memory_server some as_it_is 6 "login" "amy" "kx34"
      (consume_verification_code memory_server some as_it_is 5 "login" "amy" "kx34"
        (set_verification_code memory_server 1 "login" "amy" "kx34" 60 no_keys)).1
    ≡ (
      false,
      (consume_verification_code memory_server some as_it_is 5 "login" "amy" "kx34"
          (set_verification_code memory_server 1 "login" "amy" "kx34" 60 no_keys)).1,
    )
consume_verification_code-once_example =
    consume_verification_code-once memory_server some as_it_is as_it_is 5 6 "login" "amy" "kx34"
      "kx34" (set_verification_code memory_server 1 "login" "amy" "kx34" 60 no_keys) consume_first

finish-replays_example :
    begin_request_idempotency memory_server memory_json 20 20 as_it_is "orders:key-0001" 30
      (finish memory_server memory_json 10 201 "orders:key-0001" 60 (answered 201 "{}") no_keys).1
    ≡ (
      BeginResult.replay (code_of 201 201) "{}",
      (finish memory_server memory_json 10 201 "orders:key-0001" 60 (answered 201 "{}") no_keys).1,
    )
finish-replays_example =
    finish-replays memory_server memory_json 10 20 20 201 201 "orders:key-0001" "{}" 60 30 no_keys
      refl refl refl

finish-frees_example :
    (begin_request_idempotency memory_server memory_json 20 20 as_it_is "orders:key-0001" 30
      (finish memory_server memory_json 10 201 "orders:key-0001" 60
        (threw (HttpError.conflict "taken"))
        no_keys).1).0
    ≡ BeginResult.proceed
finish-frees_example =
    finish-frees memory_server memory_json 10 20 20 201 "orders:key-0001" 60 30
      (HttpError.conflict "taken") no_keys

begin_request_idempotency-excludes_example :
    ((begin_request_idempotency memory_server memory_json 10 10 as_it_is "orders:key-0001" 120
        no_keys).0
      ≡ BeginResult.proceed)
    × (begin_request_idempotency memory_server memory_json 20 20 as_it_is "orders:key-0001" 120
          (begin_request_idempotency memory_server memory_json 10 10 as_it_is "orders:key-0001" 120
            no_keys).1
        ≡ (
          BeginResult.in_progress,
          (begin_request_idempotency memory_server memory_json 10 10 as_it_is "orders:key-0001" 120
              no_keys).1,
        ))
begin_request_idempotency-excludes_example =
    begin_request_idempotency-excludes memory_server memory_json 10 20 10 20 "orders:key-0001" 120
      120 no_keys refl refl refl

-- Two resources, one of them named twice, with their locks free.
run_with_business_locks-runs_example :
    (run_with_business_locks memory_server 100 101
      ("venue" ∷ "coach" ∷ "venue" ∷ [])
      30
      as_it_is
      none
      none
      (some (900, result))
      as_it_is
      no_keys).0
    ≡ as_thrown memory_server result
run_with_business_locks-runs_example =
    run_with_business_locks-runs memory_server 100 101 ("venue" ∷ "coach" ∷ "venue" ∷ []) 30
      as_it_is none none 900 result as_it_is no_keys refl refl

-- A runtime that reads the digits as a number: the code that was set is refused.
abbrev read_digits : String → Option String
read_digits stored = if str_eq stored "1234" then none else some stored

digits_refused :
    (consume_verification_code memory_server read_digits as_it_is 5 "login" "amy" "1234"
      (set_verification_code memory_server 1 "login" "amy" "1234" 60 no_keys)).0
    ≡ false
unfolding consume_verification_code set_verification_code
digits_refused = refl

-- Another request with the same code, all of it between the GET and the DEL of the first: both are
-- accepted.
accepted_twice :
    ((consume_verification_code memory_server some as_it_is 5 "login" "amy" "kx34"
        (set_verification_code memory_server 1 "login" "amy" "kx34" 60 no_keys)).0
      ≡ true)
    × ((consume_verification_code memory_server some
          (λ r. (consume_verification_code memory_server some as_it_is 5 "login" "amy" "kx34" r).1)
          5
          "login"
          "amy"
          "kx34"
          (set_verification_code memory_server 1 "login" "amy" "kx34" 60 no_keys)).0
        ≡ true)
unfolding consume_verification_code set_verification_code
accepted_twice = (refl, refl)
