-- ===== src/Redis/Replay.antt =====
-- What request idempotency promises (common/idempotency and redis-business.service.ts): one answer
-- per key while it is kept, and a fresh start after a failure.
use mib_server.Prelude.{ℕ, ◌+◌, ◌≡◌, refl, String, Bool, true, ◌&&◌, none, some, eq_refl, ltb, leb}
use mib_server.Http.{HttpError}
use mib_server.Redis.Store.{Server, set, set_nx, del}
use mib_server.Redis.Idempotency.{
  Json, StoredRecord, BeginResult, idempotency_key, get_record, begin_again,
  begin_request_idempotency, complete_request_idempotency, fail_request_idempotency, processing,
  completed,
}
use mib_server.Redis.Interceptor.{code_of, finish, answered, threw}

-- A status code under which the interceptor keeps the answer.
abbrev pub is_success : ℕ → Bool
is_success code = leb 200 code && ltb code 300

abbrev pub as_it_is : {R : Type 0} → R → R
as_it_is r = r

module _ {R : Type 0} (server : Server R) (json : Json) where
  get_record-stringify :
      (now : ℕ) (key : String) (s : StoredRecord) (r : R)
      → server.get now key r ≡ some (json.stringify s)
      → get_record server json now key r ≡ some s
  unfolding get_record
  get_record-stringify now key s r h = rw (h, get_record) (json.parse_stringify s)

  begin_again-completed :
      (now started code stamp : ℕ) (key body : String) (ttl : ℕ) (r : R)
      → server.get now key r ≡ some (json.stringify (completed code body stamp))
      → begin_again server json now started key ttl r ≡ (BeginResult.replay code body, r)
  unfolding begin_again
  begin_again-completed now started code stamp key body ttl r h =
      rw (get_record-stringify now key (completed code body stamp) r h, begin_again) refl

  begin_again-processing :
      (now started stamp : ℕ) (key : String) (ttl : ℕ) (r : R)
      → server.get now key r ≡ some (json.stringify (processing stamp))
      → begin_again server json now started key ttl r ≡ (BeginResult.in_progress, r)
  unfolding begin_again
  begin_again-processing now started stamp key ttl r h =
      rw (get_record-stringify now key (processing stamp) r h, begin_again) refl

  complete-begin :
      (now at started code : ℕ) (scope_key body : String) (ttl ttl' : ℕ) (r : R)
      → ltb 0 ttl ≡ true
      → ltb at (now + ttl) ≡ true
      → begin_request_idempotency server json at started as_it_is scope_key ttl'
          (complete_request_idempotency server json now now scope_key code body ttl r)
        ≡ (
          BeginResult.replay code body,
          complete_request_idempotency server json now now scope_key code body ttl r,
        )
  unfolding begin_request_idempotency complete_request_idempotency set_nx set
  complete-begin now at started code scope_key body ttl ttl' r some_time soon =
      let there : server.get at (idempotency_key scope_key) (
            server.put_ex now (idempotency_key scope_key) (json.stringify (completed code body now))
              ttl r)
          ≡ some (json.stringify (completed code body now)) =
        simp (server.get_put_ex, eq_refl (idempotency_key scope_key), soon) in
      simp (some_time, there)
        (begin_again-completed at started code now (idempotency_key scope_key) body ttl' _ there)

  -- Once a handler has answered with a status of success and the answer is stored for a positive
  -- time, a request with the same key is given that answer for as long as it is kept, and nothing
  -- is written.
  pub finish-replays :
      (now at started default_code status : ℕ) (scope_key body : String) (ttl ttl' : ℕ) (r : R)
      → is_success (code_of status default_code) ≡ true
      → ltb 0 ttl ≡ true
      → ltb at (now + ttl) ≡ true
      → begin_request_idempotency server json at started as_it_is scope_key ttl'
          (finish server json now default_code scope_key ttl (answered status body) r).1
        ≡ (
          BeginResult.replay (code_of status default_code) body,
          (finish server json now default_code scope_key ttl (answered status body) r).1,
        )
  unfolding finish
  finish-replays now at started default_code status scope_key body ttl ttl' r success some_time
        soon =
      rw success (
        complete-begin now at started (code_of status default_code) scope_key body ttl ttl' r
          some_time soon)

  fail-begin :
      (now at started : ℕ) (scope_key : String) (ttl : ℕ) (r : R)
      → (begin_request_idempotency server json at started as_it_is scope_key ttl
          (fail_request_idempotency server json now scope_key r)).0
        ≡ BeginResult.proceed
  unfolding begin_request_idempotency fail_request_idempotency set_nx del
  fail-begin now at started scope_key ttl r =
      let gone : server.get at (idempotency_key scope_key)
            (server.remove (idempotency_key scope_key) r)
          ≡ none =
        simp (server.get_remove, eq_refl (idempotency_key scope_key)) in
      simp gone

  -- After an exception the key is free: the next request with it runs the handler.
  pub finish-frees :
      (now at started default_code : ℕ) (scope_key : String) (ttl ttl' : ℕ) (error : HttpError)
      (r : R)
      → (begin_request_idempotency server json at started as_it_is scope_key ttl'
          (finish server json now default_code scope_key ttl (threw error) r).1).0
        ≡ BeginResult.proceed
  unfolding finish
  finish-frees now at started default_code scope_key ttl ttl' error r =
      fail-begin now at started scope_key ttl' r

  -- Of two requests that begin with a free key, the first runs and the second is told, for as long as
  -- the marker lives, that it is in progress, and writes nothing.
  pub begin_request_idempotency-excludes :
      (now at started started' : ℕ) (scope_key : String) (ttl ttl' : ℕ) (r : R)
      → server.get now (idempotency_key scope_key) r ≡ none
      → ltb 0 ttl ≡ true
      → ltb at (now + ttl) ≡ true
      → ((begin_request_idempotency server json now started as_it_is scope_key ttl r).0
          ≡ BeginResult.proceed)
        × (begin_request_idempotency server json at started' as_it_is scope_key ttl'
              (begin_request_idempotency server json now started as_it_is scope_key ttl r).1
            ≡ (
              BeginResult.in_progress,
              (begin_request_idempotency server json now started as_it_is scope_key ttl r).1,
            ))
  unfolding begin_request_idempotency set_nx set
  begin_request_idempotency-excludes now at started started' scope_key ttl ttl' r free some_time
        soon =
      let there : server.get at (idempotency_key scope_key) (
            server.put_ex now (idempotency_key scope_key) (json.stringify (processing started)) ttl
              r)
          ≡ some (json.stringify (processing started)) =
        simp (server.get_put_ex, eq_refl (idempotency_key scope_key), soon) in
      simp (free, some_time, there)
        (refl, begin_again-processing at started' started (idempotency_key scope_key) ttl' _ there)
