-- ===== src/Redis/Idempotency.antt =====
-- The request idempotency of infrastructure/redis/redis-business.service.ts and
-- common/idempotency/idempotency.types.ts: a marker while the first request runs, its answer after.
use Prim.Native.String.{◌++◌ as ◌+++◌}
use mib_server.Prelude.{ℕ, zero, suc, ◌≡◌, String, Option, none, some, if◌then◌else◌}
use mib_server.Redis.Store.{Server, set, set_nx, del}

-- `IdempotencyStoredRecord`; a body is the text of its JSON.
pub data StoredRecord : Type 0 where
  processing : ℕ → StoredRecord
  completed : ℕ → String → ℕ → StoredRecord

pub data BeginResult : Type 0 where
  proceed : BeginResult
  replay : ℕ → String → BeginResult
  in_progress : BeginResult

-- `JSON.stringify` and `JSON.parse` of a stored record, which belong to the runtime.
pub record Json : Type 0 where
  pub stringify : StoredRecord → String
  pub parse : String → Option StoredRecord
  pub parse_stringify : (s : StoredRecord) → parse (stringify s) ≡ some s

abbrev pub idempotency_key : String → String
idempotency_key business_key = "idempotency:" +++ business_key

module _ {R : Type 0} (server : Server R) (json : Json) where
  -- `redis.get<IdempotencyStoredRecord>`
  unfoldable pub get_record : ℕ → String → R → Option StoredRecord
  get_record now key r = elim (server.get now key r) [ none ↦ none | some text ↦ json.parse text ]

  -- The answer to a request that did not set the marker; `r` is the state of the server by then.
  unfoldable pub begin_again : ℕ → ℕ → String → ℕ → R → BeginResult × R
  unfolding get_record set_nx
  begin_again now started key ttl r = elim (get_record now key r) [
    | none ↦
        let (retry, r') = set_nx server now key (json.stringify (processing started)) ttl r in
        (if retry then proceed else in_progress, r')
    | some (completed code body at) ↦ (replay code body, r)
    | some (processing at) ↦ (in_progress, r)
  ]

  -- `beginRequestIdempotency`; `race` is what other requests do between the two commands.
  unfoldable pub begin_request_idempotency : ℕ → ℕ → (R → R) → String → ℕ → R → BeginResult × R
  unfolding begin_again
  begin_request_idempotency now started race scope_key ttl r =
      let key = idempotency_key scope_key in
      let (created, r') = set_nx server now key (json.stringify (processing started)) ttl r in
      if created then (proceed, r') else begin_again now started key ttl (race r')

  -- `completeRequestIdempotency`, `failRequestIdempotency`
  unfoldable pub complete_request_idempotency : ℕ → ℕ → String → ℕ → String → ℕ → R → R
  unfolding set
  complete_request_idempotency now stamp scope_key code body ttl r =
      set server now (idempotency_key scope_key) (json.stringify (completed code body stamp)) ttl r

  unfoldable pub fail_request_idempotency : ℕ → String → R → R
  unfolding del
  fail_request_idempotency now scope_key r = (del server now (idempotency_key scope_key) r).1

  -- `waitForRequestIdempotencyCompletion`: `polls` is how many polls fit before the deadline, and
  -- `world n` the time and the state of the server that the poll with `n` left sees.
  unfoldable pub wait_for_completion : ℕ → (ℕ → ℕ × R) → String → Option (ℕ × String)
  unfolding get_record
  wait_for_completion zero world scope_key = none
  wait_for_completion (suc polls) world scope_key =
      let rest = wait_for_completion polls world scope_key in
      elim (get_record (world polls).0 (idempotency_key scope_key) (world polls).1) [
        | none ↦ none
        | some (completed code body at) ↦ some (code, body)
        | some (processing at) ↦ rest
      ]
