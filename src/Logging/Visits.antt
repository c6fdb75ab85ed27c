-- ===== src/Logging/Visits.antt =====
-- common/logger/page-visit.accumulator.ts and common/logger/page-visit.flush.cron.ts: the counters
-- of page visits. The `Map` is the list of its entries in the order of insertion.
use mib_server.Prelude.{
  ℕ, ◌+◌, ◌≡◌, refl, String, str_eq, Option, none, some, List, [], ◌∷◌, if◌then◌else◌, count_where,
  arith, eq_iff,
}
use mib_server.Config.Env.{NodeEnv}

abbrev pub Counts : Type 0
Counts = List (String × ℕ)

-- `counts.get(routeKey) ?? 0`
abbrev pub count_of : String → Counts → ℕ
count_of key [] = 0
count_of key ((k, n) ∷ counts) = if str_eq k key then n else count_of key counts

-- `counts.set(routeKey, next)`
abbrev pub set_count : String → ℕ → Counts → Counts
set_count key next [] = (key, next) ∷ []
set_count key next ((k, n) ∷ counts) =
    if str_eq k key then (k, next) ∷ counts else (k, n) ∷ set_count key next counts

-- `increment`: the new count
unfoldable pub increment : String → Counts → ℕ × Counts
increment route_key counts =
    let next = count_of route_key counts + 1 in (next, set_count route_key next counts)

-- `peek`
unfoldable pub peek : Counts → Counts
peek counts = counts

pub record Snapshot : Type 0 where
  pub routes : Counts
  pub recorded_at : ℕ
  pub env : Option NodeEnv

-- `flushSnapshot`: what is logged, if anything; `onModuleDestroy` of winston-loggers.service.ts
-- logs the same without the environment
unfoldable pub flush_snapshot : Option NodeEnv → ℕ → Counts → Option Snapshot
unfolding peek
flush_snapshot env now [] = none
flush_snapshot env now (entry ∷ counts) =
    some (record { routes = peek (entry ∷ counts); recorded_at = now; env = env })

-- The increments of a sequence of requests, one after the other.
unfoldable pub count_all : List String → Counts → Counts
unfolding increment
count_all [] counts = counts
count_all (key ∷ keys) counts = count_all keys (increment key counts).1

count_of-set_count :
    (key j : String) (n : ℕ) (counts : Counts)
    → count_of j (set_count key n counts) ≡ (if str_eq key j then n else count_of j counts)
count_of-set_count key j n [] = refl
count_of-set_count key j n ((k, m) ∷ counts) =
    ground (arith, eq_iff k key, eq_iff k j, eq_iff key j, count_of-set_count key j n counts)

-- Whatever was counted before, each key is counted once for each request that has it.
pub count_all-counts :
    (keys : List String) (counts : Counts) (j : String)
    → count_of j (count_all keys counts)
      ≡ count_where (λ key. str_eq key j) keys + count_of j counts
unfolding count_all
count_all-counts [] counts j = omega arith
count_all-counts (key ∷ keys) counts j = ground (
  arith,
  count_all-counts keys (set_count key (count_of key counts + 1) counts) j,
  count_of-set_count key j (count_of key counts + 1) counts,
  eq_iff key j,
)
