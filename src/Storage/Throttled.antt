-- ===== src/Storage/Throttled.antt =====
-- packages/storage/src/throttled.ts: a backend behind two token buckets and a daily write budget.
-- The code keeps tokens as fractions, at `maxPerMinute / 60000` a millisecond. Here they are
-- counted in parts of 1/60000, so that `maxPerMinute` parts come in a millisecond: the numbers are
-- those of the code without its rounding. `Date.now()` is the argument `now`.
pub mod Bucket
pub mod Budget
pub mod Accounted
use osqueue.Base.{
  List, [], ◌∷◌, ◌++◌, ℕ, suc, ◌+◌, ◌-◌, ◌*◌, ◌/◌, ◌%◌, min, max, String, Bool, true, false, not,
  ◌&&◌, Option, none, some, if◌then◌else◌, ltb, leb, nat_eq, or_default,
}
use osqueue.Types.{StorageVersion}
use osqueue.Types.Errors.{Result}
use osqueue.Storage.{StorageBackend, StorageReadResult}

abbrev pub day_ms : ℕ
day_ms = 86_400_000

-- One token, in parts.
abbrev pub token_parts : ℕ
token_parts = 60_000

unfoldable pub start_of_utc_day : ℕ → ℕ
start_of_utc_day ms = ms - ms % day_ms

pub record TokenBucket : Type 0 where
  pub tokens : ℕ
  pub last_refill : ℕ
  pub refill_rate : ℕ
  pub burst : ℕ

pub new_bucket : ℕ → ℕ → TokenBucket
new_bucket now max_per_minute =
    let burst = max 1 (max_per_minute / 60) in
    record {
      tokens = burst * token_parts;
      last_refill = now;
      refill_rate = max_per_minute;
      burst = burst;
    }

unfoldable pub refill : ℕ → TokenBucket → TokenBucket
refill now b =
    let elapsed = now - b.last_refill in
    if ltb 0 elapsed
    then record b {
      tokens = min (b.burst * token_parts) (b.tokens + elapsed * b.refill_rate);
      last_refill = now;
    }
    else b

-- `Math.ceil(deficit / this.refillRate)`, for a rate above 0.
abbrev pub ceil_div : ℕ → ℕ → ℕ
ceil_div a b = (a + (b - 1)) / b

take_token : TokenBucket → ℕ × TokenBucket
take_token b =
    if leb token_parts b.tokens
    then (0, record b { tokens = b.tokens - token_parts })
    else (ceil_div (token_parts - b.tokens) b.refill_rate, record b { tokens = 0 })

-- The delay before a token is available.
unfoldable pub acquire : ℕ → TokenBucket → ℕ × TokenBucket
unfolding refill take_token
acquire now b = take_token (refill now b)

pub record ThrottleStats : Type 0 where
  pub total_reads : ℕ
  pub total_writes : ℕ
  pub throttled_reads : ℕ
  pub throttled_writes : ℕ
  pub total_read_delay_ms : ℕ
  pub total_write_delay_ms : ℕ
  pub daily_write_count : ℕ
  pub daily_budget_exceeded : Bool

abbrev pub no_stats : ThrottleStats
no_stats = record {
  total_reads = 0;
  total_writes = 0;
  throttled_reads = 0;
  throttled_writes = 0;
  total_read_delay_ms = 0;
  total_write_delay_ms = 0;
  daily_write_count = 0;
  daily_budget_exceeded = false;
}

pub record ThrottledOptions : Type 0 where
  pub max_reads_per_minute : Option ℕ
  pub max_writes_per_minute : Option ℕ
  pub max_writes_per_day : Option ℕ

pub record Throttle : Type 0 where
  pub read_bucket : Option TokenBucket
  pub write_bucket : Option TokenBucket
  pub max_writes_per_day : ℕ
  pub daily_write_count : ℕ
  pub day_start : ℕ
  pub stats : ThrottleStats

-- No bucket without a limit, or with the limit 0.
bucket_for : ℕ → Option ℕ → Option TokenBucket
unfolding new_bucket
bucket_for now none = none
bucket_for now (some limit) = if ltb 0 limit then some (new_bucket now limit) else none

pub new_throttle : ℕ → ThrottledOptions → Throttle
unfolding bucket_for start_of_utc_day
new_throttle now o = record {
  read_bucket = bucket_for now o.max_reads_per_minute;
  write_bucket = bucket_for now o.max_writes_per_minute;
  max_writes_per_day = or_default o.max_writes_per_day 0;
  daily_write_count = 0;
  day_start = start_of_utc_day now;
  stats = no_stats;
}

read_delayed : Throttle → ℕ × TokenBucket → ℕ × Throttle
read_delayed t (delay, b) =
    let s = t.stats in
    let t' : Throttle = record t { read_bucket = some b } in
    if ltb 0 delay
    then (
      delay,
      record t' {
        stats = record s {
          throttled_reads = s.throttled_reads + 1;
          total_read_delay_ms = s.total_read_delay_ms + delay;
        };
      },
    )
    else (0, t')

read_limited : ℕ → Throttle → Option TokenBucket → ℕ × Throttle
unfolding read_delayed acquire
read_limited now t none = (0, t)
read_limited now t (some b) = read_delayed t (acquire now b)

-- The wait before a read, and the new state.
unfoldable pub acquire_read : ℕ → Throttle → ℕ × Throttle
unfolding read_limited
acquire_read now t =
    let s = t.stats in
    read_limited now (record t { stats = record s { total_reads = s.total_reads + 1 } })
      t.read_bucket

write_delayed : Throttle → ℕ × TokenBucket → ℕ × Throttle
write_delayed t (delay, b) =
    let s = t.stats in
    let t' : Throttle = record t { write_bucket = some b } in
    if ltb 0 delay
    then (
      delay,
      record t' {
        stats = record s {
          throttled_writes = s.throttled_writes + 1;
          total_write_delay_ms = s.total_write_delay_ms + delay;
        };
      },
    )
    else (0, t')

write_limited : ℕ → Throttle → Option TokenBucket → ℕ × Throttle
unfolding write_delayed acquire
write_limited now t none = (0, t)
write_limited now t (some b) = write_delayed t (acquire now b)

-- The counters are set back on a new day, then the write is counted.
count_write : ℕ → Throttle → Throttle
unfolding start_of_utc_day
count_write now t =
    let today = start_of_utc_day now in
    let count = suc (if not (nat_eq today t.day_start) then 0 else t.daily_write_count) in
    let s = t.stats in
    record t {
      daily_write_count = count;
      day_start = today;
      stats = record s { total_writes = s.total_writes + 1; daily_write_count = count };
    }

set_exceeded : Bool → Throttle → Throttle
set_exceeded exceeded t =
    let s = t.stats in record t { stats = record s { daily_budget_exceeded = exceeded } }

-- Within the daily budget a write passes at once; otherwise the bucket decides.
budget_write : ℕ → Throttle → ℕ × Throttle
unfolding set_exceeded
budget_write now t =
    if ltb 0 t.max_writes_per_day && leb t.daily_write_count t.max_writes_per_day
    then (0, set_exceeded false t)
    else if ltb 0 t.max_writes_per_day
    then write_limited now (set_exceeded true t) t.write_bucket
    else write_limited now t t.write_bucket

unfoldable pub acquire_write : ℕ → Throttle → ℕ × Throttle
unfolding count_write budget_write write_limited
acquire_write now t = budget_write now (count_write now t)

unfoldable pub get_stats : Throttle → ThrottleStats
get_stats t = t.stats

-- The throttle, the backend behind it, how often the clock was asked, and the sleeps before the calls
-- in order: a call that does not have to wait sleeps for 0.
pub record Throttled (Backend : Type 0) : Type 0 where
  pub throttle : Throttle
  pub backend : Backend
  pub asked : ℕ
  pub slept : List ℕ

module _ {Bytes : Type 0} (S : StorageBackend Bytes) (time : ℕ → ℕ) where
  pub throttled_read :
      String → Throttled S.State → Result (Option (StorageReadResult Bytes)) × Throttled S.State
  throttled_read key t =
      let (delay, throttle) = acquire_read (time t.asked) t.throttle in
      let (r, backend) = S.read key t.backend in
      (
        r,
        record {
          throttle = throttle;
          backend = backend;
          asked = suc t.asked;
          slept = t.slept ++ delay ∷ [];
        },
      )

  pub throttled_write :
      String
      → Bytes
      → StorageVersion
      → Throttled S.State
      → Result StorageVersion × Throttled S.State
  throttled_write key bytes expected t =
      let (delay, throttle) = acquire_write (time t.asked) t.throttle in
      let (r, backend) = S.write key bytes expected t.backend in
      (
        r,
        record {
          throttle = throttle;
          backend = backend;
          asked = suc t.asked;
          slept = t.slept ++ delay ∷ [];
        },
      )

  pub throttled_create :
      String → Bytes → Throttled S.State → Result StorageVersion × Throttled S.State
  throttled_create key bytes t =
      let (delay, throttle) = acquire_write (time t.asked) t.throttle in
      let (r, backend) = S.create_if_not_exists key bytes t.backend in
      (
        r,
        record {
          throttle = throttle;
          backend = backend;
          asked = suc t.asked;
          slept = t.slept ++ delay ∷ [];
        },
      )

  abbrev pub throttled_backend : StorageBackend Bytes
  throttled_backend = record {
    State = Throttled S.State;
    read = throttled_read;
    write = throttled_write;
    create_if_not_exists = throttled_create;
  }
