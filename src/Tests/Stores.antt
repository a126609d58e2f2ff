-- ===== src/Tests/Stores.antt =====
-- The backends of packages/storage/src at concrete inputs.
use osqueue.Base.{List, ℕ, ◌+◌, ◌*◌, ◌<◌, ◌≡◌, refl, [], ◌∷◌, none, some, arith, All, string_eq}
use osqueue.Base.Decimal.{decimal}
use osqueue.Types.Errors.{ok, thrown}
use osqueue.Storage.Journal.{IsJournaled}
use osqueue.Storage.Memory
use osqueue.Storage.Memory.{MemoryBackend, version_token, cas_conflict_error}
use osqueue.Storage.Memory.Shared.{Shared, shared_backend, shared_view, shared-IsJournaled}
use osqueue.Storage.Throttled.{
  Throttled, TokenBucket, token_parts, Throttle, no_stats, refill, acquire, acquire_write,
}
use osqueue.Storage.Throttled.Bucket.{Takes, acquire-Takes, delays, delays-le}
use osqueue.Storage.Throttled.Accounted.{Request, reads, writes, creates}

abbrev empty_store : MemoryBackend ℕ
empty_store = record { objects = []; fail_with = none }

abbrev one_object : MemoryBackend ℕ
one_object = record { objects = ("k", record { bytes = 5; version = 1 }) ∷ []; fail_with = none }

creates_object : Memory.create_if_not_exists "k" 5 empty_store ≡ (ok (version_token 1), one_object)
unfolding Memory.create_if_not_exists
creates_object = refl

conflicts :
    Memory.write "k" 6 (version_token 7) one_object
    ≡ (thrown (cas_conflict_error "Expected version 7, got 1"), one_object)
unfolding Memory.write string_eq decimal
conflicts = refl

shared-IsJournaled_example : IsJournaled (shared_backend {Bytes = ℕ} "k") "k" (shared_view "k")
shared-IsJournaled_example = shared-IsJournaled {Bytes = ℕ} "k"

-- 60 a minute, and no token left at time 1000.
abbrev drained_bucket : TokenBucket
drained_bucket = record { tokens = 0; last_refill = 1000; refill_rate = 60; burst = 1 }

-- Three callers at one time are all let through after the time of one token.
three_delays : delays 3 1000 drained_bucket ≡ 1000 ∷ 1000 ∷ 1000 ∷ []
unfolding delays acquire
three_delays = refl

acquire-Takes_example : Takes 60 (refill 1500 drained_bucket).tokens (acquire 1500 drained_bucket)
acquire-Takes_example = acquire-Takes 1500 drained_bucket (omega arith)

delays-le_example : All (λ delay. delay * 60 < token_parts + 60) (delays 3 1000 drained_bucket)
delays-le_example = delays-le 3 1000 drained_bucket (omega arith)

abbrev two_a_day : Throttle
two_a_day = record {
  read_bucket = none;
  write_bucket = some drained_bucket;
  max_writes_per_day = 2;
  daily_write_count = 2;
  day_start = 0;
  stats = no_stats;
}

third_write : (acquire_write 1000 two_a_day).0 ≡ 1000
unfolding acquire_write
third_write = refl

abbrev throttled : Throttled (Shared ℕ)
throttled = record {
  throttle = two_a_day;
  backend = record { memory = empty_store; journal = []; others = [] };
  asked = 0;
  slept = [];
}

-- The object is created, read, and written with a version that it has not.
abbrev requests : List (Request ℕ)
requests = creates "k" 5 ∷ reads "k" ∷ writes "k" 6 (version_token 7) ∷ []
