-- ===== src/Storage/Throttled/Budget.antt =====
-- The daily write budget and the counters of packages/storage/src/throttled.ts.
use osqueue.Base.{
  ℕ, suc, ◌+◌, ◌/◌, ◌≤◌, ◌<◌, ◌≡◌, ◌⊎◌, Option, none, some, arith, if◌then◌else◌, ltb, nat_eq,
}
use osqueue.Storage.Throttled.{day_ms, start_of_utc_day, TokenBucket, acquire, Throttle}

-- Two times have the same start exactly if they lie in the same day.
pub start_of_utc_day_iff :
    (a b : ℕ)
    → ((start_of_utc_day a ≡ start_of_utc_day b) → a / day_ms ≡ b / day_ms)
      × (a / day_ms ≡ b / day_ms → start_of_utc_day a ≡ start_of_utc_day b)
unfolding start_of_utc_day
start_of_utc_day_iff a b = (λ h. omega arith, λ h. omega arith)

-- The number of writes of the day, this one included.
abbrev pub writes_today : ℕ → Throttle → ℕ
writes_today now t =
    suc (if nat_eq (start_of_utc_day now) t.day_start then t.daily_write_count else 0)

-- The delay that a bucket sets and the bucket that is left; without a bucket there is no delay.
abbrev pub FromBucket : ℕ → Option TokenBucket → ℕ → Option TokenBucket → Type 0
FromBucket now none delay b' = (delay ≡ 0) × (b' ≡ none)
FromBucket now (some b) delay b' = (delay ≡ (acquire now b).0) × (b' ≡ some (acquire now b).1)

-- What a write's accounting leaves.
pub record Counts (now : ℕ) (t : Throttle) (delay : ℕ) (t' : Throttle) : Type 0 where
  pub counted : t'.daily_write_count ≡ writes_today now t
  pub reported : t'.stats.daily_write_count ≡ writes_today now t
  pub today : t'.day_start ≡ start_of_utc_day now
  pub all_writes : t'.stats.total_writes ≡ t.stats.total_writes + 1
  pub same_limit : t'.max_writes_per_day ≡ t.max_writes_per_day
  -- With a budget, the flag tells whether it is used up.
  pub flagged : t'.stats.daily_budget_exceeded ≡ (
      if ltb 0 t.max_writes_per_day
      then ltb t.max_writes_per_day (writes_today now t)
      else t.stats.daily_budget_exceeded)
  -- Within the budget the write is not delayed, and takes no token; otherwise the bucket decides.
  pub delayed :
      ((0 < t.max_writes_per_day)
        × (writes_today now t ≤ t.max_writes_per_day)
        × (delay ≡ 0)
        × (t'.write_bucket ≡ t.write_bucket))
      ⊎ ((t.max_writes_per_day ≡ 0) ⊎ (t.max_writes_per_day < writes_today now t))
        × FromBucket now t.write_bucket delay t'.write_bucket

-- What the bucket leaves alone.
record Keeps (t t' : Throttle) : Type 0 where
  counted : t'.daily_write_count ≡ t.daily_write_count
  reported : t'.stats.daily_write_count ≡ t.stats.daily_write_count
  today : t'.day_start ≡ t.day_start
  all_writes : t'.stats.total_writes ≡ t.stats.total_writes
  same_limit : t'.max_writes_per_day ≡ t.max_writes_per_day
  flagged : t'.stats.daily_budget_exceeded ≡ t.stats.daily_budget_exceeded
