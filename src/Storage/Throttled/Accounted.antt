-- ===== src/Storage/Throttled/Accounted.antt =====
-- What packages/storage/src/throttled.ts makes of a series of calls.
use osqueue.Base.{ℕ, suc, ◌+◌, ◌≡◌, String, List, [], ◌∷◌, Option, length}
use osqueue.Types.{StorageVersion}
use osqueue.Types.Errors.{Result}
use osqueue.Storage.{StorageBackend, StorageReadResult}
use osqueue.Storage.Throttled.{Throttle, Throttled}

-- A call of a backend, and what it was answered.
pub data Request (Bytes : Type 0) : Type 0 where
  reads : String → Request Bytes
  writes : String → Bytes → StorageVersion → Request Bytes
  creates : String → Bytes → Request Bytes

pub data Reply (Bytes : Type 0) : Type 0 where
  read_reply : Result (Option (StorageReadResult Bytes)) → Reply Bytes
  version_reply : Result StorageVersion → Reply Bytes

module _ {Bytes : Type 0} where
  unfoldable pub perform :
      (S : StorageBackend Bytes) → Request Bytes → S.State → Reply Bytes × S.State
  perform S (reads key) s = let (r, s') = S.read key s in (Reply.read_reply r, s')
  perform S (writes key bytes v) s =
      let (r, s') = S.write key bytes v s in (Reply.version_reply r, s')
  perform S (creates key bytes) s =
      let (r, s') = S.create_if_not_exists key bytes s in (Reply.version_reply r, s')

  unfoldable pub perform_all :
      (S : StorageBackend Bytes) → List (Request Bytes) → S.State → List (Reply Bytes) × S.State
  unfolding perform
  perform_all S [] s = ([], s)
  perform_all S (q ∷ qs) s =
      let (r, s') = perform S q s in let (rs, s'') = perform_all S qs s' in (r ∷ rs, s'')

  abbrev pub read_count : List (Request Bytes) → ℕ
  read_count [] = 0
  read_count (reads key ∷ qs) = suc (read_count qs)
  read_count (q ∷ qs) = read_count qs

abbrev pub total : List ℕ → ℕ
total [] = 0
total (n ∷ ns) = n + total ns

-- All the delay that the statistics report.
abbrev pub delay_reported : Throttle → ℕ
delay_reported t = t.stats.total_read_delay_ms + t.stats.total_write_delay_ms

-- Between two throttles `r` reads and `w` writes were counted, and `delay` was reported.
abbrev Accounts : ℕ → ℕ → ℕ → Throttle → Throttle → Type 0
Accounts r w delay t t' =
    (t'.stats.total_reads ≡ t.stats.total_reads + r)
    × (t'.stats.total_writes ≡ t.stats.total_writes + w)
    × (delay_reported t' ≡ delay_reported t + delay)

module _ {Bytes : Type 0} (S : StorageBackend Bytes) (time : ℕ → ℕ) where
  -- Between two states of a throttled backend `r` reads and `w` writes were made and counted, and what
  -- was slept is what is reported.
  abbrev pub Slept : ℕ → ℕ → Throttled S.State → Throttled S.State → Type 0
  Slept r w t t' =
      (t'.throttle.stats.total_reads ≡ t.throttle.stats.total_reads + r)
      × (t'.throttle.stats.total_writes ≡ t.throttle.stats.total_writes + w)
      × (delay_reported t'.throttle + total t.slept ≡ delay_reported t.throttle + total t'.slept)
      × (length t'.slept ≡ length t.slept + (r + w))

  abbrev pub write_count : List (Request Bytes) → ℕ
  write_count [] = 0
  write_count (reads key ∷ qs) = write_count qs
  write_count (q ∷ qs) = suc (write_count qs)
