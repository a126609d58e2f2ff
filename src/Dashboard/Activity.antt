-- ===== src/Dashboard/Activity.antt =====
-- What the dashboard of apps/web/app/lib/use-queue.ts shows after any number of polls.
use osqueue.Base.{
  ℕ, zero, suc, ◌≤◌, ◌<◌, ◌≡◌, refl, Bool, true, false, List, [], ◌∷◌, ◌++◌, String, if◌then◌else◌,
  leb, length, arith,
}
use osqueue.Types.Errors.{Result, ok, thrown}
use osqueue.Broker.Service.{ListJobsResponse}
use osqueue.Dashboard.{
  ActivityEvent, QueueView, new_view, max_activity, take, stamp, log_events, notices_of, poll,
  polls,
}

-- The log is what is shown and has at most `max_activity` events, and a dashboard that shows a
-- connection has not failed three times in a row.
pub record IsKept (v : QueueView) : Type 0 where
  pub shown : v.queue_data.activity ≡ v.activity
  pub bounded : length v.activity ≤ max_activity
  pub alive : v.queue_data.connected ≡ true → v.fail_count < 3

length-take : {A : Type 0} → (n : ℕ) (xs : List A) → length (take n xs) ≤ n
length-take zero xs = omega arith
length-take (suc n) [] = omega arith
length-take (suc n) (x ∷ xs) = let rest = length-take n xs in omega (arith, rest)

length-log_events :
    (events activity : List ActivityEvent)
    → length activity ≤ max_activity
    → length (log_events events activity) ≤ max_activity
unfolding log_events
length-log_events [] activity h = h
length-log_events (e ∷ events) activity h = length-take max_activity (e ∷ events ++ activity)

below_three : (n : ℕ) → leb 3 n ≡ false → n < 3
below_three n e = ground arith

-- What a poll leaves that failed, by whether it is to be shown as not connected.
failed : Bool → QueueView → QueueView
failed b v =
    if b
    then record v {
      fail_count = suc v.fail_count;
      queue_data = record (v.queue_data) { connected = false };
    }
    else record v { fail_count = suc v.fail_count }

failed-IsKept :
    (b : Bool) (v : QueueView) → IsKept v → (b ≡ false → suc v.fail_count < 3) → IsKept (failed b v)
unfolding failed
failed-IsKept true v h few = record { shown = h.shown; bounded = h.bounded; alive = λ e. absurd cc }
failed-IsKept false v h few = record { shown = h.shown; bounded = h.bounded; alive = λ _. few refl }

module _ (uuid : ℕ → String) where
  poll-IsKept :
      (now : ℕ) (answer : Result {0} ListJobsResponse) (v : QueueView)
      → IsKept v
      → IsKept (poll uuid now answer v)
  unfolding poll failed
  poll-IsKept now (ok res) v h = record {
    shown = refl;
    bounded = length-log_events (stamp uuid now v.drawn (notices_of res v)) v.activity h.bounded;
    alive = λ _. omega arith;
  }
  poll-IsKept now (thrown e) v h =
      failed-IsKept (leb 3 (suc v.fail_count)) v h (below_three (suc v.fail_count))

  polls-IsKept :
      (answers : List (ℕ × Result {0} ListJobsResponse)) (v : QueueView)
      → IsKept v
      → IsKept (polls uuid answers v)
  unfolding polls
  polls-IsKept [] v h = h
  polls-IsKept ((now, answer) ∷ rest) v h =
      polls-IsKept rest (poll uuid now answer v) (poll-IsKept now answer v h)

  -- Whatever the polls are answered, the dashboard shows its log as it is, the log has at most
  -- `max_activity` events, and a connection is shown only while fewer than three polls in a row
  -- have failed.
  pub polls-activity :
      (answers : List (ℕ × Result {0} ListJobsResponse)) → IsKept (polls uuid answers new_view)
  polls-activity answers =
      polls-IsKept answers new_view
        record { shown = refl; bounded = omega arith; alive = λ e. absurd cc }
