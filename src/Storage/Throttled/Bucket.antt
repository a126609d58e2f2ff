-- ===== src/Storage/Throttled/Bucket.antt =====
-- `TokenBucket` of packages/storage/src/throttled.ts.
use osqueue.Base.{
  ℕ, zero, suc, ◌+◌, ◌-◌, ◌*◌, ◌≤◌, ◌<◌, ◌≡◌, refl, subst, ◌⊎◌, inl, inr, List, [], ◌∷◌, arith, All,
  leb, Bool-cases,
}
use osqueue.Storage.Throttled.{
  TokenBucket, token_parts, new_bucket, refill, ceil_div, take_token, acquire,
}

abbrev pub IsWithin : TokenBucket → Type 0
IsWithin b = b.tokens ≤ b.burst * token_parts

pub new_bucket-IsWithin : (now max_per_minute : ℕ) → IsWithin (new_bucket now max_per_minute)
unfolding new_bucket
new_bucket-IsWithin now max_per_minute = omega arith

-- A bucket never holds more than its burst.
pub acquire-IsWithin : (now : ℕ) (b : TokenBucket) → IsWithin b → IsWithin (acquire now b).1
unfolding acquire
acquire-IsWithin now b h = ground arith

ceil_div_bounds : (a b : ℕ) → 0 < b → (a ≤ ceil_div a b * b) × (ceil_div a b * b < a + b)
ceil_div_bounds a b h = grind arith

abbrev pub one_token_ms : TokenBucket → ℕ
one_token_ms b = ceil_div token_parts b.refill_rate

same_rate : (now : ℕ) (b : TokenBucket) → (refill now b).refill_rate ≡ b.refill_rate
unfolding refill
same_rate now b = ground arith

-- Either a token is held, and is taken at no delay; or it is not, and the delay is the least one
-- in which the rest of it comes in, and the bucket is emptied.
abbrev pub Takes : ℕ → ℕ → ℕ × TokenBucket → Type 0
Takes rate held (delay, b) =
    (delay ≡ 0) × (b.tokens + token_parts ≡ held)
    ⊎ (held < token_parts)
      × (b.tokens ≡ 0)
      × (0 < delay)
      × (token_parts ≤ held + delay * rate)
      × (held + delay * rate < token_parts + rate)

ceil_div_pos : (a b : ℕ) → 0 < a → 0 < b → 0 < ceil_div a b
ceil_div_pos a b ha hb = grind (arith, ceil_div_bounds a b hb)

take_token-Takes :
    (b : TokenBucket) → 0 < b.refill_rate → Takes b.refill_rate b.tokens (take_token b)
unfolding take_token
take_token-Takes b h = elim (Bool-cases (leb token_parts b.tokens)) [
  | inl held ↦ rw (held, take_token) (inl (refl, ground arith))
  | inr short ↦
      let lt : b.tokens < token_parts = ground arith in
      let (low, high) = ceil_div_bounds (token_parts - b.tokens) b.refill_rate h in
      rw (short, take_token)
        (inr (
          lt,
          refl,
          ceil_div_pos (token_parts - b.tokens) b.refill_rate (omega arith) h,
          omega arith,
          omega arith,
        ))
]

-- Of the tokens that a refill leaves in a bucket whose rate is not 0, `acquire` takes one at no
-- delay if one is there. Otherwise it empties the bucket, and the delay is the least number of
-- milliseconds in which the rest of a token comes in.
pub acquire-Takes :
    (now : ℕ) (b : TokenBucket)
    → 0 < b.refill_rate
    → Takes b.refill_rate (refill now b).tokens (acquire now b)
unfolding acquire
acquire-Takes now b h =
    subst (λ r. Takes r (refill now b).tokens (take_token (refill now b))) (same_rate now b)
      (take_token-Takes (refill now b) (rw (same_rate now b) h))

-- The delays that callers get who ask one after the other at the same time.
unfoldable pub delays : ℕ → ℕ → TokenBucket → List ℕ
delays zero now b = []
delays (suc callers) now b = let (delay, b') = acquire now b in delay ∷ delays callers now b'

acquire_rate : (now : ℕ) (b : TokenBucket) → (acquire now b).1.refill_rate ≡ b.refill_rate
unfolding acquire
acquire_rate now b = ground arith

-- A bucket whose rate is not 0 does not remember who waits: however many callers ask it at one
-- time, each is given a delay that is less than a millisecond above the time in which one token
-- comes in.
pub delays-le :
    (callers now : ℕ) (b : TokenBucket)
    → 0 < b.refill_rate
    → All (λ delay. delay * b.refill_rate < token_parts + b.refill_rate) (delays callers now b)
unfolding delays
delays-le zero now b h = tt
delays-le (suc callers) now b h = (
  one (acquire-Takes now b h),
  subst (λ r. All (λ delay. delay * r < token_parts + r) (delays callers now (acquire now b).1))
      (acquire_rate now b) (delays-le callers now (acquire now b).1 (rw (acquire_rate now b) h)),
)
  where
    one :
        Takes b.refill_rate (refill now b).tokens (acquire now b)
        → (acquire now b).0 * b.refill_rate < token_parts + b.refill_rate
    one (inl (e, _)) = rw e (omega arith)
    one (inr (_, _, _, _, high)) = omega arith
