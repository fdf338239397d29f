-- ===== src/Auth/OtpIssueLimiter.antt =====
-- apps/api/src/modules/auth/otp-issue-limiter.ts: a limit on the issuances that run at a time, with
-- a bounded queue. A caller is a number; a waiter stands for its caller's promise and timer. The
-- world beside the limiter is the callers whose work runs, those that were refused, and the number
-- that have finished.
pub mod Bounds
use voyya_backend.Prelude.{
  Result, ok, err, ℕ, zero, suc, ◌+◌, ◌-◌, ◌*◌, ◌/◌, ◌%◌, ◌≤◌, ◌<◌, compare, Ordering, min, max,
  String, str_eq, eq_iff, ◌≡◌, refl, sym, ap, ap₂, ◌∙◌, subst, ◌≢◌, ◌↔◌, ◌⊎◌, inl, inr, Bool, true,
  false, not, ◌&&◌, ◌||◌, Option, none, some, List, [], ◌∷◌, ◌++◌, map, arith, ltb, leb, ◌==◌,
  if◌then◌else◌, is_none, is_some, or_else, Bool-cases, Option-cases, ltb→lt, lt→ltb, leb→le,
  le→leb, ==→eq, ==_refl, length, length-append, find, filter, update_where, any, count, All,
  Rowwise, All-update_where, Rowwise-update_where, any-eq_false, All-find, Rowwise-refl,
  Rowwise-trans, find-update_where, keep, find-and, count-update_where, update_where-none, any-find,
}

pub record OtpIssueLimiter : Type 0 where
  pub active : ℕ
  pub queue : List ℕ

pub data Acquired : Type 0 where
  granted queued saturated : Acquired

-- acquire
unfoldable pub acquire : ℕ → ℕ → ℕ → OtpIssueLimiter → Acquired × OtpIssueLimiter
acquire concurrency queue_max caller limiter =
    if ltb limiter.active concurrency
    then (granted, record limiter { active = limiter.active + 1 })
    else if leb queue_max (length limiter.queue)
    then (saturated, limiter)
    else (queued, record limiter { queue = limiter.queue ++ caller ∷ [] })

-- release, with the waiter that it lets in.
abbrev pub next_turn : OtpIssueLimiter → List ℕ → Option ℕ × OtpIssueLimiter
next_turn limiter [] = (none, record limiter { active = limiter.active - 1 })
next_turn limiter (next ∷ rest) = (some next, record limiter { queue = rest })

unfoldable pub release : OtpIssueLimiter → Option ℕ × OtpIssueLimiter
release limiter = next_turn limiter limiter.queue

-- `queue.indexOf(waiter)` and `queue.splice(index, 1)`
abbrev pub has : ℕ → List ℕ → Bool
has k = any (λ x. x == k)

abbrev pub without_first : ℕ → List ℕ → List ℕ
without_first k [] = []
without_first k (x ∷ xs) = let rest = without_first k xs in if x == k then xs else x ∷ rest

-- The timer of a waiter.
unfoldable pub time_out : ℕ → OtpIssueLimiter → OtpIssueLimiter
time_out caller limiter = record limiter { queue = without_first caller limiter.queue }

pub record World : Type 0 where
  pub limiter : OtpIssueLimiter
  pub running : List ℕ
  pub refused : List ℕ
  pub finished : ℕ

pub data Event : Type 0 where
  arrives finishes times_out : ℕ → Event

abbrev pub let_in : Option ℕ → List ℕ → List ℕ
let_in none running = running
let_in (some caller) running = running ++ caller ∷ []

abbrev pub admitted : World → ℕ → Acquired × OtpIssueLimiter → World
admitted w caller (granted, limiter) = record w {
  limiter = limiter;
  running = w.running ++ caller ∷ [];
}
admitted w caller (queued, limiter) = record w { limiter = limiter }
admitted w caller (saturated, limiter) = record w {
  limiter = limiter;
  refused = w.refused ++ caller ∷ [];
}

-- `run`: a caller acquires, works and releases; a caller that does not run does not finish, and a
-- timer that was cleared does not fire.
unfoldable pub step : ℕ → ℕ → World → Event → World
unfolding acquire release time_out
step concurrency queue_max w (arrives caller) =
    admitted w caller (acquire concurrency queue_max caller w.limiter)
step concurrency queue_max w (finishes caller) =
    if has caller w.running
    then (let (next, limiter) = release w.limiter in
        record w {
          limiter = limiter;
          running = let_in next (without_first caller w.running);
          finished = w.finished + 1;
        })
    else w
step concurrency queue_max w (times_out caller) =
    if has caller w.limiter.queue
    then record w { limiter = time_out caller w.limiter; refused = w.refused ++ caller ∷ [] }
    else w

unfoldable pub run : ℕ → ℕ → World → List Event → World
unfolding step
run concurrency queue_max w [] = w
run concurrency queue_max w (e ∷ es) = run concurrency queue_max (step concurrency queue_max w e) es

abbrev pub idle : World
idle = record {
  limiter = record { active = 0; queue = [] };
  running = [];
  refused = [];
  finished = 0;
}
