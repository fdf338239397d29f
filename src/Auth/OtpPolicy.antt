-- ===== src/Auth/OtpPolicy.antt =====
-- apps/api/src/modules/auth/otp-policy.ts: which cap refuses the issuance of a one-time password,
-- and when the usage of the global cap is reported. Waits are whole seconds.
use voyya_backend.Prelude.{
  or_else, ℕ, ◌+◌, ◌*◌, ◌/◌, ◌≤◌, ◌<◌, max, ◌≡◌, ◌↔◌, Bool, true, ◌&&◌, Option, none, some, List,
  [], ◌∷◌, arith, ltb, leb, if◌then◌else◌, is_none, is_some,
}

pub data OtpRefusalCap : Type 0 where
  cooldown hourly daily global busy saturated : OtpRefusalCap

pub record OtpIssuancePolicy : Type 0 where
  pub ttl_sec : ℕ
  pub cooldown_sec : ℕ
  pub hourly_limit : ℕ
  pub hourly_window_sec : ℕ
  pub daily_limit : ℕ
  pub daily_window_sec : ℕ
  pub global_limit : ℕ

pub record OtpIssuanceWaits : Type 0 where
  pub cooldown_wait : Option ℕ
  pub hourly_wait : Option ℕ
  pub daily_wait : Option ℕ
  pub global_wait : Option ℕ

pub record OtpRefusal : Type 0 where
  pub cap : OtpRefusalCap
  pub retry_in_sec : ℕ
  pub global_cap_reached : Bool

-- waits[cap]
abbrev pub wait_of : OtpIssuanceWaits → OtpRefusalCap → Option ℕ
wait_of waits cooldown = waits.cooldown_wait
wait_of waits hourly = waits.hourly_wait
wait_of waits daily = waits.daily_wait
wait_of waits global = waits.global_wait
wait_of waits _ = none

abbrev pub cap_precedence : List OtpRefusalCap
cap_precedence = global ∷ daily ∷ hourly ∷ cooldown ∷ []

-- One turn of the loop over the caps.
abbrev pub longer :
    OtpRefusalCap → Option ℕ → Option (OtpRefusalCap × ℕ) → Option (OtpRefusalCap × ℕ)
longer cap none chosen = chosen
longer cap (some wait) none = some (cap, wait)
longer cap (some wait) (some (best, retry)) =
    if ltb retry wait then some (cap, wait) else some (best, retry)

unfoldable pub choose :
    OtpIssuanceWaits → List OtpRefusalCap → Option (OtpRefusalCap × ℕ) → Option (OtpRefusalCap × ℕ)
choose waits [] chosen = chosen
choose waits (cap ∷ caps) chosen = choose waits caps (longer cap (wait_of waits cap) chosen)

abbrev refusal : OtpIssuanceWaits → Option (OtpRefusalCap × ℕ) → Option OtpRefusal
refusal waits none = none
refusal waits (some (cap, retry)) = some (record {
  cap = cap;
  retry_in_sec = max retry 1;
  global_cap_reached = is_some waits.global_wait;
})

-- decideRefusal
unfoldable pub decide_refusal : OtpIssuanceWaits → Option OtpRefusal
unfolding choose
decide_refusal waits = refusal waits (choose waits cap_precedence none)

-- crossesGlobalWarning
unfoldable pub crosses_global_warning : ℕ → ℕ → Bool
crosses_global_warning before limit =
    let threshold = (limit * 8 + 9) / 10 in ltb before threshold && leb threshold (before + 1)

-- reachesGlobalLimit
unfoldable pub reaches_global_limit : ℕ → ℕ → Bool
reaches_global_limit before limit = leb limit (before + 1)

-- An issuance is refused exactly if some cap asks for a wait.
pub decide_refusal-is_none :
    (waits : OtpIssuanceWaits)
    → is_none (decide_refusal waits) ≡ (
        is_none waits.global_wait
        && is_none waits.daily_wait
        && is_none waits.hourly_wait
        && is_none waits.cooldown_wait)
unfolding decide_refusal choose
decide_refusal-is_none waits = ground arith

longest :
    (waits : OtpIssuanceWaits) (refused : OtpRefusal)
    → decide_refusal waits ≡ some refused
    → (cap : OtpRefusalCap) (wait : ℕ) → wait_of waits cap ≡ some wait
    → wait ≤ refused.retry_in_sec
unfolding decide_refusal choose
longest waits refused h cooldown wait e = ground arith
longest waits refused h hourly wait e = ground arith
longest waits refused h daily wait e = ground arith
longest waits refused h global wait e = ground arith
longest waits refused h busy wait e = cc
longest waits refused h saturated wait e = cc

-- A refusal waits for every cap that asks for a wait, and for one second at least; the cap that it
-- names asked for the wait that it tells, up to that second, and the global cap is flagged exactly
-- if it asks for a wait, whatever cap is named.
pub decide_refusal_lem :
    (waits : OtpIssuanceWaits) (refused : OtpRefusal)
    → decide_refusal waits ≡ some refused
    → (1 ≤ refused.retry_in_sec)
      × ((cap : OtpRefusalCap) (wait : ℕ)
          → wait_of waits cap ≡ some wait
          → wait ≤ refused.retry_in_sec)
      × ((is_some (wait_of waits refused.cap) ≡ true)
          × (refused.retry_in_sec ≡ max (or_else (wait_of waits refused.cap) 0) 1))
      × (refused.global_cap_reached ≡ is_some waits.global_wait)
unfolding decide_refusal choose
decide_refusal_lem waits refused h =
    (ground arith, longest waits refused h, (ground arith, ground arith), ground arith)

-- The warning is given at one count: when the issuance makes it four fifths of the limit, rounded
-- up; and before the limit is reached, or with it.
pub crosses_global_warning_lem :
    (before limit : ℕ)
    → (crosses_global_warning before limit ≡ true)
      ↔ ((5 * before < 4 * limit) × (4 * limit ≤ 5 * (before + 1)))
unfolding crosses_global_warning
crosses_global_warning_lem before limit = (λ h. ground arith, λ h. ground arith)
