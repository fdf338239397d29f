-- ===== src/Auth/OtpCodes/Issuance.antt =====
-- When `issueOtp` of apps/api/src/modules/auth/auth.repository.ts issues a code, and what it leaves.
use voyya_backend.Prelude.{
  ◌<◌, count-update_where, ◌++◌, update_where, Bool, true, false, String, ◌&&◌, ℕ, zero, suc, ◌+◌,
  ◌-◌, ◌≤◌, ◌≡◌, refl, List, [], ◌∷◌, arith, ltb, leb, is_none, length, filter, count,
}
use voyya_backend.Auth.OtpPolicy.{OtpIssuancePolicy}
use voyya_backend.Auth.OtpCodes.{
  new_code, expire, OtpCode, created_within, of_phone_within, insert_desc, created_desc, nth,
  wait_for, otp_waits, is_allowed, is_live, IssueOtpOutcome, issued, issue_rows, issue_otp,
}

length-insert_desc : (v : ℕ) (xs : List ℕ) → length (insert_desc v xs) ≡ length xs + 1
length-insert_desc v [] = refl
length-insert_desc v (x ∷ xs) = ground (arith, length-insert_desc v xs)

length-created_desc :
    (p : OtpCode → Bool) (rows : List OtpCode)
    → length (created_desc (filter p rows)) ≡ count p rows
length-created_desc p [] = refl
length-created_desc p (o ∷ os) =
    ground (
      arith,
      length-created_desc p os,
      length-insert_desc o.created_at (created_desc (filter p os)),
    )

nth-is_none : (n : ℕ) (xs : List ℕ) → is_none (nth n xs) ≡ leb (length xs) n
nth-is_none n [] = ground arith
nth-is_none zero (x ∷ xs) = ground arith
nth-is_none (suc n) (x ∷ xs) = ground (arith, nth-is_none n xs)

-- A cap asks for no wait exactly if fewer codes than its limit are in its window.
wait_for-is_none :
    (now window limit : ℕ) (counts : OtpCode → Bool) (rows : List OtpCode)
    → 1 ≤ limit
    → is_none (wait_for now window limit counts rows) ≡ ltb (count counts rows) limit
unfolding wait_for
wait_for-is_none now window limit counts rows h = ground (
  arith,
  nth-is_none (limit - 1) (created_desc (filter counts rows)),
  length-created_desc counts rows,
)

count-append :
    (p : OtpCode → Bool) (xs ys : List OtpCode) → count p (xs ++ ys) ≡ count p xs + count p ys
count-append p [] ys = omega arith
count-append p (x ∷ xs) ys = ground (arith, count-append p xs ys)

count_one : (p : OtpCode → Bool) (o : OtpCode) → count p (o ∷ []) ≤ 1
count_one p o = ground arith

none_live :
    (now : ℕ) (phone : String) (rows : List OtpCode)
    → count (is_live now phone) (update_where (is_live now phone) (expire now) rows) ≡ 0
none_live now phone [] = refl
none_live now phone (o ∷ os) = ground (arith, none_live now phone os)

abbrev pub is_issued : IssueOtpOutcome → Bool
is_issued (issued key n) = true
is_issued _ = false

-- The caps of the policy, on counts of codes.
abbrev pub under_caps : ℕ → String → OtpIssuancePolicy → List OtpCode → Bool
under_caps now phone policy rows =
    ltb (count (of_phone_within now phone policy.cooldown_sec) rows) 1
    && ltb (count (of_phone_within now phone policy.hourly_window_sec) rows) policy.hourly_limit
    && ltb (count (of_phone_within now phone policy.daily_window_sec) rows) policy.daily_limit
    && ltb (count (created_within now policy.daily_window_sec) rows) policy.global_limit

-- The limits that the configuration demands.
pub record HasLimits (policy : OtpIssuancePolicy) : Type 0 where
  pub hourly : 1 ≤ policy.hourly_limit
  pub daily : 1 ≤ policy.daily_limit
  pub global : 1 ≤ policy.global_limit

allowed-under_caps :
    (now : ℕ) (phone : String) (policy : OtpIssuancePolicy) (rows : List OtpCode)
    → HasLimits policy
    → is_allowed (otp_waits now phone policy rows) ≡ under_caps now phone policy rows
unfolding otp_waits
allowed-under_caps now phone policy rows h =
    rw
      (
        wait_for-is_none now policy.cooldown_sec 1 (of_phone_within now phone policy.cooldown_sec)
            rows (omega arith),
        wait_for-is_none now policy.hourly_window_sec policy.hourly_limit
            (of_phone_within now phone policy.hourly_window_sec) rows h.hourly,
        wait_for-is_none now policy.daily_window_sec policy.daily_limit
            (of_phone_within now phone policy.daily_window_sec) rows h.daily,
        wait_for-is_none now policy.daily_window_sec policy.global_limit
            (created_within now policy.daily_window_sec) rows h.global,
      )
      refl

-- Where the limits are one at least: a code is issued exactly if the phone's lock is free, no code
-- of the phone is in its cooldown, and the codes in the windows are fewer than the hourly and daily
-- limits of the phone and the limit of the service; if none is issued, the table stays.
pub issue_otp-is_issued :
    (locked : Bool) (now key : ℕ) (phone hash : String) (policy : OtpIssuancePolicy)
    (rows : List OtpCode)
    → HasLimits policy
    → (is_issued (issue_otp locked now key phone hash policy rows).0
        ≡ (locked && under_caps now phone policy rows))
      × (is_issued (issue_otp locked now key phone hash policy rows).0 ≡ false
          → (issue_otp locked now key phone hash policy rows).1 ≡ rows)
unfolding issue_otp
issue_otp-is_issued locked now key phone hash policy rows h =
    ground (arith, allowed-under_caps now phone policy rows h)

counts_after :
    (p : OtpCode → Bool) (now key : ℕ) (phone hash : String) (policy : OtpIssuancePolicy)
    (rows : List OtpCode)
    → ((o : OtpCode) → p (expire now o) ≡ p o)
    → count p (issue_rows now key phone hash policy rows) ≤ count p rows + 1
counts_after p now key phone hash policy rows same' = omega (
  arith,
  count-append p (update_where (is_live now phone) (expire now) rows)
      (new_code now key phone hash policy ∷ []),
  count_one p (new_code now key phone hash policy),
  count-update_where p (is_live now phone) (expire now) rows same',
)

live_after :
    (now key : ℕ) (phone hash : String) (policy : OtpIssuancePolicy) (rows : List OtpCode)
    → count (is_live now phone) (issue_rows now key phone hash policy rows) ≤ 1
live_after now key phone hash policy rows = omega (
  arith,
  count-append (is_live now phone) (update_where (is_live now phone) (expire now) rows)
      (new_code now key phone hash policy ∷ []),
  count_one (is_live now phone) (new_code now key phone hash policy),
  none_live now phone rows,
)

rows_after :
    (locked : Bool) (now key : ℕ) (phone hash : String) (policy : OtpIssuancePolicy)
    (rows : List OtpCode)
    → is_issued (issue_otp locked now key phone hash policy rows).0 ≡ true
    → (issue_otp locked now key phone hash policy rows).1
      ≡ issue_rows now key phone hash policy rows
unfolding issue_otp
rows_after locked now key phone hash policy rows e = ground arith

under_each :
    (now : ℕ) (phone : String) (policy : OtpIssuancePolicy) (rows : List OtpCode)
    → under_caps now phone policy rows ≡ true
    → (count (of_phone_within now phone policy.hourly_window_sec) rows < policy.hourly_limit)
      × (count (of_phone_within now phone policy.daily_window_sec) rows < policy.daily_limit)
      × (count (created_within now policy.daily_window_sec) rows < policy.global_limit)
under_each now phone policy rows e = ground arith

-- After an issuance at most one code of the phone is live, and the codes in the windows are within
-- the hourly and daily limits of the phone and the limit of the service.
pub issue_otp-limits :
    (locked : Bool) (now key : ℕ) (phone hash : String) (policy : OtpIssuancePolicy)
    (rows : List OtpCode)
    → HasLimits policy
    → is_issued (issue_otp locked now key phone hash policy rows).0 ≡ true
    → let after = (issue_otp locked now key phone hash policy rows).1 in
      (count (is_live now phone) after ≤ 1)
      × (count (of_phone_within now phone policy.hourly_window_sec) after ≤ policy.hourly_limit)
      × (count (of_phone_within now phone policy.daily_window_sec) after ≤ policy.daily_limit)
      × (count (created_within now policy.daily_window_sec) after ≤ policy.global_limit)
unfolding issue_otp
issue_otp-limits locked now key phone hash policy rows h e =
    let stays = (issue_otp-is_issued locked now key phone hash policy rows h).0 in
    let under : under_caps now phone policy rows ≡ true = ground arith in
    let (hourly', daily', global') = under_each now phone policy rows under in
    let after : (p : OtpCode → Bool)
        → ((o : OtpCode) → p (expire now o) ≡ p o)
        → count p (issue_rows now key phone hash policy rows) ≤ count p rows + 1 =
      λ p s. counts_after p now key phone hash policy rows s in
    rw (rows_after locked now key phone hash policy rows e) (
      live_after now key phone hash policy rows,
      omega
          (arith, after (of_phone_within now phone policy.hourly_window_sec) (λ o. refl), hourly'),
      omega (arith, after (of_phone_within now phone policy.daily_window_sec) (λ o. refl), daily'),
      omega (arith, after (created_within now policy.daily_window_sec) (λ o. refl), global'),
    )
