-- ===== src/Auth/OtpIssueLimiter/Bounds.antt =====
-- The limiter of apps/api/src/modules/auth/otp-issue-limiter.ts: its bounds, its callers, and the
-- order of its queue.
use voyya_backend.Prelude.{
  zero, suc, refl, ℕ, ◌+◌, ◌≤◌, ◌<◌, ◌≡◌, ap, inl, inr, true, List, [], ◌∷◌, ◌++◌, arith, ltb, leb,
  Bool-cases, length, length-append,
}
use voyya_backend.Prelude.{Bool-cases, inl, inr, ltb, leb, length-append, ◌++◌}
use voyya_backend.Prelude.{ap}
use voyya_backend.Auth.OtpIssueLimiter.{
  OtpIssueLimiter, World, Event, arrives, finishes, times_out, acquire, release, time_out, has,
  without_first, next_turn, let_in, step, run, idle,
}

length-without_first :
    (k : ℕ) (xs : List ℕ) → has k xs ≡ true → length (without_first k xs) + 1 ≡ length xs
length-without_first k [] h = cc
length-without_first k (x ∷ xs) h = ground (arith, length-without_first k xs)

abbrev pub arrivals : List Event → ℕ
arrivals [] = 0
arrivals (arrives caller ∷ es) = 1 + arrivals es
arrivals (_ ∷ es) = arrivals es

pub record IsBounded (concurrency queue_max : ℕ) (w : World) : Type 0 where
  pub counted : length w.running ≡ w.limiter.active
  pub at_most : w.limiter.active ≤ concurrency
  pub queue_bounded : length w.limiter.queue ≤ queue_max
  -- nobody waits while there is room
  pub busy : 0 < length w.limiter.queue → w.limiter.active ≡ concurrency

-- The callers that have been answered or are at work or wait.
abbrev pub known : World → ℕ
known w = length w.running + length w.limiter.queue + length w.refused + w.finished

arrivals-cons : (e : Event) (es : List Event) → arrivals (e ∷ es) ≡ arrivals (e ∷ []) + arrivals es
arrivals-cons (arrives caller) es = omega arith
arrivals-cons (finishes caller) es = omega arith
arrivals-cons (times_out caller) es = omega arith

module _ (concurrency queue_max : ℕ) where
  step-IsBounded :
      (w : World) (e : Event)
      → IsBounded concurrency queue_max w
      → IsBounded concurrency queue_max (step concurrency queue_max w e)
  unfolding step acquire release time_out
  step-IsBounded w (arrives caller) i = elim (Bool-cases (ltb w.limiter.active concurrency)) [
    | inl room ↦ rw room (record {
      counted = omega (arith, length-append w.running (caller ∷ []), i.counted);
      at_most = ground (arith, i.at_most);
      queue_bounded = i.queue_bounded;
      busy = λ q. ground (arith, i.busy q);
    })
    | inr full ↦ elim (Bool-cases (leb queue_max (length w.limiter.queue))) [
      | inl crowded ↦
          rw (full, crowded)
            (record {
              counted = i.counted;
              at_most = i.at_most;
              queue_bounded = i.queue_bounded;
              busy = i.busy;
            })
      | inr space ↦
          rw (full, space)
            (record {
              counted = i.counted;
              at_most = i.at_most;
              queue_bounded = ground (arith, length-append w.limiter.queue (caller ∷ []));
              busy = λ q. ground (arith, i.at_most);
            })
    ]
  ]
  step-IsBounded w (finishes caller) i = elim (Bool-cases (has caller w.running)) [
    | inr other ↦ rw other i
    | inl own ↦ rw own (released own w.limiter.queue refl)
  ]
    where
      released :
          has caller w.running ≡ true
          → (q : List ℕ) → w.limiter.queue ≡ q
          → IsBounded concurrency queue_max (
              let (next, limiter) = next_turn w.limiter q in
              record w {
                limiter = limiter;
                running = let_in next (without_first caller w.running);
                finished = w.finished + 1;
              })
      released own [] e = record {
        counted = omega (arith, length-without_first caller w.running own, i.counted);
        at_most = omega (arith, i.at_most);
        queue_bounded = i.queue_bounded;
        busy = λ q. ground (arith, ap length e);
      }
      released own (next ∷ rest) e = record {
        counted = omega (
          arith,
          length-append (without_first caller w.running) (next ∷ []),
          length-without_first caller w.running own,
          i.counted,
        );
        at_most = i.at_most;
        queue_bounded = omega (arith, ap length e, i.queue_bounded);
        busy = λ q. i.busy (omega (arith, ap length e));
      }
  step-IsBounded w (times_out caller) i = elim (Bool-cases (has caller w.limiter.queue)) [
    | inr other ↦ rw other i
    | inl own ↦ rw own (record {
      counted = i.counted;
      at_most = i.at_most;
      queue_bounded =
          omega (arith, length-without_first caller w.limiter.queue own, i.queue_bounded);
      busy = λ q. i.busy (omega (arith, length-without_first caller w.limiter.queue own, q));
    })
  ]

  known-step :
      (w : World) (e : Event) → known (step concurrency queue_max w e) ≡ known w + arrivals (e ∷ [])
  unfolding step acquire release time_out
  known-step w (arrives caller) = elim (Bool-cases (ltb w.limiter.active concurrency)) [
    | inl room ↦ rw room (omega (arith, length-append w.running (caller ∷ [])))
    | inr full ↦ elim (Bool-cases (leb queue_max (length w.limiter.queue))) [
      | inl crowded ↦ rw (full, crowded) (omega (arith, length-append w.refused (caller ∷ [])))
      | inr space ↦ rw (full, space) (omega (arith, length-append w.limiter.queue (caller ∷ [])))
    ]
  ]
  known-step w (finishes caller) = elim (Bool-cases (has caller w.running)) [
    | inr other ↦ rw other (omega arith)
    | inl own ↦ rw own (released own w.limiter.queue refl)
  ]
    where
      released :
          has caller w.running ≡ true
          → (q : List ℕ) → w.limiter.queue ≡ q
          → known (
              let (next, limiter) = next_turn w.limiter q in
              record w {
                limiter = limiter;
                running = let_in next (without_first caller w.running);
                finished = w.finished + 1;
              })
            ≡ known w + 0
      released own [] e = omega (arith, length-without_first caller w.running own)
      released own (next ∷ rest) e = omega (
        arith,
        length-without_first caller w.running own,
        length-append (without_first caller w.running) (next ∷ []),
        ap length e,
      )
  known-step w (times_out caller) = elim (Bool-cases (has caller w.limiter.queue)) [
    | inr other ↦ rw other (omega arith)
    | inl own ↦ rw own (
        omega (
          arith,
          length-without_first caller w.limiter.queue own,
          length-append w.refused (caller ∷ []),
        ))
  ]

  run-IsBounded :
      (w : World) (es : List Event)
      → IsBounded concurrency queue_max w
      → IsBounded concurrency queue_max (run concurrency queue_max w es)
  unfolding run
  run-IsBounded w [] i = i
  run-IsBounded w (e ∷ es) i =
      run-IsBounded (step concurrency queue_max w e) es (step-IsBounded w e i)

  known-run :
      (w : World) (es : List Event) → known (run concurrency queue_max w es) ≡ known w + arrivals es
  unfolding run
  known-run w [] = omega arith
  known-run w (e ∷ es) =
      omega
        (arith, known-run (step concurrency queue_max w e) es, known-step w e, arrivals-cons e es)

  -- After any events on an idle limiter: as many callers run as it counts, at most the concurrency;
  -- at most the bound wait, and none waits while there is room; and every caller that arrived runs,
  -- waits, was refused or has finished.
  pub limiter_lem :
      (es : List Event)
      → let w = run concurrency queue_max idle es in
        IsBounded concurrency queue_max w × (known w ≡ arrivals es)
  limiter_lem es = (
    run-IsBounded idle es (record {
      counted = refl;
      at_most = omega arith;
      queue_bounded = omega arith;
      busy = λ q. ground arith;
    }),
    omega (arith, known-run idle es),
  )

-- The callers that a number of releases lets in.
abbrev pub releases : ℕ → OtpIssueLimiter → List ℕ
releases zero limiter = []
releases (suc n) limiter =
    let (next, limiter') = release limiter in let_in next [] ++ releases n limiter'

-- A waiter behind others is let in by its turn's release, after exactly those that wait before it.
pub releases_lem :
    (active : ℕ) (before : List ℕ) (caller : ℕ) (after : List ℕ)
    → releases (suc (length before)) (record { active = active; queue = before ++ caller ∷ after })
      ≡ before ++ caller ∷ []
unfolding release
releases_lem active [] caller after = refl
releases_lem active (x ∷ before) caller after =
    ap (λ xs. x ∷ xs) (releases_lem active before caller after)
