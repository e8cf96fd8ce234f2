-- ===== src/Cron/Days.antt =====
-- The loop of `checkAndRecoverMissingDays` over the days up to the present.
use recharge_plataform_api.Prelude.{
  ℕ, zero, suc, ◌+◌, ◌*◌, ◌<◌, ◌≡◌, inl, inr, arith, Bool, true, false, List, ◌∷◌, any, All, ◌==◌,
  ltb, if◌then◌else◌, Bool-cases, lt→ltb, subst,
}
use recharge_plataform_api.Prisma.{Prisma}
use recharge_plataform_api.Utils.Calendar.{Calendar}
use recharge_plataform_api.Cron.{day_ms, missing_days}

listed :
    (x d : ℕ) (rest : List ℕ) (b c : Bool)
    → any (λ y. y == d) rest ≡ true
    → any (λ y. y == d) (if b then rest else x ∷ rest) ≡ true
listed x d rest true c h = h
listed x d rest false c h = ground arith

shifted : (start n : ℕ) → start + day_ms + n * day_ms ≡ start + suc n * day_ms
shifted start n = omega arith

module _ (P : Prisma) (calendar : Calendar) (p : ℕ → Bool) where
  -- With a round for each millisecond the loop lists every unprocessed day before the present.
  pub missing_days_complete :
      (fuel current now k d : ℕ)
      → d ≡ current + k * day_ms
      → now < current + fuel
      → d < now
      → p d ≡ false
      → any (λ x. x == d) (missing_days P calendar p fuel current now) ≡ true
  unfolding missing_days
  missing_days_complete zero current now k d e enough before missing = absurd (omega arith)
  missing_days_complete (suc fuel) current now zero d e enough before missing =
      let here : d ≡ current = omega arith in
      let early : ltb current now ≡ true = lt→ltb current now (omega arith) in
      let open_day : p current ≡ false = rw (← here) missing in
      rw (early, open_day) (ground (arith, here))
  missing_days_complete (suc fuel) current now (suc k) d e enough before missing =
      let early : ltb current now ≡ true = lt→ltb current now (omega arith) in
      let rest : List ℕ = missing_days P calendar p fuel (current + day_ms) now in
      rw early (
        listed current d rest (p current) true (
          missing_days_complete fuel (current + day_ms) now k d (omega arith) (omega arith) before
            missing))

  -- What the loop lists are midnights, if days lead from midnight to midnight.
  pub missing_days-midnights :
      (fuel current now : ℕ)
      → ((n : ℕ) → calendar.start_of_day (current + n * day_ms) ≡ current + n * day_ms)
      → All (λ d. calendar.start_of_day d ≡ d) (missing_days P calendar p fuel current now)
  unfolding missing_days
  missing_days-midnights zero current now midnights = tt
  missing_days-midnights (suc fuel) current now midnights =
      let rest : All (λ d. calendar.start_of_day d ≡ d)
          (missing_days P calendar p fuel (current + day_ms) now) =
        missing_days-midnights fuel (current + day_ms) now
          (λ n. rw (shifted current n) (midnights (suc n))) in
      elim (Bool-cases (ltb current now)) [
        | inr late ↦ rw late tt
        | inl early ↦ elim (Bool-cases (p current)) [
          | inl done ↦ rw (early, done) rest
          | inr missing ↦ rw (early, missing) (at_zero current (midnights 0), rest)
        ]
      ]
    where
      at_zero :
          (c : ℕ)
          → calendar.start_of_day (c + 0 * day_ms) ≡ c + 0 * day_ms
          → calendar.start_of_day c ≡ c
      at_zero c h =
          let same : c + 0 * day_ms ≡ c = omega arith in
          subst (λ x. calendar.start_of_day x ≡ x) same h
