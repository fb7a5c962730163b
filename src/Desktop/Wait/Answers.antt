-- ===== src/Desktop/Wait/Answers.antt =====
-- The wait ends, and what its answer says.
use newapi_box.Prelude.{
  ◌⊎◌, ℕ, zero, suc, ◌+◌, ◌*◌, ◌≤◌, ◌<◌, ◌≡◌, refl, sym, ◌∙◌, Bool, true, false, Option, some,
  arith, Bool-cases, inl, inr,
}
use native.Mathlib.Decide.{dec_lt}
use newapi_box.Desktop.Wait.{Port, next_round, round, wait, wait_for_port}

-- A sleep takes its 100 ms at least.
abbrev pub Sleeps : Port → Type 0
Sleeps p = (t : ℕ) → 100 ≤ p.sleep t

module _ (p : Port) (deadline : ℕ) where
  round-some :
      (now : ℕ) {rest : Option Bool}
      → (b : Bool) × (rest ≡ some b)
      → (b : Bool) × (round p now rest ≡ some b)
  unfolding round
  round-some now h = elim (Bool-cases (p.connects now)) [
    | inl up ↦ (true, rw up refl)
    | inr down ↦ (h.0, rw down h.1)
  ]

  wait-over : (fuel now : ℕ) → deadline ≤ now → wait p (suc fuel) deadline now ≡ some false
  unfolding wait
  wait-over fuel now over = ground arith

  wait-round :
      (fuel now : ℕ)
      → now < deadline
      → wait p (suc fuel) deadline now ≡ round p now (wait p fuel deadline (next_round p now))
  unfolding wait
  wait-round fuel now early = ground arith

  wait-ends :
      (fuel now : ℕ)
      → Sleeps p
      → deadline ≤ now + 100 * fuel
      → (b : Bool) × (wait p (suc fuel) deadline now ≡ some b)
  wait-ends zero now slow enough = (false, wait-over zero now (omega arith))
  wait-ends (suc fuel) now slow enough = elim (dec_lt now deadline) [
    | yes early ↦
        let (b, e) =
          round-some now (wait-ends fuel (next_round p now) slow (omega (arith, slow now))) in
        (b, wait-round (suc fuel) now early ∙ e)
    | no late ↦ (false, wait-over (suc fuel) now (omega arith))
  ]

  round-true :
      (now : ℕ) {rest : Option Bool}
      → round p now rest ≡ some true
      → (p.connects now ≡ true) ⊎ (rest ≡ some true)
  unfolding round
  round-true now h = elim (Bool-cases (p.connects now)) [
    | inl up ↦ inl up
    | inr down ↦ inr (rw down at h)
  ]

  pub wait-connects :
      (fuel now : ℕ)
      → wait p fuel deadline now ≡ some true
      → (t : ℕ) × (now ≤ t) × (t < deadline) × (p.connects t ≡ true)
  wait-connects zero now h = unfold wait in cc h
  wait-connects (suc fuel) now h = elim (dec_lt now deadline) [
    | yes early ↦ elim (round-true now (sym (wait-round fuel now early) ∙ h)) [
      | inl up ↦ (now, omega arith, early, up)
      | inr rest ↦
          let (t, from, before, up) = wait-connects fuel (next_round p now) rest in
          (t, omega arith, before, up)
    ]
    | no late ↦ cc (wait-over fuel now (omega arith), h)
  ]

  round-down : (now : ℕ) {rest : Option Bool} → rest ≡ some true → round p now rest ≡ some true
  unfolding round
  round-down now h = elim (Bool-cases (p.connects now)) [
    | inl up ↦ rw up refl
    | inr down ↦ rw down h
  ]

  round-up : (now : ℕ) (rest : Option Bool) → p.connects now ≡ true → round p now rest ≡ some true
  unfolding round
  round-up now rest up = rw up refl

  -- The port answers from a time on, and a round that begins before it takes at most `step`.
  pub record IsUpFrom (up step : ℕ) : Type 0 where
    pub answers : (t : ℕ) → up ≤ t → p.connects t ≡ true
    pub rounds : (t : ℕ) → t < up → p.dial t + p.sleep t ≤ step
    pub in_time : up + step ≤ deadline

  wait-true :
      (fuel now up step : ℕ)
      → Sleeps p
      → IsUpFrom up step
      → now < deadline
      → deadline ≤ now + 100 * fuel
      → wait p (suc fuel) deadline now ≡ some true
  wait-true zero now up step slow h early enough = absurd (omega arith)
  wait-true (suc fuel) now up step slow h early enough =
      wait-round (suc fuel) now early ∙ elim (dec_lt now up) [
        | yes down ↦ round-down now (
            wait-true fuel (next_round p now) up step slow h
              (omega (arith, h.rounds now down, h.in_time)) (omega (arith, slow now)))
        | no there ↦ round-up now _ (h.answers now (omega arith))
      ]

module _ (p : Port) (timeout now : ℕ) where
  -- Where a sleep takes its 100 ms, the wait ends within a round for each 100 ms of the time that it
  -- has, and one. It answers yes only if a dial in that time has connected; and it does answer yes
  -- if the port accepts from a time on, early enough for one more round before the deadline.
  pub wait_for_port-answers :
      (fuel : ℕ)
      → Sleeps p
      → timeout ≤ 100 * fuel
      → ((b : Bool) × (wait_for_port p (suc fuel) timeout now ≡ some b))
        × (wait_for_port p (suc fuel) timeout now ≡ some true
            → (t : ℕ) × (now ≤ t) × (t < now + timeout) × (p.connects t ≡ true))
        × ((up step : ℕ)
            → IsUpFrom p (now + timeout) up step
            → 0 < timeout
            → wait_for_port p (suc fuel) timeout now ≡ some true)
  unfolding wait_for_port
  wait_for_port-answers fuel slow enough = (
    wait-ends p (now + timeout) fuel now slow (omega arith),
    wait-connects p (now + timeout) (suc fuel) now,
    λ up step h some_time.
        wait-true p (now + timeout) fuel now up step slow h (omega arith) (omega arith),
  )
