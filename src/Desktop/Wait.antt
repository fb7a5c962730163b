-- ===== src/Desktop/Wait.antt =====
-- desktop/shell/main.go: waitForPort. Time is in milliseconds. What the dial does at a time and how
-- long it takes, and how long a sleep of 100 ms takes, are arguments.
pub mod Answers
use newapi_box.Prelude.{
  ℕ, zero, suc, ◌+◌, ltb, Bool, true, false, if◌then◌else◌, Option, none, some,
}

-- The clock and the port: whether a dial connects, how long it takes, and how long the sleep behind
-- a failed dial takes, by the time at which the dial begins.
pub record Port : Type 0 where
  pub connects : ℕ → Bool
  pub dial : ℕ → ℕ
  pub sleep : ℕ → ℕ

-- The time at which the next round begins.
abbrev pub next_round : Port → ℕ → ℕ
next_round p now = now + p.dial now + p.sleep now

-- The body of the loop, with what the next round comes to.
unfoldable pub round : Port → ℕ → Option Bool → Option Bool
round p now rest = if p.connects now then some true else rest

-- The loop; `none` is for want of fuel.
unfoldable pub wait : Port → ℕ → ℕ → ℕ → Option Bool
unfolding round
wait p zero deadline now = none
wait p (suc fuel) deadline now =
    let rest = wait p fuel deadline (next_round p now) in
    if ltb now deadline then round p now rest else some false

-- waitForPort
unfoldable pub wait_for_port : Port → ℕ → ℕ → ℕ → Option Bool
unfolding wait
wait_for_port p fuel timeout now = wait p fuel (now + timeout) now
