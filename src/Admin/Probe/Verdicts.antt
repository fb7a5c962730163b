-- ===== src/Admin/Probe/Verdicts.antt =====
-- Which statuses count as success.
use newapi_box.Prelude.{ℕ, ◌≡◌, ◌⊎◌, inl, inr, ◌↔◌, true, arith}
use newapi_box.Admin.Probe.{classify_probe}

-- The statuses that show that the route exists and the key was accepted.
pub data IsProof : ℕ → Type 0 where
  accepted : {n : ℕ} → (n ≡ 200) ⊎ (n ≡ 201) → IsProof n
  refused_body : {n : ℕ} → (n ≡ 400) ⊎ (n ≡ 422) → IsProof n
  limited : {n : ℕ} → n ≡ 429 → IsProof n

classify_probe-true :
    (status : ℕ)
    → (classify_probe status).0 ≡ true
    → ((status ≡ 200) ⊎ (status ≡ 201)) ⊎ (((status ≡ 400) ⊎ (status ≡ 422)) ⊎ (status ≡ 429))
unfolding classify_probe
classify_probe-true status h = ground arith

classify_probe-proof : {status : ℕ} → IsProof status → (classify_probe status).0 ≡ true
unfolding classify_probe
classify_probe-proof (accepted e) = ground arith
classify_probe-proof (refused_body e) = ground arith
classify_probe-proof (limited e) = ground arith

-- A probe is a success exactly at a status that shows that the route exists and the key was
-- accepted: 200, 201, a refused body (400, 422) or a rate limit (429).
pub classify_probe_iff : (status : ℕ) → ((classify_probe status).0 ≡ true) ↔ IsProof status
classify_probe_iff status = (
  λ h. elim (classify_probe-true status h) [
    | inl a ↦ accepted a
    | inr (inl b) ↦ refused_body b
    | inr (inr c) ↦ limited c
  ],
  λ p. classify_probe-proof p,
)
