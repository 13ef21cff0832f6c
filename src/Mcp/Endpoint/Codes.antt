-- ===== src/Mcp/Endpoint/Codes.antt =====
-- When the health endpoint reports that the server is healthy.
use opencdc.Base.{
  ℕ, ◌+◌, ◌≡◌, refl, sym, ap, ◌∙◌, ◌↔◌, Bool, true, false, Bool-cases, inl, inr, [], ◌∷◌, ltb, All,
  if◌then◌else◌, Text, text, same, Map, arith,
}
use opencdc.Core.Json.{SerdeJson}
use opencdc.Mcp.State.{
  AppState, HealthStatus, ManagedConnector, count_values, is_error, health_status,
}
use opencdc.Mcp.Endpoint.{asks_for, health_answer, answer}

module _ (j : SerdeJson) (show_health : HealthStatus → Text) (Config V Sender : Type 0) where
  -- No connector is in the status of an error.
  abbrev pub Sound : Map (ManagedConnector Config V) → Type 0
  Sound = All (λ (k, c). is_error c.status ≡ false)

  none_counted :
      (m : Map (ManagedConnector Config V)) → Sound m → count_values (λ c. is_error c.status) m ≡ 0
  unfolding count_values
  none_counted [] h = refl
  none_counted ((k, c) ∷ m) h = rw (h.0, none_counted m h.1) refl

  not_counted : (n : ℕ) → 1 + n ≡ 0 → ⊥
  not_counted n h = omega arith

  no_more : (n : ℕ) → 0 + n ≡ 0 → n ≡ 0
  no_more n h = omega arith

  counted_none :
      (m : Map (ManagedConnector Config V)) → count_values (λ c. is_error c.status) m ≡ 0 → Sound m
  unfolding count_values
  counted_none [] h = tt
  counted_none ((k, c) ∷ m) h = elim (Bool-cases (is_error c.status)) [
    | inl errs ↦ absurd (not_counted _ (rw errs at h))
    | inr fine ↦ (fine, counted_none m (no_more _ (rw fine at h)))
  ]

  health_code :
      (h : HealthStatus) (b : Bool)
      → h.status ≡ (if b then text "degraded" else text "healthy")
      → (health_answer j show_health h).status_code ≡ (if b then 503 else 200)
  unfolding health_answer same
  health_code h true e = rw e refl
  health_code h false e = rw e refl

  abbrev code_if : Bool → ℕ
  code_if b = if b then 503 else 200

  -- A request for the health report is answered with the code 200 exactly if no connector is in the
  -- status of an error.
  pub answer_healthy_iff :
      (uptime : ℕ) (state : AppState Config V Sender) (request : Text)
      → asks_for (text "GET /health") request ≡ true
      → ((answer j show_health Config V Sender uptime state request).status_code ≡ 200)
        ↔ Sound state.connectors
  answer_healthy_iff uptime state request asks = (
    λ ok. counted_none state.connectors (is_zero _ (sym coded ∙ ok)),
    λ sound. coded ∙ ap (λ n. code_if (ltb 0 n)) (none_counted state.connectors sound),
  )
    where
      coded :
          (answer j show_health Config V Sender uptime state request).status_code
          ≡ (if ltb 0 (count_values (λ c. is_error c.status) state.connectors) then 503 else 200)
      coded =
          unfold answer health_status in
          rw asks (
            health_code (health_status Config V Sender uptime state)
              (ltb 0 (count_values (λ c. is_error c.status) state.connectors)) refl)

      is_zero : (n : ℕ) → code_if (ltb 0 n) ≡ 200 → n ≡ 0
      is_zero n h = ground arith
