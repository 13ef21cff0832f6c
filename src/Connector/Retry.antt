-- ===== src/Connector/Retry.antt =====
-- crates/opencdc-connector/src, `connect_with_retry` of mysql/mod.rs, postgres/mod.rs and
-- mongodb/mod.rs: the loop over the attempts. What the attempt of a number comes to is a parameter, as
-- the connection is; a failed one says at what it failed, and with which message.
pub mod Laws
use opencdc.Base.{
  ℕ, zero, suc, ◌+◌, ◌-◌, ◌*◌, ◌≤◌, ◌<◌, ◌≡◌, refl, ap, ◌∙◌, Bool, true, false, ◌⊎◌, inl, inr,
  Option, none, some, List, [], ◌∷◌, ◌++◌, ltb, if◌then◌else◌, length, Text, text, Outcome, done,
  failed, arith, All, lt→ltb, le→ltb,
}
use Prim.Native.Nat.{max}
use opencdc.Core.Error.{Error, other}
use opencdc.Core.Format.{decimal}

-- `format!("... attempt {}/{} failed: {}", attempt + 1, max_attempts, e)`
unfoldable pub attempt_error : ℕ → ℕ → Text × Text → Error
attempt_error attempt max_attempts (what, e) = other (
    what
    ++ (text " attempt "
        ++ (decimal (attempt + 1)
            ++ (text "/" ++ (decimal max_attempts ++ (text " failed: " ++ e))))))

-- `last_error.unwrap_or_else(..)`
unfoldable pub last_or : Text → Option Error → Error
last_or fallback none = other fallback
last_or fallback (some e) = e

-- The result, and the delays that were slept, in milliseconds.
module _ {C : Type 0} (fallback : Text) (connect : ℕ → (Text × Text) ⊎ C) where
  -- The body of the loop: `next` is the rounds behind it, by the error of this one.
  unfoldable pub after_attempt :
      ℕ → ℕ → (Error → Outcome Error C × List ℕ) → (Text × Text) ⊎ C → Outcome Error C × List ℕ
  after_attempt attempt max_attempts next (inr client) = (done client, [])
  after_attempt attempt max_attempts next (inl e) =
      let rest = next (attempt_error attempt max_attempts e) in
      if ltb (attempt + 1) max_attempts then (rest.0, 500 * (attempt + 1) ∷ rest.1) else rest

  -- The rounds that are left, from the attempt of this number on.
  unfoldable pub attempts_from : ℕ → ℕ → ℕ → Option Error → Outcome Error C × List ℕ
  unfolding after_attempt
  attempts_from zero attempt max_attempts last = (failed (last_or fallback last), [])
  attempts_from (suc n) attempt max_attempts last =
      after_attempt attempt max_attempts (λ e. attempts_from n (attempt + 1) max_attempts (some e))
        (connect attempt)

  unfoldable pub connect_with_retry : ℕ → Outcome Error C × List ℕ
  connect_with_retry max_reconnect_attempts =
      let max_attempts = max max_reconnect_attempts 1 in
      attempts_from max_attempts 0 max_attempts none

module _ {C : Type 0} where
  -- What an attempt failed at, in front of its message.
  abbrev failed_at : Text → Text ⊎ C → (Text × Text) ⊎ C
  failed_at what (inl e) = inl (what, e)
  failed_at what (inr c) = inr c

  -- mysql/mod.rs: an attempt is `BinlogClient::connect`.
  unfoldable pub mysql_connect_with_retry : (ℕ → Text ⊎ C) → ℕ → Outcome Error C × List ℕ
  mysql_connect_with_retry connect =
      connect_with_retry (text "mysql connection failed")
        (λ i. failed_at (text "mysql connect") (connect i))

  -- postgres/mod.rs: an attempt is `tokio_postgres::connect`.
  unfoldable pub postgres_connect_with_retry : (ℕ → Text ⊎ C) → ℕ → Outcome Error C × List ℕ
  postgres_connect_with_retry connect =
      connect_with_retry (text "postgres connection failed")
        (λ i. failed_at (text "postgres connect") (connect i))

  -- mongodb/mod.rs: an attempt is `Client::with_uri_str` and then a ping.
  unfoldable pub mongodb_attempt : Text ⊎ C → (C → Text ⊎ Unit {0}) → (Text × Text) ⊎ C
  mongodb_attempt (inl e) ping = inl (text "mongodb connect", e)
  mongodb_attempt (inr client) ping = elim (ping client) [
    | inl e ↦ inl (text "mongodb ping", e)
    | inr u ↦ inr client
  ]

  unfoldable pub mongodb_connect_with_retry :
      (ℕ → Text ⊎ C) → (ℕ → C → Text ⊎ Unit {0}) → ℕ → Outcome Error C × List ℕ
  mongodb_connect_with_retry connect ping =
      connect_with_retry (text "mongodb connection failed")
        (λ i. mongodb_attempt (connect i) (ping i))
