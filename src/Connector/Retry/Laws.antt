-- ===== src/Connector/Retry/Laws.antt =====
-- The loop over the attempts: which attempt decides, and how long it waits.
use opencdc.Base.{
  ℕ, zero, suc, ◌+◌, ◌*◌, ◌≤◌, ◌<◌, ◌-◌, ◌≡◌, refl, ap, ◌∙◌, ◌⊎◌, inl, inr, Option, none, some,
  List, [], ◌∷◌, ltb, if◌then◌else◌, length, Text, Outcome, done, arith, All, lt→ltb, Bool-cases,
}
use Prim.Native.Nat.{max}
use opencdc.Core.Error.{Error}
use opencdc.Connector.Retry.{attempts_from, connect_with_retry, after_attempt, attempt_error}

-- The delays behind `k` failed attempts, the first of the number `a`.
abbrev pub delays : ℕ → ℕ → List ℕ
delays a zero = []
delays a (suc k) = 500 * (a + 1) ∷ delays (a + 1) k

-- The delays `ds` are fewer than the `n` attempts they are between, and none is longer than that
-- before the last of all `m` attempts.
abbrev pub Bounded : ℕ → ℕ → List ℕ → Type 0
Bounded m n ds = (length ds ≤ n - 1) × All (λ d. d ≤ 500 * (m - 1)) ds

module _ {C : Type 0} (fallback : Text) (connect : ℕ → (Text × Text) ⊎ C) where
  attempts_from_connects :
      (k n a b m : ℕ) (last : Option Error) (errors : ℕ → Text × Text) (client : C)
      → k < n
      → a + n ≡ m
      → a + k ≡ b
      → ((i : ℕ) → i < b → connect i ≡ inl (errors i))
      → connect b ≡ inr client
      → attempts_from fallback connect n a m last ≡ (done client, delays a k)
  unfolding attempts_from after_attempt
  attempts_from_connects k zero a b m last errors client h s e fails up = absurd (omega arith)
  attempts_from_connects zero (suc n) a b m last errors client h s e fails up =
      rw (ap connect (at_end e) ∙ up, after_attempt) refl
    where
      at_end : a + 0 ≡ b → a ≡ b
      at_end l = omega arith
  attempts_from_connects (suc k) (suc n) a b m last errors client h s e fails up =
      rw (fails a (omega arith), after_attempt, lt→ltb (a + 1) m (omega arith)) rw
        (attempts_from_connects k n (a + 1) b m _ errors client (omega arith) (omega arith)
          (omega arith) fails up)
        refl

  -- The attempt that decides is the first one that succeeds, if it is among those that are made: one at
  -- least, and as many as the configuration allows. Before it the loop waits 500 ms, 1000 ms, and so on.
  pub retry_connects :
      (k n : ℕ) (errors : ℕ → Text × Text) (client : C)
      → k < max n 1
      → ((i : ℕ) → i < k → connect i ≡ inl (errors i))
      → connect k ≡ inr client
      → connect_with_retry fallback connect n ≡ (done client, delays 0 k)
  unfolding connect_with_retry
  retry_connects k n errors client h fails up =
      attempts_from_connects k (max n 1) 0 k (max n 1) none errors client h (omega arith)
        (omega arith) fails up

  after_attempt_waits :
      (n a m : ℕ) (next : Error → Outcome Error C × List ℕ) (o : (Text × Text) ⊎ C)
      → a + suc n ≡ m
      → ((e : Error) → Bounded m n (next e).1)
      → Bounded m (suc n) (after_attempt fallback connect a m next o).1
  unfolding after_attempt
  after_attempt_waits n a m next (inr client) s h = (omega arith, tt)
  after_attempt_waits n a m next (inl e) s h = within _ (h (attempt_error a m e)).0 (h _).1
    where
      within :
          (r : Outcome Error C × List ℕ)
          → length r.1 ≤ n - 1
          → All (λ d. d ≤ 500 * (m - 1)) r.1
          → Bounded m (suc n) (if ltb (a + 1) m then (r.0, 500 * (a + 1) ∷ r.1) else r).1
      within r short small = elim (Bool-cases (ltb (a + 1) m)) [
        | inl t ↦ rw t (ground arith, (ground arith, small))
        | inr f ↦ rw f (ground arith, small)
      ]

  attempts_from_waits :
      (n a m : ℕ) (last : Option Error)
      → a + n ≡ m
      → Bounded m n (attempts_from fallback connect n a m last).1
  unfolding attempts_from
  attempts_from_waits zero a m last s = (omega arith, tt)
  attempts_from_waits (suc n) a m last s =
      after_attempt_waits n a m (λ e. attempts_from fallback connect n (a + 1) m (some e))
        (connect a) s λ e. attempts_from_waits n (a + 1) m (some e) (omega arith)

  -- Whatever the attempts come to, the loop waits fewer times than it may attempt, and never longer
  -- than 500 ms for each attempt before the last.
  pub retry_bounds : (n : ℕ) → Bounded (max n 1) (max n 1) (connect_with_retry fallback connect n).1
  unfolding connect_with_retry
  retry_bounds n = attempts_from_waits (max n 1) 0 (max n 1) none (omega arith)
