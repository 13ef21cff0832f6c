-- ===== src/Base/Outcomes.antt =====
-- What a Rust function that may fail does: it returns, it returns an error, or it panics (an index
-- or a slice out of range). The error is a parameter, since the crates have several.
use mathlib.Core.Path.{◌≡◌, refl, subst}
use mathlib.Core.Bool.{Bool, true, false}
use opencdc.Base.Tests.{if◌then◌else◌}

pub data Outcome (E A : Type 0) : Type 0 where
  done : A → Outcome E A
  failed : E → Outcome E A
  panicked : Outcome E A

infixl 5 ◌>>=◌ ◌>>◌
abbrev pub ◌>>=◌ : {E A B : Type 0} → Outcome E A → (A → Outcome E B) → Outcome E B
done a >>= f = f a
failed e >>= f = failed e
panicked >>= f = panicked

abbrev pub ◌>>◌ : {E A B : Type 0} → Outcome E A → Outcome E B → Outcome E B
m >> k = m >>= λ _. k

-- Inversion of a bind that returned.
pub >>=-eq-done :
    {E A B : Type 0} (m : Outcome E A) (f : A → Outcome E B) {b : B}
    → (m >>= f) ≡ done b
    → (a : A) × (m ≡ done a) × (f a ≡ done b)
>>=-eq-done (done a) f h = (a, refl, h)
>>=-eq-done (failed e) f h = cc
>>=-eq-done panicked f h = cc

-- What is returned satisfies `P`, and nothing panics; an error is allowed.
abbrev pub Safe : {E A : Type 0} → (A → Type 0) → Outcome E A → Type 0
Safe P (done a) = P a
Safe P (failed e) = Unit
Safe P panicked = ⊥

-- What is returned satisfies `P`; an error or a panic is allowed.
abbrev pub Post : {E A : Type 0} → (A → Type 0) → Outcome E A → Type 0
Post P (done a) = P a
Post P (failed e) = Unit
Post P panicked = Unit

-- The same as a record, so that the rules below determine what they speak of.
pub record Ensures {E A : Type 0} (P : A → Type 0) (m : Outcome E A) : Type 0 where
  pub holds : Post P m

module _ {E A : Type 0} {P : A → Type 0} where
  pub Ensures-done : (a : A) → P a → Ensures {E = E} P (done a)
  Ensures-done a h = record { holds = h }

  pub Ensures-failed : (e : E) → Ensures P (failed e)
  Ensures-failed e = record { holds = tt }

  pub Ensures-bind :
      {B : Type 0} (m : Outcome E B) (f : B → Outcome E A)
      → ((b : B) → Ensures P (f b))
      → Ensures P (m >>= f)
  Ensures-bind (done b) f h = h b
  Ensures-bind (failed e) f h = record { holds = tt }
  Ensures-bind panicked f h = record { holds = tt }

  pub Ensures-if :
      (b : Bool) (x y : Outcome E A) → Ensures P x → Ensures P y → Ensures P (if b then x else y)
  Ensures-if true x y hx hy = hx
  Ensures-if false x y hx hy = hy

  -- What is behind a bind may use what is known of its first part.
  pub Ensures-then :
      {B : Type 0} {Q : B → Type 0} (m : Outcome E B) (f : B → Outcome E A)
      → Ensures Q m
      → ((b : B) → Q b → Ensures P (f b))
      → Ensures P (m >>= f)
  Ensures-then (done b) f q h = h b q.holds
  Ensures-then (failed e) f q h = record { holds = tt }
  Ensures-then panicked f q h = record { holds = tt }

  pub Ensures-weaken :
      {Q : A → Type 0} (m : Outcome E A) → ((a : A) → Q a → P a) → Ensures Q m → Ensures P m
  Ensures-weaken (done a) f q = record { holds = f a q.holds }
  Ensures-weaken (failed e) f q = record { holds = tt }
  Ensures-weaken panicked f q = record { holds = tt }

  pub Ensures-eq_done : (m : Outcome E A) (a : A) → Ensures P m → m ≡ done a → P a
  Ensures-eq_done m a h e = subst (Post P) e h.holds

pub ruleset ensures_rules = (Ensures-done, Ensures-failed, Ensures-bind, Ensures-if)

-- Nothing panics; an error is allowed.
pub record NoPanic {E A : Type 0} (m : Outcome E A) : Type 0 where
  pub safe : Safe (λ a. Unit) m

module _ {E A : Type 0} where
  pub NoPanic-done : (a : A) → NoPanic {E = E} (done a)
  NoPanic-done a = record { safe = tt }

  pub NoPanic-failed : (e : E) → NoPanic {A = A} (failed e)
  NoPanic-failed e = record { safe = tt }

  pub NoPanic-bind :
      {B : Type 0} (m : Outcome E B) (f : B → Outcome E A)
      → NoPanic m
      → ((b : B) → NoPanic (f b))
      → NoPanic (m >>= f)
  NoPanic-bind (done b) f n h = h b
  NoPanic-bind (failed e) f n h = record { safe = tt }
  NoPanic-bind panicked f n h = absurd n.safe

  pub NoPanic-if :
      (b : Bool) (x y : Outcome E A)
      → (b ≡ true → NoPanic x)
      → (b ≡ false → NoPanic y)
      → NoPanic (if b then x else y)
  NoPanic-if true x y hx hy = hx refl
  NoPanic-if false x y hx hy = hy refl

  pub NoPanic-ne : (m : Outcome E A) → NoPanic m → m ≡ panicked → ⊥
  NoPanic-ne m n e = subst (Safe (λ a. Unit)) e n.safe

  -- What is behind the bind may use what is known of the value.
  pub NoPanic-then :
      {B : Type 0} {Q : B → Type 0} (m : Outcome E B) (f : B → Outcome E A)
      → NoPanic m
      → Ensures Q m
      → ((b : B) → Q b → NoPanic (f b))
      → NoPanic (m >>= f)
  NoPanic-then (done b) f n q h = h b q.holds
  NoPanic-then (failed e) f n q h = record { safe = tt }
  NoPanic-then panicked f n q h = absurd n.safe

  pub bind_congr :
      {B : Type 0} (m : Outcome E B) (f g : B → Outcome E A)
      → ((b : B) → f b ≡ g b)
      → (m >>= f) ≡ (m >>= g)
  bind_congr (done b) f g h = h b
  bind_congr (failed e) f g h = refl
  bind_congr panicked f g h = refl

  -- The same with what is known of the value.
  pub bind_congr_Ensures :
      {B : Type 0} {Q : B → Type 0} (m : Outcome E B) (f g : B → Outcome E A)
      → Ensures Q m
      → ((b : B) → Q b → f b ≡ g b)
      → (m >>= f) ≡ (m >>= g)
  bind_congr_Ensures (done b) f g q h = h b q.holds
  bind_congr_Ensures (failed e) f g q h = refl
  bind_congr_Ensures panicked f g q h = refl
