-- ===== src/Pipeline/Channel.antt =====
-- The bounded channel between a connector and its pipeline, `tokio::sync::mpsc::channel`: the events that
-- were sent and are not received yet, at most as many as its capacity. A send into a full channel waits
-- until something is received; `none` is a sender that waits while nobody receives.
use opencdc.Base.{
  ℕ, ◌+◌, ◌≤◌, ◌<◌, ◌≡◌, refl, ◌∙◌, ap, Bool-cases, inl, inr, Option, none, some, List, [], ◌∷◌,
  ◌++◌, append_assoc, append-nil, ltb, lt→ltb, length, length-append, if◌then◌else◌, arith,
}

pub record Channel (Event : Type 0) : Type 0 where
  pub queue : List Event
  pub capacity : ℕ

module _ {Event : Type 0} where
  unfoldable pub channel : ℕ → Channel Event
  channel capacity = record { queue = []; capacity = capacity }

  unfoldable pub send : Event → Channel Event → Option (Channel Event)
  send event c =
      if ltb (length c.queue) c.capacity
      then some (record c { queue = c.queue ++ (event ∷ []) })
      else none

  -- The sends of a method, one behind the other, while nobody receives.
  unfoldable pub send_all : List Event → Channel Event → Option (Channel Event)
  send_all [] c = some c
  send_all (event ∷ events) c = elim (send event c) [ none ↦ none | some c ↦ send_all events c ]

  abbrev holding : List Event → ℕ → Channel Event
  holding queue n = record { queue = queue; capacity = n }

  fits :
      (n : ℕ) (es queue : List Event)
      → length queue + length es ≤ n
      → send_all es (holding queue n) ≡ some (holding (queue ++ es) n)
  unfolding send_all send
  fits n [] queue h = rw (append-nil queue) refl
  fits n (e ∷ es) queue h =
      rw (send_all, lt→ltb (length queue) n (omega (arith, h)))
        (fits n es (queue ++ (e ∷ [])) (rw (length-append queue (e ∷ [])) (omega (arith, h)))
          ∙ ap (λ q. some (holding q n)) (append_assoc queue (e ∷ []) es))

  waits :
      (n : ℕ) (es queue : List Event)
      → n < length queue + length es
      → length queue ≤ n
      → send_all es (holding queue n) ≡ none
  unfolding send_all send
  waits n [] queue h l = absurd (omega arith)
  waits n (e ∷ es) queue h l = elim (Bool-cases (ltb (length queue) n)) [
    | inr full ↦ rw (send_all, full) refl
    | inl room ↦
        rw (send_all, room)
          (waits n es (queue ++ (e ∷ [])) (rw (length-append queue (e ∷ [])) (omega (arith, h)))
            (rw (length-append queue (e ∷ [])) (ground arith)))
  ]

  -- As many events as the channel has room for are sent, and are received in their order.
  pub send_all_fits :
      (n : ℕ) (es : List Event)
      → length es ≤ n
      → send_all es (channel n) ≡ some (record { queue = es; capacity = n })
  unfolding channel
  send_all_fits n es h = fits n es [] (omega (arith, h))

  -- A sender of more events than that waits.
  pub send_all_waits : (n : ℕ) (es : List Event) → n < length es → send_all es (channel n) ≡ none
  unfolding channel
  send_all_waits n es h = waits n es [] (omega (arith, h)) (omega arith)
