-- ===== src/Mongodb/Stream/Laws.antt =====
-- What a change stream sends: the translations of its events, up to the failure of a send.
use opencdc.Base.{
  ℕ, zero, suc, ◌+◌, ◌≡◌, refl, ◌⊎◌, inl, inr, Option, none, some, List, [], ◌∷◌, ◌++◌,
  append_assoc, append-nil, leb, le→leb, lt→leb, ltb, if◌then◌else◌, length, length-append, take,
  Text, text, Outcome, done, failed, arith, lt→ltb, le→ltb,
}
use opencdc.Base.Int.{ℤ}
use opencdc.Core.Error.{Error, other}
use opencdc.Core.Json.{SerdeJson}
use opencdc.Core.ChangeEvent.{ChangeEvent}
use opencdc.Mongodb.Config.{MongoDbConnectorConfig}
use opencdc.Mongodb.Bson.{Document, BsonText}
use opencdc.Mongodb.Stream.{ChangeStreamEvent, pipeline_of, translate, stream_events, run}

module _ (j : SerdeJson) {Other : Type 0} (t : BsonText Other) (Schema : Type 0) (now : ℤ) where
  open j use {Value}

  -- The change events that a list of stream events stands for.
  abbrev pub translations :
      MongoDbConnectorConfig → List (ChangeStreamEvent Other) → List (ChangeEvent Value Schema)
  translations config [] = []
  translations config (event ∷ events) = elim (translate j t Schema now config event) [
    | none ↦ translations config events
    | some change ↦ change ∷ translations config events
  ]

  -- A cursor that yields the events, and then ends, or fails with a message.
  abbrev pub cursor_of :
      List (ChangeStreamEvent Other) → Option Text → List (Text ⊎ ChangeStreamEvent Other)
  cursor_of [] none = []
  cursor_of [] (some e) = inl e ∷ []
  cursor_of (event ∷ events) closing = inr event ∷ cursor_of events closing

  abbrev pub ending : Option Text → Outcome Error Unit
  ending none = done tt
  ending (some e) = failed (other (text "change stream event: " ++ e))

  module _ (config : MongoDbConnectorConfig) (n : ℕ) (closing : Option Text) where
    abbrev Sent : Type 0
    Sent = List (ChangeEvent Value Schema)

    -- What is sent of the changes that are left, where `k` more sends succeed.
    abbrev cut : ℕ → Sent → Sent → Sent × Outcome Error Unit
    cut k sent changes =
        (sent ++ take k changes, if ltb k (length changes) then done tt else ending closing)

    ltb-suc : (a b : ℕ) → ltb (suc a) (suc b) ≡ ltb a b
    ltb-suc a b = ground arith

    -- A round, by the event that it sends: `next` is the rounds behind it.
    step_cut :
        (next : Sent → Sent × Outcome Error Unit) (changes sent : Sent) (k : ℕ)
        (found : Option (ChangeEvent Value Schema))
        → length sent + k ≡ n
        → ((l : ℕ) (more : Sent) → length more + l ≡ n → next more ≡ cut l more changes)
        → elim found [
          | none ↦ next sent
          | some change ↦
              let rest = next (sent ++ (change ∷ [])) in
              if leb n (length sent) then (sent, done tt) else rest
        ]
          ≡ cut k sent (elim found [ none ↦ changes | some change ↦ change ∷ changes ])
    step_cut next changes sent k none h behind = behind k sent h
    step_cut next changes sent zero (some c) h behind =
        rw
          (
            le→leb n (length sent) (omega arith),
            append-nil sent,
            lt→ltb 0 (suc (length changes)) (omega arith),
          )
          refl
    step_cut next changes sent (suc k) (some c) h behind =
        rw
          (
            lt→leb n (length sent) (omega arith),
            behind k (sent ++ (c ∷ [])) (rw (length-append sent (c ∷ [])) (omega arith)),
            append_assoc sent (c ∷ []) (take k changes),
            ltb-suc k (length changes),
          )
          refl

    ends_cut :
        (k : ℕ) (sent : Sent) (closed : Option Text)
        → stream_events j t Schema now (leb n) config (cursor_of [] closed) sent
          ≡ (sent ++ take k [], if ltb k 0 then done tt else ending closed)
    unfolding stream_events
    ends_cut zero sent none = rw (append-nil sent) refl
    ends_cut zero sent (some e) = rw (append-nil sent) refl
    ends_cut (suc k) sent none = rw (append-nil sent, le→ltb (suc k) 0 (omega arith)) refl
    ends_cut (suc k) sent (some e) = rw (append-nil sent, le→ltb (suc k) 0 (omega arith)) refl

    stream_events-cut :
        (events : List (ChangeStreamEvent Other)) (k : ℕ) (sent : Sent)
        → length sent + k ≡ n
        → stream_events j t Schema now (leb n) config (cursor_of events closing) sent
          ≡ cut k sent (translations config events)
    unfolding stream_events
    stream_events-cut [] k sent h = ends_cut k sent closing
    stream_events-cut (event ∷ events) k sent h =
        step_cut (stream_events j t Schema now (leb n) config (cursor_of events closing))
          (translations config events) sent k (translate j t Schema now config event) h
          (λ l more e. stream_events-cut events l more e)

    -- A run over a change stream sends, in their order, the change events of the stream's events, and of
    -- them the first `n` if the channel's receiver is gone after `n`. It then returns without an error; an
    -- error at the end of the stream is returned if the receiver lasts that long.
    pub run-translations :
        {Token : Type 0}
        (watch : Option (List (Document Other))
          → Option Token
          → Text ⊎ List (Text ⊎ ChangeStreamEvent Other))
        (resume_token : Option Token) (events : List (ChangeStreamEvent Other))
        → watch (pipeline_of config) resume_token ≡ inr (cursor_of events closing)
        → run j t Schema now (leb n) (inr tt) watch config resume_token ≡ (
          take n (translations config events),
          if ltb n (length (translations config events)) then done tt else ending closing,
        )
    unfolding run
    run-translations watch resume_token events opened =
        rw (run, opened) (stream_events-cut events n [] (omega arith))
