-- ===== src/Mongodb/Snapshot/Done.antt =====
-- What a snapshot reports where the receiver of its channel goes away.
use opencdc.Base.{
  ℕ, zero, suc, ◌+◌, ◌≡◌, refl, Bool, false, ◌⊎◌, inr, List, [], ◌∷◌, take, leb, le→leb, lt→leb,
  Text, Outcome, done, failed, panicked, arith, ap, ◌∙◌,
}
use opencdc.Base.Int.{ℤ}
use opencdc.Core.Error.{Error}
use opencdc.Core.Json.{SerdeJson}
use opencdc.Mongodb.Config.{MongoDbConnectorConfig}
use opencdc.Mongodb.Bson.{Document, BsonText}
use opencdc.Mongodb.Snapshot.{
  Sent, user_collections, collection_list, after_collection, send_collections, finish,
  run_collections, run,
}

module _ (j : SerdeJson) {Other : Type 0} (t : BsonText Other) (Schema : Type 0) (now : ℤ)
    (config : MongoDbConnectorConfig) (send_fails : ℕ → Bool) (n : ℕ) where
  abbrev never_closed : ℕ → Bool
  never_closed i = false

  after_collection_congr :
      (next rest : Sent j t Schema now → Sent j t Schema now × Outcome Error Unit)
      (r : Sent j t Schema now × Outcome Error Unit)
      → ((sent : Sent j t Schema now) → next sent ≡ rest sent)
      → after_collection j t Schema now next r ≡ after_collection j t Schema now rest r
  unfolding after_collection
  after_collection_congr next rest (sent, done u) same_next = same_next sent
  after_collection_congr next rest (sent, failed e) same_next = refl
  after_collection_congr next rest (sent, panicked) same_next = refl

  send_collections_closed :
      (find : Text → Text ⊎ List (Text ⊎ Document Other)) (names : List Text) (k i : ℕ)
      (sent : Sent j t Schema now)
      → i + k ≡ n
      → send_collections j t Schema now config send_fails (leb n) i find names sent
        ≡ send_collections j t Schema now config send_fails never_closed i find (take k names) sent
  unfolding send_collections
  send_collections_closed find [] zero i sent h = refl
  send_collections_closed find [] (suc k) i sent h = refl
  send_collections_closed find (name ∷ names) zero i sent h = rw (le→leb n i (omega arith)) refl
  send_collections_closed find (name ∷ names) (suc k) i sent h = rw (lt→leb n i (omega arith)) (
      after_collection_congr _ _ _
        λ more. send_collections_closed find names k (i + 1) more (omega arith))

  -- A snapshot of all the collections, of which the receiver is seen to be gone in front of the one of
  -- the number `n`, returns and sends what a snapshot of the first `n` user collections alone does, with
  -- a receiver that stays: also where that is that the snapshot is done.
  pub run_closed :
      (find : Text → Text ⊎ List (Text ⊎ Document Other)) (name : Text)
      (names all_names : List Text)
      → take n (user_collections all_names) ≡ name ∷ names
      → run j t Schema now config send_fails (leb n) (inr tt) (inr all_names) find []
        ≡ run j t Schema now config send_fails never_closed
            (inr tt)
            (inr all_names)
            find
            (name ∷ names)
  unfolding run run_collections collection_list
  run_closed find name names all_names h = ap (finish j t Schema now) (
      send_collections_closed find (user_collections all_names) n 0 [] (omega arith)
      ∙ ap
          (λ some_names.
            send_collections j t Schema now config send_fails never_closed 0 find some_names [])
          h)
