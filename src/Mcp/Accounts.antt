-- ===== src/Mcp/Accounts.antt =====
-- state.rs: the counters over sequences of calls.
use opencdc.Base.{
  ℕ, ◌+◌, ◌<◌, ◌≤◌, ◌^◌, ◌≡◌, refl, Bool-cases, inl, inr, List, [], ◌∷◌, map, Text, same, Map,
  update, arith,
}
use opencdc.Mcp.State.{
  AppState, ManagedConnector, ConnectorStatus, new, fresh, received, snapshot_taken, snapshot_count,
  or_insert, register_connector, update_status, increment_events_received, increment_events_sent,
  increment_errors, run_snapshot, finish_snapshot, shutdown_all, remove, remove_connector, stopped,
  snapshotting, contains_key,
}

module _ (Config V Sender : Type 0) where
  abbrev Connectors : Type 0
  Connectors = Map (ManagedConnector Config V)

  -- The events that the connectors have counted.
  abbrev pub received_sum : Connectors → ℕ
  received_sum [] = 0
  received_sum ((k, c) ∷ m) = c.events_received + received_sum m

  -- A call, whose counts leave the total below 2 ^ 64.
  pub data Step : AppState Config V Sender → AppState Config V Sender → Type 0 where
    registers :
        (name : Text) {s : AppState Config V Sender}
        → Step s (register_connector Config V Sender name s)
    updates :
        (name : Text) (status : ConnectorStatus) {s : AppState Config V Sender}
        → Step s (update_status Config V Sender name status s)
    receives :
        (name : Text) (count : ℕ) {s : AppState Config V Sender}
        → s.total_events_received + count < 2 ^ 64
        → Step s (increment_events_received Config V Sender name count s)
    sends :
        (count : ℕ) {s : AppState Config V Sender}
        → Step s (increment_events_sent Config V Sender count s)
    errs :
        (count : ℕ) {s : AppState Config V Sender}
        → Step s (increment_errors Config V Sender count s)
    snapshots :
        (name : Text) {s : AppState Config V Sender} → Step s (run_snapshot Config V Sender name s)
    finishes :
        (name : Text) (tables : List Text) {s : AppState Config V Sender}
        → s.total_events_received + snapshot_count Config V Sender tables < 2 ^ 64
        → Step s (finish_snapshot Config V Sender name tables s)
    removes :
        (name : Text) {s : AppState Config V Sender}
        → Step s (remove_connector Config V Sender name s)
    shuts_down : {s : AppState Config V Sender} → Step s (shutdown_all Config V Sender s)

  -- What a server comes to from its start.
  pub data Reachable : AppState Config V Sender → Type 0 where
    starts : Reachable (new Config V Sender)
    goes : {s t : AppState Config V Sender} → Reachable s → Step s t → Reachable t

  sum-update :
      (k : Text) (f : ManagedConnector Config V → ManagedConnector Config V) (n : ℕ)
      → ((c : ManagedConnector Config V) → (f c).events_received ≤ c.events_received + n)
      → (m : Connectors) → received_sum (update k f m) ≤ received_sum m + n
  unfolding update
  sum-update k f n h [] = omega arith
  sum-update k f n h ((j, c) ∷ m) = elim (Bool-cases (same j k)) [
    | inl here ↦ rw here (omega (arith, h c))
    | inr there ↦ rw there (omega (arith, sum-update k f n h m))
  ]

  sum-or_insert :
      (k : Text) (m : Connectors)
      → received_sum (or_insert k (fresh Config V Sender) m) ≡ received_sum m
  unfolding or_insert
  sum-or_insert k [] = refl
  sum-or_insert k ((j, c) ∷ m) = elim (Bool-cases (same j k)) [
    | inl here ↦ rw here refl
    | inr there ↦ rw there (omega (arith, sum-or_insert k m))
  ]

  sum-remove : (k : Text) (m : Connectors) → received_sum (remove k m) ≤ received_sum m
  unfolding remove
  sum-remove k [] = omega arith
  sum-remove k ((j, c) ∷ m) = elim (Bool-cases (same j k)) [
    | inl here ↦ rw here (omega arith)
    | inr there ↦ rw there (omega (arith, sum-remove k m))
  ]

  sum_stopped :
      (m : Connectors)
      → received_sum (map (λ (k, c). (k, record c { status = stopped })) m) ≡ received_sum m
  sum_stopped [] = refl
  sum_stopped ((k, c) ∷ m) = omega (arith, sum_stopped m)

  -- A call keeps the sum under the total.
  Step-received_sum :
      (s t : AppState Config V Sender)
      → Step s t
      → received_sum s.connectors ≤ s.total_events_received
      → received_sum t.connectors ≤ t.total_events_received
  unfolding register_connector update_status increment_events_received increment_events_sent
      increment_errors run_snapshot finish_snapshot shutdown_all remove_connector
  Step-received_sum s _ (registers name) h = omega (arith, h, sum-or_insert name s.connectors)
  Step-received_sum s _ (updates name status) h = omega (
    arith,
    h,
    sum-update name (λ c. record c { status = status }) 0 (λ c. omega arith) s.connectors,
  )
  Step-received_sum s _ (receives name count room) h = omega (
    arith,
    h,
    room,
    sum-update name (received Config V Sender count) count (λ c. omega arith) s.connectors,
  )
  Step-received_sum s _ (sends count) h = h
  Step-received_sum s _ (errs count) h = h
  Step-received_sum s _ (snapshots name) h = omega (
    arith,
    h,
    sum-update name (λ c. record c { status = snapshotting }) 0 (λ c. omega arith) s.connectors,
  )
  Step-received_sum s _ (finishes name tables room) h =
      elim (Bool-cases (contains_key Config V Sender name s.connectors)) [
        | inr absent ↦ rw absent h
        | inl present ↦ rw present (
            omega (
              arith,
              h,
              room,
              sum-update name
                  (snapshot_taken Config V Sender (snapshot_count Config V Sender tables))
                  (snapshot_count Config V Sender tables) (λ c. omega arith) s.connectors,
            ))
      ]
  Step-received_sum s _ (removes name) h = omega (arith, h, sum-remove name s.connectors)
  Step-received_sum s _ shuts_down h = omega (arith, h, sum_stopped s.connectors)

  -- In every state that a server comes to by calls that leave the total below 2 ^ 64, the events that its
  -- connectors have counted are at most the total of the events received.
  pub Reachable-received_sum :
      (s : AppState Config V Sender)
      → Reachable s
      → received_sum s.connectors ≤ s.total_events_received
  Reachable-received_sum _ starts = omega arith
  Reachable-received_sum t (goes {s} r step) =
      Step-received_sum s t step (Reachable-received_sum s r)
