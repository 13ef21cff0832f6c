-- ===== src/Mcp/Service/Snapshots.antt =====
-- service.rs: snapshots that are asked for while one is taken, and two requests at once.
use opencdc.Base.{
  true, false, ◌≡◌, refl, ap, ◌∙◌, inl, inr, Option, some, List, Text, same, Map, lookup,
  lookup-update, [], ◌∷◌, Bool-cases,
}
use opencdc.Core.Json.{SerdeJson}
use opencdc.Core.Offset.{snapshot_done}
use opencdc.Mcp.State.{
  AppState, ManagedConnector, snapshotting, running, saturating_add, run_snapshot, finish_snapshot,
  update_status, contains_key, snapshot_taken, snapshot_count,
}
use opencdc.Mcp.Service.{
  SnapshotStartArgs, snapshot_start, start_if_allowed, may_snapshot, invalid_state,
  snapshot_started, unwrap_or_default, ToolResult,
}
use opencdc.Mcp.Meanwhile.{Meanwhile, Meanwhile-Taking}

module _ (j : SerdeJson) (debug : Text → Text) (Config Sender : Type 0) where
  abbrev Connectors : Type 0
  Connectors = Map (ManagedConnector Config j.Value)

  lookup-contains_key :
      (name : Text) (m : Connectors) (c : ManagedConnector Config j.Value)
      → lookup name m ≡ some c
      → contains_key Config j.Value Sender name m ≡ true
  unfolding lookup
  lookup-contains_key name [] c h = cc
  lookup-contains_key name ((k, d) ∷ m) c h = elim (Bool-cases (same k name)) [
    | inl here ↦ rw here refl
    | inr there ↦ rw there (lookup-contains_key name m c (rw there at h))
  ]

  abbrev args_of : Text → Option (List Text) → SnapshotStartArgs
  args_of name tables = record { connector = name; tables = tables }

  abbrev State : Type 0
  State = AppState Config j.Value Sender

  abbrev alone : State → State
  alone s = s

  abbrev start :
      Text → Option (List Text) → (State → State) → State → ToolResult j debug Config Sender × State
  start name tables between s =
      snapshot_start j debug Config Sender true (args_of name tables) between s

  accepted :
      (name : Text) (tables : Option (List Text)) (between : State → State) (s : State)
      (c : ManagedConnector Config j.Value)
      → lookup name s.connectors ≡ some c
      → may_snapshot c.status ≡ true
      → start name tables between s ≡ (
        snapshot_started j debug Config Sender name,
        run_snapshot Config j.Value Sender name (between s),
      )
  unfolding snapshot_start start_if_allowed
  accepted name tables between s c known may = rw known rw may refl

  refused :
      (name : Text) (tables : Option (List Text)) (between : State → State) (s : State)
      (c : ManagedConnector Config j.Value)
      → lookup name s.connectors ≡ some c
      → may_snapshot c.status ≡ false
      → start name tables between s ≡ (invalid_state j debug Config Sender name c.status, between s)
  unfolding snapshot_start start_if_allowed
  refused name tables between s c known may = rw known rw may refl

  -- The connector while its snapshot is taken.
  abbrev taking : ManagedConnector Config j.Value → ManagedConnector Config j.Value
  taking c = record c { status = snapshotting }

  taking_known :
      (name : Text) (s : State) (c : ManagedConnector Config j.Value)
      → lookup name s.connectors ≡ some c
      → lookup name (run_snapshot Config j.Value Sender name s).connectors ≡ some (taking c)
  unfolding run_snapshot update_status
  taking_known name s c known = lookup-update name taking s.connectors c known

  ended_known :
      (name : Text) (tables : List Text) (s : State) (c : ManagedConnector Config j.Value)
      → lookup name s.connectors ≡ some c
      → lookup name (finish_snapshot Config j.Value Sender name tables s).connectors
        ≡ some
            (snapshot_taken Config j.Value Sender (snapshot_count Config j.Value Sender tables) c)
  unfolding finish_snapshot
  ended_known name tables s c known =
      rw (lookup-contains_key name s.connectors c known) (lookup-update name _ s.connectors c known)

  -- Of a connector that runs or is stopped a snapshot is started. While its task sleeps, and no other call
  -- sets the connector's status, removes it or shuts the server down, every further request that reads
  -- the status is refused, and does nothing of its own. After the task one is started again.
  pub snapshot_start_again :
      (name : Text) (tables later : Option (List Text)) (between : State → State) (s t : State)
      (c : ManagedConnector Config j.Value)
      → lookup name s.connectors ≡ some c
      → may_snapshot c.status ≡ true
      → Meanwhile Config j.Value Sender name (start name tables alone s).1 t
      → ((start name tables alone s).0 ≡ snapshot_started j debug Config Sender name)
        × (start name later between t
            ≡ (invalid_state j debug Config Sender name snapshotting, between t))
        × ((start name later alone
              (finish_snapshot Config j.Value Sender name (unwrap_or_default tables) t)).0
            ≡ snapshot_started j debug Config Sender name)
  unfolding may_snapshot
  snapshot_start_again name tables later between s t c known may steps =
      let first = accepted name tables alone s c known may in
      let then = Meanwhile-Taking Config j.Value Sender name _ t steps (
        taking c,
        ap (λ r. lookup name r.1.connectors) first ∙ taking_known name s c known,
        refl,
      ) in
      (
        ap (λ r. r.0) first,
        refused name later between t then.0 then.1 (rw then.2 refl)
            ∙ ap (λ status. (invalid_state j debug Config Sender name status, between t)) then.2,
        ap (λ r. r.0)
            (accepted name later alone _ _ (ended_known name (unwrap_or_default tables) t _ then.1)
              refl),
      )

  -- The status that a request has read may be out of date: two requests of which the second is answered
  -- between the first's reading and its start are both told that a snapshot was started, and when both
  -- tasks have ended the connector has counted the events of both.
  pub snapshot_start_twice :
      (name : Text) (tables later : Option (List Text)) (s : State)
      (c : ManagedConnector Config j.Value)
      → lookup name s.connectors ≡ some c
      → may_snapshot c.status ≡ true
      → let first = start name tables (λ u. (start name later alone u).1) s in
        let ended =
          finish_snapshot Config j.Value Sender name
            (unwrap_or_default tables)
            (finish_snapshot Config j.Value Sender name (unwrap_or_default later) first.1) in
        (first.0 ≡ snapshot_started j debug Config Sender name)
        × ((start name later alone s).0 ≡ snapshot_started j debug Config Sender name)
        × (lookup name ended.connectors
            ≡ some (record c {
              status = running;
              events_received =
                  saturating_add
                    (saturating_add c.events_received
                      (snapshot_count Config j.Value Sender (unwrap_or_default later)))
                    (snapshot_count Config j.Value Sender (unwrap_or_default tables));
              offset = some snapshot_done;
            }))
  snapshot_start_twice name tables later s c known may =
      let second = accepted name later alone s c known may in
      let first = accepted name tables (λ u. (start name later alone u).1) s c known may in
      let known_twice =
        taking_known name _ _
          (ap (λ r. lookup name r.1.connectors) second ∙ taking_known name s c known) in
      let both = ap (λ r. lookup name r.1.connectors) first ∙ known_twice in
      (
        ap (λ r. r.0) first,
        ap (λ r. r.0) second,
        ended_known name (unwrap_or_default tables) _ _
            (ended_known name (unwrap_or_default later) _ _ both),
      )
