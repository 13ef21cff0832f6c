-- ===== src/Mcp/Meanwhile.antt =====
-- state.rs: what other calls leave of a connector whose snapshot is being taken.
use opencdc.Base.{
  ℕ, false, ◌≡◌, refl, ◌∙◌, inl, inr, some, List, Text, same, Map, lookup, lookup-update,
  Bool-cases, lookup-update_other, same→eq, update,
}
use opencdc.Mcp.State.{
  AppState, ManagedConnector, ConnectorStatus, snapshotting, register_connector,
  increment_events_received, increment_events_sent, increment_errors, remove_connector,
  update_status, run_snapshot, finish_snapshot, contains_key, lookup-remove_other, lookup-or_insert,
  or_insert,
}

module _ (Config V Sender : Type 0) where
  -- The calls that may come while the task of a connector's snapshot sleeps: any but those that set the
  -- status of that connector or remove it, and a shutdown.
  pub data Meanwhile (name : Text) (s : AppState Config V Sender)
      : AppState Config V Sender → Type 0 where
    none_yet : Meanwhile name s s
    registers :
        (k : Text) {t : AppState Config V Sender}
        → Meanwhile name s t
        → Meanwhile name s (register_connector Config V Sender k t)
    receives :
        (k : Text) (count : ℕ) {t : AppState Config V Sender}
        → Meanwhile name s t
        → Meanwhile name s (increment_events_received Config V Sender k count t)
    sends :
        (count : ℕ) {t : AppState Config V Sender}
        → Meanwhile name s t
        → Meanwhile name s (increment_events_sent Config V Sender count t)
    errs :
        (count : ℕ) {t : AppState Config V Sender}
        → Meanwhile name s t
        → Meanwhile name s (increment_errors Config V Sender count t)
    updates :
        (k : Text) (status : ConnectorStatus) {t : AppState Config V Sender}
        → same k name ≡ false
        → Meanwhile name s t
        → Meanwhile name s (update_status Config V Sender k status t)
    snapshots :
        (k : Text) {t : AppState Config V Sender}
        → same k name ≡ false
        → Meanwhile name s t
        → Meanwhile name s (run_snapshot Config V Sender k t)
    finishes :
        (k : Text) (tables : List Text) {t : AppState Config V Sender}
        → same k name ≡ false
        → Meanwhile name s t
        → Meanwhile name s (finish_snapshot Config V Sender k tables t)
    removes :
        (k : Text) {t : AppState Config V Sender}
        → same k name ≡ false
        → Meanwhile name s t
        → Meanwhile name s (remove_connector Config V Sender k t)

  -- The connector is there, and its snapshot is being taken.
  abbrev pub Taking : Text → Map (ManagedConnector Config V) → Type 0
  Taking name m =
      (d : ManagedConnector Config V) × (lookup name m ≡ some d) × (d.status ≡ snapshotting)

  Taking-or_insert :
      (name k : Text) (v : ManagedConnector Config V) (m : Map (ManagedConnector Config V))
      → Taking name m
      → Taking name (or_insert k v m)
  Taking-or_insert name k v m (d, known, is) = (d, lookup-or_insert name k v m known, is)

  Taking-update_other :
      (name k : Text) (f : ManagedConnector Config V → ManagedConnector Config V)
      (m : Map (ManagedConnector Config V))
      → same k name ≡ false
      → Taking name m
      → Taking name (update k f m)
  Taking-update_other name k f m other (d, known, is) =
      (d, lookup-update_other name k f m other ∙ known, is)

  Taking-update :
      (name k : Text) (f : ManagedConnector Config V → ManagedConnector Config V)
      (m : Map (ManagedConnector Config V))
      → ((d : ManagedConnector Config V) → (f d).status ≡ d.status)
      → Taking name m
      → Taking name (update k f m)
  Taking-update name k f m keeps (d, known, is) = elim (Bool-cases (same k name)) [
    | inl here ↦ rw (same→eq k name here) (f d, lookup-update name f m d known, keeps d ∙ is)
    | inr other ↦ Taking-update_other name k f m other (d, known, is)
  ]

  pub Meanwhile-Taking :
      (name : Text) (s t : AppState Config V Sender)
      → Meanwhile name s t
      → Taking name s.connectors
      → Taking name t.connectors
  unfolding register_connector increment_events_received increment_events_sent increment_errors
      update_status run_snapshot finish_snapshot remove_connector
  Meanwhile-Taking name s _ none_yet h = h
  Meanwhile-Taking name s _ (registers k {t} steps) h =
      Taking-or_insert name k _ t.connectors (Meanwhile-Taking name s t steps h)
  Meanwhile-Taking name s _ (receives k count {t} steps) h =
      Taking-update name k _ t.connectors (λ d. refl) (Meanwhile-Taking name s t steps h)
  Meanwhile-Taking name s _ (sends count {t} steps) h = Meanwhile-Taking name s t steps h
  Meanwhile-Taking name s _ (errs count {t} steps) h = Meanwhile-Taking name s t steps h
  Meanwhile-Taking name s _ (updates k status {t} other steps) h =
      Taking-update_other name k _ t.connectors other (Meanwhile-Taking name s t steps h)
  Meanwhile-Taking name s _ (snapshots k {t} other steps) h =
      Taking-update_other name k _ t.connectors other (Meanwhile-Taking name s t steps h)
  Meanwhile-Taking name s _ (finishes k tables {t} other steps) h =
      let before = Meanwhile-Taking name s t steps h in
      elim (Bool-cases (contains_key Config V Sender k t.connectors)) [
        | inl there ↦ rw there (Taking-update_other name k _ t.connectors other before)
        | inr absent ↦ rw absent before
      ]
  Meanwhile-Taking name s _ (removes k {t} other steps) h =
      let before = Meanwhile-Taking name s t steps h in
      (before.0, lookup-remove_other name k t.connectors other ∙ before.1, before.2)
