-- ===== src/Mcp/Health.antt =====
-- state.rs: `shutdown_all`, the health report, and a snapshot task that is still to end.
use opencdc.Base.{
  ℕ, suc, ◌+◌, ◌-◌, ◌*◌, ◌^◌, ◌≡◌, refl, Bool, true, false, Bool-cases, inl, inr, some, List, [],
  ◌∷◌, map, length, Text, text, same, Map, lookup, update, ap,
}
use Prim.Native.Nat.{min, max}
use opencdc.Core.Offset.{snapshot_done}
use opencdc.Mcp.State.{
  AppState, ManagedConnector, ConnectorStatus, stopped, running, snapshot_taken, snapshot_count,
  count_values, is_running, is_error, health_status, finish_snapshot, shutdown_all, contains_key,
}

module _ (Config V Sender : Type 0) where
  abbrev Connectors : Type 0
  Connectors = Map (ManagedConnector Config V)

  abbrev stop_all : Connectors → Connectors
  stop_all m = map (λ (k, c). (k, record c { status = stopped })) m

  none_left :
      (p : ConnectorStatus → Bool)
      → p stopped ≡ false
      → (m : Connectors) → count_values (λ c. p c.status) (stop_all m) ≡ 0
  unfolding count_values
  none_left p h [] = refl
  none_left p h ((k, c) ∷ m) = rw (h, none_left p h m) refl

  stop_all-length : (m : Connectors) → length (stop_all m) ≡ length m
  stop_all-length [] = refl
  stop_all-length ((k, c) ∷ m) = ap suc (stop_all-length m)

  -- After a shutdown the report counts every connector, none of them as running or errored, says
  -- "healthy", and keeps the totals.
  health_status-shutdown_all :
      (uptime : ℕ) (s : AppState Config V Sender)
      → health_status Config V Sender uptime (shutdown_all Config V Sender s) ≡ record {
        uptime_seconds = uptime;
        total_connectors = length s.connectors;
        running_connectors = 0;
        errored_connectors = 0;
        total_events_received = s.total_events_received;
        total_events_sent = s.total_events_sent;
        total_errors = s.total_errors;
        status = text "healthy";
      }
  unfolding health_status shutdown_all
  health_status-shutdown_all uptime s =
      rw
        (
          none_left is_error errors s.connectors,
          none_left is_running runs s.connectors,
          stop_all-length s.connectors,
        )
        refl
    where
      errors : is_error stopped ≡ false
      errors = unfold is_error in refl

      runs : is_running stopped ≡ false
      runs = unfold is_running in refl

  some_injective : (c d : ManagedConnector Config V) → some c ≡ some d → c ≡ d
  some_injective c d h = cc

  taken_known :
      (name : Text) (f : ManagedConnector Config V → ManagedConnector Config V) (m : Connectors)
      (c : ManagedConnector Config V)
      → lookup name m ≡ some c
      → (contains_key Config V Sender name (stop_all m) ≡ true)
        × (lookup name (update name f (stop_all m)) ≡ some (f (record c { status = stopped })))
  unfolding lookup update
  taken_known name f [] c h = cc
  taken_known name f ((k, d) ∷ m) c h = elim (Bool-cases (same k name)) [
    | inl here ↦
        let found : d ≡ c = some_injective d c (rw here at h) in
        rw here (refl, rw here (ap (λ x. some (f (record x { status = stopped }))) found))
    | inr there ↦
        let later = taken_known name f m c (rw there at h) in rw there (later.0, rw there (later.1))
  ]

  -- The task of a snapshot that was started before a shutdown and ends after it leaves its connector
  -- with the status `running`: with ten events counted for each table, or ten for none, and the offset
  -- of a snapshot that is done.
  pub finish_snapshot-shutdown_all :
      (name : Text) (tables : List Text) (s : AppState Config V Sender)
      (c : ManagedConnector Config V)
      → lookup name s.connectors ≡ some c
      → lookup name
          (finish_snapshot Config V Sender name tables (shutdown_all Config V Sender s)).connectors
        ≡ some (record c {
          status = running;
          events_received = min (c.events_received + max (length tables) 1 * 10) (2 ^ 64 - 1);
          offset = some snapshot_done;
        })
  unfolding finish_snapshot shutdown_all
  finish_snapshot-shutdown_all name tables s c known =
      let taken =
        taken_known name (snapshot_taken Config V Sender (snapshot_count Config V Sender tables))
          s.connectors c known in
      rw (taken.0, taken.1) refl
