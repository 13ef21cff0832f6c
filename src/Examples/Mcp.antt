-- ===== src/Examples/Mcp.antt =====
-- The server's state over a few calls.
use opencdc.Base.{ℕ, ◌+◌, ◌^◌, ◌<◌, same_refl, ◌≤◌, ◌≡◌, refl, [], ◌∷◌, some, text, lookup, arith}
use opencdc.Mcp.State.{
  AppState, new, fresh, register_connector, increment_events_received, finish_snapshot,
  shutdown_all, or_insert, running,
}
use opencdc.Core.Offset.{snapshot_done}
use opencdc.Mcp.Accounts.{
  Reachable, starts, goes, registers, receives, received_sum, Reachable-received_sum,
}
use opencdc.Mcp.Health.{finish_snapshot-shutdown_all}

abbrev State : Type 0
State = AppState ℕ ℕ ℕ

abbrev registered : State
registered = register_connector ℕ ℕ ℕ (text "a") (new ℕ ℕ ℕ)

abbrev counted : State
counted = increment_events_received ℕ ℕ ℕ (text "a") 5 registered

counted-Reachable : Reachable ℕ ℕ ℕ counted
counted-Reachable = goes (goes starts (registers (text "a"))) (receives (text "a") 5 room)
  where
    room : registered.total_events_received + 5 < 2 ^ 64
    room = unfold register_connector in omega arith

Reachable-received_sum_example :
    received_sum ℕ ℕ ℕ counted.connectors ≤ counted.total_events_received
Reachable-received_sum_example = Reachable-received_sum ℕ ℕ ℕ counted counted-Reachable

finish_snapshot-shutdown_all_example :
    lookup
      (text "a")
      (finish_snapshot ℕ ℕ ℕ (text "a") (text "t" ∷ []) (shutdown_all ℕ ℕ ℕ registered)).connectors
    ≡ some (record (fresh ℕ ℕ ℕ) {
      status = running;
      events_received = 10;
      offset = some snapshot_done;
    })
finish_snapshot-shutdown_all_example =
    finish_snapshot-shutdown_all ℕ ℕ ℕ (text "a") (text "t" ∷ []) registered (fresh ℕ ℕ ℕ) known
  where
    known : lookup (text "a") registered.connectors ≡ some (fresh ℕ ℕ ℕ)
    known = unfold register_connector or_insert lookup in rw (same_refl (text "a")) refl
