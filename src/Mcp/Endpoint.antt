-- ===== src/Mcp/Endpoint.antt =====
-- crates/opencdc-mcp/src/health.rs: the answer to a request of the health endpoint. The bytes are what
-- one `stream.read` gives, nothing where it fails; writing `HealthStatus` as JSON is a parameter.
pub mod Codes
use opencdc.Base.{
  ℕ, Bool, ◌||◌, Option, none, some, List, [], ◌∷◌, ◌++◌, if◌then◌else◌, length, Bytes, Text, text,
  same, starts_with,
}
use opencdc.Core.Format.{decimal}
use opencdc.Core.Json.{SerdeJson}
use opencdc.Wire.Utf8.{from_utf8_lossy}
use opencdc.Mcp.State.{AppState, HealthStatus, health_status}

abbrev pub cors_headers : Text
cors_headers =
    text "Access-Control-Allow-Origin: *\r\n"
    ++ (text "Access-Control-Allow-Methods: GET, OPTIONS\r\n"
        ++ text "Access-Control-Allow-Headers: Content-Type, Authorization\r\n")

-- The status code, its text, the body and the content type.
pub record Answer : Type 0 where
  pub status_code : ℕ
  pub status_text : Text
  pub body : Text
  pub content_type : Text

abbrev concat : List Text → Text
concat [] = []
concat (s ∷ parts) = s ++ concat parts

unfoldable pub preflight : Text
preflight = concat (
    text "HTTP/1.1 204 No Content\r\n"
    ∷ cors_headers
    ∷ text "Content-Length: 0\r\n"
    ∷ text "Connection: close\r\n"
    ∷ text "\r\n"
    ∷ [])

unfoldable pub response : Answer → Text
response a = concat (
    text "HTTP/1.1 "
    ∷ decimal a.status_code
    ∷ text " "
    ∷ a.status_text
    ∷ text "\r\n"
    ∷ cors_headers
    ∷ text "Content-Type: "
    ∷ a.content_type
    ∷ text "\r\nContent-Length: "
    ∷ decimal (length a.body)
    ∷ text "\r\nConnection: close\r\n\r\n"
    ∷ a.body
    ∷ [])

unfoldable pub metrics : HealthStatus → Text
metrics health = concat (
    text "# HELP opencdc_events_received Total events received\n"
    ∷ text "# TYPE opencdc_events_received counter\n"
    ∷ text "opencdc_events_received "
    ∷ decimal health.total_events_received
    ∷ text "\n# HELP opencdc_events_sent Total events sent to sinks\n"
    ∷ text "# TYPE opencdc_events_sent counter\n"
    ∷ text "opencdc_events_sent "
    ∷ decimal health.total_events_sent
    ∷ text "\n# HELP opencdc_errors Total errors\n"
    ∷ text "# TYPE opencdc_errors counter\n"
    ∷ text "opencdc_errors "
    ∷ decimal health.total_errors
    ∷ text "\n# HELP opencdc_connectors_running Currently running connectors\n"
    ∷ text "# TYPE opencdc_connectors_running gauge\n"
    ∷ text "opencdc_connectors_running "
    ∷ decimal health.running_connectors
    ∷ text "\n# HELP opencdc_uptime_seconds Server uptime in seconds\n"
    ∷ text "# TYPE opencdc_uptime_seconds gauge\n"
    ∷ text "opencdc_uptime_seconds "
    ∷ decimal health.uptime_seconds
    ∷ text "\n"
    ∷ [])

-- `starts_with` of the method and the path, behind which a space or the line's end follows.
unfoldable pub asks_for : Text → Text → Bool
asks_for line request =
    starts_with (line ++ text " ") request || starts_with (line ++ text "\r\n") request

module _ (j : SerdeJson) (show_health : HealthStatus → Text) where
  unfoldable pub json_error : Text → Text → Text
  json_error code message =
      j.to_string
        (j.object ((text "error", j.string code) ∷ (text "message", j.string message) ∷ []))

  unfoldable pub health_answer : HealthStatus → Answer
  health_answer health =
      if same health.status (text "healthy")
      then record {
        status_code = 200;
        status_text = text "OK";
        body = show_health health;
        content_type = text "application/json";
      }
      else record {
        status_code = 503;
        status_text = text "Service Unavailable";
        body = show_health health;
        content_type = text "application/json";
      }

  module _ (Config V Sender : Type 0) (uptime : ℕ) (state : AppState Config V Sender) where
    unfoldable pub answer : Text → Answer
    answer request =
        if asks_for (text "GET /health") request
        then health_answer (health_status Config V Sender uptime state)
        else if asks_for (text "GET /metrics") request
        then record {
          status_code = 200;
          status_text = text "OK";
          body = metrics (health_status Config V Sender uptime state);
          content_type = text "text/plain; charset=utf-8";
        }
        else record {
          status_code = 404;
          status_text = text "Not Found";
          body = json_error (text "not_found") (text "the requested endpoint does not exist");
          content_type = text "application/json";
        }

    -- What is written to the stream, if anything is.
    unfoldable pub handle_health_request : Bytes → Option Text
    handle_health_request [] = none
    handle_health_request (b ∷ bytes) =
        let request = from_utf8_lossy (b ∷ bytes) in
        some
          (if starts_with (text "OPTIONS ") request then preflight else response (answer request))
