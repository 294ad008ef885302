-- ===== src/Application/Machine/Commands.antt =====
-- openscreen-application/src/lib.rs: the handlers of the commands of the user.
use openscreen_rs.Base.{
  ℕ, Option, none, some, List, [], ◌∷◌, pure, raise, ◌>>=◌, ◌>>◌, if◌then◌else◌,
}
use openscreen_rs.Deps.{Deps}
use openscreen_rs.Common.{max_urls}
use openscreen_rs.Application.{ApplicationError}
use openscreen_rs.Application.Enumerations.{
  PresentationTerminationReason, PresentationConnectionCloseReason,
}
use openscreen_rs.Application.Messages.{ApplicationMessage, Status}
use openscreen_rs.Application.Machine.{Handling, authenticated_only, take_request_id, send}

-- `status_message.map(|s| Status { status: s })`
abbrev pub status_of : Option (List ℕ) → Option Status
status_of none = none
status_of (some status_message) = some (record { status = status_message })

module _ (d : Deps) where
  unfoldable pub handle_start_presentation : List ℕ → List ℕ → Handling (Unit {0})
  handle_start_presentation url presentation_id = do
    authenticated_only
    request_id ← take_request_id
    send d (
        ApplicationMessage.presentation_start_request (record {
          request_id = request_id;
          presentation_id = presentation_id;
          url = url;
          headers = [];
        }))

  unfoldable pub handle_terminate_presentation :
      List ℕ → PresentationTerminationReason → Handling (Unit {0})
  handle_terminate_presentation presentation_id reason = do
    authenticated_only
    request_id ← take_request_id
    send d (
        ApplicationMessage.presentation_termination_request
          (record { request_id = request_id; presentation_id = presentation_id; reason = reason }))

  -- `for url in urls`
  unfoldable pub collect_urls : List (List ℕ) → List (List ℕ) → Handling (List (List ℕ))
  collect_urls [] url_vec = pure url_vec
  collect_urls (url ∷ urls) url_vec =
      let pushed = d.heapless.push max_urls url_vec url in
      if pushed.0 then collect_urls urls pushed.1 else raise ApplicationError.buffer_full

  unfoldable pub handle_check_url_availability : List (List ℕ) → ℕ → Handling (Unit {0})
  handle_check_url_availability urls watch_duration = do
    authenticated_only
    request_id ← take_request_id
    url_vec ← collect_urls urls []
    send d (
        ApplicationMessage.presentation_url_availability_request (record {
          request_id = request_id;
          urls = url_vec;
          watch_duration = watch_duration;
          watch_id = 0;
        }))

  unfoldable pub handle_open_presentation_connection : List ℕ → List ℕ → Handling (Unit {0})
  handle_open_presentation_connection presentation_id url = do
    authenticated_only
    request_id ← take_request_id
    send d (
        ApplicationMessage.presentation_connection_open_request
          (record { request_id = request_id; presentation_id = presentation_id; url = url }))

  unfoldable pub handle_send_presentation_message : ℕ → List ℕ → Handling (Unit {0})
  handle_send_presentation_message connection_id message = do
    authenticated_only
    send d (
        ApplicationMessage.presentation_connection_message
          (record { connection_id = connection_id; message = message }))

  unfoldable pub handle_close_presentation_connection :
      ℕ → PresentationConnectionCloseReason → Handling (Unit {0})
  handle_close_presentation_connection connection_id reason = do
    authenticated_only
    send d (
        ApplicationMessage.presentation_connection_close_event (record {
          connection_id = connection_id;
          reason = reason;
          error_message = none;
          connection_count = 0;
        }))

  unfoldable pub handle_request_agent_status : Option (List ℕ) → Handling (Unit {0})
  handle_request_agent_status status_message = do
    authenticated_only
    request_id ← take_request_id
    send d (
        ApplicationMessage.agent_status_request
          (record { request_id = request_id; status = status_of status_message }))

  unfoldable pub handle_request_agent_info : Handling (Unit {0})
  handle_request_agent_info = do
    authenticated_only
    request_id ← take_request_id
    send d (ApplicationMessage.agent_info_request (record { request_id = request_id }))
