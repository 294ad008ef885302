-- ===== src/Application/Messages/Wire/Connection.antt =====
-- The messages about a connection to a presentation on the wire.
use openscreen_rs.Base.{ℕ, ◌++◌, Option, none, some, List, [], flatten}
use openscreen_rs.Deps.{Deps, Laws}
use openscreen_rs.Application.Enumerations.{result_code, close_reason_code}
use openscreen_rs.Application.Messages.{
  PresentationConnectionOpenRequest, PresentationConnectionOpenResponse,
  PresentationConnectionCloseEvent, PresentationConnectionMessage, PresentationChangeEvent,
}
use openscreen_rs.Network.Messages.Codec.Writes.{Writes, Writes-pure, Writes-then, emit-Writes}
use openscreen_rs.Network.Messages.Codec.Wire.{u8_bytes, map_bytes}
use openscreen_rs.Application.Kinds.{ApplicationMessageType}
use openscreen_rs.Application.Messages.Encode.Connection.{
  close_event_count, encode_open_request, encode_open_response, encode_error_field,
  encode_close_event, encode_connection_message, encode_change_event,
}
use openscreen_rs.Application.Messages.Wire.{kind_bytes, u64_bytes, text_bytes, kind-Writes}

module _ (d : Deps) where
  abbrev pub error_field_bytes : Option (List ℕ) → List ℕ
  error_field_bytes none = []
  error_field_bytes (some error_message) = u8_bytes d 2 ++ text_bytes d error_message

  abbrev pub open_request_bytes : PresentationConnectionOpenRequest → List ℕ
  open_request_bytes msg =
      map_bytes d 3
      ++ (u8_bytes d 0
          ++ (u64_bytes d msg.request_id
              ++ (u8_bytes d 1
                  ++ (text_bytes d msg.presentation_id
                      ++ (u8_bytes d 2 ++ (text_bytes d msg.url))))))

  abbrev pub open_response_bytes : PresentationConnectionOpenResponse → List ℕ
  open_response_bytes msg =
      map_bytes d 4
      ++ (u8_bytes d 0
          ++ (u64_bytes d msg.request_id
              ++ (u8_bytes d 1
                  ++ (u8_bytes d (result_code msg.result)
                      ++ (u8_bytes d 2
                          ++ (u64_bytes d msg.connection_id
                              ++ (u8_bytes d 3 ++ (u64_bytes d msg.connection_count))))))))

  abbrev pub close_event_bytes : PresentationConnectionCloseEvent → List ℕ
  close_event_bytes msg =
      map_bytes d (close_event_count msg.error_message)
      ++ (u8_bytes d 0
          ++ (u64_bytes d msg.connection_id
              ++ (u8_bytes d 1
                  ++ (u8_bytes d (close_reason_code msg.reason)
                      ++ (error_field_bytes msg.error_message
                          ++ (u8_bytes d 3 ++ (u64_bytes d msg.connection_count)))))))

  abbrev pub connection_message_bytes : PresentationConnectionMessage → List ℕ
  connection_message_bytes msg =
      map_bytes d 2
      ++ (u8_bytes d 0
          ++ (u64_bytes d msg.connection_id
              ++ (u8_bytes d 1 ++ (flatten (d.encoder.bytes msg.message)))))

  abbrev pub change_event_bytes : PresentationChangeEvent → List ℕ
  change_event_bytes msg =
      map_bytes d 2
      ++ (u8_bytes d 0
          ++ (text_bytes d msg.presentation_id
              ++ (u8_bytes d 1 ++ (u64_bytes d msg.connection_count))))

module _ (d : Deps) (laws : Laws d) (n : ℕ) where
  error_field-Writes :
      (error_message : Option (List ℕ))
      → Writes n (encode_error_field d n error_message) (error_field_bytes d error_message)
  unfolding encode_error_field
  error_field-Writes none = Writes-pure n
  error_field-Writes (some error_message) = search (Writes-then n, emit-Writes d laws n)

  pub open_request-Writes :
      (msg : PresentationConnectionOpenRequest)
      → Writes n (encode_open_request d n msg) (
          kind_bytes d ApplicationMessageType.presentation_connection_open_request
          ++ open_request_bytes d msg)
  unfolding encode_open_request
  open_request-Writes msg =
      search (Writes-then n, emit-Writes d laws n, kind-Writes d laws n) depth 24

  pub open_response-Writes :
      (msg : PresentationConnectionOpenResponse)
      → Writes n (encode_open_response d n msg) (
          kind_bytes d ApplicationMessageType.presentation_connection_open_response
          ++ open_response_bytes d msg)
  unfolding encode_open_response
  open_response-Writes msg =
      search (Writes-then n, emit-Writes d laws n, kind-Writes d laws n) depth 24

  pub close_event-Writes :
      (msg : PresentationConnectionCloseEvent)
      → Writes n (encode_close_event d n msg) (
          kind_bytes d ApplicationMessageType.presentation_connection_close_event
          ++ close_event_bytes d msg)
  unfolding encode_close_event
  close_event-Writes msg =
      search (Writes-then n, emit-Writes d laws n, kind-Writes d laws n, error_field-Writes) depth
        24

  pub connection_message-Writes :
      (msg : PresentationConnectionMessage)
      → Writes n (encode_connection_message d n msg) (
          kind_bytes d ApplicationMessageType.presentation_connection_message
          ++ connection_message_bytes d msg)
  unfolding encode_connection_message
  connection_message-Writes msg =
      search (Writes-then n, emit-Writes d laws n, kind-Writes d laws n) depth 24

  pub change_event-Writes :
      (msg : PresentationChangeEvent)
      → Writes n (encode_change_event d n msg) (
          kind_bytes d ApplicationMessageType.presentation_change_event ++ change_event_bytes d msg)
  unfolding encode_change_event
  change_event-Writes msg =
      search (Writes-then n, emit-Writes d laws n, kind-Writes d laws n) depth 24
