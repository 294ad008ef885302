-- ===== src/Application/Messages/Wire/Presentation.antt =====
-- The messages that start and terminate presentations on the wire.
use openscreen_rs.Base.{ℕ, ◌++◌, Option, none, some, List, [], flatten}
use openscreen_rs.Deps.{Deps, Laws}
use openscreen_rs.Application.Enumerations.{
  result_code, termination_source_code, termination_reason_code,
}
use openscreen_rs.Application.Messages.{
  HttpHeader, PresentationStartRequest, PresentationStartResponse, PresentationTerminationRequest,
  PresentationTerminationResponse, PresentationTerminationEvent,
}
use openscreen_rs.Network.Messages.Codec.Writes.{Writes, Writes-pure, Writes-then, emit-Writes}
use openscreen_rs.Network.Messages.Codec.Wire.{u8_bytes, map_bytes}
use openscreen_rs.Application.Kinds.{ApplicationMessageType}
use openscreen_rs.Application.Messages.Encode.Presentation.{
  start_response_count, encode_header, encode_start_request, encode_http_code_field,
  encode_start_response, encode_termination_request, encode_termination_response,
  encode_termination_event,
}
use openscreen_rs.Application.Messages.Wire.{
  kind_bytes, u64_bytes, u16_bytes, text_bytes, list_bytes, kind-Writes, list-Writes,
}

module _ (d : Deps) where
  abbrev pub header_bytes : HttpHeader → List ℕ
  header_bytes header =
      flatten (d.encoder.array 2) ++ (text_bytes d header.key ++ text_bytes d header.value)

  abbrev pub http_code_field_bytes : Option ℕ → List ℕ
  http_code_field_bytes none = []
  http_code_field_bytes (some http_code) = u8_bytes d 3 ++ u16_bytes d http_code

  abbrev pub start_request_bytes : PresentationStartRequest → List ℕ
  start_request_bytes msg =
      map_bytes d 4
      ++ (u8_bytes d 0
          ++ (u64_bytes d msg.request_id
              ++ (u8_bytes d 1
                  ++ (text_bytes d msg.presentation_id
                      ++ (u8_bytes d 2
                          ++ (text_bytes d msg.url
                              ++ (u8_bytes d 3 ++ (list_bytes d header_bytes msg.headers))))))))

  abbrev pub start_response_bytes : PresentationStartResponse → List ℕ
  start_response_bytes msg =
      map_bytes d (start_response_count msg.http_response_code)
      ++ (u8_bytes d 0
          ++ (u64_bytes d msg.request_id
              ++ (u8_bytes d 1
                  ++ (u8_bytes d (result_code msg.result)
                      ++ (u8_bytes d 2
                          ++ (u64_bytes d msg.connection_id
                              ++ (http_code_field_bytes msg.http_response_code)))))))

  abbrev pub termination_request_bytes : PresentationTerminationRequest → List ℕ
  termination_request_bytes msg =
      map_bytes d 3
      ++ (u8_bytes d 0
          ++ (u64_bytes d msg.request_id
              ++ (u8_bytes d 1
                  ++ (text_bytes d msg.presentation_id
                      ++ (u8_bytes d 2 ++ (u8_bytes d (termination_reason_code msg.reason)))))))

  abbrev pub termination_response_bytes : PresentationTerminationResponse → List ℕ
  termination_response_bytes msg =
      map_bytes d 2
      ++ (u8_bytes d 0
          ++ (u64_bytes d msg.request_id
              ++ (u8_bytes d 1 ++ (u8_bytes d (result_code msg.result)))))

  abbrev pub termination_event_bytes : PresentationTerminationEvent → List ℕ
  termination_event_bytes msg =
      map_bytes d 3
      ++ (u8_bytes d 0
          ++ (text_bytes d msg.presentation_id
              ++ (u8_bytes d 1
                  ++ (u8_bytes d (termination_source_code msg.source)
                      ++ (u8_bytes d 2 ++ (u8_bytes d (termination_reason_code msg.reason)))))))

module _ (d : Deps) (laws : Laws d) (n : ℕ) where
  header-Writes :
      (header : HttpHeader) → Writes n (encode_header d n header) (header_bytes d header)
  unfolding encode_header
  header-Writes header = search (Writes-then n, emit-Writes d laws n)

  http_code_field-Writes :
      (http_code : Option ℕ)
      → Writes n (encode_http_code_field d n http_code) (http_code_field_bytes d http_code)
  unfolding encode_http_code_field
  http_code_field-Writes none = Writes-pure n
  http_code_field-Writes (some http_code) = search (Writes-then n, emit-Writes d laws n)

  pub start_request-Writes :
      (msg : PresentationStartRequest)
      → Writes n (encode_start_request d n msg) (
          kind_bytes d ApplicationMessageType.presentation_start_request
          ++ start_request_bytes d msg)
  unfolding encode_start_request
  start_request-Writes msg =
      search
        (
          Writes-then n,
          emit-Writes d laws n,
          kind-Writes d laws n,
          list-Writes d laws n header-Writes,
        )
        depth 24

  pub start_response-Writes :
      (msg : PresentationStartResponse)
      → Writes n (encode_start_response d n msg) (
          kind_bytes d ApplicationMessageType.presentation_start_response
          ++ start_response_bytes d msg)
  unfolding encode_start_response
  start_response-Writes msg =
      search (Writes-then n, emit-Writes d laws n, kind-Writes d laws n, http_code_field-Writes)
        depth 24

  pub termination_request-Writes :
      (msg : PresentationTerminationRequest)
      → Writes n (encode_termination_request d n msg) (
          kind_bytes d ApplicationMessageType.presentation_termination_request
          ++ termination_request_bytes d msg)
  unfolding encode_termination_request
  termination_request-Writes msg =
      search (Writes-then n, emit-Writes d laws n, kind-Writes d laws n) depth 24

  pub termination_response-Writes :
      (msg : PresentationTerminationResponse)
      → Writes n (encode_termination_response d n msg) (
          kind_bytes d ApplicationMessageType.presentation_termination_response
          ++ termination_response_bytes d msg)
  unfolding encode_termination_response
  termination_response-Writes msg =
      search (Writes-then n, emit-Writes d laws n, kind-Writes d laws n) depth 24

  pub termination_event-Writes :
      (msg : PresentationTerminationEvent)
      → Writes n (encode_termination_event d n msg) (
          kind_bytes d ApplicationMessageType.presentation_termination_event
          ++ termination_event_bytes d msg)
  unfolding encode_termination_event
  termination_event-Writes msg =
      search (Writes-then n, emit-Writes d laws n, kind-Writes d laws n) depth 24
