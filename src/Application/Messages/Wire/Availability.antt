-- ===== src/Application/Messages/Wire/Availability.antt =====
-- The messages about the availability of URLs on the wire.
use openscreen_rs.Base.{ℕ, ◌++◌, List}
use openscreen_rs.Deps.{Deps, Laws}
use openscreen_rs.Application.Enumerations.{UrlAvailability, availability_code}
use openscreen_rs.Application.Messages.{
  PresentationUrlAvailabilityRequest, PresentationUrlAvailabilityResponse,
  PresentationUrlAvailabilityEvent,
}
use openscreen_rs.Network.Messages.Codec.Writes.{Writes, Writes-then, emit-Writes}
use openscreen_rs.Network.Messages.Codec.Wire.{u8_bytes, map_bytes}
use openscreen_rs.Application.Kinds.{ApplicationMessageType}
use openscreen_rs.Application.Messages.Encode.Availability.{
  encode_url, encode_availability, encode_availability_request, encode_availability_response,
  encode_availability_event,
}
use openscreen_rs.Application.Messages.Wire.{
  kind_bytes, u64_bytes, text_bytes, list_bytes, kind-Writes, list-Writes,
}

module _ (d : Deps) where
  abbrev pub availability_bytes : UrlAvailability → List ℕ
  availability_bytes availability = u8_bytes d (availability_code availability)

  abbrev pub availability_request_bytes : PresentationUrlAvailabilityRequest → List ℕ
  availability_request_bytes msg =
      map_bytes d 4
      ++ (u8_bytes d 0
          ++ (u64_bytes d msg.request_id
              ++ (u8_bytes d 1
                  ++ (list_bytes d (text_bytes d) msg.urls
                      ++ (u8_bytes d 2
                          ++ (u64_bytes d msg.watch_duration
                              ++ (u8_bytes d 3 ++ (u64_bytes d msg.watch_id))))))))

  abbrev pub availability_response_bytes : PresentationUrlAvailabilityResponse → List ℕ
  availability_response_bytes msg =
      map_bytes d 2
      ++ (u8_bytes d 0
          ++ (u64_bytes d msg.request_id
              ++ (u8_bytes d 1 ++ (list_bytes d availability_bytes msg.url_availabilities))))

  abbrev pub availability_event_bytes : PresentationUrlAvailabilityEvent → List ℕ
  availability_event_bytes msg =
      map_bytes d 2
      ++ (u8_bytes d 0
          ++ (u64_bytes d msg.watch_id
              ++ (u8_bytes d 1 ++ (list_bytes d availability_bytes msg.url_availabilities))))

module _ (d : Deps) (laws : Laws d) (n : ℕ) where
  url-Writes : (url : List ℕ) → Writes n (encode_url d n url) (text_bytes d url)
  unfolding encode_url
  url-Writes url = emit-Writes d laws n _

  availability-Writes :
      (availability : UrlAvailability)
      → Writes n (encode_availability d n availability) (availability_bytes d availability)
  unfolding encode_availability
  availability-Writes availability = emit-Writes d laws n _

  pub availability_request-Writes :
      (msg : PresentationUrlAvailabilityRequest)
      → Writes n (encode_availability_request d n msg) (
          kind_bytes d ApplicationMessageType.presentation_url_availability_request
          ++ availability_request_bytes d msg)
  unfolding encode_availability_request
  availability_request-Writes msg =
      search
        (Writes-then n, emit-Writes d laws n, kind-Writes d laws n, list-Writes d laws n url-Writes)
        depth 24

  pub availability_response-Writes :
      (msg : PresentationUrlAvailabilityResponse)
      → Writes n (encode_availability_response d n msg) (
          kind_bytes d ApplicationMessageType.presentation_url_availability_response
          ++ availability_response_bytes d msg)
  unfolding encode_availability_response
  availability_response-Writes msg =
      search
        (
          Writes-then n,
          emit-Writes d laws n,
          kind-Writes d laws n,
          list-Writes d laws n availability-Writes,
        )
        depth 24

  pub availability_event-Writes :
      (msg : PresentationUrlAvailabilityEvent)
      → Writes n (encode_availability_event d n msg) (
          kind_bytes d ApplicationMessageType.presentation_url_availability_event
          ++ availability_event_bytes d msg)
  unfolding encode_availability_event
  availability_event-Writes msg =
      search
        (
          Writes-then n,
          emit-Writes d laws n,
          kind-Writes d laws n,
          list-Writes d laws n availability-Writes,
        )
        depth 24
