-- ===== src/Application/Messages/Reads/Availability.antt =====
-- The bodies of the messages about the availability of URLs are read back.
use openscreen_rs.Base.{refl, arith}
use openscreen_rs.Deps.{Deps, Laws}
use openscreen_rs.Common.{max_urls}
use openscreen_rs.Application.Codes.{availability_lem, availability_small}
use openscreen_rs.Application.Enumerations.{UrlAvailability, availability_from_u8}
use openscreen_rs.Network.Messages.Codec.Reads.{Reads, Reads-pure}
use openscreen_rs.Application.Messages.{
  ApplicationMessage, PresentationUrlAvailabilityRequest, PresentationUrlAvailabilityResponse,
  PresentationUrlAvailabilityEvent,
}
use openscreen_rs.Application.Messages.Decode.{decode_code}
use openscreen_rs.Application.Messages.Sizes.{IsDecodable}
use openscreen_rs.Application.Messages.Decode.Availability.{
  availability_request_field, decode_availability_request_body, availability_response_field,
  decode_availability_response_body, availability_event_field, decode_availability_event_body,
}
use openscreen_rs.Application.Messages.Wire.Availability.{
  availability_bytes, availability_request_bytes, availability_response_bytes,
  availability_event_bytes,
}
use openscreen_rs.Application.Messages.Reads.{
  Reads-after, u64-Reads, text-Reads, code-Reads, field-Reads, last-Reads, map_body-Reads,
  value-Reads, count-Reads, every,
}

module _ (d : Deps) (laws : Laws d) where
  availability-Reads :
      (availability : UrlAvailability)
      → Unit {0}
      → Reads (decode_code d availability_from_u8) (availability_bytes d availability) availability
  availability-Reads availability h =
      code-Reads d laws _ _ (availability_small availability) (availability_lem availability)

  pub availability_request-Reads :
      (msg : PresentationUrlAvailabilityRequest)
      → IsDecodable (ApplicationMessage.presentation_url_availability_request msg)
      → Reads (decode_availability_request_body d) (availability_request_bytes d msg) msg
  unfolding decode_availability_request_body availability_request_field
  availability_request-Reads msg h =
      map_body-Reads d laws _ 4 _ _ _ (omega arith) refl
        (field-Reads d laws _ 0 _ (omega arith) (value-Reads _ (u64-Reads d laws _ h.0)) (
          field-Reads d laws _ 1 _ (omega arith)
            (value-Reads _
              (count-Reads d laws _ _ (text-Reads d laws) max_urls (omega arith) _ h.1 h.2))
            (field-Reads d laws _ 2 _ (omega arith) (value-Reads _ (u64-Reads d laws _ h.3))
              (last-Reads d laws _ 3 (omega arith) (value-Reads _ (u64-Reads d laws _ h.4))))))
        (Reads-after _ (Reads-after _ (Reads-after _ (Reads-after _ (Reads-pure _)))))

  pub availability_response-Reads :
      (msg : PresentationUrlAvailabilityResponse)
      → IsDecodable (ApplicationMessage.presentation_url_availability_response msg)
      → Reads (decode_availability_response_body d) (availability_response_bytes d msg) msg
  unfolding decode_availability_response_body availability_response_field
  availability_response-Reads msg h =
      map_body-Reads d laws _ 2 _ _ _ (omega arith) refl
        (field-Reads d laws _ 0 _ (omega arith) (value-Reads _ (u64-Reads d laws _ h.0)) (
          last-Reads d laws _ 1 (omega arith) (
            value-Reads _ (
              count-Reads d laws _ _ (availability-Reads) max_urls (omega arith) _ h.1 (every _)))))
        (Reads-after _ (Reads-after _ (Reads-pure _)))

  pub availability_event-Reads :
      (msg : PresentationUrlAvailabilityEvent)
      → IsDecodable (ApplicationMessage.presentation_url_availability_event msg)
      → Reads (decode_availability_event_body d) (availability_event_bytes d msg) msg
  unfolding decode_availability_event_body availability_event_field
  availability_event-Reads msg h =
      map_body-Reads d laws _ 2 _ _ _ (omega arith) refl
        (field-Reads d laws _ 0 _ (omega arith) (value-Reads _ (u64-Reads d laws _ h.0)) (
          last-Reads d laws _ 1 (omega arith) (
            value-Reads _ (
              count-Reads d laws _ _ (availability-Reads) max_urls (omega arith) _ h.1 (every _)))))
        (Reads-after _ (Reads-after _ (Reads-pure _)))
