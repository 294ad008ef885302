-- ===== src/Application/Messages/Encode/Availability.antt =====
-- openscreen-application/src/messages.rs: `encode` of the messages about the availability of URLs.
use openscreen_rs.Base.{ℕ, List, Action, ◌>>◌}
use openscreen_rs.Deps.{Deps}
use openscreen_rs.Common.{MessageError}
use openscreen_rs.Common.TypeKey.{encode_type_key}
use openscreen_rs.Network.Messages.Codec.{emit}
use openscreen_rs.Application.Kinds.{ApplicationMessageType, application_key}
use openscreen_rs.Application.Enumerations.{UrlAvailability, availability_code}
use openscreen_rs.Application.Messages.{
  PresentationUrlAvailabilityRequest, PresentationUrlAvailabilityResponse,
  PresentationUrlAvailabilityEvent,
}
use openscreen_rs.Application.Messages.Encode.{encode_list}

module _ (d : Deps) (n : ℕ) where
  unfoldable pub encode_url : List ℕ → Action (List ℕ) MessageError (Unit {0})
  encode_url url = emit d n (d.encoder.str url)

  unfoldable pub encode_availability : UrlAvailability → Action (List ℕ) MessageError (Unit {0})
  encode_availability availability = emit d n (d.encoder.u8 (availability_code availability))

  unfoldable pub encode_availability_request :
      PresentationUrlAvailabilityRequest → Action (List ℕ) MessageError (Unit {0})
  encode_availability_request msg = do
    encode_type_key d n
        (application_key ApplicationMessageType.presentation_url_availability_request)
    emit d n (d.encoder.map 4)
    emit d n (d.encoder.u8 0)
    emit d n (d.encoder.u64 msg.request_id)
    emit d n (d.encoder.u8 1)
    encode_list d n encode_url msg.urls
    emit d n (d.encoder.u8 2)
    emit d n (d.encoder.u64 msg.watch_duration)
    emit d n (d.encoder.u8 3)
    emit d n (d.encoder.u64 msg.watch_id)

  unfoldable pub encode_availability_response :
      PresentationUrlAvailabilityResponse → Action (List ℕ) MessageError (Unit {0})
  encode_availability_response msg = do
    encode_type_key d n
        (application_key ApplicationMessageType.presentation_url_availability_response)
    emit d n (d.encoder.map 2)
    emit d n (d.encoder.u8 0)
    emit d n (d.encoder.u64 msg.request_id)
    emit d n (d.encoder.u8 1)
    encode_list d n encode_availability msg.url_availabilities

  unfoldable pub encode_availability_event :
      PresentationUrlAvailabilityEvent → Action (List ℕ) MessageError (Unit {0})
  encode_availability_event msg = do
    encode_type_key d n (application_key ApplicationMessageType.presentation_url_availability_event)
    emit d n (d.encoder.map 2)
    emit d n (d.encoder.u8 0)
    emit d n (d.encoder.u64 msg.watch_id)
    emit d n (d.encoder.u8 1)
    encode_list d n encode_availability msg.url_availabilities
