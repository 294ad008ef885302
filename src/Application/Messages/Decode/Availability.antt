-- ===== src/Application/Messages/Decode/Availability.antt =====
-- openscreen-application/src/messages.rs: `decode` of the messages about the availability of URLs.
use openscreen_rs.Base.{
  ℕ, Option, none, some, List, ensure, Outcome, Action, pure, raise, ◌>>=◌, ◌>>◌, if◌then◌else◌,
  ◌==◌,
}
use openscreen_rs.Deps.{Deps}
use openscreen_rs.Common.{MessageError, max_urls}
use openscreen_rs.Network.Messages.Codec.{read}
use openscreen_rs.Network.Messages.Codec.Decode.{required, is_length}
use openscreen_rs.Application.Kinds.{ApplicationMessageType}
use openscreen_rs.Application.Messages.Decode.{
  decode_as_type, decode_code, decode_fields, decode_count,
}
use openscreen_rs.Application.Enumerations.{UrlAvailability, availability_from_u8}
use openscreen_rs.Application.Messages.{
  PresentationUrlAvailabilityRequest, PresentationUrlAvailabilityResponse,
  PresentationUrlAvailabilityEvent,
}

-- The locals of the loop of decode_body, and their values before it.
pub record AvailabilityRequestFields : Type 0 where
  pub request_id : Option ℕ
  pub urls : Option (List (List ℕ))
  pub watch_duration : Option ℕ
  pub watch_id : Option ℕ

abbrev pub no_availability_request_fields : AvailabilityRequestFields
no_availability_request_fields = record {
  request_id = none;
  urls = none;
  watch_duration = none;
  watch_id = none;
}

-- The locals of the loop of decode_body, and their values before it.
pub record AvailabilityResponseFields : Type 0 where
  pub request_id : Option ℕ
  pub url_availabilities : Option (List UrlAvailability)

abbrev pub no_availability_response_fields : AvailabilityResponseFields
no_availability_response_fields = record { request_id = none; url_availabilities = none }

-- The locals of the loop of decode_body, and their values before it.
pub record AvailabilityEventFields : Type 0 where
  pub watch_id : Option ℕ
  pub url_availabilities : Option (List UrlAvailability)

abbrev pub no_availability_event_fields : AvailabilityEventFields
no_availability_event_fields = record { watch_id = none; url_availabilities = none }

module _ (d : Deps) where
  unfoldable pub availability_request_field :
      ℕ → AvailabilityRequestFields → Action (List ℕ) MessageError AvailabilityRequestFields
  availability_request_field key f =
      if key == 0
      then (do request_id ← read d.decoder.u64; pure (record f { request_id = some request_id }))
      else if key == 1
      then (do
        urls ← decode_count d max_urls (read d.decoder.str)
        pure (record f { urls = some urls }))
      else if key == 2
      then (do
        watch_duration ← read d.decoder.u64
        pure (record f { watch_duration = some watch_duration }))
      else if key == 3
      then (do watch_id ← read d.decoder.u64; pure (record f { watch_id = some watch_id }))
      else raise MessageError.invalid_field

  unfoldable pub decode_availability_request_body :
      Action (List ℕ) MessageError PresentationUrlAvailabilityRequest
  decode_availability_request_body = do
    map_len ← read d.decoder.map
    ensure (is_length 4 map_len) MessageError.invalid_field
    f ← decode_fields d availability_request_field 4 no_availability_request_fields
    request_id ← required f.request_id
    urls ← required f.urls
    watch_duration ← required f.watch_duration
    watch_id ← required f.watch_id
    pure (record {
      request_id = request_id;
      urls = urls;
      watch_duration = watch_duration;
      watch_id = watch_id;
    })

  unfoldable pub decode_availability_request :
      List ℕ → Outcome MessageError PresentationUrlAvailabilityRequest
  decode_availability_request =
      decode_as_type d ApplicationMessageType.presentation_url_availability_request
        decode_availability_request_body

  unfoldable pub availability_response_field :
      ℕ → AvailabilityResponseFields → Action (List ℕ) MessageError AvailabilityResponseFields
  availability_response_field key f =
      if key == 0
      then (do request_id ← read d.decoder.u64; pure (record f { request_id = some request_id }))
      else if key == 1
      then (do
        url_availabilities ← decode_count d max_urls (decode_code d availability_from_u8)
        pure (record f { url_availabilities = some url_availabilities }))
      else raise MessageError.invalid_field

  unfoldable pub decode_availability_response_body :
      Action (List ℕ) MessageError PresentationUrlAvailabilityResponse
  decode_availability_response_body = do
    map_len ← read d.decoder.map
    ensure (is_length 2 map_len) MessageError.invalid_field
    f ← decode_fields d availability_response_field 2 no_availability_response_fields
    request_id ← required f.request_id
    url_availabilities ← required f.url_availabilities
    pure (record { request_id = request_id; url_availabilities = url_availabilities })

  unfoldable pub decode_availability_response :
      List ℕ → Outcome MessageError PresentationUrlAvailabilityResponse
  decode_availability_response =
      decode_as_type d ApplicationMessageType.presentation_url_availability_response
        decode_availability_response_body

  unfoldable pub availability_event_field :
      ℕ → AvailabilityEventFields → Action (List ℕ) MessageError AvailabilityEventFields
  availability_event_field key f =
      if key == 0
      then (do watch_id ← read d.decoder.u64; pure (record f { watch_id = some watch_id }))
      else if key == 1
      then (do
        url_availabilities ← decode_count d max_urls (decode_code d availability_from_u8)
        pure (record f { url_availabilities = some url_availabilities }))
      else raise MessageError.invalid_field

  unfoldable pub decode_availability_event_body :
      Action (List ℕ) MessageError PresentationUrlAvailabilityEvent
  decode_availability_event_body = do
    map_len ← read d.decoder.map
    ensure (is_length 2 map_len) MessageError.invalid_field
    f ← decode_fields d availability_event_field 2 no_availability_event_fields
    watch_id ← required f.watch_id
    url_availabilities ← required f.url_availabilities
    pure (record { watch_id = watch_id; url_availabilities = url_availabilities })

  unfoldable pub decode_availability_event :
      List ℕ → Outcome MessageError PresentationUrlAvailabilityEvent
  decode_availability_event =
      decode_as_type d ApplicationMessageType.presentation_url_availability_event
        decode_availability_event_body
