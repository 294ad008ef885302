-- ===== src/Application/Messages/Decode/Opening.antt =====
-- openscreen-application/src/messages.rs: `decode` of the messages that open a connection.
use openscreen_rs.Base.{
  ℕ, Option, none, some, List, ensure, Outcome, Action, pure, raise, ◌>>=◌, ◌>>◌, if◌then◌else◌,
  ◌==◌,
}
use openscreen_rs.Deps.{Deps}
use openscreen_rs.Common.{MessageError}
use openscreen_rs.Network.Messages.Codec.{read}
use openscreen_rs.Network.Messages.Codec.Decode.{required, is_length}
use openscreen_rs.Application.Kinds.{ApplicationMessageType}
use openscreen_rs.Application.Messages.Decode.{decode_as_type, decode_code, decode_fields}
use openscreen_rs.Application.Enumerations.{PresentationResult, result_from_u8}
use openscreen_rs.Application.Messages.{
  PresentationConnectionOpenRequest, PresentationConnectionOpenResponse,
}

-- The locals of the loop of decode_body, and their values before it.
pub record OpenRequestFields : Type 0 where
  pub request_id : Option ℕ
  pub presentation_id : Option (List ℕ)
  pub url : Option (List ℕ)

abbrev pub no_open_request_fields : OpenRequestFields
no_open_request_fields = record { request_id = none; presentation_id = none; url = none }

-- The locals of the loop of decode_body, and their values before it.
pub record OpenResponseFields : Type 0 where
  pub request_id : Option ℕ
  pub result : Option PresentationResult
  pub connection_id : Option ℕ
  pub connection_count : Option ℕ

abbrev pub no_open_response_fields : OpenResponseFields
no_open_response_fields = record {
  request_id = none;
  result = none;
  connection_id = none;
  connection_count = none;
}

module _ (d : Deps) where
  unfoldable pub open_request_field :
      ℕ → OpenRequestFields → Action (List ℕ) MessageError OpenRequestFields
  open_request_field key f =
      if key == 0
      then (do request_id ← read d.decoder.u64; pure (record f { request_id = some request_id }))
      else if key == 1
      then (do
        presentation_id ← read d.decoder.str
        pure (record f { presentation_id = some presentation_id }))
      else if key == 2
      then (do url ← read d.decoder.str; pure (record f { url = some url }))
      else raise MessageError.invalid_field

  unfoldable pub decode_open_request_body :
      Action (List ℕ) MessageError PresentationConnectionOpenRequest
  decode_open_request_body = do
    map_len ← read d.decoder.map
    ensure (is_length 3 map_len) MessageError.invalid_field
    f ← decode_fields d open_request_field 3 no_open_request_fields
    request_id ← required f.request_id
    presentation_id ← required f.presentation_id
    url ← required f.url
    pure (record { request_id = request_id; presentation_id = presentation_id; url = url })

  unfoldable pub decode_open_request :
      List ℕ → Outcome MessageError PresentationConnectionOpenRequest
  decode_open_request =
      decode_as_type d ApplicationMessageType.presentation_connection_open_request
        decode_open_request_body

  unfoldable pub open_response_field :
      ℕ → OpenResponseFields → Action (List ℕ) MessageError OpenResponseFields
  open_response_field key f =
      if key == 0
      then (do request_id ← read d.decoder.u64; pure (record f { request_id = some request_id }))
      else if key == 1
      then (do result ← decode_code d result_from_u8; pure (record f { result = some result }))
      else if key == 2
      then (do
        connection_id ← read d.decoder.u64
        pure (record f { connection_id = some connection_id }))
      else if key == 3
      then (do
        connection_count ← read d.decoder.u64
        pure (record f { connection_count = some connection_count }))
      else raise MessageError.invalid_field

  unfoldable pub decode_open_response_body :
      Action (List ℕ) MessageError PresentationConnectionOpenResponse
  decode_open_response_body = do
    map_len ← read d.decoder.map
    ensure (is_length 4 map_len) MessageError.invalid_field
    f ← decode_fields d open_response_field 4 no_open_response_fields
    request_id ← required f.request_id
    result ← required f.result
    connection_id ← required f.connection_id
    connection_count ← required f.connection_count
    pure (record {
      request_id = request_id;
      result = result;
      connection_id = connection_id;
      connection_count = connection_count;
    })

  unfoldable pub decode_open_response :
      List ℕ → Outcome MessageError PresentationConnectionOpenResponse
  decode_open_response =
      decode_as_type d ApplicationMessageType.presentation_connection_open_response
        decode_open_response_body
