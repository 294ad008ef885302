-- ===== src/Application/Messages/Decode/Start.antt =====
-- openscreen-application/src/messages.rs: `decode` of the messages that start a presentation.
use openscreen_rs.Base.{
  ℕ, ◌||◌, Option, none, some, List, [], ensure, Outcome, Action, pure, raise, ◌>>=◌, ◌>>◌,
  if◌then◌else◌, ◌==◌,
}
use openscreen_rs.Deps.{Deps}
use openscreen_rs.Common.{MessageError}
use openscreen_rs.Network.Messages.Codec.{read}
use openscreen_rs.Network.Messages.Codec.Decode.{unwrap, required, is_length}
use openscreen_rs.Application.Kinds.{ApplicationMessageType}
use openscreen_rs.Application.Messages.Decode.{
  decode_as_type, decode_code, decode_text, decode_fields, decode_present,
}
use openscreen_rs.Application.Enumerations.{PresentationResult, result_from_u8}
use openscreen_rs.Application.Messages.{
  HttpHeader, PresentationStartRequest, PresentationStartResponse, max_headers,
}

-- The locals of the loop of decode_body, and their values before it.
pub record StartRequestFields : Type 0 where
  pub request_id : Option ℕ
  pub presentation_id : Option (List ℕ)
  pub url : Option (List ℕ)
  pub headers : List HttpHeader

abbrev pub no_start_request_fields : StartRequestFields
no_start_request_fields = record {
  request_id = none;
  presentation_id = none;
  url = none;
  headers = [];
}

-- The locals of the loop of decode_body, and their values before it.
pub record StartResponseFields : Type 0 where
  pub request_id : Option ℕ
  pub result : Option PresentationResult
  pub connection_id : Option ℕ
  pub http_response_code : Option ℕ

abbrev pub no_start_response_fields : StartResponseFields
no_start_response_fields = record {
  request_id = none;
  result = none;
  connection_id = none;
  http_response_code = none;
}

module _ (d : Deps) where
  -- An item of the headers.
  unfoldable pub decode_header : Action (List ℕ) MessageError HttpHeader
  decode_header = do
    header_array_len ← read d.decoder.array
    ensure (is_length 2 header_array_len) MessageError.invalid_field
    header_key ← decode_text d
    header_value ← decode_text d
    pure (record { key = header_key; value = header_value })

  unfoldable pub start_request_field :
      ℕ → StartRequestFields → Action (List ℕ) MessageError StartRequestFields
  start_request_field key f =
      if key == 0
      then (do request_id ← read d.decoder.u64; pure (record f { request_id = some request_id }))
      else if key == 1
      then (do pres_id ← decode_text d; pure (record f { presentation_id = some pres_id }))
      else if key == 2
      then (do url_str ← decode_text d; pure (record f { url = some url_str }))
      else if key == 3
      then (do
        headers ← decode_present d max_headers decode_header f.headers
        pure (record f { headers = headers }))
      else raise MessageError.invalid_field

  unfoldable pub decode_start_request_body : Action (List ℕ) MessageError PresentationStartRequest
  decode_start_request_body = do
    map_len ← read d.decoder.map
    ensure (is_length 4 map_len) MessageError.invalid_field
    f ← decode_fields d start_request_field 4 no_start_request_fields
    request_id ← required f.request_id
    presentation_id ← required f.presentation_id
    url ← required f.url
    pure (record {
      request_id = request_id;
      presentation_id = presentation_id;
      url = url;
      headers = f.headers;
    })

  unfoldable pub decode_start_request : List ℕ → Outcome MessageError PresentationStartRequest
  decode_start_request =
      decode_as_type d ApplicationMessageType.presentation_start_request decode_start_request_body

  unfoldable pub start_response_field :
      ℕ → StartResponseFields → Action (List ℕ) MessageError StartResponseFields
  start_response_field key f =
      if key == 0
      then (do request_id ← read d.decoder.u64; pure (record f { request_id = some request_id }))
      else if key == 1
      then (do result ← decode_code d result_from_u8; pure (record f { result = some result }))
      else if key == 2
      then (do
        connection_id ← read d.decoder.u64
        pure (record f { connection_id = some connection_id }))
      else if key == 3
      then (do
        http_code ← read d.decoder.u16
        pure (record f { http_response_code = some http_code }))
      else raise MessageError.invalid_field

  unfoldable pub decode_start_response_body : Action (List ℕ) MessageError PresentationStartResponse
  decode_start_response_body = do
    map_len ← read d.decoder.map
    ensure (is_length 3 map_len || is_length 4 map_len) MessageError.invalid_field
    field_count ← unwrap map_len
    f ← decode_fields d start_response_field field_count no_start_response_fields
    request_id ← required f.request_id
    result ← required f.result
    connection_id ← required f.connection_id
    pure (record {
      request_id = request_id;
      result = result;
      connection_id = connection_id;
      http_response_code = f.http_response_code;
    })

  unfoldable pub decode_start_response : List ℕ → Outcome MessageError PresentationStartResponse
  decode_start_response =
      decode_as_type d ApplicationMessageType.presentation_start_response decode_start_response_body
