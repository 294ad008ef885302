-- ===== src/Application/Messages/Decode/Agent.antt =====
-- openscreen-application/src/messages.rs: `decode` of the messages about an agent.
use openscreen_rs.Base.{
  ℕ, Option, none, some, List, [], ensure, Outcome, Action, pure, raise, ◌>>=◌, ◌>>◌, if◌then◌else◌,
  ◌==◌,
}
use openscreen_rs.Deps.{Deps}
use openscreen_rs.Common.{MessageError}
use openscreen_rs.Network.Messages.Codec.{read}
use openscreen_rs.Network.Messages.Codec.Decode.{unwrap, required, is_length}
use openscreen_rs.Application.Kinds.{ApplicationMessageType}
use openscreen_rs.Application.Messages.Decode.{
  decode_as_type, decode_code, decode_text, decode_fields, decode_present, is_some,
}
use openscreen_rs.Application.Enumerations.{AgentCapability, capability_from_u8}
use openscreen_rs.Application.Messages.{
  AgentInfo, AgentInfoRequest, AgentInfoResponse, Status, AgentStatusRequest, AgentStatusResponse,
  AgentInfoEvent, max_capabilities, max_locales,
}

-- The locals of the loop of decode_body, and their values before it.
pub record AgentInfoFields : Type 0 where
  pub display_name : Option (List ℕ)
  pub model_name : Option (List ℕ)
  pub capabilities : List AgentCapability
  pub state_token : Option (List ℕ)
  pub locales : List (List ℕ)

abbrev pub no_agent_info_fields : AgentInfoFields
no_agent_info_fields = record {
  display_name = none;
  model_name = none;
  capabilities = [];
  state_token = none;
  locales = [];
}

-- The locals of the loop of decode_body, and their values before it.
pub record StatusFields : Type 0 where
  pub request_id : Option ℕ
  pub status : Option Status

abbrev pub no_status_fields : StatusFields
no_status_fields = record { request_id = none; status = none }

module _ (d : Deps) where
  unfoldable pub agent_info_field :
      ℕ → AgentInfoFields → Action (List ℕ) MessageError AgentInfoFields
  agent_info_field key f =
      if key == 0
      then (do name ← decode_text d; pure (record f { display_name = some name }))
      else if key == 1
      then (do name ← decode_text d; pure (record f { model_name = some name }))
      else if key == 2
      then (do
        capabilities ←
            decode_present d max_capabilities (decode_code d capability_from_u8) f.capabilities
        pure (record f { capabilities = capabilities }))
      else if key == 3
      then (do token ← decode_text d; pure (record f { state_token = some token }))
      else if key == 4
      then (do
        locales ← decode_present d max_locales (decode_text d) f.locales
        pure (record f { locales = locales }))
      else raise MessageError.invalid_field

  -- The agent info of the response and of the event, which differ in the error for another length.
  unfoldable pub decode_agent_info : MessageError → Action (List ℕ) MessageError AgentInfo
  decode_agent_info wrong_length = do
    map_len ← read d.decoder.map
    ensure (is_length 5 map_len) wrong_length
    f ← decode_fields d agent_info_field 5 no_agent_info_fields
    display_name ← required f.display_name
    model_name ← required f.model_name
    state_token ← required f.state_token
    pure (record {
      display_name = display_name;
      model_name = model_name;
      capabilities = f.capabilities;
      state_token = state_token;
      locales = f.locales;
    })

  unfoldable pub decode_info_request_body : Action (List ℕ) MessageError AgentInfoRequest
  decode_info_request_body = do
    map_len ← read d.decoder.map
    ensure (is_length 1 map_len) MessageError.invalid_field
    key ← read d.decoder.u8
    ensure (key == 0) MessageError.invalid_field
    request_id ← read d.decoder.u64
    pure (record { request_id = request_id })

  unfoldable pub decode_info_request : List ℕ → Outcome MessageError AgentInfoRequest
  decode_info_request =
      decode_as_type d ApplicationMessageType.agent_info_request decode_info_request_body

  unfoldable pub decode_info_response_body : Action (List ℕ) MessageError AgentInfoResponse
  decode_info_response_body = do
    map_len ← read d.decoder.map
    ensure (is_length 2 map_len) MessageError.invalid_field
    key0 ← read d.decoder.u8
    ensure (key0 == 0) MessageError.invalid_field
    request_id ← read d.decoder.u64
    key1 ← read d.decoder.u8
    ensure (key1 == 1) MessageError.invalid_field
    agent_info ← decode_agent_info MessageError.invalid_field
    pure (record { request_id = request_id; agent_info = agent_info })

  unfoldable pub decode_info_response : List ℕ → Outcome MessageError AgentInfoResponse
  decode_info_response =
      decode_as_type d ApplicationMessageType.agent_info_response decode_info_response_body

  unfoldable pub decode_info_event_body : Action (List ℕ) MessageError AgentInfoEvent
  decode_info_event_body = do
    body_map_len ← read d.decoder.map
    ensure (is_length 1 body_map_len) MessageError.decode_failed
    body_key ← read d.decoder.u8
    ensure (body_key == 0) MessageError.invalid_field
    agent_info ← decode_agent_info MessageError.decode_failed
    pure (record { agent_info = agent_info })

  unfoldable pub decode_info_event : List ℕ → Outcome MessageError AgentInfoEvent
  decode_info_event =
      decode_as_type d ApplicationMessageType.agent_info_event decode_info_event_body

  -- Field 1 of the request and of the response.
  unfoldable pub decode_status_map : Action (List ℕ) MessageError Status
  decode_status_map = do
    status_map_len ← read d.decoder.map
    ensure (is_length 1 status_map_len) MessageError.decode_failed
    status_key ← read d.decoder.u8
    ensure (status_key == 0) MessageError.invalid_field
    status_str ← decode_text d
    pure (record { status = status_str })

  unfoldable pub status_field : ℕ → StatusFields → Action (List ℕ) MessageError StatusFields
  status_field key f =
      if key == 0
      then (do request_id ← read d.decoder.u64; pure (record f { request_id = some request_id }))
      else if key == 1
      then (do status ← decode_status_map; pure (record f { status = some status }))
      else raise MessageError.invalid_field

  -- A map of indefinite length is refused; one of any other length is read to its end.
  unfoldable pub decode_status_fields : Action (List ℕ) MessageError StatusFields
  decode_status_fields = do
    map_len ← read d.decoder.map
    ensure (is_some map_len) MessageError.decode_failed
    count ← unwrap map_len
    decode_fields d status_field count no_status_fields

  unfoldable pub decode_status_request_body : Action (List ℕ) MessageError AgentStatusRequest
  decode_status_request_body = do
    f ← decode_status_fields
    request_id ← required f.request_id
    pure (record { request_id = request_id; status = f.status })

  unfoldable pub decode_status_request : List ℕ → Outcome MessageError AgentStatusRequest
  decode_status_request =
      decode_as_type d ApplicationMessageType.agent_status_request decode_status_request_body

  unfoldable pub decode_status_response_body : Action (List ℕ) MessageError AgentStatusResponse
  decode_status_response_body = do
    f ← decode_status_fields
    request_id ← required f.request_id
    pure (record { request_id = request_id; status = f.status })

  unfoldable pub decode_status_response : List ℕ → Outcome MessageError AgentStatusResponse
  decode_status_response =
      decode_as_type d ApplicationMessageType.agent_status_response decode_status_response_body
