-- ===== src/Application/Messages/Encode/Agent.antt =====
-- openscreen-application/src/messages.rs: `encode` of the messages about an agent.
use openscreen_rs.Base.{ℕ, Option, none, some, List, Action, pure, ◌>>◌}
use openscreen_rs.Deps.{Deps}
use openscreen_rs.Common.{MessageError}
use openscreen_rs.Common.TypeKey.{encode_type_key}
use openscreen_rs.Network.Messages.Codec.{emit}
use openscreen_rs.Application.Kinds.{ApplicationMessageType, application_key}
use openscreen_rs.Application.Enumerations.{AgentCapability, capability_code}
use openscreen_rs.Application.Messages.{
  AgentInfo, AgentInfoRequest, AgentInfoResponse, Status, AgentStatusRequest, AgentStatusResponse,
  AgentInfoEvent,
}
use openscreen_rs.Application.Messages.Encode.{encode_list}

-- The number of fields, of which one may be left out.
abbrev pub status_count : Option Status → ℕ
status_count none = 1
status_count (some status) = 2

module _ (d : Deps) (n : ℕ) where
  unfoldable pub encode_capability : AgentCapability → Action (List ℕ) MessageError (Unit {0})
  encode_capability cap = emit d n (d.encoder.u8 (capability_code cap))

  unfoldable pub encode_text : List ℕ → Action (List ℕ) MessageError (Unit {0})
  encode_text text = emit d n (d.encoder.str text)

  -- The nested map of field 1 of the response and of field 0 of the event.
  unfoldable pub encode_agent_info : AgentInfo → Action (List ℕ) MessageError (Unit {0})
  encode_agent_info msg = do
    emit d n (d.encoder.map 5)
    emit d n (d.encoder.u8 0)
    emit d n (d.encoder.str msg.display_name)
    emit d n (d.encoder.u8 1)
    emit d n (d.encoder.str msg.model_name)
    emit d n (d.encoder.u8 2)
    encode_list d n encode_capability msg.capabilities
    emit d n (d.encoder.u8 3)
    emit d n (d.encoder.str msg.state_token)
    emit d n (d.encoder.u8 4)
    encode_list d n encode_text msg.locales

  unfoldable pub encode_status_field : Option Status → Action (List ℕ) MessageError (Unit {0})
  encode_status_field none = pure tt
  encode_status_field (some status) = do
    emit d n (d.encoder.u8 1)
    emit d n (d.encoder.map 1)
    emit d n (d.encoder.u8 0)
    emit d n (d.encoder.str status.status)

  unfoldable pub encode_info_request : AgentInfoRequest → Action (List ℕ) MessageError (Unit {0})
  encode_info_request msg = do
    encode_type_key d n (application_key ApplicationMessageType.agent_info_request)
    emit d n (d.encoder.map 1)
    emit d n (d.encoder.u8 0)
    emit d n (d.encoder.u64 msg.request_id)

  unfoldable pub encode_info_response : AgentInfoResponse → Action (List ℕ) MessageError (Unit {0})
  encode_info_response msg = do
    encode_type_key d n (application_key ApplicationMessageType.agent_info_response)
    emit d n (d.encoder.map 2)
    emit d n (d.encoder.u8 0)
    emit d n (d.encoder.u64 msg.request_id)
    emit d n (d.encoder.u8 1)
    encode_agent_info msg.agent_info

  unfoldable pub encode_status_request :
      AgentStatusRequest → Action (List ℕ) MessageError (Unit {0})
  encode_status_request msg = do
    encode_type_key d n (application_key ApplicationMessageType.agent_status_request)
    emit d n (d.encoder.map (status_count msg.status))
    emit d n (d.encoder.u8 0)
    emit d n (d.encoder.u64 msg.request_id)
    encode_status_field msg.status

  unfoldable pub encode_status_response :
      AgentStatusResponse → Action (List ℕ) MessageError (Unit {0})
  encode_status_response msg = do
    encode_type_key d n (application_key ApplicationMessageType.agent_status_response)
    emit d n (d.encoder.map (status_count msg.status))
    emit d n (d.encoder.u8 0)
    emit d n (d.encoder.u64 msg.request_id)
    encode_status_field msg.status

  unfoldable pub encode_info_event : AgentInfoEvent → Action (List ℕ) MessageError (Unit {0})
  encode_info_event msg = do
    encode_type_key d n (application_key ApplicationMessageType.agent_info_event)
    emit d n (d.encoder.map 1)
    emit d n (d.encoder.u8 0)
    encode_agent_info msg.agent_info
