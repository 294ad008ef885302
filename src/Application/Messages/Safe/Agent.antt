-- ===== src/Application/Messages/Safe/Agent.antt =====
-- The decoders of the messages about an agent never panic.
use openscreen_rs.Base.{ℕ, refl}
use openscreen_rs.Application.Messages.Decode.{is_some}
use openscreen_rs.Base.Safe.{Safe, Safe-bind}
use openscreen_rs.Deps.{Deps}
use openscreen_rs.Common.{MessageError}
use openscreen_rs.Application.Messages.Safe.{fields-Safe, field_rules}
use openscreen_rs.Network.Messages.Codec.Safe.{read-Safe, unwrap-Safe}
use openscreen_rs.Application.Messages.Decode.Agent.{
  agent_info_field, decode_agent_info, decode_info_request_body, decode_info_response_body,
  decode_info_event_body, decode_status_map, status_field, decode_status_fields,
  decode_status_request_body, decode_status_response_body, AgentInfoFields, StatusFields,
}

module _ (d : Deps) where
  decode_status_map-Safe : Safe (decode_status_map d)
  unfolding decode_status_map
  decode_status_map-Safe = search (field_rules) depth 24

  agent_info_field-Safe : (key : ℕ) (f : AgentInfoFields) → Safe (agent_info_field d key f)
  unfolding agent_info_field
  agent_info_field-Safe key f = search (field_rules) depth 24

  status_field-Safe : (key : ℕ) (f : StatusFields) → Safe (status_field d key f)
  unfolding status_field
  status_field-Safe key f = search (field_rules, decode_status_map-Safe) depth 24

  decode_agent_info-Safe : (e : MessageError) → Safe (decode_agent_info d e)
  unfolding decode_agent_info
  decode_agent_info-Safe e = search (field_rules, agent_info_field-Safe) depth 24

  decode_status_fields-Safe : Safe (decode_status_fields d)
  unfolding decode_status_fields
  decode_status_fields-Safe = Safe-bind _ _ (read-Safe _) (λ map_len.
      unwrap-Safe (is_some map_len) _ map_len _ (λ h. rw h refl)
        (λ count. fields-Safe d _ count _ status_field-Safe))

  pub decode_info_request_body-Safe : Safe (decode_info_request_body d)
  unfolding decode_info_request_body
  decode_info_request_body-Safe = search (field_rules) depth 24

  pub decode_info_response_body-Safe : Safe (decode_info_response_body d)
  unfolding decode_info_response_body
  decode_info_response_body-Safe = search (field_rules, decode_agent_info-Safe) depth 24

  pub decode_info_event_body-Safe : Safe (decode_info_event_body d)
  unfolding decode_info_event_body
  decode_info_event_body-Safe = search (field_rules, decode_agent_info-Safe) depth 24

  pub decode_status_request_body-Safe : Safe (decode_status_request_body d)
  unfolding decode_status_request_body
  decode_status_request_body-Safe = search (field_rules, decode_status_fields-Safe) depth 24

  pub decode_status_response_body-Safe : Safe (decode_status_response_body d)
  unfolding decode_status_response_body
  decode_status_response_body-Safe = search (field_rules, decode_status_fields-Safe) depth 24
