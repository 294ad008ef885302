-- ===== src/Application/Messages/Reads/Agent.antt =====
-- The bodies of the messages about an agent are read back.
use openscreen_rs.Base.{ℕ, ◌^◌, ◌<◌, refl, arith, Option, none, some, ◌++◌}
use openscreen_rs.Deps.{Deps, Laws}
use openscreen_rs.Common.{MessageError}
use openscreen_rs.Application.Codes.{capability_lem, capability_small}
use openscreen_rs.Application.Enumerations.{AgentCapability, capability_from_u8}
use openscreen_rs.Network.Messages.Codec.Reads.{
  Reads, Reads-pure, Reads-bind, Reads-last, u8-Reads, map-Reads,
}
use openscreen_rs.Network.Messages.Codec.Wire.{u8_bytes, map_bytes}
use openscreen_rs.Application.Messages.{
  AgentInfo, Status, ApplicationMessage, max_capabilities, max_locales, AgentInfoRequest,
  AgentInfoResponse, AgentInfoEvent, AgentStatusRequest, AgentStatusResponse,
}
use openscreen_rs.Application.Messages.Decode.{decode_code}
use openscreen_rs.Application.Messages.Sizes.{IsShortText, IsAgentInfo, IsStatus, IsDecodable}
use openscreen_rs.Application.Messages.Decode.Agent.{
  agent_info_field, decode_agent_info, decode_info_request_body, decode_info_response_body,
  decode_info_event_body, decode_status_map, status_field, decode_status_fields,
  decode_status_request_body, decode_status_response_body,
}
use openscreen_rs.Application.Messages.Wire.Agent.{
  capability_bytes, agent_info_bytes, status_field_bytes, info_request_bytes, info_response_bytes,
  info_event_bytes, status_request_bytes, status_response_bytes,
}
use openscreen_rs.Application.Messages.Encode.Agent.{status_count}
use openscreen_rs.Application.Messages.Wire.{u64_bytes, text_bytes}
use openscreen_rs.Application.Messages.Reads.{
  Reads-after, Reads-checked, u64-Reads, short_text-Reads, code-Reads, field-Reads, last-Reads,
  map_body-Reads, value-Reads, present-Reads, every, no_fields-Reads,
}

module _ (d : Deps) (laws : Laws d) where
  capability-Reads :
      (cap : AgentCapability)
      → Unit {0}
      → Reads (decode_code d capability_from_u8) (capability_bytes d cap) cap
  capability-Reads cap h = code-Reads d laws _ _ (capability_small cap) (capability_lem cap)

  agent_info-Reads :
      (e : MessageError) (msg : AgentInfo)
      → IsAgentInfo msg
      → Reads (decode_agent_info d e) (agent_info_bytes d msg) msg
  unfolding decode_agent_info agent_info_field
  agent_info-Reads e msg h =
      map_body-Reads d laws _ 5 _ _ _ (omega arith) refl
        (field-Reads d laws _ 0 _ (omega arith) (value-Reads _ (short_text-Reads d laws _ h.0)) (
          field-Reads d laws _ 1 _ (omega arith) (value-Reads _ (short_text-Reads d laws _ h.1)) (
            field-Reads d laws _ 2 _ (omega arith)
              (value-Reads _ (
                present-Reads d laws _ _ capability-Reads max_capabilities (omega arith) _ h.2
                  (every _)))
              (field-Reads d laws _ 3 _ (omega arith)
                (value-Reads _ (short_text-Reads d laws _ h.3))
                (last-Reads d laws _ 4 (omega arith) (
                  value-Reads _ (
                    present-Reads d laws _ _ (short_text-Reads d laws) max_locales (omega arith) _
                      h.4 h.5)))))))
        (Reads-after _ (Reads-after _ (Reads-after _ (Reads-pure _))))

  pub info_request-Reads :
      (msg : AgentInfoRequest)
      → IsDecodable (ApplicationMessage.agent_info_request msg)
      → Reads (decode_info_request_body d) (info_request_bytes d msg) msg
  unfolding decode_info_request_body
  info_request-Reads msg h =
      (Reads-bind _ (map-Reads d laws 1 (omega arith)) (
        Reads-checked _ _ refl (
          Reads-bind _ (u8-Reads d laws 0 (omega arith))
            (Reads-checked _ _ refl (Reads-last _ (u64-Reads d laws _ h) (Reads-pure msg))))))

  pub info_response-Reads :
      (msg : AgentInfoResponse)
      → IsDecodable (ApplicationMessage.agent_info_response msg)
      → Reads (decode_info_response_body d) (info_response_bytes d msg) msg
  unfolding decode_info_response_body
  info_response-Reads msg h =
      (Reads-bind _ (map-Reads d laws 2 (omega arith)) (
        Reads-checked _ _ refl (
          Reads-bind _ (u8-Reads d laws 0 (omega arith)) (
            Reads-checked _ _ refl (
              Reads-bind _ (u64-Reads d laws _ h.0) (
                Reads-bind _ (u8-Reads d laws 1 (omega arith)) (
                  Reads-checked _ _ refl
                    (Reads-last _ (agent_info-Reads _ msg.agent_info h.1) (Reads-pure msg)))))))))

  pub info_event-Reads :
      (msg : AgentInfoEvent)
      → IsDecodable (ApplicationMessage.agent_info_event msg)
      → Reads (decode_info_event_body d) (info_event_bytes d msg) msg
  unfolding decode_info_event_body
  info_event-Reads msg h =
      (Reads-bind _ (map-Reads d laws 1 (omega arith)) (
        Reads-checked _ _ refl (
          Reads-bind _ (u8-Reads d laws 0 (omega arith)) (
            Reads-checked _ _ refl
              (Reads-last _ (agent_info-Reads _ msg.agent_info h) (Reads-pure msg))))))

  status_map-Reads :
      (status : Status)
      → IsShortText status.status
      → Reads
          (decode_status_map d)
          (map_bytes d 1 ++ (u8_bytes d 0 ++ text_bytes d status.status))
          status
  unfolding decode_status_map
  status_map-Reads status h =
      (Reads-bind _ (map-Reads d laws 1 (omega arith)) (
        Reads-checked _ _ refl (
          Reads-bind _ (u8-Reads d laws 0 (omega arith)) (
            Reads-checked _ _ refl
              (Reads-last _ (short_text-Reads d laws _ h) (Reads-pure status))))))

  -- The map of a status message, with a status and without.
  status_fields-Reads :
      (request_id : ℕ) (status : Option Status)
      → request_id < 2 ^ 64
      → IsStatus status
      → Reads
          (decode_status_fields d)
          (map_bytes d (status_count status)
            ++ (u8_bytes d 0 ++ (u64_bytes d request_id ++ status_field_bytes d status)))
          (record { request_id = some request_id; status = status })
  unfolding decode_status_fields status_field
  status_fields-Reads request_id none small h =
      (Reads-bind _ (map-Reads d laws 1 (omega arith)) (
        Reads-checked _ _ refl (
          Reads-after _ (
            field-Reads d laws _ 0 _ (omega arith) (value-Reads _ (u64-Reads d laws _ small))
              (no_fields-Reads d laws _ _)))))
  status_fields-Reads request_id (some status) small h =
      (Reads-bind _ (map-Reads d laws 2 (omega arith)) (
        Reads-checked _ _ refl (
          Reads-after _ (
            field-Reads d laws _ 0 _ (omega arith) (value-Reads _ (u64-Reads d laws _ small))
              (last-Reads d laws _ 1 (omega arith) (value-Reads _ (status_map-Reads status h)))))))

  pub status_request-Reads :
      (msg : AgentStatusRequest)
      → IsDecodable (ApplicationMessage.agent_status_request msg)
      → Reads (decode_status_request_body d) (status_request_bytes d msg) msg
  unfolding decode_status_request_body
  status_request-Reads msg h =
      Reads-last _ (status_fields-Reads msg.request_id msg.status h.0 h.1)
        (Reads-after _ (Reads-pure msg))

  pub status_response-Reads :
      (msg : AgentStatusResponse)
      → IsDecodable (ApplicationMessage.agent_status_response msg)
      → Reads (decode_status_response_body d) (status_response_bytes d msg) msg
  unfolding decode_status_response_body
  status_response-Reads msg h =
      Reads-last _ (status_fields-Reads msg.request_id msg.status h.0 h.1)
        (Reads-after _ (Reads-pure msg))
