-- ===== src/Application/Messages/Wire/Agent.antt =====
-- The messages about an agent on the wire.
use openscreen_rs.Base.{ℕ, ◌++◌, Option, none, some, List, []}
use openscreen_rs.Deps.{Deps, Laws}
use openscreen_rs.Application.Enumerations.{AgentCapability, capability_code}
use openscreen_rs.Application.Messages.{
  AgentInfo, AgentInfoRequest, AgentInfoResponse, Status, AgentStatusRequest, AgentStatusResponse,
  AgentInfoEvent,
}
use openscreen_rs.Network.Messages.Codec.Writes.{Writes, Writes-pure, Writes-then, emit-Writes}
use openscreen_rs.Network.Messages.Codec.Wire.{u8_bytes, map_bytes}
use openscreen_rs.Application.Kinds.{ApplicationMessageType}
use openscreen_rs.Application.Messages.Encode.Agent.{
  status_count, encode_capability, encode_text, encode_agent_info, encode_status_field,
  encode_info_request, encode_info_response, encode_status_request, encode_status_response,
  encode_info_event,
}
use openscreen_rs.Application.Messages.Wire.{
  kind_bytes, u64_bytes, text_bytes, list_bytes, kind-Writes, list-Writes,
}

module _ (d : Deps) where
  abbrev pub capability_bytes : AgentCapability → List ℕ
  capability_bytes cap = u8_bytes d (capability_code cap)

  abbrev pub agent_info_bytes : AgentInfo → List ℕ
  agent_info_bytes msg =
      map_bytes d 5
      ++ (u8_bytes d 0
          ++ (text_bytes d msg.display_name
              ++ (u8_bytes d 1
                  ++ (text_bytes d msg.model_name
                      ++ (u8_bytes d 2
                          ++ (list_bytes d capability_bytes msg.capabilities
                              ++ (u8_bytes d 3
                                  ++ (text_bytes d msg.state_token
                                      ++ (u8_bytes d 4
                                          ++ (list_bytes d (text_bytes d) msg.locales))))))))))

  abbrev pub status_field_bytes : Option Status → List ℕ
  status_field_bytes none = []
  status_field_bytes (some status) =
      u8_bytes d 1 ++ (map_bytes d 1 ++ (u8_bytes d 0 ++ text_bytes d status.status))

  abbrev pub info_request_bytes : AgentInfoRequest → List ℕ
  info_request_bytes msg = map_bytes d 1 ++ (u8_bytes d 0 ++ (u64_bytes d msg.request_id))

  abbrev pub info_response_bytes : AgentInfoResponse → List ℕ
  info_response_bytes msg =
      map_bytes d 2
      ++ (u8_bytes d 0
          ++ (u64_bytes d msg.request_id ++ (u8_bytes d 1 ++ (agent_info_bytes msg.agent_info))))

  abbrev pub status_request_bytes : AgentStatusRequest → List ℕ
  status_request_bytes msg =
      map_bytes d (status_count msg.status)
      ++ (u8_bytes d 0 ++ (u64_bytes d msg.request_id ++ (status_field_bytes msg.status)))

  abbrev pub status_response_bytes : AgentStatusResponse → List ℕ
  status_response_bytes msg =
      map_bytes d (status_count msg.status)
      ++ (u8_bytes d 0 ++ (u64_bytes d msg.request_id ++ (status_field_bytes msg.status)))

  abbrev pub info_event_bytes : AgentInfoEvent → List ℕ
  info_event_bytes msg = map_bytes d 1 ++ (u8_bytes d 0 ++ (agent_info_bytes msg.agent_info))

module _ (d : Deps) (laws : Laws d) (n : ℕ) where
  capability-Writes :
      (cap : AgentCapability) → Writes n (encode_capability d n cap) (capability_bytes d cap)
  unfolding encode_capability
  capability-Writes cap = emit-Writes d laws n _

  text-Writes : (text : List ℕ) → Writes n (encode_text d n text) (text_bytes d text)
  unfolding encode_text
  text-Writes text = emit-Writes d laws n _

  agent_info-Writes :
      (msg : AgentInfo) → Writes n (encode_agent_info d n msg) (agent_info_bytes d msg)
  unfolding encode_agent_info
  agent_info-Writes msg =
      search
        (
          Writes-then n,
          emit-Writes d laws n,
          list-Writes d laws n capability-Writes,
          list-Writes d laws n text-Writes,
        )
        depth 24

  status_field-Writes :
      (status : Option Status)
      → Writes n (encode_status_field d n status) (status_field_bytes d status)
  unfolding encode_status_field
  status_field-Writes none = Writes-pure n
  status_field-Writes (some status) = search (Writes-then n, emit-Writes d laws n)

  pub info_request-Writes :
      (msg : AgentInfoRequest)
      → Writes n
          (encode_info_request d n msg)
          (kind_bytes d ApplicationMessageType.agent_info_request ++ info_request_bytes d msg)
  unfolding encode_info_request
  info_request-Writes msg =
      search (Writes-then n, emit-Writes d laws n, kind-Writes d laws n) depth 24

  pub info_response-Writes :
      (msg : AgentInfoResponse)
      → Writes n
          (encode_info_response d n msg)
          (kind_bytes d ApplicationMessageType.agent_info_response ++ info_response_bytes d msg)
  unfolding encode_info_response
  info_response-Writes msg =
      search (Writes-then n, emit-Writes d laws n, kind-Writes d laws n, agent_info-Writes) depth 24

  pub status_request-Writes :
      (msg : AgentStatusRequest)
      → Writes n
          (encode_status_request d n msg)
          (kind_bytes d ApplicationMessageType.agent_status_request ++ status_request_bytes d msg)
  unfolding encode_status_request
  status_request-Writes msg =
      search (Writes-then n, emit-Writes d laws n, kind-Writes d laws n, status_field-Writes) depth
        24

  pub status_response-Writes :
      (msg : AgentStatusResponse)
      → Writes n
          (encode_status_response d n msg)
          (kind_bytes d ApplicationMessageType.agent_status_response ++ status_response_bytes d msg)
  unfolding encode_status_response
  status_response-Writes msg =
      search (Writes-then n, emit-Writes d laws n, kind-Writes d laws n, status_field-Writes) depth
        24

  pub info_event-Writes :
      (msg : AgentInfoEvent)
      → Writes n
          (encode_info_event d n msg)
          (kind_bytes d ApplicationMessageType.agent_info_event ++ info_event_bytes d msg)
  unfolding encode_info_event
  info_event-Writes msg =
      search (Writes-then n, emit-Writes d laws n, kind-Writes d laws n, agent_info-Writes) depth 24
