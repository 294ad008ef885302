-- ===== src/Application/Messages/Sizes.antt =====
-- The sizes of the fields that the decoders of the application messages accept.
use openscreen_rs.Base.{
  ℕ, ◌^◌, ◌≤◌, ◌<◌, ◌≡◌, true, Option, none, some, List, Each, length, is_utf8,
}
use openscreen_rs.Common.{max_urls}
use openscreen_rs.Application.Kinds.{max_text_len}
use openscreen_rs.Application.Messages.{
  AgentInfo, Status, HttpHeader, ApplicationMessage, max_capabilities, max_locales, max_headers,
}

-- A text that minicbor reads, and one that the decoders accept where they check the length.
abbrev pub IsText : List ℕ → Type 0
IsText text = (is_utf8 text ≡ true) × (length text < 2 ^ 16)

abbrev pub IsShortText : List ℕ → Type 0
IsShortText text = (is_utf8 text ≡ true) × (length text ≤ max_text_len)

abbrev pub IsU64 : ℕ → Type 0
IsU64 x = x < 2 ^ 64

abbrev pub IsAgentInfo : AgentInfo → Type 0
IsAgentInfo info =
    IsShortText info.display_name
    × IsShortText info.model_name
    × (length info.capabilities ≤ max_capabilities)
    × IsShortText info.state_token
    × (length info.locales ≤ max_locales)
    × Each IsShortText info.locales

abbrev pub IsStatus : Option Status → Type 0
IsStatus none = Unit
IsStatus (some status) = IsShortText status.status

abbrev pub IsHeader : HttpHeader → Type 0
IsHeader header = IsShortText header.key × IsShortText header.value

abbrev pub IsHttpCode : Option ℕ → Type 0
IsHttpCode none = Unit
IsHttpCode (some http_code) = http_code < 2 ^ 16

abbrev pub IsErrorMessage : Option (List ℕ) → Type 0
IsErrorMessage none = Unit
IsErrorMessage (some error_message) = IsText error_message

abbrev pub IsDecodable : ApplicationMessage → Type 0
IsDecodable (ApplicationMessage.agent_info_request msg) = IsU64 msg.request_id
IsDecodable (ApplicationMessage.agent_info_response msg) =
    IsU64 msg.request_id × IsAgentInfo msg.agent_info
IsDecodable (ApplicationMessage.agent_status_request msg) =
    IsU64 msg.request_id × IsStatus msg.status
IsDecodable (ApplicationMessage.agent_status_response msg) =
    IsU64 msg.request_id × IsStatus msg.status
IsDecodable (ApplicationMessage.agent_info_event msg) = IsAgentInfo msg.agent_info
IsDecodable (ApplicationMessage.presentation_url_availability_request msg) =
    IsU64 msg.request_id
    × (length msg.urls ≤ max_urls)
    × Each IsText msg.urls
    × IsU64 msg.watch_duration
    × IsU64 msg.watch_id
IsDecodable (ApplicationMessage.presentation_url_availability_response msg) =
    IsU64 msg.request_id × (length msg.url_availabilities ≤ max_urls)
IsDecodable (ApplicationMessage.presentation_url_availability_event msg) =
    IsU64 msg.watch_id × (length msg.url_availabilities ≤ max_urls)
IsDecodable (ApplicationMessage.presentation_start_request msg) =
    IsU64 msg.request_id
    × IsShortText msg.presentation_id
    × IsShortText msg.url
    × (length msg.headers ≤ max_headers)
    × Each IsHeader msg.headers
IsDecodable (ApplicationMessage.presentation_start_response msg) =
    IsU64 msg.request_id × IsU64 msg.connection_id × IsHttpCode msg.http_response_code
IsDecodable (ApplicationMessage.presentation_termination_request msg) =
    IsU64 msg.request_id × IsText msg.presentation_id
IsDecodable (ApplicationMessage.presentation_termination_response msg) = IsU64 msg.request_id
IsDecodable (ApplicationMessage.presentation_termination_event msg) = IsText msg.presentation_id
IsDecodable (ApplicationMessage.presentation_connection_open_request msg) =
    IsU64 msg.request_id × IsText msg.presentation_id × IsText msg.url
IsDecodable (ApplicationMessage.presentation_connection_open_response msg) =
    IsU64 msg.request_id × IsU64 msg.connection_id × IsU64 msg.connection_count
IsDecodable (ApplicationMessage.presentation_connection_close_event msg) =
    IsU64 msg.connection_id × IsErrorMessage msg.error_message × IsU64 msg.connection_count
IsDecodable (ApplicationMessage.presentation_connection_message msg) =
    IsU64 msg.connection_id × (length msg.message < 2 ^ 16)
IsDecodable (ApplicationMessage.presentation_change_event msg) =
    IsText msg.presentation_id × IsU64 msg.connection_count
