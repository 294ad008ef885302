-- ===== src/Application/Kinds.antt =====
-- openscreen-application/src/messages.rs: the type keys and the enumerations of the application
-- messages, with their codes.
use openscreen_rs.Base.{ℕ, Outcome, ok, err, if◌then◌else◌, ◌==◌}
use openscreen_rs.Common.{MessageError, max_string_length}

-- MAX_STRING_LEN
abbrev pub max_text_len : ℕ
max_text_len = max_string_length

pub data ApplicationMessageType : Type 0 where
  agent_info_request : ApplicationMessageType
  agent_info_response : ApplicationMessageType
  agent_status_request : ApplicationMessageType
  agent_status_response : ApplicationMessageType
  agent_info_event : ApplicationMessageType
  presentation_url_availability_request : ApplicationMessageType
  presentation_url_availability_response : ApplicationMessageType
  presentation_connection_message : ApplicationMessageType
  presentation_url_availability_event : ApplicationMessageType
  presentation_start_request : ApplicationMessageType
  presentation_start_response : ApplicationMessageType
  presentation_termination_request : ApplicationMessageType
  presentation_termination_response : ApplicationMessageType
  presentation_termination_event : ApplicationMessageType
  presentation_connection_open_request : ApplicationMessageType
  presentation_connection_open_response : ApplicationMessageType
  presentation_connection_close_event : ApplicationMessageType
  presentation_change_event : ApplicationMessageType

-- `as u16`
abbrev pub application_key : ApplicationMessageType → ℕ
application_key ApplicationMessageType.agent_info_request = 10
application_key ApplicationMessageType.agent_info_response = 11
application_key ApplicationMessageType.agent_status_request = 12
application_key ApplicationMessageType.agent_status_response = 13
application_key ApplicationMessageType.agent_info_event = 120
application_key ApplicationMessageType.presentation_url_availability_request = 14
application_key ApplicationMessageType.presentation_url_availability_response = 15
application_key ApplicationMessageType.presentation_connection_message = 16
application_key ApplicationMessageType.presentation_url_availability_event = 103
application_key ApplicationMessageType.presentation_start_request = 104
application_key ApplicationMessageType.presentation_start_response = 105
application_key ApplicationMessageType.presentation_termination_request = 106
application_key ApplicationMessageType.presentation_termination_response = 107
application_key ApplicationMessageType.presentation_termination_event = 108
application_key ApplicationMessageType.presentation_connection_open_request = 109
application_key ApplicationMessageType.presentation_connection_open_response = 110
application_key ApplicationMessageType.presentation_connection_close_event = 113
application_key ApplicationMessageType.presentation_change_event = 121

unfoldable pub application_type_from_u16 : ℕ → Outcome MessageError ApplicationMessageType
application_type_from_u16 value =
    if value == 10
    then ok ApplicationMessageType.agent_info_request
    else if value == 11
    then ok ApplicationMessageType.agent_info_response
    else if value == 12
    then ok ApplicationMessageType.agent_status_request
    else if value == 13
    then ok ApplicationMessageType.agent_status_response
    else if value == 120
    then ok ApplicationMessageType.agent_info_event
    else if value == 14
    then ok ApplicationMessageType.presentation_url_availability_request
    else if value == 15
    then ok ApplicationMessageType.presentation_url_availability_response
    else if value == 16
    then ok ApplicationMessageType.presentation_connection_message
    else if value == 103
    then ok ApplicationMessageType.presentation_url_availability_event
    else if value == 104
    then ok ApplicationMessageType.presentation_start_request
    else if value == 105
    then ok ApplicationMessageType.presentation_start_response
    else if value == 106
    then ok ApplicationMessageType.presentation_termination_request
    else if value == 107
    then ok ApplicationMessageType.presentation_termination_response
    else if value == 108
    then ok ApplicationMessageType.presentation_termination_event
    else if value == 109
    then ok ApplicationMessageType.presentation_connection_open_request
    else if value == 110
    then ok ApplicationMessageType.presentation_connection_open_response
    else if value == 113
    then ok ApplicationMessageType.presentation_connection_close_event
    else if value == 121
    then ok ApplicationMessageType.presentation_change_event
    else err MessageError.invalid_message_type
