-- ===== src/Application/Messages/RoundTrip.antt =====
-- What is encoded as an application message is decoded to the same message.
use openscreen_rs.Base.{
  ℕ, ◌≤◌, ◌≡◌, List, [], ◌++◌, arith, length, drop-length-append, append-nil, append_assoc, ok,
  Action,
}
use openscreen_rs.Deps.{Deps, Laws}
use openscreen_rs.Common.{MessageError}
use openscreen_rs.Network.Messages.Codec.Reads.{
  Reads, Reads-pure, Reads-last, decode_type_key-encode,
}
use openscreen_rs.Network.Messages.Codec.RoundTrip.{within}
use openscreen_rs.Application.Kinds.{application_key}
use openscreen_rs.Application.Codes.{application_key_lem, application_key_small}
use openscreen_rs.Application.Messages.{ApplicationMessage}
use openscreen_rs.Application.Messages.Encode.Message.{encode_application_message}
use openscreen_rs.Application.Messages.Decode.Message.{
  decode_application_body, decode_application_message,
}
use openscreen_rs.Application.Messages.Sizes.{IsDecodable}
use openscreen_rs.Application.Messages.Wire.{kind_bytes}
use openscreen_rs.Application.Messages.Wire.Message.{
  kind_of, body_bytes, application_wire, application-Writes,
}
use openscreen_rs.Application.Messages.Reads.Agent.{
  info_request-Reads, info_response-Reads, status_request-Reads, status_response-Reads,
  info_event-Reads,
}
use openscreen_rs.Application.Messages.Reads.Start.{start_request-Reads, start_response-Reads}
use openscreen_rs.Application.Messages.Reads.Termination.{
  termination_request-Reads, termination_response-Reads, termination_event-Reads,
}
use openscreen_rs.Application.Messages.Reads.Availability.{
  availability_request-Reads, availability_response-Reads, availability_event-Reads,
}
use openscreen_rs.Application.Messages.Reads.Opening.{open_request-Reads, open_response-Reads}
use openscreen_rs.Application.Messages.Reads.Connection.{
  close_event-Reads, connection_message-Reads, change_event-Reads,
}

module _ (d : Deps) (laws : Laws d) where
  body-Reads :
      (msg : ApplicationMessage)
      → IsDecodable msg
      → Reads (decode_application_body d (kind_of msg)) (body_bytes d msg) msg
  unfolding decode_application_body
  body-Reads (ApplicationMessage.agent_info_request msg) h =
      Reads-last _ (info_request-Reads d laws msg h)
        (Reads-pure (ApplicationMessage.agent_info_request msg))
  body-Reads (ApplicationMessage.agent_info_response msg) h =
      Reads-last _ (info_response-Reads d laws msg h)
        (Reads-pure (ApplicationMessage.agent_info_response msg))
  body-Reads (ApplicationMessage.agent_status_request msg) h =
      Reads-last _ (status_request-Reads d laws msg h)
        (Reads-pure (ApplicationMessage.agent_status_request msg))
  body-Reads (ApplicationMessage.agent_status_response msg) h =
      Reads-last _ (status_response-Reads d laws msg h)
        (Reads-pure (ApplicationMessage.agent_status_response msg))
  body-Reads (ApplicationMessage.agent_info_event msg) h =
      Reads-last _ (info_event-Reads d laws msg h)
        (Reads-pure (ApplicationMessage.agent_info_event msg))
  body-Reads (ApplicationMessage.presentation_url_availability_request msg) h =
      Reads-last _ (availability_request-Reads d laws msg h)
        (Reads-pure (ApplicationMessage.presentation_url_availability_request msg))
  body-Reads (ApplicationMessage.presentation_url_availability_response msg) h =
      Reads-last _ (availability_response-Reads d laws msg h)
        (Reads-pure (ApplicationMessage.presentation_url_availability_response msg))
  body-Reads (ApplicationMessage.presentation_url_availability_event msg) h =
      Reads-last _ (availability_event-Reads d laws msg h)
        (Reads-pure (ApplicationMessage.presentation_url_availability_event msg))
  body-Reads (ApplicationMessage.presentation_start_request msg) h =
      Reads-last _ (start_request-Reads d laws msg h)
        (Reads-pure (ApplicationMessage.presentation_start_request msg))
  body-Reads (ApplicationMessage.presentation_start_response msg) h =
      Reads-last _ (start_response-Reads d laws msg h)
        (Reads-pure (ApplicationMessage.presentation_start_response msg))
  body-Reads (ApplicationMessage.presentation_termination_request msg) h =
      Reads-last _ (termination_request-Reads d laws msg h)
        (Reads-pure (ApplicationMessage.presentation_termination_request msg))
  body-Reads (ApplicationMessage.presentation_termination_response msg) h =
      Reads-last _ (termination_response-Reads d laws msg h)
        (Reads-pure (ApplicationMessage.presentation_termination_response msg))
  body-Reads (ApplicationMessage.presentation_termination_event msg) h =
      Reads-last _ (termination_event-Reads d laws msg h)
        (Reads-pure (ApplicationMessage.presentation_termination_event msg))
  body-Reads (ApplicationMessage.presentation_connection_open_request msg) h =
      Reads-last _ (open_request-Reads d laws msg h)
        (Reads-pure (ApplicationMessage.presentation_connection_open_request msg))
  body-Reads (ApplicationMessage.presentation_connection_open_response msg) h =
      Reads-last _ (open_response-Reads d laws msg h)
        (Reads-pure (ApplicationMessage.presentation_connection_open_response msg))
  body-Reads (ApplicationMessage.presentation_connection_close_event msg) h =
      Reads-last _ (close_event-Reads d laws msg h)
        (Reads-pure (ApplicationMessage.presentation_connection_close_event msg))
  body-Reads (ApplicationMessage.presentation_connection_message msg) h =
      Reads-last _ (connection_message-Reads d laws msg h)
        (Reads-pure (ApplicationMessage.presentation_connection_message msg))
  body-Reads (ApplicationMessage.presentation_change_event msg) h =
      Reads-last _ (change_event-Reads d laws msg h)
        (Reads-pure (ApplicationMessage.presentation_change_event msg))

  value_of :
      {A : Type 0} {m : Action (List ℕ) MessageError A} {bytes : List ℕ} {a : A}
      → Reads m bytes a
      → (rest : List ℕ) → (m (bytes ++ rest)).0 ≡ ok a
  value_of h rest = rw (h.at rest)

  -- Where the fields of a message are of the sizes that the decoders accept,
  -- ApplicationMessage::decode reads the message back from its wire format, for each of the 18 kinds,
  -- whatever bytes follow.
  pub application-wire :
      (msg : ApplicationMessage) (rest : List ℕ)
      → IsDecodable msg
      → decode_application_message d (application_wire d msg ++ rest) ≡ ok msg
  unfolding decode_application_message
  application-wire msg rest h =
      rw (append_assoc (kind_bytes d (kind_of msg)) (body_bytes d msg) rest) (
        rw
          (decode_type_key-encode d laws (application_key (kind_of msg)) (body_bytes d msg ++ rest)
            (application_key_small (kind_of msg)))
          (rw
            (
              application_key_lem (kind_of msg),
              within (kind_bytes d (kind_of msg)) (body_bytes d msg ++ rest),
              drop-length-append (kind_bytes d (kind_of msg)) (body_bytes d msg ++ rest),
            )
            (value_of (body-Reads msg h) rest)))

  -- A message whose fields are of the sizes that the decoders accept, encoded into an empty buffer
  -- with room for it, is decoded from that buffer to the same message.
  pub application-encode :
      (n : ℕ) (msg : ApplicationMessage)
      → IsDecodable msg
      → length (application_wire d msg) ≤ n
      → ((encode_application_message d n msg []).0 ≡ ok tt)
        × (decode_application_message d (encode_application_message d n msg []).1 ≡ ok msg)
  application-encode n msg h room =
      let e = (application-Writes d laws n msg).fits [] (omega arith) in
      (rw e, rw e (rw append-nil at (application-wire msg [] h)))
