-- ===== src/Application/Messages/Reads/Termination.antt =====
-- The bodies of the messages that terminate a presentation are read back.
use openscreen_rs.Base.{refl, arith}
use openscreen_rs.Deps.{Deps, Laws}
use openscreen_rs.Application.Codes.{
  result_lem, result_small, termination_source_lem, termination_source_small,
  termination_reason_lem, termination_reason_small,
}
use openscreen_rs.Network.Messages.Codec.Reads.{Reads, Reads-pure}
use openscreen_rs.Application.Messages.{
  ApplicationMessage, PresentationTerminationRequest, PresentationTerminationResponse,
  PresentationTerminationEvent,
}
use openscreen_rs.Application.Messages.Sizes.{IsDecodable}
use openscreen_rs.Application.Messages.Decode.Termination.{
  termination_request_field, decode_termination_request_body, termination_response_field,
  decode_termination_response_body, termination_event_field, decode_termination_event_body,
}
use openscreen_rs.Application.Messages.Wire.Presentation.{
  termination_request_bytes, termination_response_bytes, termination_event_bytes,
}
use openscreen_rs.Application.Messages.Reads.{
  Reads-after, u64-Reads, text-Reads, code-Reads, field-Reads, last-Reads, map_body-Reads,
  value-Reads,
}

module _ (d : Deps) (laws : Laws d) where
  pub termination_request-Reads :
      (msg : PresentationTerminationRequest)
      → IsDecodable (ApplicationMessage.presentation_termination_request msg)
      → Reads (decode_termination_request_body d) (termination_request_bytes d msg) msg
  unfolding decode_termination_request_body termination_request_field
  termination_request-Reads msg h =
      map_body-Reads d laws _ 3 _ _ _ (omega arith) refl
        (field-Reads d laws _ 0 _ (omega arith) (value-Reads _ (u64-Reads d laws _ h.0)) (
          field-Reads d laws _ 1 _ (omega arith) (value-Reads _ (text-Reads d laws _ h.1)) (
            last-Reads d laws _ 2 (omega arith) (
              value-Reads _ (
                code-Reads d laws _ _ (termination_reason_small msg.reason)
                  (termination_reason_lem msg.reason))))))
        (Reads-after _ (Reads-after _ (Reads-after _ (Reads-pure _))))

  pub termination_response-Reads :
      (msg : PresentationTerminationResponse)
      → IsDecodable (ApplicationMessage.presentation_termination_response msg)
      → Reads (decode_termination_response_body d) (termination_response_bytes d msg) msg
  unfolding decode_termination_response_body termination_response_field
  termination_response-Reads msg h =
      map_body-Reads d laws _ 2 _ _ _ (omega arith) refl
        (field-Reads d laws _ 0 _ (omega arith) (value-Reads _ (u64-Reads d laws _ h)) (
          last-Reads d laws _ 1 (omega arith) (
            value-Reads _
              (code-Reads d laws _ _ (result_small msg.result) (result_lem msg.result)))))
        (Reads-after _ (Reads-after _ (Reads-pure _)))

  pub termination_event-Reads :
      (msg : PresentationTerminationEvent)
      → IsDecodable (ApplicationMessage.presentation_termination_event msg)
      → Reads (decode_termination_event_body d) (termination_event_bytes d msg) msg
  unfolding decode_termination_event_body termination_event_field
  termination_event-Reads msg h =
      map_body-Reads d laws _ 3 _ _ _ (omega arith) refl
        (field-Reads d laws _ 0 _ (omega arith) (value-Reads _ (text-Reads d laws _ h)) (
          field-Reads d laws _ 1 _ (omega arith)
            (value-Reads _ (
              code-Reads d laws _ _ (termination_source_small msg.source)
                (termination_source_lem msg.source)))
            (last-Reads d laws _ 2 (omega arith) (
              value-Reads _ (
                code-Reads d laws _ _ (termination_reason_small msg.reason)
                  (termination_reason_lem msg.reason))))))
        (Reads-after _ (Reads-after _ (Reads-after _ (Reads-pure _))))
