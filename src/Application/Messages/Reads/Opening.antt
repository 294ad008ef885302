-- ===== src/Application/Messages/Reads/Opening.antt =====
-- The bodies of the messages that open a connection are read back.
use openscreen_rs.Base.{refl, arith}
use openscreen_rs.Deps.{Deps, Laws}
use openscreen_rs.Application.Codes.{result_lem, result_small}
use openscreen_rs.Network.Messages.Codec.Reads.{Reads, Reads-pure}
use openscreen_rs.Application.Messages.{
  ApplicationMessage, PresentationConnectionOpenRequest, PresentationConnectionOpenResponse,
}
use openscreen_rs.Application.Messages.Sizes.{IsDecodable}
use openscreen_rs.Application.Messages.Decode.Opening.{
  open_request_field, decode_open_request_body, open_response_field, decode_open_response_body,
}
use openscreen_rs.Application.Messages.Wire.Connection.{open_request_bytes, open_response_bytes}
use openscreen_rs.Application.Messages.Reads.{
  Reads-after, u64-Reads, text-Reads, code-Reads, field-Reads, last-Reads, map_body-Reads,
  value-Reads,
}

module _ (d : Deps) (laws : Laws d) where
  pub open_request-Reads :
      (msg : PresentationConnectionOpenRequest)
      → IsDecodable (ApplicationMessage.presentation_connection_open_request msg)
      → Reads (decode_open_request_body d) (open_request_bytes d msg) msg
  unfolding decode_open_request_body open_request_field
  open_request-Reads msg h =
      map_body-Reads d laws _ 3 _ _ _ (omega arith) refl
        (field-Reads d laws _ 0 _ (omega arith) (value-Reads _ (u64-Reads d laws _ h.0)) (
          field-Reads d laws _ 1 _ (omega arith) (value-Reads _ (text-Reads d laws _ h.1))
            (last-Reads d laws _ 2 (omega arith) (value-Reads _ (text-Reads d laws _ h.2)))))
        (Reads-after _ (Reads-after _ (Reads-after _ (Reads-pure _))))

  pub open_response-Reads :
      (msg : PresentationConnectionOpenResponse)
      → IsDecodable (ApplicationMessage.presentation_connection_open_response msg)
      → Reads (decode_open_response_body d) (open_response_bytes d msg) msg
  unfolding decode_open_response_body open_response_field
  open_response-Reads msg h =
      map_body-Reads d laws _ 4 _ _ _ (omega arith) refl
        (field-Reads d laws _ 0 _ (omega arith) (value-Reads _ (u64-Reads d laws _ h.0)) (
          field-Reads d laws _ 1 _ (omega arith)
            (value-Reads _
              (code-Reads d laws _ _ (result_small msg.result) (result_lem msg.result)))
            (field-Reads d laws _ 2 _ (omega arith) (value-Reads _ (u64-Reads d laws _ h.1))
              (last-Reads d laws _ 3 (omega arith) (value-Reads _ (u64-Reads d laws _ h.2))))))
        (Reads-after _ (Reads-after _ (Reads-after _ (Reads-after _ (Reads-pure _)))))
