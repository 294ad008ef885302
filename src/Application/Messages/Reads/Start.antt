-- ===== src/Application/Messages/Reads/Start.antt =====
-- The bodies of the messages that start a presentation are read back.
use openscreen_rs.Base.{ℕ, refl, arith, Option, none, some}
use openscreen_rs.Deps.{Deps, Laws}
use openscreen_rs.Application.Codes.{result_lem, result_small}
use openscreen_rs.Application.Enumerations.{PresentationResult}
use openscreen_rs.Network.Messages.Codec.Reads.{
  Reads, Reads-pure, Reads-bind, Reads-last, map-Reads, array-Reads,
}
use openscreen_rs.Application.Messages.{
  HttpHeader, ApplicationMessage, max_headers, PresentationStartRequest, PresentationStartResponse,
}
use openscreen_rs.Application.Messages.Sizes.{IsHeader, IsDecodable}
use openscreen_rs.Application.Messages.Decode.Start.{
  decode_header, start_request_field, decode_start_request_body, start_response_field,
  decode_start_response_body,
}
use openscreen_rs.Application.Messages.Wire.Presentation.{
  header_bytes, start_request_bytes, start_response_bytes,
}
use openscreen_rs.Application.Messages.Reads.{
  Reads-after, Reads-checked, u16-Reads, u64-Reads, short_text-Reads, code-Reads, field-Reads,
  last-Reads, map_body-Reads, value-Reads, present-Reads, no_fields-Reads,
}

module _ (d : Deps) (laws : Laws d) where
  header-Reads :
      (header : HttpHeader)
      → IsHeader header
      → Reads (decode_header d) (header_bytes d header) header
  unfolding decode_header
  header-Reads header h =
      (Reads-bind _ (array-Reads d laws 2 (omega arith)) (
        Reads-checked _ _ refl (
          Reads-bind _ (short_text-Reads d laws _ h.0)
            (Reads-last _ (short_text-Reads d laws _ h.1) (Reads-pure header)))))

  pub start_request-Reads :
      (msg : PresentationStartRequest)
      → IsDecodable (ApplicationMessage.presentation_start_request msg)
      → Reads (decode_start_request_body d) (start_request_bytes d msg) msg
  unfolding decode_start_request_body start_request_field
  start_request-Reads msg h =
      map_body-Reads d laws _ 4 _ _ _ (omega arith) refl
        (field-Reads d laws _ 0 _ (omega arith) (value-Reads _ (u64-Reads d laws _ h.0)) (
          field-Reads d laws _ 1 _ (omega arith) (value-Reads _ (short_text-Reads d laws _ h.1)) (
            field-Reads d laws _ 2 _ (omega arith) (value-Reads _ (short_text-Reads d laws _ h.2)) (
              last-Reads d laws _ 3 (omega arith) (
                value-Reads _
                  (present-Reads d laws _ _ header-Reads max_headers (omega arith) _ h.3 h.4))))))
        (Reads-after _ (Reads-after _ (Reads-after _ (Reads-pure _))))

  -- With an HTTP response code and without.
  start_response_of :
      (request_id : ℕ) (result : PresentationResult) (connection_id : ℕ) (http_code : Option ℕ)
      → let msg : PresentationStartResponse = record {
        request_id = request_id;
        result = result;
        connection_id = connection_id;
        http_response_code = http_code;
      } in
        IsDecodable (ApplicationMessage.presentation_start_response msg)
        → Reads (decode_start_response_body d) (start_response_bytes d msg) msg
  unfolding decode_start_response_body start_response_field
  start_response_of request_id result connection_id none h =
      (Reads-bind _ (map-Reads d laws 3 (omega arith)) (
        Reads-checked _ _ refl (
          Reads-after _ (
            Reads-last _
              (field-Reads d laws _ 0 _ (omega arith) (value-Reads _ (u64-Reads d laws _ h.0)) (
                field-Reads d laws _ 1 _ (omega arith)
                  (value-Reads _ (code-Reads d laws _ _ (result_small result) (result_lem result)))
                  (field-Reads d laws _ 2 _ (omega arith) (value-Reads _ (u64-Reads d laws _ h.1))
                    (no_fields-Reads d laws _ _))))
              (Reads-after _ (Reads-after _ (Reads-after _ (Reads-pure _))))))))
  start_response_of request_id result connection_id (some http_code) h =
      (Reads-bind _ (map-Reads d laws 4 (omega arith)) (
        Reads-checked _ _ refl (
          Reads-after _ (
            Reads-last _
              (field-Reads d laws _ 0 _ (omega arith) (value-Reads _ (u64-Reads d laws _ h.0)) (
                field-Reads d laws _ 1 _ (omega arith)
                  (value-Reads _ (code-Reads d laws _ _ (result_small result) (result_lem result)))
                  (field-Reads d laws _ 2 _ (omega arith) (value-Reads _ (u64-Reads d laws _ h.1)) (
                    last-Reads d laws _ 3 (omega arith) (value-Reads _ (u16-Reads d laws _ h.2))))))
              (Reads-after _ (Reads-after _ (Reads-after _ (Reads-pure _))))))))

  pub start_response-Reads :
      (msg : PresentationStartResponse)
      → IsDecodable (ApplicationMessage.presentation_start_response msg)
      → Reads (decode_start_response_body d) (start_response_bytes d msg) msg
  start_response-Reads msg h =
      start_response_of msg.request_id msg.result msg.connection_id msg.http_response_code h
