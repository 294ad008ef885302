-- ===== src/Application/Messages/Reads/Connection.antt =====
-- The bodies of the messages about a connection to a presentation are read back.
use openscreen_rs.Base.{ℕ, refl, arith, Option, none, some, List, ◌++◌}
use openscreen_rs.Deps.{Deps, Laws}
use openscreen_rs.Application.Codes.{close_reason_lem, close_reason_small}
use openscreen_rs.Application.Enumerations.{PresentationConnectionCloseReason}
use openscreen_rs.Network.Messages.Codec.Reads.{
  Reads, Reads-pure, Reads-bind, Reads-last, map-Reads, bytes-Reads,
}
use openscreen_rs.Network.Messages.Codec.Wire.{u8_bytes}
use openscreen_rs.Application.Messages.{
  ApplicationMessage, PresentationConnectionCloseEvent, PresentationConnectionMessage,
  PresentationChangeEvent,
}
use openscreen_rs.Application.Messages.Sizes.{IsDecodable}
use openscreen_rs.Application.Messages.Decode.Connection.{
  close_event_field, decode_close_event_body, connection_message_field,
  decode_connection_message_body, change_event_field, decode_change_event_body,
}
use openscreen_rs.Application.Messages.Wire.Connection.{
  close_event_bytes, connection_message_bytes, change_event_bytes,
}
use openscreen_rs.Application.Messages.Wire.{u64_bytes, text_bytes}
use openscreen_rs.Application.Messages.Reads.{
  Reads-after, Reads-checked, u64-Reads, text-Reads, code-Reads, field-Reads, last-Reads,
  map_body-Reads, value-Reads, Reads-regroup,
}

module _ (d : Deps) (laws : Laws d) where
  pub connection_message-Reads :
      (msg : PresentationConnectionMessage)
      → IsDecodable (ApplicationMessage.presentation_connection_message msg)
      → Reads (decode_connection_message_body d) (connection_message_bytes d msg) msg
  unfolding decode_connection_message_body connection_message_field
  connection_message-Reads msg h =
      map_body-Reads d laws _ 2 _ _ _ (omega arith) refl
        (field-Reads d laws _ 0 _ (omega arith) (value-Reads _ (u64-Reads d laws _ h.0))
          (last-Reads d laws _ 1 (omega arith) (value-Reads _ (bytes-Reads d laws _ h.1))))
        (Reads-after _ (Reads-after _ (Reads-pure _)))

  pub change_event-Reads :
      (msg : PresentationChangeEvent)
      → IsDecodable (ApplicationMessage.presentation_change_event msg)
      → Reads (decode_change_event_body d) (change_event_bytes d msg) msg
  unfolding decode_change_event_body change_event_field
  change_event-Reads msg h =
      map_body-Reads d laws _ 2 _ _ _ (omega arith) refl
        (field-Reads d laws _ 0 _ (omega arith) (value-Reads _ (text-Reads d laws _ h.0))
          (last-Reads d laws _ 1 (omega arith) (value-Reads _ (u64-Reads d laws _ h.1))))
        (Reads-after _ (Reads-after _ (Reads-pure _)))

  -- With an error message and without.
  close_event_of :
      (connection_id : ℕ) (reason : PresentationConnectionCloseReason)
      (error_message : Option (List ℕ)) (connection_count : ℕ)
      → let msg : PresentationConnectionCloseEvent = record {
        connection_id = connection_id;
        reason = reason;
        error_message = error_message;
        connection_count = connection_count;
      } in
        IsDecodable (ApplicationMessage.presentation_connection_close_event msg)
        → Reads (decode_close_event_body d) (close_event_bytes d msg) msg
  unfolding decode_close_event_body close_event_field
  close_event_of connection_id reason none connection_count h =
      (Reads-bind _ (map-Reads d laws 3 (omega arith)) (
        Reads-checked _ _ refl (
          Reads-last _
            (field-Reads d laws _ 0 _ (omega arith) (value-Reads _ (u64-Reads d laws _ h.0)) (
              field-Reads d laws _ 1 _ (omega arith)
                (value-Reads _
                  (code-Reads d laws _ _ (close_reason_small reason) (close_reason_lem reason)))
                (last-Reads d laws _ 3 (omega arith) (value-Reads _ (u64-Reads d laws _ h.2)))))
            (Reads-after _ (Reads-after _ (Reads-after _ (Reads-pure _)))))))
  close_event_of connection_id reason (some error_message) connection_count h =
      (Reads-bind _ (map-Reads d laws 4 (omega arith)) (
        Reads-checked _ _ refl (
          Reads-last _
            (field-Reads d laws _ 0 _ (omega arith) (value-Reads _ (u64-Reads d laws _ h.0)) (
              field-Reads d laws _ 1 _ (omega arith)
                (value-Reads _
                  (code-Reads d laws _ _ (close_reason_small reason) (close_reason_lem reason)))
                (Reads-regroup (u8_bytes d 2) (text_bytes d error_message)
                  (u8_bytes d 3 ++ u64_bytes d connection_count)
                  (field-Reads d laws _ 2 _ (omega arith) (value-Reads _ (text-Reads d laws _ h.1))
                    (last-Reads d laws _ 3 (omega arith)
                      (value-Reads _ (u64-Reads d laws _ h.2)))))))
            (Reads-after _ (Reads-after _ (Reads-after _ (Reads-pure _)))))))

  pub close_event-Reads :
      (msg : PresentationConnectionCloseEvent)
      → IsDecodable (ApplicationMessage.presentation_connection_close_event msg)
      → Reads (decode_close_event_body d) (close_event_bytes d msg) msg
  close_event-Reads msg h =
      close_event_of msg.connection_id msg.reason msg.error_message msg.connection_count h
