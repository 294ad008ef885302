-- ===== src/Application/Machine/Sending.antt =====
-- What a command sends after authentication.
use openscreen_rs.Base.{
  ℕ, ◌+◌, ◌≤◌, ◌≡◌, ◌∙◌, true, List, [], ◌∷◌, ◌++◌, append-nil, append_assoc, length, length-append,
  arith, ok, pure, ◌>>=◌,
}
use openscreen_rs.Deps.{Deps, Laws}
use openscreen_rs.Common.{max_cbor_size, max_urls}
use openscreen_rs.Application.{ApplicationOutput, max_application_queue}
use openscreen_rs.Application.Messages.{ApplicationMessage}
use openscreen_rs.Application.Messages.Decode.Message.{decode_application_message}
use openscreen_rs.Application.Messages.Sizes.{IsDecodable}
use openscreen_rs.Application.Messages.Wire.Message.{application_wire, application-Writes}
use openscreen_rs.Application.Messages.RoundTrip.{application-wire}
use openscreen_rs.Application.Machine.{
  ApplicationStateMachine, Held, Handling, application_is_authenticated, encode_request,
  emit_output, send,
}
use openscreen_rs.Application.Machine.Commands.{
  collect_urls, handle_start_presentation, handle_terminate_presentation,
  handle_check_url_availability, handle_open_presentation_connection,
  handle_send_presentation_message, handle_close_presentation_connection,
  handle_request_agent_status, handle_request_agent_info,
}
use openscreen_rs.Application.Machine.Input.{dispatch_input, handle_input}
use openscreen_rs.Application.Machine.Requests.{Command, input_of, request_of, is_numbered}
use openscreen_rs.Application.Machine.Gate.{allowed, advance, numbered}

module _ (d : Deps) (laws : Laws d) where
  abbrev pub sent : ApplicationMessage → List ApplicationOutput
  sent msg = ApplicationOutput.send_data 0 (application_wire d msg) ∷ []

  sends :
      (m : ApplicationStateMachine) (msg : ApplicationMessage)
      → length (application_wire d msg) ≤ max_cbor_size
      → send d msg (record { machine = m; outputs = [] })
        ≡ (ok tt, record { machine = m; outputs = sent msg })
  unfolding send encode_request emit_output ◌>>=◌
  sends m msg room = rw (
    (application-Writes d laws max_cbor_size msg).fits [] (omega (arith, room)),
    laws.heapless.push_fits max_application_queue []
        (ApplicationOutput.send_data 0 (application_wire d msg)) (omega arith),
  )

  -- A list of URLs within the capacity is copied.
  collects :
      (urls acc : List (List ℕ)) (s : Held)
      → length acc + length urls ≤ max_urls
      → collect_urls d urls acc s ≡ (ok (acc ++ urls), s)
  unfolding collect_urls pure
  collects [] acc s room = rw append-nil
  collects (url ∷ urls) acc s room =
      rw
        (
          laws.heapless.push_fits max_urls acc url (omega (arith, room)),
          ← append_assoc acc (url ∷ []) urls,
        )
        (collects urls (acc ++ url ∷ []) s (omega (arith, room, length-append acc (url ∷ []))))

  collected :
      (f : List (List ℕ) → Handling (Unit {0})) (urls : List (List ℕ)) (s : Held)
      → length urls ≤ max_urls
      → (collect_urls d urls [] >>= f) s ≡ f urls s
  unfolding ◌>>=◌
  collected f urls s room = rw (collects urls [] s (omega (arith, room)))

  sends_input :
      (m : ApplicationStateMachine) (c : Command) (outputs : List ApplicationOutput)
      → application_is_authenticated m ≡ true
      → IsDecodable (request_of c m.next_request_id)
      → length (application_wire d (request_of c m.next_request_id)) ≤ max_cbor_size
      → handle_input d m (input_of c) outputs ≡ (
        ok tt,
        record {
          machine = advance (is_numbered c) m;
          outputs = sent (request_of c m.next_request_id);
        },
      )
  unfolding handle_input dispatch_input handle_start_presentation handle_terminate_presentation
      handle_check_url_availability handle_open_presentation_connection
      handle_send_presentation_message handle_close_presentation_connection
      handle_request_agent_status handle_request_agent_info
  sends_input m (Command.check urls watch_duration) outputs h small room =
      numbered m _ h ∙ collected _ urls _ small.1 ∙ sends (advance true m) _ room
  sends_input m (Command.send_message connection_id message) outputs h small room =
      allowed _ _ h ∙ sends m _ room
  sends_input m (Command.close connection_id reason) outputs h small room =
      allowed _ _ h ∙ sends m _ room
  sends_input m c outputs h small room =
      numbered m _ h ∙ sends (advance true m) (request_of c m.next_request_id) room

  -- Each of the eight commands, to an authenticated machine, returns ok and puts out one SendData on
  -- stream 0, where its message is of the sizes that a decoder accepts and of at most 1024 bytes: the
  -- bytes decode to that message, which carries the machine's request id where it has one. The
  -- machine changes in the request id alone, which goes up by one modulo 2^64 where it was used.
  pub command_sends :
      (m : ApplicationStateMachine) (c : Command) (outputs : List ApplicationOutput)
      → application_is_authenticated m ≡ true
      → IsDecodable (request_of c m.next_request_id)
      → length (application_wire d (request_of c m.next_request_id)) ≤ max_cbor_size
      → let bytes = application_wire d (request_of c m.next_request_id) in
        (handle_input d m (input_of c) outputs ≡ (
          ok tt,
          record {
            machine = advance (is_numbered c) m;
            outputs = ApplicationOutput.send_data 0 bytes ∷ [];
          },
        ))
        × (decode_application_message d bytes ≡ ok (request_of c m.next_request_id))
  command_sends m c outputs h small room = (
    sends_input m c outputs h small room,
    rw append-nil at (application-wire d laws (request_of c m.next_request_id) [] small),
  )
