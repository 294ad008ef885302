-- ===== src/Network/Messages/Codec/Methods.antt =====
-- The body of the capabilities is read back, with methods and without.
use openscreen_rs.Base.{
  ℕ, ◌+◌, ◌^◌, ◌≤◌, ◌<◌, refl, none, some, List, [], ◌∷◌, ◌++◌, arith, length, length-append,
  append-nil, append_assoc, flatten, raise, if◌then◌else◌,
}
use openscreen_rs.Deps.{Deps, Laws}
use openscreen_rs.Common.{MessageError}
use openscreen_rs.Network.Messages.{
  AuthCapabilities, PskInputEase, PskInputMethod, input_ease_code, max_methods,
}
use openscreen_rs.Network.Messages.Codec.Decode
use openscreen_rs.Network.Messages.Codec.Decode.{
  CapabilityFields, HandshakeFields, decode_methods, decode_method_list, capability_field,
  capability_fields, decode_capabilities_body, text_token, decode_token, handshake_field,
  handshake_fields, decode_handshake_body, decode_confirmation_body, decode_status_body,
  decode_body, decode, decode_capabilities, decode_status,
}
use openscreen_rs.Network.Messages.Codec.Reads.{
  Reads, Reads-pure, Reads-lift, Reads-ensure, Reads-bind, Reads-last, u8-Reads, u32-Reads,
  map-Reads, array-Reads,
}
use openscreen_rs.Network.Messages.Codec.Wire.{
  u8_bytes, methods_bytes, methods_field_bytes, capabilities_bytes,
}
use openscreen_rs.Network.Messages.Codec.Codes.{
  input_ease_lem, input_method_lem, input_ease_small, input_method_small,
}

module _ (d : Deps) (laws : Laws d) where
  pushed-Reads :
      (methods acc : List PskInputMethod) (method : PskInputMethod)
      → length acc + length (method ∷ methods) ≤ max_methods
      → Reads
          (decode_methods d (length methods) (acc ++ method ∷ []))
          (methods_bytes d methods)
          ((acc ++ method ∷ []) ++ methods)
      → Reads
          (let pushed = d.heapless.push max_methods acc method in
            if pushed.0
            then decode_methods d (length methods) pushed.1
            else raise MessageError.buffer_full)
          (methods_bytes d methods)
          (acc ++ method ∷ methods)
  pushed-Reads methods acc method room h =
      rw
        (
          laws.heapless.push_fits max_methods acc method (omega arith),
          ← append_assoc acc (method ∷ []) methods,
        )
        h

  methods-Reads :
      (methods acc : List PskInputMethod)
      → length acc + length methods ≤ max_methods
      → Reads (decode_methods d (length methods) acc) (methods_bytes d methods) (acc ++ methods)
  unfolding decode_methods
  methods-Reads [] acc room = rw append-nil (Reads-pure acc)
  methods-Reads (method ∷ methods) acc room =
      Reads-bind _ (u8-Reads d laws _ (input_method_small method)) (
        Reads-bind _ (Reads-lift (input_method_lem method)) (
          pushed-Reads methods acc method room (
            methods-Reads methods (acc ++ method ∷ [])
              (omega (arith, length-append acc (method ∷ []))))))

  capabilities_tail-Reads :
      (ease : PskInputEase) (methods : List PskInputMethod) (bits : ℕ)
      → bits < 2 ^ 32
      → Reads
          (capability_fields d 1 (record {
            psk_input_ease = some ease;
            psk_input_methods = methods;
            psk_min_bits_of_entropy = none;
          }))
          (u8_bytes d 2 ++ flatten (d.encoder.u32 bits))
          (record {
            psk_input_ease = some ease;
            psk_input_methods = methods;
            psk_min_bits_of_entropy = some bits;
          })
  unfolding capability_fields capability_field
  capabilities_tail-Reads ease methods bits small =
      Reads-bind _ (u8-Reads d laws 2 (omega arith))
        (Reads-last _ (Reads-last _ (u32-Reads d laws bits small) (Reads-pure _)) (Reads-pure _))

  -- The fields of a message with methods, and of one without.
  some_methods-Reads :
      (ease : PskInputEase) (method : PskInputMethod) (methods : List PskInputMethod) (bits : ℕ)
      → length (method ∷ methods) ≤ max_methods
      → bits < 2 ^ 32
      → Reads
          (capability_fields d 3 Decode.no_capability_fields)
          (u8_bytes d 0
            ++ (u8_bytes d (input_ease_code ease)
                ++ (methods_field_bytes d (method ∷ methods)
                    ++ (u8_bytes d 2 ++ flatten (d.encoder.u32 bits)))))
          (record {
            psk_input_ease = some ease;
            psk_input_methods = method ∷ methods;
            psk_min_bits_of_entropy = some bits;
          })
  unfolding capability_fields capability_field decode_method_list
  some_methods-Reads ease method methods bits room small =
      Reads-bind _ (u8-Reads d laws 0 (omega arith)) (
        Reads-bind _
          (Reads-last _ (u8-Reads d laws _ (input_ease_small ease))
            (Reads-bind _ (Reads-lift (input_ease_lem ease)) (Reads-pure _)))
          (rw (append_assoc, append_assoc)
            (Reads-bind _ (u8-Reads d laws 1 (omega arith)) (
              rw (← append_assoc) (
                Reads-bind _
                  (Reads-bind _ (array-Reads d laws _ (omega arith)) (
                    Reads-last _ (methods-Reads (method ∷ methods) [] (omega arith))
                      (Reads-pure _)))
                  (capabilities_tail-Reads ease (method ∷ methods) bits small))))))

  no_methods-Reads :
      (ease : PskInputEase) (bits : ℕ)
      → bits < 2 ^ 32
      → Reads
          (capability_fields d 2 Decode.no_capability_fields)
          (u8_bytes d 0
            ++ (u8_bytes d (input_ease_code ease)
                ++ (u8_bytes d 2 ++ flatten (d.encoder.u32 bits))))
          (record {
            psk_input_ease = some ease;
            psk_input_methods = [];
            psk_min_bits_of_entropy = some bits;
          })
  unfolding capability_fields capability_field
  no_methods-Reads ease bits small = Reads-bind _ (u8-Reads d laws 0 (omega arith)) (
      Reads-bind _
        (Reads-last _ (u8-Reads d laws _ (input_ease_small ease))
          (Reads-bind _ (Reads-lift (input_ease_lem ease)) (Reads-pure _)))
        (unfold capability_fields capability_field in (capabilities_tail-Reads ease [] bits small)))

  pub capabilities_body-Reads :
      (ease : PskInputEase) (methods : List PskInputMethod) (bits : ℕ)
      → length methods ≤ max_methods
      → bits < 2 ^ 32
      → let msg : AuthCapabilities = record {
        psk_input_ease = ease;
        psk_input_methods = methods;
        psk_min_bits_of_entropy = bits;
      } in
        Reads (decode_capabilities_body d) (capabilities_bytes d msg) msg
  unfolding decode_capabilities_body
  capabilities_body-Reads ease [] bits room small =
      Reads-bind _ (map-Reads d laws 2 (omega arith)) (
        Reads-bind _ (Reads-ensure _ refl) (
          Reads-bind _ (Reads-pure _) (
            Reads-last _ (no_methods-Reads ease bits small)
              (Reads-bind _ (Reads-pure _) (Reads-bind _ (Reads-pure _) (Reads-pure _))))))
  capabilities_body-Reads ease (method ∷ methods) bits room small =
      Reads-bind _ (map-Reads d laws 3 (omega arith)) (
        Reads-bind _ (Reads-ensure _ refl) (
          Reads-bind _ (Reads-pure _) (
            Reads-last _ (some_methods-Reads ease method methods bits room small)
              (Reads-bind _ (Reads-pure _) (Reads-bind _ (Reads-pure _) (Reads-pure _))))))
