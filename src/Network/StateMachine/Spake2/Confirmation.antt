-- ===== src/Network/StateMachine/Spake2/Confirmation.antt =====
-- The peer's confirmation may come before our keys do: it is kept, and checked all the same.
use openscreen_rs.Base.{
  ℕ, ◌+◌, ◌≤◌, ◌<◌, ◌≡◌, refl, List, [], ◌∷◌, ◌++◌, length, take, drop, arith, ok, ◌>>=◌, gets,
  lift, ensure, pure, le→leb,
}
use openscreen_rs.Deps.{Deps, Laws}
use openscreen_rs.Crypto.{CryptoOpKind, Spake2Operation}
use openscreen_rs.Network.{NetworkInput, NetworkOutput}
use openscreen_rs.Network.Messages.{NetworkMessage}
use openscreen_rs.Network.Messages.Codec.Decode.{decode}
use openscreen_rs.Network.CryptoData.{CryptoData}
use openscreen_rs.Network.CryptoData.Buffers.{Buffer, put, clear}
use openscreen_rs.Network.StateMachine.Context.{State, log_prefix, on_crypto, peer_key}
use openscreen_rs.Network.StateMachine.Context.Fits.{
  store_fits, push_fits, context_fits, verification_fits,
}
use openscreen_rs.Network.StateMachine.Handlers.{
  Computing.handle as computing_handle, Computing.verify_buffered,
  Computing.finish as computing_finish, AwaitingConfirmation.handle as awaiting_confirmation_handle,
}
use openscreen_rs.Network.StateMachine.Spake2.{Spake2StateMachine, dispatch, handle}
use openscreen_rs.Network.StateMachine.Spake2.Final.{run}
use openscreen_rs.Network.StateMachine.Spake2.Keys.{
  sent, keyed, verifying, requests, has_bytes, peer_key-length, two_calls, log_quiet,
  store_keys_fits,
}

module _ (d : Deps) (laws : Laws d) where
  module _ (c : CryptoData) (keys value bytes : List ℕ) (enough : 128 ≤ length keys)
      (transcript_fits : length c.transcript ≤ 512) (nothing : c.pending_confirmation_bytes ≡ [])
      (bytes_fit : length bytes ≤ 256) (some_bytes : 0 < length bytes)
      (value_fits : length value ≤ 64) (value_long : 8 ≤ length value)
      (decoded : decode d bytes
        ≡ ok
            (NetworkMessage.auth_spake2_confirmation (record { confirmation_value = value }))) where
    late_keys :
        (op_id : ℕ)
        → handle d
            (record { state = State.computing; crypto_data = c })
            (NetworkInput.crypto_completed (record { op_id = op_id; payload = keys }))
            []
          ≡ record {
            result = ok tt;
            machine = record { state = State.awaiting_confirmation; crypto_data = keyed keys c };
            outputs =
                NetworkOutput.send_message (
                  NetworkMessage.auth_spake2_confirmation
                    (record { confirmation_value = take 32 (drop 32 keys) }))
                ∷ [];
          }
    unfolding handle dispatch computing_handle computing_finish ensure gets pure ◌>>=◌
    late_keys op_id =
        rw
          (
            has_bytes 127 keys enough,
            le→leb 128 (length keys) enough,
            store_keys_fits d laws keys (record { crypto = c; outputs = [] }),
            push_fits d laws _ (record { crypto = keyed keys c; outputs = [] }) (omega arith),
            nothing,
          )
          refl

    context_room :
        length c.transcript
          + length (peer_key (put Buffer.peer_confirmation_temp value (keyed keys c)))
        ≤ 544
    context_room = omega (arith, transcript_fits, peer_key-length keys value c enough)

    abbrev request_message : NetworkOutput
    request_message = NetworkOutput.request_crypto (record {
      op_id = 4;
      kind =
          CryptoOpKind.spake2
            (Spake2Operation.verify_confirmation (c.transcript ++ peer_key (keyed keys c)) value);
    })

    late_confirmation :
        (stream : ℕ)
        → handle d
            (record { state = State.awaiting_confirmation; crypto_data = keyed keys c })
            (NetworkInput.data_received stream bytes)
            []
          ≡ record {
            result = ok tt;
            machine = record { state = State.computing; crypto_data = verifying keys value c };
            outputs = request_message ∷ [];
          }
    unfolding handle dispatch awaiting_confirmation_handle lift gets pure log_prefix ◌>>=◌
    late_confirmation stream =
        let k = put Buffer.peer_confirmation_temp value (keyed keys c) in
        rw
          (
            decoded,
            store_fits d laws Buffer.peer_confirmation_temp value
                (record { crypto = keyed keys c; outputs = [] }) value_fits,
          )
          (rw
            (
              log_quiet d laws value (record { crypto = k; outputs = [] }) value_long,
              context_fits d laws (record { crypto = k; outputs = [] }) context_room,
              log_quiet d laws (peer_key k)
                  (record { crypto = verifying keys value c; outputs = [] })
                  (omega (arith, peer_key-length keys value c enough)),
              verification_fits d laws (record { crypto = verifying keys value c; outputs = [] })
                  (omega arith),
            )
            refl)

    pub early_confirmation :
        (stream : ℕ)
        → handle d
            (record { state = State.computing; crypto_data = c })
            (NetworkInput.data_received stream bytes)
            []
          ≡ record {
            result = ok tt;
            machine = record {
              state = State.computing;
              crypto_data = put Buffer.pending_confirmation_bytes bytes c;
            };
            outputs = [];
          }
    unfolding handle dispatch computing_handle pure ◌>>=◌
    early_confirmation stream =
        rw
          (store_fits d laws Buffer.pending_confirmation_bytes bytes
            (record { crypto = c; outputs = [] }) bytes_fit)
          refl

    pub early_keys :
        (op_id : ℕ)
        → handle d
            (record {
              state = State.computing;
              crypto_data = put Buffer.pending_confirmation_bytes bytes c;
            })
            (NetworkInput.crypto_completed (record { op_id = op_id; payload = keys }))
            []
          ≡ record {
            result = ok tt;
            machine = record { state = State.computing; crypto_data = verifying keys value c };
            outputs = requests keys value c;
          }
    unfolding handle dispatch computing_handle computing_finish verify_buffered on_crypto clear
        ensure lift gets pure ◌>>=◌
    early_keys op_id =
        let c' = put Buffer.pending_confirmation_bytes bytes c in
        let k =
          put Buffer.pending_confirmation_bytes []
            (put Buffer.peer_confirmation_temp value (keyed keys c')) in
        let message =
          NetworkOutput.send_message (
            NetworkMessage.auth_spake2_confirmation
              (record { confirmation_value = take 32 (drop 32 keys) }))
          ∷ [] in
        rw
          (
            has_bytes 127 keys enough,
            le→leb 128 (length keys) enough,
            store_keys_fits d laws keys (record { crypto = c'; outputs = [] }),
            push_fits d laws _ (record { crypto = keyed keys c'; outputs = [] }) (omega arith),
            has_bytes 0 bytes some_bytes,
          )
          (rw
            (
              decoded,
              store_fits d laws Buffer.peer_confirmation_temp value
                  (record { crypto = keyed keys c'; outputs = message }) value_fits,
              context_fits d laws (record { crypto = k; outputs = message }) context_room,
              verification_fits d laws
                  (record {
                    crypto = put Buffer.confirmation_context (k.transcript ++ peer_key k) k;
                    outputs = message;
                  })
                  (omega arith),
              nothing,
            )
            refl)

    -- In Computing with nothing pending and a transcript of at most 512 bytes, let the keys have at
    -- least 128 bytes, and let a message of 1 to 256 bytes decode to a confirmation of 8 to 64
    -- bytes. Whether that message comes before the keys or after them, the machine ends in
    -- Computing with the same buffers, and has sent the same: our confirmation, and the request to
    -- verify the peer's under the transcript and the peer's key.
    pub either_order :
        (stream op_id : ℕ)
        → let m : Spake2StateMachine = record { state = State.computing; crypto_data = c } in
          let confirmation = NetworkInput.data_received stream bytes in
          let keys_done =
            NetworkInput.crypto_completed (record { op_id = op_id; payload = keys }) in
          let after : Spake2StateMachine = record {
            state = State.computing;
            crypto_data = verifying keys value c;
          } in
          (run d m (confirmation ∷ keys_done ∷ []) ≡ after)
          × (run d m (keys_done ∷ confirmation ∷ []) ≡ after)
          × (sent d m (confirmation ∷ keys_done ∷ []) ≡ requests keys value c)
          × (sent d m (keys_done ∷ confirmation ∷ []) ≡ requests keys value c)
    either_order stream op_id =
        let early = two_calls d _ _ _ (early_confirmation stream) (early_keys op_id) in
        let late = two_calls d _ _ _ (late_keys op_id) (late_confirmation stream) in
        (early.0, late.0, early.1, late.1)
