-- ===== src/Network/StateMachine/Spake2/Keys.antt =====
-- The keys and the confirmations: what the machine holds and sends once it has them.
use openscreen_rs.Base.{
  ℕ, ◌≤◌, ◌<◌, ◌≡◌, refl, ap, ◌∙◌, Bool, true, false, List, [], ◌∷◌, ◌++◌, length, take, drop,
  is_empty, arith, ok, ◌>>=◌, pure, le→ltb, fault, ◌&&◌, if◌then◌else◌, append-nil, length-take,
  length-drop,
}
use openscreen_rs.Deps.{Deps, Laws}
use openscreen_rs.Crypto.{CryptoOpKind, Spake2Operation}
use openscreen_rs.Network.{NetworkInput, NetworkOutput, NetworkError}
use openscreen_rs.Network.Messages.{NetworkMessage}
use openscreen_rs.Network.CryptoData.{CryptoData}
use openscreen_rs.Network.CryptoData.Buffers.{Buffer, put}
use openscreen_rs.Network.StateMachine.Context.{Context, log_prefix, peer_key}
use openscreen_rs.Network.StateMachine.Context.Fits.{store_fits}
use openscreen_rs.Network.StateMachine.Handlers.{Computing.store_keys}
use openscreen_rs.Network.StateMachine.Spake2.{Spake2StateMachine, Handled, handle}
use openscreen_rs.Network.StateMachine.Spake2.Final.{run}

-- What a sequence of calls puts in their vectors of outputs.
unfoldable pub sent : Deps → Spake2StateMachine → List NetworkInput → List NetworkOutput
sent d m [] = []
sent d m (i ∷ inputs) = let after = handle d m i [] in after.outputs ++ sent d after.machine inputs

-- The buffers once the keys are there.
abbrev pub keyed : List ℕ → CryptoData → CryptoData
keyed keys c = put Buffer.my_confirmation_temp (take 32 (drop 32 keys)) (
    put Buffer.responder_confirmation_key (take 32 (drop 96 keys)) (
      put Buffer.initiator_confirmation_key (take 32 (drop 64 keys))
        (put Buffer.shared_secret (take 32 keys) c)))

-- The buffers once the peer's confirmation is there too.
abbrev pub verifying : List ℕ → List ℕ → CryptoData → CryptoData
verifying keys value c =
    let k = put Buffer.peer_confirmation_temp value (keyed keys c) in
    put Buffer.confirmation_context (k.transcript ++ peer_key k) k

-- Our confirmation, and the request to verify the peer's.
abbrev pub requests : List ℕ → List ℕ → CryptoData → List NetworkOutput
requests keys value c =
    NetworkOutput.send_message (
      NetworkMessage.auth_spake2_confirmation
        (record { confirmation_value = take 32 (drop 32 keys) }))
    ∷ NetworkOutput.request_crypto (record {
      op_id = 4;
      kind =
          CryptoOpKind.spake2
            (Spake2Operation.verify_confirmation (c.transcript ++ peer_key (keyed keys c)) value);
    })
    ∷ []

piece_fits : (n : ℕ) (xs : List ℕ) → 32 ≤ n → length (take 32 xs) ≤ n
piece_fits n xs h = omega (arith, length-take 32 xs)

pub has_bytes : (n : ℕ) (xs : List ℕ) → n < length xs → is_empty xs ≡ false
has_bytes n [] h = ground arith
has_bytes n (x ∷ xs) h = refl

if_length :
    (b : Bool) (xs ys : List ℕ) {n : ℕ}
    → length xs ≡ n
    → length ys ≡ n
    → length (if b then xs else ys) ≡ n
if_length true xs ys p q = p
if_length false xs ys p q = q

pub peer_key-length :
    (keys value : List ℕ) (c : CryptoData)
    → 128 ≤ length keys
    → length (peer_key (put Buffer.peer_confirmation_temp value (keyed keys c))) ≡ 32
peer_key-length keys value c h =
    if_length c.is_responder (take 32 (drop 64 keys)) (take 32 (drop 96 keys))
      (omega (arith, length-take 32 (drop 64 keys), length-drop 64 keys))
      (omega (arith, length-take 32 (drop 96 keys), length-drop 96 keys))

pub two_calls :
    (d : Deps) (m : Spake2StateMachine) (i j : NetworkInput) {first second : Handled}
    → handle d m i [] ≡ first
    → handle d first.machine j [] ≡ second
    → (run d m (i ∷ j ∷ []) ≡ second.machine)
      × (sent d m (i ∷ j ∷ []) ≡ first.outputs ++ second.outputs)
unfolding run sent
two_calls d m i j {first = first} {second = second} p q = (
  ap (λ (h : Handled). (handle d h.machine j []).machine) p ∙ ap (λ (h : Handled). h.machine) q,
  ap (λ (h : Handled). h.outputs ++ ((handle d h.machine j []).outputs ++ [])) p
      ∙ ap (λ (h : Handled). first.outputs ++ (h.outputs ++ [])) q
      ∙ ap (λ (os : List NetworkOutput). first.outputs ++ os) (append-nil second.outputs),
)

module _ (d : Deps) (laws : Laws d) where
  pub log_quiet :
      (bytes : List ℕ) (s : Context) → 8 ≤ length bytes → log_prefix d bytes s ≡ (ok tt, s)
  unfolding log_prefix pure
  log_quiet bytes s h = rw (le→ltb (length bytes) 8 h) (quiet d.debug_enabled)
    where
      quiet : (b : Bool) → (if b && false then fault {E = NetworkError} else pure tt) s ≡ (ok tt, s)
      quiet true = refl
      quiet false = refl

  pub store_keys_fits :
      (keys : List ℕ) (s : Context)
      → store_keys d keys s ≡ (ok tt, record s { crypto = keyed keys s.crypto })
  unfolding store_keys ◌>>=◌
  store_keys_fits keys s =
      let c1 = put Buffer.shared_secret (take 32 keys) s.crypto in
      let c2 = put Buffer.initiator_confirmation_key (take 32 (drop 64 keys)) c1 in
      let c3 = put Buffer.responder_confirmation_key (take 32 (drop 96 keys)) c2 in
      rw
        (
          store_fits d laws Buffer.shared_secret _ s (piece_fits 640 keys (omega arith)),
          store_fits d laws Buffer.initiator_confirmation_key _ (record s { crypto = c1 })
              (piece_fits 32 (drop 64 keys) (omega arith)),
          store_fits d laws Buffer.responder_confirmation_key _ (record s { crypto = c2 })
              (piece_fits 32 (drop 96 keys) (omega arith)),
          store_fits d laws Buffer.my_confirmation_temp _ (record s { crypto = c3 })
              (piece_fits 64 (drop 32 keys) (omega arith)),
        )
        refl
