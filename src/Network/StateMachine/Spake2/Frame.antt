-- ===== src/Network/StateMachine/Spake2/Frame.antt =====
-- What no call of `handle` breaks, whether it returns, fails or panics: the configuration, the
-- capacities of the buffers, and the queue of outputs.
use openscreen_rs.Base.{
  ℕ, ◌≤◌, ◌≡◌, refl, sym, Bool, true, List, [], ◌∷◌, ◌++◌, arith, length, length-append, append-nil,
  append_assoc, ◌∙◌,
}
use openscreen_rs.Deps.{Deps, Laws}
use openscreen_rs.Network.{NetworkInput, NetworkOutput, max_output_queue}
use openscreen_rs.Network.CryptoData.{CryptoData}
use openscreen_rs.Network.CryptoData.Buffers.{Buffer, put}
use openscreen_rs.Network.StateMachine.Context.Writes.{Survives, is_working}
use openscreen_rs.Network.StateMachine.Spake2.{Spake2StateMachine, handle}
use openscreen_rs.Network.StateMachine.Spake2.Keeps.{dispatch-Keeps}

-- What the caller configures before the machine runs.
pub record Config : Type 0 where
  pub psk : List ℕ
  pub auth_token : List ℕ
  pub my_fingerprint : List ℕ
  pub peer_fingerprint : List ℕ
  pub session_keys : List ℕ
  pub is_responder : Bool

abbrev pub config : CryptoData → Config
config c = record {
  psk = c.psk;
  auth_token = c.auth_token;
  my_fingerprint = c.my_fingerprint;
  peer_fingerprint = c.peer_fingerprint;
  session_keys = c.session_keys;
  is_responder = c.is_responder;
}

config-put :
    (b : Buffer) (v : List ℕ) (c : CryptoData) → is_working b ≡ true → config (put b v c) ≡ config c
config-put Buffer.psk v c w = cc
config-put Buffer.auth_token v c w = cc
config-put Buffer.my_fingerprint v c w = cc
config-put Buffer.peer_fingerprint v c w = cc
config-put Buffer.session_keys v c w = cc
config-put _ v c w = refl

config-Survives : (k : Config) → Survives (λ s. config s.crypto ≡ k)
config-Survives k = record {
  on_buffer = λ b v s w fits h. config-put b v s.crypto w ∙ h;
  on_output = λ o s room own h. h;
}

-- The queue of outputs has grown from `before`, and is within its capacity.
abbrev pub Grown : List NetworkOutput → List NetworkOutput → Type 0
Grown before after =
    (length after ≤ max_output_queue) × ((new : List NetworkOutput) × (after ≡ before ++ new))

Grown-Survives : (before : List NetworkOutput) → Survives (λ s. Grown before s.outputs)
Grown-Survives before = record {
  on_buffer = λ b v s w fits h. h;
  on_output = λ o s room own h. (
    omega (arith, length-append s.outputs (o ∷ [])),
    (h.1.0 ++ o ∷ [], rw h.1.1 (append_assoc before h.1.0 (o ∷ []))),
  );
}

module _ (d : Deps) (laws : Laws d) where
  -- No call of `handle` changes the PSK, the token, the fingerprints, the session keys or the role,
  -- even where it fails or panics.
  pub handle-config :
      (m : Spake2StateMachine) (i : NetworkInput) (outputs : List NetworkOutput)
      → config (handle d m i outputs).machine.crypto_data ≡ config m.crypto_data
  unfolding handle
  handle-config m i outputs =
      (dispatch-Keeps d laws _ (config-Survives (config m.crypto_data)) m.state i).at _ refl

  -- Where the queue of outputs is within its capacity before a call of `handle`, it is so after it,
  -- and what was in it is still there, in front, even if the call fails or panics.
  pub handle-Grown :
      (m : Spake2StateMachine) (i : NetworkInput) (outputs : List NetworkOutput)
      → length outputs ≤ max_output_queue
      → Grown outputs (handle d m i outputs).outputs
  unfolding handle
  handle-Grown m i outputs h =
      (dispatch-Keeps d laws _ (Grown-Survives outputs) m.state i).at _
        (h, ([], sym (append-nil outputs)))
