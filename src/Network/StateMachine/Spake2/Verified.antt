-- ===== src/Network/StateMachine/Spake2/Verified.antt =====
-- What Authenticated says of the crypto requests that were answered.
use mathlib.Core.Path.{subst}
use openscreen_rs.Base.{
  ◌≡◌, ap, refl, Bool, true, false, ◌||◌, and-first, and-second, ℕ, List, [], ◌∷◌, ◌++◌, all,
  is_empty, Outcome, ok, err, panic,
}
use openscreen_rs.Deps.{Deps, Laws}
use openscreen_rs.Crypto.{CryptoError, CryptoOpKind, CryptoRequest, CryptoResult}
use openscreen_rs.Crypto.Provider.{CryptoProvider}
use openscreen_rs.Network.{NetworkInput, NetworkOutput}
use openscreen_rs.Network.CryptoData.{CryptoData}
use openscreen_rs.Network.StateMachine.Context.{State, Context}
use openscreen_rs.Network.StateMachine.Context.Writes.{Survives, is_spake2, is_own}
use openscreen_rs.Network.StateMachine.Spake2.{Spake2StateMachine, handle}
use openscreen_rs.Network.StateMachine.Spake2.Keeps.{dispatch-Keeps}
use openscreen_rs.Network.StateMachine.Spake2.Evidence.{
  Evidence, is_empty_result, step-Evidence, next-Evidence,
}
use openscreen_rs.Network.StateMachine.Spake2.Session.{
  Incoming, network_input, requests_in, Session, Turn, is_verification, has_verified, Honest, feed,
  completed, answer_oldest, take_turn, take_turns, new_session,
}
use openscreen_rs.Crypto.RustCrypto.{
  CryptoCrates, RustCryptoCryptoProvider, execute_kind, rust_crypto,
}
use openscreen_rs.Crypto.RustCrypto.Answers.{CryptoCratesLaws}
use openscreen_rs.Crypto.RustCrypto.Honesty.{empty_answer-rust}

all-append :
    {A : Type 0} (f : A → Bool) (xs ys : List A)
    → all f xs ≡ true
    → all f ys ≡ true
    → all f (xs ++ ys) ≡ true
all-append f [] ys h k = k
all-append f (x ∷ xs) ys h k =
    let rest = all-append f xs ys (and-second (f x) (all f xs) h) k in
    let first = and-first (f x) (all f xs) h in rw (first, rest) refl

Owned-Survives : Survives (λ s. all is_own s.outputs ≡ true)
Owned-Survives = record {
  on_buffer = λ b v s w fits h. h;
  on_output = λ o s room own h. all-append is_own s.outputs (o ∷ []) h (rw own refl);
}

requests_in-spake2 :
    (outputs : List NetworkOutput)
    → all is_own outputs ≡ true
    → all is_spake2 (requests_in outputs) ≡ true
requests_in-spake2 [] h = refl
requests_in-spake2 (NetworkOutput.request_crypto request ∷ outputs) h =
    let first = and-first (is_spake2 request) (all is_own outputs) h in
    let rest = requests_in-spake2 outputs (and-second (is_spake2 request) (all is_own outputs) h) in
    rw (first, rest) refl
requests_in-spake2 (NetworkOutput.open_uni_stream ∷ outputs) h = requests_in-spake2 outputs h
requests_in-spake2 (NetworkOutput.send_message msg ∷ outputs) h = requests_in-spake2 outputs h
requests_in-spake2 (NetworkOutput.send_data bytes ∷ outputs) h = requests_in-spake2 outputs h
requests_in-spake2 (NetworkOutput.close_stream stream ∷ outputs) h = requests_in-spake2 outputs h
requests_in-spake2 (NetworkOutput.close_connection ∷ outputs) h = requests_in-spake2 outputs h
requests_in-spake2 (NetworkOutput.needs_poll ∷ outputs) h = requests_in-spake2 outputs h
requests_in-spake2 (NetworkOutput.event e ∷ outputs) h = requests_in-spake2 outputs h

Evidence-more :
    (t : State) (v v' o : Bool) → (v ≡ true → v' ≡ true) → Evidence t v o → Evidence t v' o
Evidence-more State.awaiting_status v v' o more h = more h
Evidence-more State.authenticated v v' o more h = (more h.0, h.1)
Evidence-more State.negotiating v v' o more h = h
Evidence-more _ v v' o more h = tt

abbrev Sound : {S : Type 0} → Session S → Type 0
Sound s =
    (all is_spake2 s.pending ≡ true)
    × Evidence s.machine.state (has_verified s.answered) s.peer_said_ok

not_crypto : (t : State) (i : Incoming) → is_empty_result t (network_input i) ≡ false
not_crypto State.computing Incoming.transport_connected = refl
not_crypto State.computing (Incoming.stream_opened stream) = refl
not_crypto State.computing (Incoming.stream_closed stream) = refl
not_crypto State.computing (Incoming.data_received stream bytes) = refl
not_crypto State.computing (Incoming.tick now) = refl
not_crypto _ i = refl

verified_empty :
    (t : State) (result : CryptoResult)
    → is_empty_result t (NetworkInput.crypto_completed result) ≡ true
    → is_empty result.payload ≡ true
verified_empty State.computing result h = h
verified_empty _ result h = cc

or_last : (a b : Bool) → b ≡ true → (a || b) ≡ true
or_last true b h = refl
or_last false b h = h

or_cases :
    (a b c : Bool) → (a ≡ true → c ≡ true) → (b ≡ true → c ≡ true) → (a || b) ≡ true → c ≡ true
or_cases true b c f g h = f refl
or_cases false b c f g h = g h

module _ (d : Deps) (laws : Laws d) {S : Type 0} (p : CryptoProvider S) (honest : Honest p) where
  handle-Owned :
      (m : Spake2StateMachine) (i : NetworkInput) → all is_own (handle d m i []).outputs ≡ true
  unfolding handle
  handle-Owned m i = (dispatch-Keeps d laws _ Owned-Survives m.state i).at _ refl

  feed-Sound :
      (i : NetworkInput) (s : Session S) (v : Bool)
      → all is_spake2 s.pending ≡ true
      → Evidence s.machine.state v s.peer_said_ok
      → ((v || is_empty_result s.machine.state i) ≡ true → has_verified s.answered ≡ true)
      → Sound (feed d p i s)
  unfolding feed handle
  feed-Sound i s v spake2 h more =
      let context : Context = record { crypto = s.machine.crypto_data; outputs = [] } in
      let before = step-Evidence d v s.peer_said_ok s.machine.state i context h in
      (
        all-append is_spake2 s.pending _ spake2
            (requests_in-spake2 (handle d s.machine i []).outputs (handle-Owned s.machine i)),
        Evidence-more _ _ _ _ more (next-Evidence _ _ _ before),
      )

  completed-Sound :
      (request : CryptoRequest) (rest : List CryptoRequest) (s : Session S)
      (done : Outcome CryptoError CryptoResult × S)
      → p.execute request s.provider ≡ done
      → is_spake2 request ≡ true
      → all is_spake2 rest ≡ true
      → Evidence s.machine.state (has_verified s.answered) s.peer_said_ok
      → Sound (completed d p request rest s done)
  unfolding completed
  completed-Sound request rest s (ok result, provider) e own spake2 h =
      let answered = (request, result) ∷ s.answered in
      feed-Sound (NetworkInput.crypto_completed result)
        (record s { provider = provider; pending = rest; answered = answered })
        (has_verified s.answered) spake2 h
        (or_cases (has_verified s.answered)
          (is_empty_result s.machine.state (NetworkInput.crypto_completed result))
          (has_verified answered) (λ already. or_last _ _ already)
          (λ now.
            let empty = verified_empty s.machine.state result now in
            let verifies =
              honest.empty_answer request s.provider result own (ap (λ x. x.0) e) empty in
            rw (verifies, empty) refl))
  completed-Sound request rest s (err x, provider) e own spake2 h = (spake2, h)
  completed-Sound request rest s (panic, provider) e own spake2 h = (spake2, h)

  answer-Sound :
      (pending : List CryptoRequest) (s : Session S)
      → all is_spake2 pending ≡ true
      → Evidence s.machine.state (has_verified s.answered) s.peer_said_ok
      → all is_spake2 s.pending ≡ true
      → Sound (answer_oldest d p pending s)
  unfolding answer_oldest
  answer-Sound [] s spake2 h waiting = (waiting, h)
  answer-Sound (request ∷ rest) s spake2 h waiting =
      completed-Sound request rest s (p.execute request s.provider) refl
        (and-first (is_spake2 request) (all is_spake2 rest) spake2)
        (and-second (is_spake2 request) (all is_spake2 rest) spake2) h

  turn-Sound : (turn : Turn) (s : Session S) → Sound s → Sound (take_turn d p turn s)
  unfolding take_turn
  turn-Sound (Turn.incoming i) s h =
      feed-Sound (network_input i) s (has_verified s.answered) h.0 h.1 (
        or_cases (has_verified s.answered) (is_empty_result s.machine.state (network_input i))
          (has_verified s.answered) (λ e. e) (λ e. let apart = not_crypto s.machine.state i in cc))
  turn-Sound Turn.answer s h = answer-Sound s.pending s h.0 h.1 h.0

  turns-Sound : (turns : List Turn) (s : Session S) → Sound s → Sound (take_turns d p turns s)
  unfolding take_turns
  turns-Sound [] s h = h
  turns-Sound (turn ∷ turns) s h = turns-Sound turns (take_turn d p turn s) (turn-Sound turn s h)

  -- Let a machine that started idle take inputs from outside and the answers that a provider gives to
  -- its crypto requests, oldest first, in any order of turns. Where it is authenticated after them,
  -- the provider has answered a VerifyConfirmation with success, and the peer has sent the status Ok
  -- when the machine was in AwaitingStatus. The provider is one that answers, of the SPAKE2 requests,
  -- only a VerifyConfirmation with an empty result.
  pub authenticated_verified :
      (c : CryptoData) (provider : S) (turns : List Turn)
      → let end = take_turns d p turns (new_session d p c provider) in
        end.machine.state ≡ State.authenticated
        → (has_verified end.answered ≡ true) × (end.peer_said_ok ≡ true)
  authenticated_verified c provider turns h =
      let end = take_turns d p turns (new_session d p c provider) in
      subst (λ t. Evidence t (has_verified end.answered) end.peer_said_ok) h
        (turns-Sound turns (new_session d p c provider) (refl, tt)).1

-- The provider of openscreen-crypto-rustcrypto is such a one.
pub rust_crypto-Honest :
    (d : Deps) (laws : Laws d) {K : Type 0} (c : CryptoCrates K) (known : CryptoCratesLaws c)
    (e : List ℕ)
    → Honest (rust_crypto d c e)
unfolding execute_kind
rust_crypto-Honest d laws {K = K} c known e = record {
  empty_answer = λ request s r own h empty. by_kind request.op_id request.kind s r own h empty;
}
  where
    by_kind :
        (op_id : ℕ) (kind : CryptoOpKind) (s : RustCryptoCryptoProvider K) (r : CryptoResult)
        → is_spake2 (record { op_id = op_id; kind = kind }) ≡ true
        → (execute_kind d c e op_id kind s).0 ≡ ok r
        → is_empty r.payload ≡ true
        → is_verification (record { op_id = op_id; kind = kind }) ≡ true
    by_kind op_id (CryptoOpKind.spake2 op) s r own h empty =
        let verifies = empty_answer-rust d laws c known e op_id op s r h empty in rw verifies.2 refl
    by_kind op_id (CryptoOpKind.certificate op) s r own h empty = cc
    by_kind op_id (CryptoOpKind.hash op) s r own h empty = cc
    by_kind op_id (CryptoOpKind.hmac op) s r own h empty = cc
    by_kind op_id (CryptoOpKind.hkdf op) s r own h empty = cc
    by_kind op_id (CryptoOpKind.ecdsa op) s r own h empty = cc
