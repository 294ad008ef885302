-- ===== src/Network/StateMachine/Spake2/Evidence.antt =====
-- What must have happened before the machine is authenticated.
use openscreen_rs.Base.{
  ◌≡◌, ◌≢◌, refl, Bool, true, false, ◌||◌, ℕ, if◌then◌else◌, List, [], ◌∷◌, arith, Outcome, ok, err,
  panic, is_empty, map_err, ◌>>=◌, lift,
}
use mathlib.Core.Path.{subst}
use openscreen_rs.Base.Returns.{Returns, OnOk, returns_rules}
use openscreen_rs.Common.{MessageError}
use openscreen_rs.Deps.{Deps}
use openscreen_rs.Network.{NetworkError, NetworkInput}
use openscreen_rs.Network.CryptoData.{CryptoData}
use openscreen_rs.Network.Messages.{AuthStatus}
use openscreen_rs.Network.Messages.Codec.Decode.{decode_status}
use openscreen_rs.Network.StateMachine.Context.{State, Context}
use openscreen_rs.Network.StateMachine.Handlers.{
  Computing.handle as computing_handle, Computing.announce_success, Computing.verify_buffered,
  Computing.finish as computing_finish, AwaitingStatus.handle as awaiting_status_handle,
  AwaitingStatus.finish as awaiting_status_finish, AwaitingStatus.is_ok,
}
use openscreen_rs.Network.StateMachine.Spake2.{
  Spake2StateMachine, dispatch, handle, new, next_state,
}
use openscreen_rs.Network.StateMachine.Spake2.Transitions.{
  ◌⟶◌, stay, announce, admit, negotiated_offer, negotiated_answer, dispatch-⟶,
}
use openscreen_rs.Network.StateMachine.Spake2.Final.{run}

-- An empty crypto result, in Computing.
abbrev pub is_empty_result : State → NetworkInput → Bool
is_empty_result State.computing (NetworkInput.crypto_completed result) = is_empty result.payload
is_empty_result _ _ = false

-- A decoded status message that says Ok.
abbrev pub says_ok : Outcome MessageError AuthStatus → Bool
says_ok (ok msg) = is_ok msg.status
says_ok _ = false

-- A status message that says so, in AwaitingStatus.
abbrev pub is_ok_status : Deps → State → NetworkInput → Bool
is_ok_status d State.awaiting_status (NetworkInput.data_received stream bytes) =
    says_ok (decode_status d bytes)
is_ok_status d _ _ = false

-- Whether some call in a row of calls finds the machine in such a state with such an input.
unfoldable pub meets :
    Deps → (State → NetworkInput → Bool) → Spake2StateMachine → List NetworkInput → Bool
meets d p m [] = false
meets d p m (i ∷ inputs) = p m.state i || meets d p (handle d m i []).machine inputs

-- What a state tells of the inputs so far: whether an empty result came, and whether the peer
-- said Ok. Nothing leads to `Negotiating`.
abbrev pub Evidence : State → Bool → Bool → Type 0
Evidence State.awaiting_status v o = v ≡ true
Evidence State.authenticated v o = (v ≡ true) × (o ≡ true)
Evidence State.negotiating v o = ⊥
Evidence _ v o = Unit {0}

abbrev is_watched : State → Bool
is_watched State.computing = true
is_watched State.awaiting_status = true
is_watched _ = false

module _ (v o w p : Bool) where
  grow : (s : State) → Evidence s v o → Evidence s (v || w) (o || p)
  grow State.awaiting_status h = ground arith
  grow State.authenticated h = ground arith
  grow State.negotiating h = h
  grow _ h = tt

  edge-Evidence :
      {s t : State} → s ⟶ t → is_watched s ≡ false → Evidence s v o → Evidence t (v || w) (o || p)
  edge-Evidence (stay {s = u} k) plain h = grow u h
  edge-Evidence announce plain h = cc
  edge-Evidence admit plain h = cc
  edge-Evidence negotiated_offer plain h = absurd h
  edge-Evidence negotiated_answer plain h = absurd h
  edge-Evidence _ plain h = tt

  edges-Evidence :
      (s : State)
      → is_watched s ≡ false
      → Evidence s v o
      → (r : Outcome NetworkError State) → OnOk (λ t. s ⟶ t) r
      → OnOk (λ t. Evidence t (v || w) (o || p)) r
  edges-Evidence s plain h (ok t) e = edge-Evidence e plain h
  edges-Evidence s plain h (err x) e = tt
  edges-Evidence s plain h panic e = tt

or_true : (b : Bool) → (b || true) ≡ true
or_true true = refl
or_true false = refl

or_assoc : (a b c : Bool) → ((a || b) || c) ≡ (a || (b || c))
or_assoc true b c = refl
or_assoc false b c = refl

true_or : (a b : Bool) → a ≡ true → (a || b) ≡ true
true_or a b h = ground arith

module _ (d : Deps) (v o w : Bool) where
  buffered-Evidence : Returns (λ t. Evidence t v o) (verify_buffered d)
  unfolding verify_buffered
  buffered-Evidence = search returns_rules depth 12

  finish-Evidence : (payload : List ℕ) → Returns (λ t. Evidence t v o) (computing_finish d payload)
  unfolding computing_finish
  finish-Evidence payload = search (returns_rules, buffered-Evidence) depth 12

  success-Evidence : Returns (λ t. Evidence t (v || true) o) (announce_success d)
  unfolding announce_success
  success-Evidence = search (returns_rules, or_true) depth 12

  status-Evidence :
      (b : Bool)
      → v ≡ true
      → Returns (λ t. Evidence t (v || w) (o || b)) (awaiting_status_finish d b)
  unfolding awaiting_status_finish
  status-Evidence true h = search (returns_rules, or_true, true_or) depth 8
  status-Evidence false h = search returns_rules depth 8

module _ (d : Deps) (v o : Bool) where
  completed-Evidence :
      (payload : List ℕ)
      → Returns
          (λ t. Evidence t (v || is_empty payload) o)
          (if is_empty payload then announce_success d else computing_finish d payload)
  completed-Evidence [] = success-Evidence d v o true
  completed-Evidence (b ∷ bytes) = finish-Evidence d (v || false) o true (b ∷ bytes)

  computing-Evidence :
      (i : NetworkInput)
      → Returns (λ t. Evidence t (v || is_empty_result State.computing i) o) (computing_handle d i)
  unfolding computing_handle
  computing-Evidence (NetworkInput.crypto_completed result) = completed-Evidence result.payload
  computing-Evidence _ = search returns_rules

module _ (d : Deps) (v o : Bool) where
  answer-Evidence :
      (r : Outcome MessageError AuthStatus)
      → v ≡ true
      → Returns
          (λ t. Evidence t (v || false) (o || says_ok r))
          (lift (map_err NetworkError.decode_failed r) >>= λ msg.
            awaiting_status_finish d (is_ok msg.status))
  unfolding ◌>>=◌
  answer-Evidence (ok msg) h = record { at = (status-Evidence d v o false (is_ok msg.status) h).at }
  answer-Evidence (err e) h = record { at = λ s. tt }
  answer-Evidence panic h = record { at = λ s. tt }

  awaiting_status-Evidence :
      (i : NetworkInput)
      → v ≡ true
      → Returns
          (λ t. Evidence t (v || false) (o || is_ok_status d State.awaiting_status i))
          (awaiting_status_handle d i)
  unfolding awaiting_status_handle
  awaiting_status-Evidence (NetworkInput.data_received stream bytes) h =
      answer-Evidence (decode_status d bytes) h
  awaiting_status-Evidence (NetworkInput.tick now) h = search (returns_rules, true_or v false h)
  awaiting_status-Evidence _ h = search returns_rules

module _ (d : Deps) (v o : Bool) where
  pub step-Evidence :
      (s : State) (i : NetworkInput) (c : Context)
      → Evidence s v o
      → OnOk
          (λ t. Evidence t (v || is_empty_result s i) (o || is_ok_status d s i))
          (dispatch d s i c).0
  unfolding dispatch
  step-Evidence State.computing i c h = (computing-Evidence d v (o || false) i).at c
  step-Evidence State.awaiting_status i c h = (awaiting_status-Evidence d v o i h).at c
  step-Evidence s i c h = edges-Evidence v o _ _ s refl h _ ((dispatch-⟶ d s i).at c)

pub next-Evidence :
    (v o : Bool) (r : Outcome NetworkError State)
    → OnOk (λ t. Evidence t v o) r
    → Evidence (next_state r) v o
next-Evidence v o (ok t) h = h
next-Evidence v o (err e) h = tt
next-Evidence v o panic h = tt

module _ (d : Deps) where
  run-Evidence :
      (m : Spake2StateMachine) (inputs : List NetworkInput) (v o : Bool)
      → Evidence m.state v o
      → Evidence
          (run d m inputs).state
          (v || meets d is_empty_result m inputs)
          (o || meets d (is_ok_status d) m inputs)
  unfolding run meets handle
  run-Evidence m [] v o h = grow v o false false m.state h
  run-Evidence m (i ∷ inputs) v o h =
      rw (← or_assoc v (is_empty_result m.state i), ← or_assoc o (is_ok_status d m.state i))
        (run-Evidence (handle d m i []).machine inputs (v || is_empty_result m.state i)
          (o || is_ok_status d m.state i) (next-Evidence _ _ _ (step-Evidence d v o m.state i _ h)))

  -- A machine that started idle and is authenticated has been fed, when it was in Computing, an
  -- empty crypto result, and, when it was in AwaitingStatus, a message that decodes to a status in
  -- which the peer says Ok.
  pub authenticated_evidence :
      (c : CryptoData) (inputs : List NetworkInput)
      → (run d (new c) inputs).state ≡ State.authenticated
      → (meets d is_empty_result (new c) inputs ≡ true)
        × (meets d (is_ok_status d) (new c) inputs ≡ true)
  authenticated_evidence c inputs h =
      subst
        (λ s.
          Evidence s (meets d is_empty_result (new c) inputs)
            (meets d (is_ok_status d) (new c) inputs))
        h (run-Evidence (new c) inputs false false tt)

  -- No sequence of inputs brings a machine that started idle to `Negotiating`.
  pub negotiating_unreachable :
      (c : CryptoData) (inputs : List NetworkInput)
      → (run d (new c) inputs).state ≢ State.negotiating
  negotiating_unreachable c inputs h =
      subst
        (λ s.
          Evidence s (meets d is_empty_result (new c) inputs)
            (meets d (is_ok_status d) (new c) inputs))
        h (run-Evidence (new c) inputs false false tt)
