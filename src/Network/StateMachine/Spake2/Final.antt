-- ===== src/Network/StateMachine/Spake2/Final.antt =====
-- The states that the coordinator does not leave, and sequences of calls.
use openscreen_rs.Base.{
  ◌≡◌, ◌≢◌, inl, inr, refl, Bool, true, false, List, [], ◌∷◌, ◌∙◌, ap, arith, Outcome, ok, err,
  pure, raise,
}
use openscreen_rs.Deps.{Deps}
use openscreen_rs.Network.{NetworkError, NetworkInput, NetworkOutput}
use openscreen_rs.Network.CryptoData.{CryptoData}
use openscreen_rs.Network.StateMachine.Context.{State}
use openscreen_rs.Network.StateMachine.Spake2.{
  Spake2StateMachine, Handled, dispatch, handle, is_authenticated, is_failed,
}
use openscreen_rs.Network.StateMachine.Spake2.Transitions.{handle-⟶}

abbrev pub is_final : State → Bool
is_final State.authenticated = true
is_final (State.failed e) = true
is_final State.poisoned = true
is_final _ = false

-- What a final state answers.
abbrev pub final_result : State → Outcome NetworkError (Unit {0})
final_result State.poisoned = err NetworkError.invalid_state
final_result _ = ok tt

-- Calls of `handle` in a row, each with a fresh vector of outputs.
unfoldable pub run : Deps → Spake2StateMachine → List NetworkInput → Spake2StateMachine
run d m [] = m
run d m (i ∷ inputs) = run d (handle d m i []).machine inputs

module _ (d : Deps) where
  absorbs :
      (s : State) (c : CryptoData) (i : NetworkInput) (outputs : List NetworkOutput)
      → is_final s ≡ true
      → let m : Spake2StateMachine = record { state = s; crypto_data = c } in
        handle d m i outputs ≡ record { result = final_result s; machine = m; outputs = outputs }
  unfolding handle dispatch pure raise
  absorbs State.authenticated c i outputs h = refl
  absorbs (State.failed e) c i outputs h = refl
  absorbs State.poisoned c i outputs h = refl
  absorbs _ c i outputs h = cc

  -- In a final state every input is answered alike, writes nothing and sends nothing.
  pub handle_final :
      (m : Spake2StateMachine) (i : NetworkInput) (outputs : List NetworkOutput)
      → is_final m.state ≡ true
      → handle d m i outputs
        ≡ record { result = final_result m.state; machine = m; outputs = outputs }
  handle_final m i outputs h = absorbs m.state m.crypto_data i outputs h

  -- No sequence of inputs changes a machine in a final state.
  pub run_final :
      (m : Spake2StateMachine) (inputs : List NetworkInput)
      → is_final m.state ≡ true
      → run d m inputs ≡ m
  unfolding run
  run_final m [] h = refl
  run_final m (i ∷ inputs) h =
      ap (λ (after : Handled). run d after.machine inputs) (handle_final m i [] h)
      ∙ run_final m inputs h

  poisoned_stays :
      (m : Spake2StateMachine) (inputs : List NetworkInput) (next : NetworkInput)
      → m.state ≡ State.poisoned
      → (run d m inputs ≡ m)
        × ((handle d m next []).result ≡ err NetworkError.invalid_state)
        × (is_authenticated m ≡ false)
        × (is_failed m ≡ false)
  poisoned_stays m inputs next p = (
    run_final m inputs (ap is_final p),
    ap (λ (after : Handled). after.result) (handle_final m next [] (ap is_final p))
        ∙ ap final_result p,
    ground arith,
    ground arith,
  )

  -- After a call that failed or panicked, whatever is fed in, the machine stays as that call left it,
  -- answers InvalidState, and reports neither success nor failure.
  pub error_is_final :
      (m : Spake2StateMachine) (i : NetworkInput) (outputs : List NetworkOutput)
      (inputs : List NetworkInput) (next : NetworkInput)
      → (handle d m i outputs).result ≢ ok tt
      → let broken = (handle d m i outputs).machine in
        (run d broken inputs ≡ broken)
        × ((handle d broken next []).result ≡ err NetworkError.invalid_state)
        × (is_authenticated broken ≡ false)
        × (is_failed broken ≡ false)
  error_is_final m i outputs inputs next h = elim (handle-⟶ d m i outputs) [
    | inl (returned, _) ↦ absurd (h returned)
    | inr (_, p) ↦ poisoned_stays (handle d m i outputs).machine inputs next p
  ]
