-- ===== src/Application/Machine/Outputs.antt =====
-- The outputs of a call before authentication.
use openscreen_rs.Base.{◌≡◌, inl, inr, false, List, [], ◌∷◌, ◌++◌, length, Each, fits_or_not}
use openscreen_rs.Base.Keeps.{Keeps}
use openscreen_rs.Deps.{Deps, Laws}
use openscreen_rs.Network.{NetworkInput}
use openscreen_rs.Application.{
  ApplicationInput, ApplicationOutput, ApplicationState, max_application_queue,
}
use openscreen_rs.Application.Machine.{
  ApplicationStateMachine, Held, application_is_authenticated, take_request_id, emit_output, enter,
}
use openscreen_rs.Application.Machine.Receives.{handle_in_network}
use openscreen_rs.Application.Machine.Input.{dispatch_input, handle_input}
use openscreen_rs.Application.Machine.Requests.{input_from, by_input}
use openscreen_rs.Application.Machine.Gate.{not_authenticated}
use openscreen_rs.Application.Machine.Frame.{network-Keeps, data-Keeps, IsOther}

Each-append :
    (xs : List ApplicationOutput) (x : ApplicationOutput)
    → Each IsOther xs
    → IsOther x
    → Each IsOther (xs ++ x ∷ [])
Each-append [] x h k = (k, tt)
Each-append (y ∷ ys) x h k = (h.0, Each-append ys x h.1 k)

module _ (d : Deps) (laws : Laws d) where
  abbrev Quiet : Held → Type 0
  Quiet s = Each IsOther s.outputs

  push-Quiet : (output : ApplicationOutput) → IsOther output → Keeps Quiet (emit_output d output)
  unfolding emit_output
  push-Quiet output other = record {
    at = λ s h. elim (fits_or_not max_application_queue (length s.outputs)) [
      | inl full ↦ rw (laws.heapless.push_full max_application_queue s.outputs output full) h
      | inr room ↦
          rw (laws.heapless.push_fits max_application_queue s.outputs output room)
            (Each-append s.outputs output h other)
    ];
  }

  module _ (I : List ApplicationOutput → Type 0) where
    enters : (app_state : ApplicationState) → Keeps (λ s. I s.outputs) (enter app_state)
    unfolding enter
    enters app_state = record { at = λ s h. h }

    hands : (input : NetworkInput) → Keeps (λ s. I s.outputs) (handle_in_network d input)
    unfolding handle_in_network
    hands input = record { at = λ s h. h }

    takes : Keeps (λ s. I s.outputs) take_request_id
    unfolding take_request_id
    takes = record { at = λ s h. h }

  input-Quiet : (n : NetworkInput) → Keeps Quiet (dispatch_input d (input_from n))
  unfolding dispatch_input
  input-Quiet (NetworkInput.data_received stream bytes) =
      data-Keeps d push-Quiet (enters (Each IsOther)) (hands (Each IsOther)) stream bytes
  input-Quiet _ = network-Keeps d push-Quiet (enters (Each IsOther)) (hands (Each IsOther)) _

  -- A machine that is not authenticated puts out no SendData, whatever the input: neither a command
  -- nor a message from the peer makes it send application data.
  pub nothing_sent :
      (m : ApplicationStateMachine) (input : ApplicationInput) (outputs : List ApplicationOutput)
      → application_is_authenticated m ≡ false
      → Each IsOther (handle_input d m input outputs).1.outputs
  unfolding handle_input
  nothing_sent m input outputs h =
      by_input (λ i. Each IsOther (handle_input d m i outputs).1.outputs)
        (λ c. rw (not_authenticated d m c outputs h) tt) (λ n. (input-Quiet n).at _ tt) input
