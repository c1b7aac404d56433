-- ===== src/Api/Transactions/Checks.antt =====
-- What the checks let through.
use keryx_api_shim.Base.{
  ℕ, suc, ◌≡◌, refl, ◌↔◌, Bool, true, ◌&&◌, not, List, [], ◌∷◌, ◌==◌, length, all, arith,
}
use keryx_api_shim.Base.Results.{ok}
use keryx_api_shim.Api.Transactions.{
  TxInputJson, TxOutputJson, TxJson, is_hex, validate, validate_inputs, validate_outputs,
}

unfoldable pub well_formed_input : TxInputJson → Bool
well_formed_input i =
    length i.transaction_id == 64 && is_hex i.transaction_id && is_hex i.signature_script

unfoldable pub well_formed_output : TxOutputJson → Bool
well_formed_output o = not (length o.script_public_key == 0) && is_hex o.script_public_key

unfoldable pub well_formed : TxJson → Bool
unfolding well_formed_input well_formed_output
well_formed tx =
    not (length tx.inputs == 0)
    && (length tx.subnetwork_id == 40 && is_hex tx.subnetwork_id)
    && is_hex tx.payload
    && all well_formed_input tx.inputs
    && all well_formed_output tx.outputs

validate_inputs_ok :
    (i : ℕ) (inputs : List TxInputJson)
    → (validate_inputs i inputs ≡ ok tt) ↔ (all well_formed_input inputs ≡ true)
unfolding validate_inputs well_formed_input
validate_inputs_ok i [] = (λ _. refl, λ _. refl)
validate_inputs_ok i (x ∷ inputs) = ground (arith, validate_inputs_ok (suc i) inputs)

validate_outputs_ok :
    (i : ℕ) (outputs : List TxOutputJson)
    → (validate_outputs i outputs ≡ ok tt) ↔ (all well_formed_output outputs ≡ true)
unfolding validate_outputs well_formed_output
validate_outputs_ok i [] = (λ _. refl, λ _. refl)
validate_outputs_ok i (x ∷ outputs) = ground (arith, validate_outputs_ok (suc i) outputs)

-- `validate` accepts exactly the transactions with an input, a subnetwork id of 40 hex digits, a
-- hex payload, inputs with ids of 64 hex digits and hex signature scripts, and outputs with
-- non-empty hex scripts.
pub validate_ok : (tx : TxJson) → (validate tx ≡ ok tt) ↔ (well_formed tx ≡ true)
unfolding validate well_formed
validate_ok tx = ground (arith, validate_inputs_ok 0 tx.inputs, validate_outputs_ok 0 tx.outputs)
