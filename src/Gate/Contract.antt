-- ===== src/Gate/Contract.antt =====
-- shared/outcome_contract.py: what a contract about the outcome of an action must hold.
use aegis_forge.Prelude.{
  String, Bool, true, false, not, ◌&&◌, Option, none, some, List, [], ◌∷◌, ◌==◌, one_of,
  if◌then◌else◌,
}
use aegis_forge.Prelude.Sort.{sorted}
use aegis_forge.Prelude.Result.{Result, ok, err}
use aegis_forge.Recovery.Blank.{is_blank}
use aegis_forge.Gate.Json.{Json, null, boolean, text, object, Object, end, field, lookup, keys}

pub data ContractError : Type 0 where
  invalid_outcome_contract outcome_contract_required unknown_outcome_contract_type : ContractError
  outcome_contract_fields_missing outcome_contract_fields_unknown : List String → ContractError
  outcome_contract_verifier_required outcome_contract_verifier_mismatch : ContractError
  outcome_contract_action_mismatch outcome_contract_artifact_invalid : ContractError
  outcome_contract_verify_url_required outcome_contract_mcp_target_required : ContractError
  outcome_contract_mcp_arguments_invalid outcome_contract_headers_invalid : ContractError
  outcome_contract_request_id_invalid outcome_contract_transaction_id_required : ContractError

abbrev pub contract_required_actions : List String
contract_required_actions =
    "delete" ∷ "publish" ∷ "api_request" ∷ "mcp_tool_call" ∷ "transfer" ∷ "release" ∷ []

pub data ContractType : Type 0 where
  state_match artifact_exists http_state mcp_state transaction_confirmed : ContractType

-- One row of CONTRACT_TYPES; the sets `required` and `allowed` in the order of their names.
pub record Spec : Type 0 where
  pub required : List String
  pub allowed : List String
  pub verifier : String
  pub actions : List String

-- CONTRACT_TYPES
unfoldable pub spec : ContractType → Spec
spec state_match = record {
  required = "expected_state" ∷ "type" ∷ "verifier" ∷ [];
  allowed = "expected_state" ∷ "type" ∷ "verifier" ∷ [];
  verifier = "filesystem_independent_v1";
  actions = "delete" ∷ [];
}
spec artifact_exists = record {
  required = "expected_exists" ∷ "path" ∷ "type" ∷ "verifier" ∷ [];
  allowed = "expected_exists" ∷ "path" ∷ "type" ∷ "verifier" ∷ [];
  verifier = "artifact_independent_v1";
  actions = "publish" ∷ [];
}
spec http_state = record {
  required = "expected_state" ∷ "type" ∷ "verifier" ∷ "verify_url" ∷ [];
  allowed = "expected_state" ∷ "type" ∷ "verifier" ∷ "verify_url" ∷ [];
  verifier = "http_independent_get_v1";
  actions = "api_request" ∷ [];
}
spec mcp_state = record {
  required =
      "arguments" ∷ "endpoint" ∷ "expected_state" ∷ "read_only" ∷ "tool" ∷ "type" ∷ "verifier" ∷ [];
  allowed =
      "arguments" ∷ "endpoint" ∷ "expected_state" ∷ "headers" ∷ "read_only" ∷ "request_id" ∷ "tool"
      ∷ "type" ∷ "verifier" ∷ [];
  verifier = "mcp_independent_read_v1";
  actions = "mcp_tool_call" ∷ [];
}
spec transaction_confirmed = record {
  required = "transaction_id" ∷ "type" ∷ "verifier" ∷ [];
  allowed = "expected_status" ∷ "transaction_id" ∷ "type" ∷ "verifier" ∷ [];
  verifier = "transaction_independent_v1";
  actions = "transfer" ∷ "release" ∷ [];
}

-- `typ in CONTRACT_TYPES`, with the row it names. (Where `typ` is a list or an object, which cannot
-- be looked up in a dict, Python's own TypeError is this error here.)
unfoldable pub type_of : Option Json → Option ContractType
type_of (some (text s)) =
    if s == "state_match"
    then some state_match
    else if s == "artifact_exists"
    then some artifact_exists
    else if s == "http_state"
    then some http_state
    else if s == "mcp_state"
    then some mcp_state
    else if s == "transaction_confirmed"
    then some transaction_confirmed
    else none
type_of _ = none

-- The set difference `a - b`.
unfoldable pub difference : List String → List String → List String
difference [] b = []
difference (x ∷ xs) b = let rest = difference xs b in if one_of x b then rest else x ∷ rest

-- `isinstance(v, str) and v.strip()`
unfoldable pub is_full_text : Option Json → Bool
is_full_text (some (text s)) = not (is_blank s)
is_full_text _ = false

unfoldable pub is_boolean : Option Json → Bool
is_boolean (some (boolean b)) = true
is_boolean _ = false

unfoldable pub is_object : Option Json → Bool
is_object (some (object o)) = true
is_object _ = false

unfoldable pub is_text : Option Json → Bool
is_text (some (text s)) = true
is_text _ = false

-- `v is True`
unfoldable pub is_true : Option Json → Bool
is_true (some (boolean b)) = b
is_true _ = false

-- `value["verifier"] not in spec["verifiers"]`
unfoldable pub is_the_text : Option Json → String → Bool
is_the_text (some (text s)) t = s == t
is_the_text _ t = false

-- `action is not None and action not in spec["actions"]`
unfoldable pub foreign_action : Option String → List String → Bool
foreign_action none actions = false
foreign_action (some a) actions = not (one_of a actions)

-- `action in CONTRACT_REQUIRED_ACTIONS`
unfoldable pub needs_contract : Option String → Bool
needs_contract none = false
needs_contract (some a) = one_of a contract_required_actions

-- A field that may be left out.
unfoldable pub absent_or : (Option Json → Bool) → Option Json → Bool
absent_or test none = true
absent_or test (some v) = test (some v)

-- The tests of one contract type alone.
unfoldable pub check_fields : ContractType → Object → Result ContractError (Unit {0})
check_fields state_match o = ok tt
check_fields artifact_exists o =
    if is_full_text (lookup "path" o) && is_boolean (lookup "expected_exists" o)
    then ok tt
    else err outcome_contract_artifact_invalid
check_fields http_state o =
    if is_full_text (lookup "verify_url" o) then ok tt else err outcome_contract_verify_url_required
check_fields mcp_state o =
    if not (is_full_text (lookup "endpoint" o) && is_full_text (lookup "tool" o))
    then err outcome_contract_mcp_target_required
    else if not (is_object (lookup "arguments" o) && is_true (lookup "read_only" o))
    then err outcome_contract_mcp_arguments_invalid
    else if not (absent_or is_object (lookup "headers" o))
    then err outcome_contract_headers_invalid
    else if not (absent_or is_text (lookup "request_id" o))
    then err outcome_contract_request_id_invalid
    else ok tt
check_fields transaction_confirmed o =
    if is_full_text (lookup "transaction_id" o)
    then ok tt
    else err outcome_contract_transaction_id_required

is_nil : List String → Bool
is_nil [] = true
is_nil (x ∷ xs) = false

unfoldable pub check_type :
    Option ContractType → Object → Option String → Result ContractError (Unit {0})
unfolding is_nil
check_type none o action = err unknown_outcome_contract_type
check_type (some t) o action =
    let missing = difference (spec t).required (keys o) in
    let extra = difference (keys o) (spec t).allowed in
    if not (is_nil missing)
    then err (outcome_contract_fields_missing missing)
    else if not (is_nil extra)
    then err (outcome_contract_fields_unknown (sorted extra))
    else if not (is_full_text (lookup "verifier" o))
    then err outcome_contract_verifier_required
    else if not (is_the_text (lookup "verifier" o) (spec t).verifier)
    then err outcome_contract_verifier_mismatch
    else if foreign_action action (spec t).actions
    then err outcome_contract_action_mismatch
    else check_fields t o

-- The copy of the contract that is returned.
copied : Object → Result ContractError (Unit {0}) → Result ContractError Object
copied o (ok u) = ok o
copied o (err e) = err e

unfoldable pub validate_object : Object → Option String → Result ContractError Object
unfolding copied
validate_object end action = if needs_contract action then err outcome_contract_required else ok end
validate_object (field k v o) action =
    copied (field k v o) (check_type (type_of (lookup "type" (field k v o))) (field k v o) action)

unfoldable pub validate_outcome_contract : Json → Option String → Result ContractError Object
validate_outcome_contract null action = validate_object end action
validate_outcome_contract (object o) action = validate_object o action
validate_outcome_contract _ action = err invalid_outcome_contract
