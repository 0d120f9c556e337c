-- ===== src/Bindings.antt =====
-- core/execution_graph.py, core/execution_artifact.py and core/external_state.py: what an authorization binds of
-- the execution path, of the wire artifact and of the external state. A dictionary lists its fields by key, so
-- that sorting them leaves it as it is.
use Prim.Native.Nat.{Ordering}
use Prim.Native.String.{compare, count}
use verigate.Base.{
  none, some, true, false, ok, err, ◌==◌, ◌>>=◌, string_eq, nat_eq, value_error, if◌then◌else◌,
  String, Result, Option, Bool, ◌||◌, ◌&&◌, not,
}
use verigate.Base.Json.{
  Value, null, bool, num, str, obj, arr, Fields, end, field, get, has_key, value_eq,
  nonempty_fields,
}
use verigate.Base.Text.{strip}

abbrev before : String → String → Bool
before a b = elim (compare a b) [ Ordering.lt ↦ true | _ ↦ false ]

-- `d[key] = value`
abbrev pub put : String → Value → Fields → Fields
put key value end = field key value end
put key value (field k v rest) =
    let after = put key value rest in
    if key == k
    then field k value rest
    else if before key k
    then field key value (field k v rest)
    else field k v after

-- `d.get("enforcement_scope", "direct")`
abbrev scope_of : Fields → Value
scope_of graph =
    if has_key "enforcement_scope" graph then get "enforcement_scope" graph else str "direct"

abbrev normalize_fields : Fields → Result Fields
normalize_fields end = ok end
normalize_fields (field k v rest) =
    let scope = scope_of (field k v rest) in
    if scope == str "direct" || scope == str "transitive"
    then ok (put "enforcement_scope" scope (field k v rest))
    else err (value_error "unsupported execution enforcement scope")

unfoldable pub normalize_execution_graph : Value → Result Fields
normalize_execution_graph null = ok end
normalize_execution_graph (obj graph) = normalize_fields graph
normalize_execution_graph (bool _) = err (value_error "execution graph must be an object")
normalize_execution_graph (num _) = err (value_error "execution graph must be an object")
normalize_execution_graph (str _) = err (value_error "execution graph must be an object")
normalize_execution_graph (arr _) = err (value_error "execution graph must be an object")

unfoldable pub verify_execution_graph : Fields → Fields → Result (Bool × String)
unfolding normalize_execution_graph
verify_execution_graph expected actual = do
  wanted ← normalize_execution_graph (obj expected)
  found ← normalize_execution_graph (obj actual)
  ok (
      if get "enforcement_scope" wanted == str "transitive"
        && not (get "enforcement_scope" found == str "transitive")
      then (
        false,
        "execution graph requires transitive enforcement but adapter provides direct-only enforcement",
      )
      else if not (obj wanted == obj found)
      then (false, "execution graph drift")
      else (true, "execution graph matches authorization"))

abbrev artifact : String → Fields → Fields
artifact kind content = field "artifact" (obj content) (field "kind" (str kind) end)

abbrev generic_artifact : Value → Fields
generic_artifact (obj request) = artifact "generic" request
generic_artifact null = end
generic_artifact (bool _) = end
generic_artifact (num _) = end
generic_artifact (str _) = end
generic_artifact (arr _) = end

abbrev solana_artifact : Value → Fields → Fields
solana_artifact (str raw) metadata =
    artifact "solana" (field "serialized_transaction" (str raw) end)
solana_artifact null metadata = generic_artifact (get "execution_request" metadata)
solana_artifact (bool _) metadata = generic_artifact (get "execution_request" metadata)
solana_artifact (num _) metadata = generic_artifact (get "execution_request" metadata)
solana_artifact (obj _) metadata = generic_artifact (get "execution_request" metadata)
solana_artifact (arr _) metadata = generic_artifact (get "execution_request" metadata)

abbrev pub object_of : Value → Option Fields
object_of (obj fields) = some fields
object_of null = none
object_of (bool _) = none
object_of (num _) = none
object_of (str _) = none
object_of (arr _) = none

abbrev evm_artifact : Option Fields → Fields → Fields
evm_artifact (some tx) metadata = artifact "evm" tx
evm_artifact none metadata = solana_artifact (get "solana_transaction" metadata) metadata

abbrev artifact_of : Option Fields → Fields
artifact_of none = end
artifact_of (some metadata) = evm_artifact (object_of (get "evm_transaction" metadata)) metadata

unfoldable pub canonical_execution_artifact : Fields → Fields
canonical_execution_artifact action = artifact_of (object_of (get "metadata" action))

unfoldable pub verify_execution_artifact : Fields → Fields → Bool × String
unfolding canonical_execution_artifact
verify_execution_artifact expected action =
    if not (obj expected == obj (canonical_execution_artifact action))
    then (false, "execution artifact drift")
    else (true, "execution artifact matches authorization")

abbrev or_empty_object : Option Fields → Fields
or_empty_object none = end
or_empty_object (some fields) = fields

abbrev external_state_of : Option Fields → Fields
external_state_of none = end
external_state_of (some metadata) = or_empty_object (object_of (get "external_state" metadata))

unfoldable pub canonical_external_state : Fields → Fields
canonical_external_state action = external_state_of (object_of (get "metadata" action))

abbrev text_of : Value → Option String
text_of (str s) = some s
text_of null = none
text_of (bool _) = none
text_of (num _) = none
text_of (obj _) = none
text_of (arr _) = none

-- `isinstance(v, str) and v.strip()`
abbrev pub is_filled : Option String → Bool
unfolding strip
is_filled none = false
is_filled (some s) = not (strip s == "")

-- `int(digest, 16)` of the interpreter is the parameter: does it accept the text?
module _ (is_hexadecimal : String → Bool) where
  abbrev digest_verdict : Option String → Bool × String
  digest_verdict none = (false, "external state binding has invalid digest")
  digest_verdict (some digest) =
      if not (count digest == 64)
      then (false, "external state binding has invalid digest")
      else if not (is_hexadecimal digest)
      then (false, "external state binding digest is not hexadecimal")
      else (true, "external state binding is valid")

  unfoldable pub validate_external_state_binding : Fields → Bool × String
  validate_external_state_binding binding =
      if not (nonempty_fields binding)
      then (true, "no external state binding")
      else if not (is_filled (text_of (get "kind" binding)))
      then (false, "external state binding is missing kind")
      else if not (is_filled (text_of (get "reference" binding)))
      then (false, "external state binding is missing reference")
      else digest_verdict (text_of (get "digest" binding))

  unfoldable pub verify_external_state_binding : Fields → Fields → Bool × String
  unfolding canonical_external_state validate_external_state_binding
  verify_external_state_binding expected action =
      if not (obj expected == obj (canonical_external_state action))
      then (false, "external state binding drift")
      else validate_external_state_binding expected

abbrev requirement_verdict : Option Fields → Bool × String
requirement_verdict none = (false, "external state requirement must be an object")
requirement_verdict (some requirement) =
    if not (is_filled (text_of (get "kind" requirement)))
    then (false, "external state requirement is missing kind")
    else (true, "external state requirement is valid")

unfoldable pub validate_external_state_requirement : Value → Bool × String
validate_external_state_requirement requirement =
    if requirement == null
    then (true, "no external state requirement")
    else requirement_verdict (object_of requirement)
