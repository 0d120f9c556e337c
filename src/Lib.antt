-- ===== src/Lib.antt =====
-- Verigate decides which payments and actions of an agent may go ahead, and lets each authorized one run
-- once. The development follows core/ and enforcement/ of the repository.
--
-- The parts and how they interact:
--   * Base: shared names, lists over native numbers, rows by a key, equality tests, errors as values, integers,
--     ASCII text, and the JSON values that a dictionary of the program holds.
--   * Money: core/money.py. An amount is an integer number of the smallest unit, on one scale for amounts and
--     caps. Money/Order reads its tests as orders.
--   * Models: core/models.py (PaymentIntent, ActionIntent, AgentIdentity, Capability with `permits`,
--     GuardrailDecision). Models/Scope and Models/Permits are about `permits`, and Models/Digests gives the
--     digests.
--   * Policy: the record of core/policy.py, and Policy/Version the signed versions of core/policy_version.py.
--   * Rules: core/rules.py, one function per check. Rules/Payment and Rules/Context read each check as a
--     proposition.
--   * Storage: core/storage.py, a record of tables. Storage/Audit, Storage/Registries, Storage/Nonces,
--     Storage/Delegations, Storage/Events, Storage/Resets and Storage/Policies hold its methods by
--     table; a method takes the store and gives the next one. Storage/Delegations/Inserted is about the tables after
--     a delegated registration.
--     Storage/Events/Ledger is about the hash chain of authority events.
--   * Engine: `evaluate` and `evaluate_action` of core/engine.py, which read the store, run the rules and add an
--     audit row. Engine/Decide, Engine/Payments and Engine/Actions are about one decision; Engine/Limits and
--     Engine/Limits/Rate about the recorded history. Engine/Governed is its `signed_policy_version`, with
--     Engine/Governed/Refused.
--   * Delegation: `validate_delegation_scope` of core/authority.py. Delegation/Scope is about its parts,
--     Delegation/Attenuation about chains of delegations. Delegation/Graph is its `AuthorityGraph`,
--     with Delegation/Path, and Delegation/Service its `CapabilityDelegationService`, with Delegation/Granted.
--   * Capabilities: core/capabilities.py over the store. Capabilities/Chain and Capabilities/Revocation are about
--     `effective_active`.
--   * AuthorityState: core/authority_state.py, the state of an agent from its recorded outcomes, with
--     AuthorityState/Suspension, AuthorityState/Actions and AuthorityState/Outcomes.
--   * EffectiveAuthority: core/effective_authority.py, the ceiling of an execution, with
--     EffectiveAuthority/Ceiling.
--   * Enforcement: the gate of enforcement/local.py over any side effect, with Enforcement/Once.
--   * Signatures: the operations of the libraries of cryptography and encoding, with their laws, for Identity,
--     Delegation/Service, the receipts, Governance and PolicyVersions.
--   * Identity: core/identity.py, with Identity/Signed.
--   * IntentGraph: core/intent_graph.py, with IntentGraph/Paths, IntentGraph/Fuel, IntentGraph/Validate and
--     IntentGraph/Accepts.
--   * AuthorityProtocol: the envelope and ceiling of core/authority_protocol.py.
--   * PlanAuthority: core/authority_intent_graph.py over these two, with PlanAuthority/Within,
--     PlanAuthority/Eligible and PlanAuthority/Total.
--   * Bindings: core/execution_graph.py, core/execution_artifact.py and core/external_state.py.
--   * Networks: enforcement/networks.py.
--   * Router: enforcement/router.py over Networks, Bindings and Storage: the choice of an adapter,
--     Router/Execute its tests, `execute` and `consume`, Router/Signing the signature and the confirmation of a
--     receipt, Router/Receipts `execute_with_receipt`. Router/Effects and Router/Once are about broadcasts,
--     Router/Stored, Router/Confirm and Router/Rejected about receipts.
--   * Governance: core/governance.py, resets signed by one governor, with Governance/Signed; Governance/Members the
--     policy of a quorum, Governance/Actions its actions, Governance/Quorum their approvals, Governance/Resets the
--     resets of the store. Governance/Approved and Governance/Accepted are about the quorum, Governance/Target,
--     Governance/Lifted, Governance/Applied and Governance/Cases about what a reset does to a suspension.
--   * PolicyVersions: core/policy_version.py over Policy/Version, Storage/Policies and the quorum: `publish`, and
--     PolicyVersions/Control freezing and rolling back. PolicyVersions/Published and PolicyVersions/Lineage are
--     about what is published, PolicyVersions/Decided and PolicyVersions/Controlled about controls, and
--     PolicyVersions/Refused about a publication that raises late.
--   * Tests: runs on small inputs.
--
-- How code becomes definitions: an operation has the name of its function; a raised exception is `err` of the
-- exception with its text, without what an f-string inserts; a transaction that fails leaves the store as it
-- was; the clock is an argument, read once by an operation; times are whole ticks from zero. Limits and caps
-- are finite. An error of an operation that gives a store or an error does not tell what an earlier
-- transaction of it stored. A publication that raises without a rollback leaves its approvals in the store and
-- in `committed_approvals` the table to which the next rollback of a publication returns; every other operation is
-- modelled where no transaction is open, and so neither commits nor drops these rows nor fails to begin.
-- An amount is finite, an infinity, NaN or no number; the comparison of the last three in `assert_action` is a
-- parameter. A sum of `Decimal` is exact: one of more digits than the precision of `Decimal` is not
-- modelled. Multipliers are whole hundredths, and their product with a limit is a parameter, except in
-- `authority_ceiling_allows`, which computes in `Decimal`. Values of a context are compared as Python does, where
-- `True` is 1 and `False` is 0. Case mapping is that of ASCII. JSON objects keep their keys in order.
-- Identifiers of the authority graph's edges are fresh and left out; those of a governance document are arguments.
-- A governance document is a record: one whose fields have other types is no value of it.
--
-- Bounds: the loop of `effective_active` runs on `max_depth + 1` rounds, the loop of the source. The searches of
-- `validate` and `assess` run on fuel, one more than the nodes and edges of the graph: a search enters an id only
-- while it is not on the path above it, so that is enough. `authority_path` runs on one round more than there are
-- stored capabilities, each of which it passes once. Every other recursion is structural.
-- The depth at which the interpreter itself stops a recursion is not modelled.
--
-- Parameters: SHA-256, canonical JSON, base64 and Ed25519, the digest of an event's id, the interpreter's reading
-- of hexadecimal text, the text of an exception, the rounding of a float, the product of two
-- floats, what an SQLite column `REAL NOT NULL` takes, the digest of a loaded policy, the verdict on a
-- signed execution authorization (attest/receipt.py), and the adapters, each with the request that it hands to a
-- broadcaster.
--
-- Not modelled: signatures and keys (a library's), the authorization issue and the verification of its envelopes,
-- the engine's control plane that calls them, the network adapters (calls of chains, HTTP and tools), the
-- lifecycle, evidence and proof packages, the HTTP API, the command line and the clients.
pub mod Base
pub mod Money
pub mod Models
pub mod Policy
pub mod Rules
pub mod Storage
pub mod Engine
pub mod Delegation
pub mod Capabilities
pub mod Enforcement
pub mod AuthorityState
pub mod EffectiveAuthority
pub mod Signatures
pub mod Identity
pub mod IntentGraph
pub mod AuthorityProtocol
pub mod PlanAuthority
pub mod Bindings
pub mod Networks
pub mod Router
pub mod Governance
pub mod PolicyVersions
pub mod Tests
