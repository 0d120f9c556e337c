-- ===== src/Delegation/Graph.antt =====
-- core/authority.py: `AuthorityGraph`, the edges and the chain of a capability.
use verigate.Base.{
  value_error, [], ◌∷◌, none, some, true, zero, suc, ok, err, ◌>>=◌, string_eq, nat_eq,
  runtime_error, String, List, Option, ℕ, Result, if◌then◌else◌, length, lookup_error, contains,
}
use verigate.Storage.{Storage, EdgeRow}
use verigate.Storage.Registries.{capability_of}
use verigate.Storage.Delegations.{authority_edges}
use verigate.Models.{Capability}

unfoldable pub outgoing : String → String → Storage → List EdgeRow
unfolding authority_edges
outgoing node_type node_id s = authority_edges (some node_type) (some node_id) none none true s

unfoldable pub incoming : String → String → Storage → List EdgeRow
unfolding authority_edges
incoming node_type node_id s = authority_edges none none (some node_type) (some node_id) true s

-- One entry of a path.
pub record PathNode : Type 0 where
  pub id : String
  pub agent_id : String
  pub identity_id : Option String
  pub version : ℕ
  pub digest : String
  pub delegated_from : Option String
  pub delegation_depth : ℕ

abbrev pub parent_of : Option String → Storage → Option Capability
parent_of none s = none
parent_of (some id) s = capability_of id s

-- one round for each stored capability, and one more
abbrev pub path_fuel : Storage → ℕ
path_fuel s = suc (length s.capabilities)

module _ (digest : Capability → String) where
  abbrev pub path_node : Capability → PathNode
  path_node c = record {
    id = c.capability_id;
    agent_id = c.agent_id;
    identity_id = c.identity_id;
    version = c.version;
    digest = digest c;
    delegated_from = c.delegated_from;
    delegation_depth = c.delegation_depth;
  }

  -- The loop of `authority_path`, with the path already reversed: an entry is put before those of its children.
  -- Running out of fuel has an error of its own.
  abbrev pub climb :
      ℕ → List String → Option Capability → List PathNode → Storage → Result (List PathNode)
  climb fuel visited none path s = ok path
  climb zero visited (some current) path s = err (value_error "authority path did not end")
  climb (suc fuel) visited (some current) path s =
      let rest =
        climb fuel (current.capability_id ∷ visited) (parent_of current.delegated_from s)
          (path_node current ∷ path) s in
      if contains visited current.capability_id
      then err (runtime_error "authority graph cycle detected")
      else rest

  unfoldable pub authority_path : String → Storage → Result (List PathNode)
  unfolding capability_of
  authority_path capability_id s = climb (path_fuel s) [] (capability_of capability_id s) [] s

  pub record Explanation : Type 0 where
    pub capability : Capability
    pub path : List PathNode
    pub outgoing_edges : List EdgeRow
    pub incoming_edges : List EdgeRow

  abbrev or_not_found : Option Capability → Result Capability
  or_not_found none = err (lookup_error "capability not found")
  or_not_found (some c) = ok c

  unfoldable pub explain : String → Storage → Result Explanation
  unfolding authority_path outgoing incoming
  explain capability_id s = do
    capability ← or_not_found (capability_of capability_id s)
    path ← authority_path capability_id s
    ok (record {
      capability = capability;
      path = path;
      outgoing_edges = outgoing "capability" capability_id s;
      incoming_edges = incoming "capability" capability_id s;
    })
