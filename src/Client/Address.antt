-- ===== src/Client/Address.antt =====
-- pkg/storagemetrics/scraper/client/address_resolver.go: which address of a node to dial. A `Node`
-- is corev1.Node, cut to what the scraper reads.
pub mod Priority
use storage_metrics_server.Base.{
  String, ℤ, Option, none, some, List, [], ◌∷◌, ◌==◌, string_eq, if◌then◌else◌, Result, ok, err,
}

pub record NodeAddress : Type 0 where
  pub type : String
  pub address : String

pub record Node : Type 0 where
  pub name : String
  pub addresses : List NodeAddress
  -- Status.DaemonEndpoints.KubeletEndpoint.Port, an int32
  pub kubelet_port : ℤ

pub data ResolveError : Type 0 where
  no_address_matched : List String → ResolveError

abbrev pub default_address_type_priority : List String
default_address_type_priority =
    "Hostname" ∷ "InternalDNS" ∷ "InternalIP" ∷ "ExternalDNS" ∷ "ExternalIP" ∷ []

-- The inner loop: the first address of the type.
unfoldable pub first_of_type : String → List NodeAddress → Option String
first_of_type addr_type [] = none
first_of_type addr_type (a ∷ entries) =
    if a.type == addr_type then some a.address else first_of_type addr_type entries

-- The outer loop, over the types that are left.
unfoldable pub resolve : List String → List NodeAddress → Option String
unfolding first_of_type
resolve [] addresses = none
resolve (t ∷ ts) addresses = elim (first_of_type t addresses) [
  | some address ↦ some address
  | none ↦ resolve ts addresses
]

unfoldable pub node_address : List String → Node → Result ResolveError String
unfolding resolve
node_address priority node = elim (resolve priority node.addresses) [
  | some address ↦ ok address
  | none ↦ err (no_address_matched priority)
]
