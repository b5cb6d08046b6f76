-- ===== src/Client/Address/Priority.antt =====
-- Which address `node_address` takes (address_resolver.go), compared with a description of the node's
-- addresses.
use storage_metrics_server.Base.{
  ◌≡◌, refl, ap, subst, inl, inr, String, false, none, some, List, [], ◌∷◌, ◌++◌, ◌==◌, string_eq,
  Eq, Result, ok, err, Among, arith, Option-cases, Bool-cases, beq→eq,
}
use storage_metrics_server.Client.Address.{
  NodeAddress, Node, ResolveError, no_address_matched, first_of_type, resolve, node_address,
}

-- The node has an address of the type.
abbrev pub Has : String → List NodeAddress → Type 0
Has t entries = (a : NodeAddress) × Among a entries × (a.type ≡ t)

-- `x` is the address at the first of the entries of the type.
pub record IsFirst (t : String) (entries : List NodeAddress) (x : String) : Type 0 where
  pub before : List NodeAddress
  pub entry : NodeAddress
  pub rest : List NodeAddress
  pub split : entries ≡ before ++ entry ∷ rest
  pub right_type : entry.type ≡ t
  pub address : entry.address ≡ x
  pub none_before : ¬ Has t before

-- `x` is the first address of the first type that the node has.
pub record IsPreferred (ts : List String) (entries : List NodeAddress) (x : String) : Type 0 where
  pub before : List String
  pub chosen : String
  pub rest : List String
  pub split : ts ≡ before ++ chosen ∷ rest
  pub first : IsFirst chosen entries x
  pub none_before : (t : String) → Among t before → ¬ Has t entries

not-Has-cons :
    (t : String) (a : NodeAddress) (entries : List NodeAddress)
    → (a.type == t) ≡ false
    → ¬ Has t entries
    → ¬ Has t (a ∷ entries)
not-Has-cons t a entries e h (b, inl p, q) = ground (arith, Eq.beq_iff string_eq a.type t)
not-Has-cons t a entries e h (b, inr p, q) = h (b, p, q)

first_of_type-none :
    (t : String) (entries : List NodeAddress) → first_of_type t entries ≡ none → ¬ Has t entries
unfolding first_of_type
first_of_type-none t [] e = λ h. h.1
first_of_type-none t (a ∷ entries) e = elim (Bool-cases (a.type == t)) [
  | inl y ↦ λ h. ground arith
  | inr n ↦ not-Has-cons t a entries n (first_of_type-none t entries (ground arith))
]

first_of_type-some :
    (t : String) (entries : List NodeAddress) (x : String)
    → first_of_type t entries ≡ some x
    → IsFirst t entries x
unfolding first_of_type
first_of_type-some t [] x e = cc
first_of_type-some t (a ∷ entries) x e = elim (Bool-cases (a.type == t)) [
  | inl y ↦ record {
    before = [];
    entry = a;
    rest = entries;
    split = refl;
    right_type = beq→eq a.type t y;
    address = ground arith;
    none_before = λ h. h.1;
  }
  | inr n ↦
      let r = first_of_type-some t entries x (ground arith) in
      record {
        before = a ∷ r.before;
        entry = r.entry;
        rest = r.rest;
        split = ap (◌∷◌ a) r.split;
        right_type = r.right_type;
        address = r.address;
        none_before = not-Has-cons t a r.before n r.none_before;
      }
]

resolve-none :
    (ts : List String) (entries : List NodeAddress)
    → resolve ts entries ≡ none
    → (t : String) → Among t ts
    → ¬ Has t entries
unfolding resolve
resolve-none [] entries e t a = absurd a
resolve-none (u ∷ ts) entries e t (inl p) =
    subst (λ v. ¬ Has v entries) p (first_of_type-none u entries (ground arith))
resolve-none (u ∷ ts) entries e t (inr a) = resolve-none ts entries (ground arith) t a

none_before-cons :
    (u : String) (before : List String) (entries : List NodeAddress)
    → ¬ Has u entries
    → ((t : String) → Among t before → ¬ Has t entries)
    → (t : String) → Among t (u ∷ before)
    → ¬ Has t entries
none_before-cons u before entries h k t (inl p) = subst (λ v. ¬ Has v entries) p h
none_before-cons u before entries h k t (inr a) = k t a

resolve-some :
    (ts : List String) (entries : List NodeAddress) (x : String)
    → resolve ts entries ≡ some x
    → IsPreferred ts entries x
unfolding resolve
resolve-some [] entries x e = cc
resolve-some (u ∷ ts) entries x e = elim (Option-cases (first_of_type u entries)) [
  | inr (y, p) ↦ record {
    before = [];
    chosen = u;
    rest = ts;
    split = refl;
    first = first_of_type-some u entries x (ground arith);
    none_before = λ t a. absurd a;
  }
  | inl p ↦
      let r = resolve-some ts entries x (ground arith) in
      record {
        before = u ∷ r.before;
        chosen = r.chosen;
        rest = r.rest;
        split = ap (◌∷◌ u) r.split;
        first = r.first;
        none_before = λ t a.
            none_before-cons u r.before entries (first_of_type-none u entries p) r.none_before t a;
      }
]

-- What a result of the resolver says of the node.
abbrev pub Resolves : List String → Node → Result ResolveError String → Type 0
Resolves priority node (ok x) = IsPreferred priority node.addresses x
Resolves priority node (err e) =
    (e ≡ no_address_matched priority) × ((t : String) → Among t priority → ¬ Has t node.addresses)

-- The resolver returns the first address of the first type in the priority list that the node has
-- an address of, and fails, naming the list, only if the node has none of any of the types.
pub node_address-Resolves :
    (priority : List String) (node : Node) → Resolves priority node (node_address priority node)
unfolding node_address
node_address-Resolves priority node = elim (Option-cases (resolve priority node.addresses)) [
  | inl e ↦ rw (e, Resolves, node_address) (refl, resolve-none priority node.addresses e)
  | inr (x, e) ↦ rw (e, Resolves, node_address) (resolve-some priority node.addresses x e)
]
