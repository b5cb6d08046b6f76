-- ===== src/Installer/Kinds.antt =====
-- `getResourceKind` of installer.go.
use storage_metrics_server.Base.{
  ◌≡◌, refl, sym, ap, ◌∙◌, true, false, bind-ok, ◌⊎◌, inl, inr, Bool-cases, arith, String, Bool,
  ◌&&◌, if◌then◌else◌, List, [], ◌∷◌, ◌==◌, string_eq, Result, ok, err, ◌>>=◌,
}
use storage_metrics_server.Api.{Error, other}
use storage_metrics_server.Api.Helpers.{GroupVersionKind}
use storage_metrics_server.Installer.{GroupVersion, with_kind, Group}

abbrev pub no_kind : GroupVersionKind
no_kind = record { group = ""; version = ""; kind = "" }

-- GroupVersionKind.Empty
abbrev pub is_no_kind : GroupVersionKind → Bool
is_no_kind k = k.group == "" && k.version == "" && k.kind == ""

-- The loop over the kinds: `found` is what is to be registered so far.
unfoldable pub kind_from :
    GroupVersion → GroupVersionKind → List GroupVersionKind → GroupVersionKind
kind_from gv found [] = found
kind_from gv found (k ∷ ks) =
    let rest = kind_from gv found ks in
    let third_party = kind_from gv (with_kind gv k.kind) ks in
    if k.group == gv.group
    then with_kind gv k.kind
    else if k.group == "extensions" && k.kind == "ThirdPartyResourceData"
    then third_party
    else rest

unfoldable pub get_resource_kind :
    {Object T S : Type 0} → Group Object T S → Result Error GroupVersionKind
unfolding kind_from
get_resource_kind g = do
  kinds ← g.object_kinds g.new_object
  let found = kind_from g.group_version no_kind (kinds.0 ∷ kinds.1) in
      if is_no_kind found then err (other "unable to locate fully qualified kind") else ok found

-- The loop gives what was found before it, or a kind of the group's version.
kind_from-cases :
    (gv : GroupVersion) (found : GroupVersionKind) (ks : List GroupVersionKind)
    → (kind_from gv found ks ≡ found)
      ⊎ ((kind : String) × (kind_from gv found ks ≡ with_kind gv kind))
unfolding kind_from
kind_from-cases gv found [] = inl refl
kind_from-cases gv found (k ∷ ks) = elim (Bool-cases (k.group == gv.group)) [
  | inl e ↦ inr (k.kind, ground (arith, e))
  | inr e ↦ elim (Bool-cases (k.group == "extensions" && k.kind == "ThirdPartyResourceData")) [
    | inl f ↦ elim (kind_from-cases gv (with_kind gv k.kind) ks) [
      | inl h ↦ inr (k.kind, ground (arith, e, f, h))
      | inr (kind, h) ↦ inr (kind, ground (arith, e, f, h))
    ]
    | inr f ↦ elim (kind_from-cases gv found ks) [
      | inl h ↦ inl (ground (arith, e, f, h))
      | inr (kind, h) ↦ inr (kind, ground (arith, e, f, h))
    ]
  ]
]

chosen :
    (found k : GroupVersionKind) (x : Error)
    → (if is_no_kind found then err x else ok found) ≡ ok k
    → (found ≡ k) × (is_no_kind found ≡ false)
chosen found k x e = elim (Bool-cases (is_no_kind found)) [
  | inl f ↦ absurd (err-ne-ok (ground (arith, e, f)))
  | inr f ↦ (ground (arith, e, f), f)
]
  where
    err-ne-ok : ◌≡◌ {A = Result Error GroupVersionKind} (err x) (ok k) → ⊥
    err-ne-ok e = cc

-- The kind that is registered is of the version that is installed.
pub get_resource_kind-with_kind :
    {Object T S : Type 0} (g : Group Object T S) (k : GroupVersionKind)
    → get_resource_kind g ≡ ok k
    → k ≡ with_kind g.group_version k.kind
unfolding get_resource_kind
get_resource_kind-with_kind g k e =
    let (ks, f, h) = bind-ok (g.object_kinds g.new_object) _ k e in
    let (c, d) =
      chosen (kind_from g.group_version no_kind (ks.0 ∷ ks.1)) k
        (other "unable to locate fully qualified kind") h in
    elim (kind_from-cases g.group_version no_kind (ks.0 ∷ ks.1)) [
      | inl i ↦ absurd (true-ne-false (sym (ap is_no_kind i) ∙ d))
      | inr (kind, i) ↦
          let j = sym c ∙ i in
          j ∙ ap (with_kind g.group_version) (sym (ap (λ (x : GroupVersionKind). x.kind) j))
    ]
  where
    true-ne-false : true ≡ false → ⊥
    true-ne-false e = cc
