-- ===== src/Installer/Params.antt =====
-- The query parameters that `addObjectParams` (installer.go) makes of a struct's fields.
pub mod Named
use text.Mathlib.Text.{find?, starts_with}
use Prim.Native.String.{len, slice}
use storage_metrics_server.Base.{
  String, Bool, true, false, not, ◌||◌, if◌then◌else◌, Option, none, some, Map, lookup, List, [],
  ◌∷◌, ◌++◌, ◌==◌, string_eq, Result, ok, ◌>>=◌,
}
use storage_metrics_server.Api.{Error}
use storage_metrics_server.Installer.{
  Parameter, query, Route, interface_kind, struct_kind, other_kind, pointer_kind, Field, Group,
}

abbrev one_of : String → List String → Bool
one_of t [] = false
one_of t (s ∷ ss) = t == s || one_of t ss

unfoldable pub type_to_json : String → String
type_to_json t =
    if one_of t ("bool" ∷ "*bool" ∷ [])
    then "boolean"
    else if one_of t (
        "uint8" ∷ "*uint8" ∷ "int" ∷ "*int" ∷ "int32" ∷ "*int32" ∷ "int64" ∷ "*int64" ∷ "uint32"
        ∷ "*uint32" ∷ "uint64" ∷ "*uint64" ∷ [])
    then "integer"
    else if one_of t ("float64" ∷ "*float64" ∷ "float32" ∷ "*float32" ∷ [])
    then "number"
    else if one_of t ("metav1.Time" ∷ "*metav1.Time" ∷ [])
    then "string"
    else if one_of t ("byte" ∷ "*byte" ∷ [])
    then "string"
    else if one_of t
        ("v1.DeletionPropagation" ∷ "*v1.DeletionPropagation" ∷ "v1.ResourceVersionMatch" ∷ [])
    then "string"
    else if one_of t ("[]string" ∷ "[]*string" ∷ [])
    then "string"
    else if one_of t ("[]int32" ∷ "[]*int32" ∷ [])
    then "integer"
    else t

-- strings.TrimPrefix(t, "*")
abbrev trim_star : String → String
trim_star t = if starts_with t "*" then slice t 1 (len t) else t

-- strings.SplitN(tag, ",", 2)[0]
unfoldable pub json_name : String → String
json_name tag = elim (find? tag ",") [ none ↦ tag | some i ↦ slice tag 0 i ]

-- The fields that the `switch` lets through.
unfoldable pub is_plain : Field → Bool
is_plain f = elim f.kind [
  | interface_kind ↦ false
  | struct_kind ↦ false
  | other_kind ↦ true
  | pointer_kind k ↦ elim k [
    | interface_kind ↦ trim_star f.type_name == "metav1.Time"
    | struct_kind ↦ trim_star f.type_name == "metav1.Time"
    | other_kind ↦ true
    | pointer_kind j ↦ true
  ]
]

-- Type.FieldByName, for the struct's own fields.
unfoldable pub field_by_name : String → List Field → Option Field
field_by_name name [] = none
field_by_name name (f ∷ fs) = if f.name == name then some f else field_by_name name fs

abbrev description_of : Option (Map String String) → String → String
description_of none name = ""
description_of (some doc) name = elim (lookup name doc) [ none ↦ "" | some d ↦ d ]

-- The parameter of a field, if it has one.
unfoldable pub param_of : Option (Map String String) → Field → Option Parameter
unfolding is_plain json_name
param_of doc f =
    if not (is_plain f) || f.json == "" || json_name f.json == ""
    then none
    else some (record {
      kind = query;
      name = json_name f.json;
      description = description_of doc (json_name f.json);
      data_type = type_to_json f.type_name;
    })

-- `route.ParameterNamed(name) != nil`
unfoldable pub is_named : String → List Parameter → Bool
is_named name [] = false
is_named name (p ∷ ps) = p.name == name || is_named name ps

-- route.Param, unless the route has a parameter of the name.
unfoldable pub add_once : Option Parameter → List Parameter → List Parameter
unfolding is_named
add_once none params = params
add_once (some p) params = if is_named p.name params then params else params ++ p ∷ []

-- The parameter of the field that has the name of `f`.
unfoldable pub offered : Option (Map String String) → List Field → Field → Option Parameter
unfolding param_of field_by_name
offered doc all f = elim (field_by_name f.name all) [ none ↦ none | some sf ↦ param_of doc sf ]

-- The loop over the fields of the struct, which are `all`.
unfoldable pub add_fields :
    Option (Map String String) → List Field → List Field → List Parameter → List Parameter
unfolding offered add_once
add_fields doc all [] params = params
add_fields doc all (f ∷ fs) params = add_fields doc all fs (add_once (offered doc all f) params)

unfoldable pub add_object_params :
    {Object T S : Type 0} → Group Object T S → Object → Route T S → Result Error (Route T S)
unfolding add_fields
add_object_params g object route = do
  fields ← g.fields object
  elim fields [
    | none ↦ ok route
    | some all ↦
        ok
          (record route { parameters = add_fields (g.swagger_doc object) all all route.parameters })
  ]

unfoldable pub add_params : {T S : Type 0} → Route T S → List Parameter → Route T S
add_params route [] = route
add_params route (p ∷ ps) = add_params (record route { parameters = route.parameters ++ p ∷ [] }) ps
