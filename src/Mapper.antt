-- ===== src/Mapper.antt =====
-- pkg/dynamicmapper/mapper.go: a REST mapper that is made anew from discovery on a timer. What
-- restmapper.GetAPIGroupResources answers is an argument; `Delegate` is the mapper that
-- NewDiscoveryRESTMapper makes of it. Each lookup calls the delegate under the read lock, and the
-- replacement is one assignment under the write lock.
pub mod Refresh
use storage_metrics_server.Base.{
  String, ℤ, Option, none, some, List, [], ◌∷◌, Result, ok, err, ◌>>=◌,
}

-- The resources of the cluster, and the mapper that is made of them.
pub record Discovery : Type 1 where
  pub Resources : Type 0
  pub Delegate : Type 0
  pub new_discovery_rest_mapper : Resources → Delegate

module _ (d : Discovery) where
  open d use {Resources, Delegate, new_discovery_rest_mapper}

  -- The mapper, once it has a delegate.
  pub record RegeneratingMapper : Type 0 where
    pub refresh_interval : ℤ
    pub delegate : Delegate

  -- `RegenerateMappings`, with what discovery answered: the error, if there is one, and the mapper
  -- that it leaves.
  unfoldable pub regenerate_mappings :
      Result String Resources → RegeneratingMapper → Option String × RegeneratingMapper
  regenerate_mappings (err e) m = (some e, m)
  regenerate_mappings (ok resources) m =
      (none, record m { delegate = new_discovery_rest_mapper resources })

  -- The first regeneration starts from a mapper without a delegate and fails the constructor.
  unfoldable pub new_rest_mapper : Result String Resources → ℤ → Result String RegeneratingMapper
  new_rest_mapper answer refresh_interval = do
    resources ← answer
    ok (record {
      refresh_interval = refresh_interval;
      delegate = new_discovery_rest_mapper resources;
    })

  -- `RunUntil`: the answers of discovery at the ticks before the stop; an error is logged.
  unfoldable pub refresh_until :
      List (Result String Resources) → RegeneratingMapper → RegeneratingMapper
  unfolding regenerate_mappings
  refresh_until [] m = m
  refresh_until (answer ∷ answers) m = refresh_until answers (regenerate_mappings answer m).1

  -- KindFor, KindsFor, ResourceFor, ResourcesFor, RESTMapping, RESTMappings and
  -- ResourceSingularizer: `method` is the delegate's method of the same name.
  unfoldable pub call : {A B : Type 0} → (Delegate → A → B) → RegeneratingMapper → A → B
  call method m argument = method m.delegate argument
