-- ===== src/Mapper/Refresh.antt =====
-- Which discovery the mapper answers from (pkg/dynamicmapper/mapper.go).
use storage_metrics_server.Base.{String, ℤ, ◌≡◌, refl, List, [], ◌∷◌, Result, ok, err, arith}
use storage_metrics_server.Mapper.{
  Discovery, RegeneratingMapper, new_rest_mapper, refresh_until, call,
}

module _ (d : Discovery) where
  -- The last of the resources that were discovered, or else `r`.
  pub last_discovered : d.Resources → List (Result String d.Resources) → d.Resources
  last_discovered r [] = r
  last_discovered r (ok s ∷ answers) = last_discovered s answers
  last_discovered r (err e ∷ answers) = last_discovered r answers

  refresh_until-delegate :
      (r : d.Resources) (answers : List (Result String d.Resources)) (m : RegeneratingMapper d)
      → m.delegate ≡ d.new_discovery_rest_mapper r
      → (refresh_until d answers m).delegate
        ≡ d.new_discovery_rest_mapper (last_discovered r answers)
  unfolding refresh_until last_discovered
  refresh_until-delegate r [] m h = h
  refresh_until-delegate r (ok s ∷ answers) m h =
      refresh_until-delegate s answers (record m { delegate = d.new_discovery_rest_mapper s }) refl
  refresh_until-delegate r (err e ∷ answers) m h = refresh_until-delegate r answers m h

  -- A mapper that was made answers every lookup, after any ticks, as the mapper of the last
  -- discovery that succeeded does: one that fails leaves the mapper as it was.
  pub call-refresh_until :
      {A B : Type 0} (method : d.Delegate → A → B) (argument : A) (r : d.Resources) (interval : ℤ)
      (answers : List (Result String d.Resources)) (m : RegeneratingMapper d)
      → new_rest_mapper d (ok r) interval ≡ ok m
      → call d method (refresh_until d answers m) argument
        ≡ method (d.new_discovery_rest_mapper (last_discovered r answers)) argument
  unfolding new_rest_mapper call
  call-refresh_until method argument r interval answers m e =
      ground (arith, refresh_until-delegate r answers m (ground (arith, e)))
