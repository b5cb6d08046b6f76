-- ===== src/Flags.antt =====
-- The flag sets of pflag, a library, by what the program does with them: the flags that were defined on
-- a set, in order, each a name with its one-letter shorthand, "" for none. pflag panics when a name or a
-- shorthand is defined twice.
pub mod Distinct
use storage_metrics_server.Base.{
  String, List, [], ◌∷◌, Map, HasUniqueKeys, string_eq, ◌==◌, if◌then◌else◌,
}

abbrev pub FlagSet : Type 0
FlagSet = Map String String

-- The shorthands of a set, each with its flag.
unfoldable pub shorthands : FlagSet → Map String String
shorthands [] = []
shorthands ((name, short) ∷ fs) =
    if short == "" then shorthands fs else (short, name) ∷ shorthands fs

-- Nothing was defined twice.
pub record HasDistinctFlags (fs : FlagSet) : Type 0 where
  pub names : HasUniqueKeys fs
  pub shorts : HasUniqueKeys (shorthands fs)
