-- ===== src/StorePath.antt =====
-- src/store_path.rs: the hash part of a store path's name. `StoreDir` and `StorePath` of the crate
-- `nix_derivation` are parameters.
pub mod HashPart
use narwal_publisher.Prelude.{
  ℕ, zero, suc, List, [], ◌∷◌, Option, none, some, Text, take, ◌==◌, if◌then◌else◌,
}
use mathlib.Core.Option

-- `name.find('-')`
unfoldable pub find_dash : Text → Option ℕ
find_dash [] = none
find_dash (c ∷ cs) = if c == b'-' then some 0 else Option.map suc (find_dash cs)

unfoldable pub hash_part : Text → Text
unfolding find_dash
hash_part name = elim (find_dash name) [ some idx ↦ take idx name | none ↦ name ]

-- `name.split('-').next()`, which is always there
unfoldable pub split_first : Text → Text
split_first [] = []
split_first (c ∷ cs) = if c == b'-' then [] else c ∷ split_first cs
