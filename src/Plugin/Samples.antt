-- ===== src/Plugin/Samples.antt =====
-- Plugins at small inputs.
use pdbcore.Prelude.{◌≡◌, refl, ℕ, ◌+◌, List, [], ◌∷◌, none, some, Text, codes, keep, elem, text_eq}
use pdbcore.Prelude.Int.{ℤ, pos}
use mathlib.Core.List.{Perm}
use pdbcore.Plugin.{
  Next, Plugin, new_registry, sort_plugins, transform_catalog, enabled, add, insert_front,
}
use pdbcore.Plugin.Order.{IsOrdered, of_priority, new_registry_order}
use pdbcore.Plugin.Hooks.{RunsTo, transform_catalog-RunsTo}

abbrev adds : Plugin ℕ Text
adds = record {
  name = codes "adds";
  priority = pos 2;
  catalog_hook = some (λ c. (none, c + 1));
  inflection_hook = some (λ kind input next. b'a' ∷ next kind input);
}

abbrev fails : Plugin ℕ Text
fails = record {
  name = codes "fails";
  priority = pos 1;
  catalog_hook = some (λ c. (some (codes "no"), c + 5));
  inflection_hook = none;
}

abbrev names : Plugin ℕ Text
names = record {
  name = codes "names";
  priority = pos 1;
  catalog_hook = none;
  inflection_hook = some (λ kind input next. b'n' ∷ next kind input);
}

abbrev given : List (Plugin ℕ Text)
given = adds ∷ fails ∷ names ∷ []

sorted : new_registry given ≡ fails ∷ names ∷ adds ∷ []
unfolding new_registry add sort_plugins insert_front
sorted = refl

stopped : transform_catalog given [] 3 ≡ (some (codes "no"), 9)
unfolding transform_catalog elem
stopped = refl

passed : transform_catalog given (codes "fails" ∷ []) 3 ≡ (none, 4)
unfolding transform_catalog elem text_eq
passed = refl

new_registry_order_example :
    Perm (new_registry given) given
    × IsOrdered (new_registry given)
    × ((k : ℤ) → keep (of_priority k) (new_registry given) ≡ keep (of_priority k) given)
new_registry_order_example = new_registry_order given

transform_catalog-RunsTo_example : RunsTo (enabled [] given) 3 (transform_catalog given [] 3)
transform_catalog-RunsTo_example = transform_catalog-RunsTo given [] 3

abbrev plain : Next
plain kind input = kind
