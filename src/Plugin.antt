-- ===== src/Plugin.antt =====
-- plugin/plugin.go: the ordered registry and what it runs. C is the catalog type of the hooks and
-- E their errors. The mutex makes each method one step; it has no other part here.
pub mod Order
pub mod Hooks
pub mod Kept
mod Samples
use pdbcore.Prelude.{
  Bool, not, List, [], ◌∷◌, ◌++◌, Option, none, some, Text, elem, snoc, keep, if◌then◌else◌,
}
use mathlib.Core.List.{reverse}
use pdbcore.Prelude.Int.{ℤ, ltz}

-- inflect.Input
pub record Input : Type 0 where
  pub schema : Text
  pub table : Text
  pub column : Text
  pub columns : List Text
  pub constraint : Text
  pub function : Text
  pub enum : Text
  pub value : Text
  pub is_list : Bool

-- inflect.Next; a Kind is a string
abbrev pub Next : Type 0
Next = Text → Input → Text

-- A plugin and the hooks that its dynamic type implements.
pub record Plugin (C E : Type 0) : Type 0 where
  pub name : Text
  pub priority : ℤ
  pub catalog_hook : Option (C → Option E × C)
  pub inflection_hook : Option (Text → Input → Next → Text)

module _ {C E : Type 0} where
  -- One round of sort.SliceStable by priority: an item goes in front of its equals, which stood
  -- behind it.
  unfoldable pub insert_front : Plugin C E → List (Plugin C E) → List (Plugin C E)
  insert_front p [] = p ∷ []
  insert_front p (q ∷ qs) =
      let rest = insert_front p qs in if ltz q.priority p.priority then q ∷ rest else p ∷ q ∷ qs

  -- sort.SliceStable, whose result is determined by its being stable.
  unfoldable pub sort_plugins : List (Plugin C E) → List (Plugin C E)
  sort_plugins [] = []
  sort_plugins (p ∷ ps) = insert_front p (sort_plugins ps)

  -- Registry.Add
  unfoldable pub add : List (Plugin C E) → Plugin C E → List (Plugin C E)
  add plugins p = sort_plugins (snoc plugins p)

  unfoldable pub add_all : List (Plugin C E) → List (Plugin C E) → List (Plugin C E)
  add_all r [] = r
  add_all r (p ∷ ps) = add_all (add r p) ps

  unfoldable pub new_registry : List (Plugin C E) → List (Plugin C E)
  unfolding add_all
  new_registry plugins = add_all [] plugins

  -- Registry.Enabled, by the names in the map of disabled plugins.
  unfoldable pub enabled : List Text → List (Plugin C E) → List (Plugin C E)
  unfolding keep
  enabled disabled plugins = keep (λ p. not (elem p.name disabled)) plugins

  -- One round of the loop of TransformCatalog: a plugin without the hook is passed over.
  abbrev pub run_hook : Option (C → Option E × C) → C → Option E × C
  run_hook none c = (none, c)
  run_hook (some h) c = h c

  unfoldable pub run_hooks : List (Plugin C E) → C → Option E × C
  run_hooks [] c = (none, c)
  run_hooks (p ∷ ps) c =
      let (result, c') = run_hook p.catalog_hook c in
      elim result [ some err ↦ (some err, c') | none ↦ run_hooks ps c' ]

  unfoldable pub transform_catalog : List (Plugin C E) → List Text → C → Option E × C
  unfolding run_hooks enabled
  transform_catalog plugins disabled c = run_hooks (enabled disabled plugins) c

  -- One link of the chain.
  abbrev pub link : Plugin C E → Next → Next
  link p next = elim p.inflection_hook [ none ↦ next | some h ↦ (λ kind input. h kind input next) ]

  -- The loop of Inflector, from the last plugin to the first.
  unfoldable pub build_chain : List (Plugin C E) → Next → Next
  build_chain [] chain = chain
  build_chain (p ∷ ps) chain = build_chain ps (link p chain)

  unfoldable pub inflector : List (Plugin C E) → List Text → Next → Next
  unfolding build_chain enabled
  inflector plugins disabled base = build_chain (reverse (enabled disabled plugins)) base
