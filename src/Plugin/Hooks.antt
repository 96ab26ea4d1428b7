-- ===== src/Plugin/Hooks.antt =====
-- What the registry runs: the catalog hooks up to the first error, and the chain of namers.
use pdbcore.Prelude.{◌≡◌, refl, ap, List, [], ◌∷◌, ◌++◌, Option, none, some, Text}
use mathlib.Core.List.{reverse, reverse-append}
use pdbcore.Plugin.{
  Next, Plugin, enabled, run_hook, run_hooks, transform_catalog, link, build_chain, inflector,
}

module _ {C E : Type 0} where
  -- These hooks all succeed and take one catalog to another.
  pub data Runs : List (Plugin C E) → C → C → Type 0 where
    stop : {c : C} → Runs [] c c
    step :
        {p : Plugin C E} {ps : List (Plugin C E)} {c d e : C}
        → run_hook p.catalog_hook c ≡ (none, d)
        → Runs ps d e
        → Runs (p ∷ ps) c e

  -- The result of running the plugins in order: all succeeded, or those before one did and that
  -- one failed, its catalog and its error being the result.
  abbrev pub RunsTo : List (Plugin C E) → C → Option E × C → Type 0
  RunsTo ps c (none, d) = Runs ps c d
  RunsTo ps c (some err, d) =
      (before : List (Plugin C E)) × (p : Plugin C E) × (after : List (Plugin C E)) × (m : C) × (ps
        ≡ before ++ p ∷ after)
      × Runs before c m
      × (run_hook p.catalog_hook m ≡ (some err, d))

  RunsTo-step :
      (p : Plugin C E) (ps : List (Plugin C E)) (c d : C) (out : Option E × C)
      → run_hook p.catalog_hook c ≡ (none, d)
      → RunsTo ps d out
      → RunsTo (p ∷ ps) c out
  RunsTo-step p ps c d (none, e) h r = step h r
  RunsTo-step p ps c d (some err, e) h (before, q, after, m, split, r, bad) =
      (p ∷ before, q, after, m, ap (◌∷◌ p) split, step h r, bad)

  run_hooks-RunsTo : (ps : List (Plugin C E)) (c : C) → RunsTo ps c (run_hooks ps c)
  unfolding run_hooks
  run_hooks-RunsTo [] c = stop
  run_hooks-RunsTo (p ∷ ps) c = by_result (run_hook p.catalog_hook c) refl (run_hooks-RunsTo ps)
    where
      by_result :
          (out : Option E × C)
          → run_hook p.catalog_hook c ≡ out
          → ((d : C) → RunsTo ps d (run_hooks ps d))
          → RunsTo
              (p ∷ ps)
              c
              (elim out.0 [ some err ↦ (some err, out.1) | none ↦ run_hooks ps out.1 ])
      by_result (none, d) h ih = RunsTo-step p ps c d (run_hooks ps d) h (ih d)
      by_result (some err, d) h ih = ([], p, ps, c, refl, stop, h)

  -- TransformCatalog runs the hooks of the enabled plugins in the order of the registry and stops
  -- at the first error: without one every hook has run; with one the hooks in front succeeded, the
  -- error and the catalog are those of the failing hook, and no hook behind it has run.
  pub transform_catalog-RunsTo :
      (plugins : List (Plugin C E)) (disabled : List Text) (c : C)
      → RunsTo (enabled disabled plugins) c (transform_catalog plugins disabled c)
  unfolding transform_catalog
  transform_catalog-RunsTo plugins disabled c = run_hooks-RunsTo (enabled disabled plugins) c

  build_chain-append :
      (ps qs : List (Plugin C E)) (base : Next)
      → build_chain (ps ++ qs) base ≡ build_chain qs (build_chain ps base)
  unfolding build_chain
  build_chain-append [] qs base = refl
  build_chain-append (p ∷ ps) qs base = build_chain-append ps qs (link p base)

  -- The chain as it is meant: the first plugin is the outermost link.
  pub nested : List (Plugin C E) → Next → Next
  nested [] base = base
  nested (p ∷ ps) base = link p (nested ps base)

  build_chain-reverse :
      (ps : List (Plugin C E)) (base : Next) → build_chain (reverse ps) base ≡ nested ps base
  unfolding nested build_chain
  build_chain-reverse [] base = refl
  build_chain-reverse (p ∷ ps) base = rw (
    reverse-append (p ∷ []) ps,
    build_chain-append (reverse ps) (p ∷ []) base,
    build_chain-reverse ps base,
  )

  -- The loop from the last plugin to the first builds the chain whose outermost link is the first
  -- enabled plugin and whose innermost is the default.
  pub inflector-nested :
      (plugins : List (Plugin C E)) (disabled : List Text) (base : Next)
      → inflector plugins disabled base ≡ nested (enabled disabled plugins) base
  unfolding inflector
  inflector-nested plugins disabled base = build_chain-reverse (enabled disabled plugins) base
