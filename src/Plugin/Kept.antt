-- ===== src/Plugin/Kept.antt =====
-- What every plugin has, the plugins of the registry have; what every hook keeps, TransformCatalog
-- keeps.
use pdbcore.Prelude.{
  List, [], ◌∷◌, ◌++◌, Option, none, some, Text, All, All-append, elem, not, if-all,
}
use pdbcore.Prelude.Int.{ltz}
use pdbcore.Introspect.EnumTables.Closed.{keep-All}
use pdbcore.Plugin.{
  Plugin, insert_front, sort_plugins, add, add_all, new_registry, enabled, run_hook, run_hooks,
  transform_catalog,
}

module _ {C E : Type 0} where
  module _ (P : Plugin C E → Type 0) where
    insert_front-All :
        (p : Plugin C E) (qs : List (Plugin C E)) → P p → All P qs → All P (insert_front p qs)
    unfolding insert_front
    insert_front-All p [] h hs = (h, hs)
    insert_front-All p (q ∷ qs) h (hq, hs) =
        if-all (All P) (ltz q.priority p.priority) _ _ (λ e. (hq, insert_front-All p qs h hs))
          (λ e. (h, (hq, hs)))

    sort_plugins-All : (ps : List (Plugin C E)) → All P ps → All P (sort_plugins ps)
    unfolding sort_plugins
    sort_plugins-All [] h = tt
    sort_plugins-All (p ∷ ps) (h, hs) =
        insert_front-All p (sort_plugins ps) h (sort_plugins-All ps hs)

    add_all-All : (r ps : List (Plugin C E)) → All P r → All P ps → All P (add_all r ps)
    unfolding add_all add
    add_all-All r [] hr h = hr
    add_all-All r (p ∷ ps) hr (h, hs) =
        add_all-All (add r p) ps
          (sort_plugins-All (r ++ p ∷ []) (All-append P r (p ∷ []) hr (h, tt))) hs

    pub new_registry-All : (ps : List (Plugin C E)) → All P ps → All P (new_registry ps)
    unfolding new_registry
    new_registry-All ps h = add_all-All [] ps tt h

  -- The hook of a plugin keeps what it is given, whether it fails or not.
  abbrev pub Keeps : (C → Type 0) → Plugin C E → Type 0
  Keeps I p = (c : C) → I c → I (run_hook p.catalog_hook c).1

  module _ (I : C → Type 0) where
    run_hooks-keeps :
        (ps : List (Plugin C E)) (c : C) → All (Keeps I) ps → I c → I (run_hooks ps c).1
    unfolding run_hooks
    run_hooks-keeps [] c h i = i
    run_hooks-keeps (p ∷ ps) c (h, hs) i =
        by_result (run_hook p.catalog_hook c) (h c i) (λ d k. run_hooks-keeps ps d hs k)
      where
        by_result :
            (out : Option E × C)
            → I out.1
            → ((d : C) → I d → I (run_hooks ps d).1)
            → (λ (o : Option E × C). I o.1)
                (elim out.0 [ some err ↦ (some err, out.1) | none ↦ run_hooks ps out.1 ])
        by_result (none, d) k ih = ih d k
        by_result (some err, d) k ih = k

    pub transform_catalog-keeps :
        (ps : List (Plugin C E)) (disabled : List Text) (c : C)
        → All (Keeps I) ps
        → I c
        → I (transform_catalog (new_registry ps) disabled c).1
    unfolding transform_catalog enabled
    transform_catalog-keeps ps disabled c h i =
        run_hooks-keeps (enabled disabled (new_registry ps)) c
          (keep-All (Keeps I) (Keeps I) (λ p. not (elem p.name disabled)) (new_registry ps)
            (λ p e k. k) (new_registry-All (Keeps I) ps h))
          i
