-- ===== src/Plugin/Manager/Race.antt =====
-- Two loads under one name that overlap.
use mathlib.Core.Path.{subst}
use nap_cat_qq_rs.Prelude.{
  String, ◌≡◌, refl, ap, ◌∙◌, true, false, none, some, List, [], ◌∷◌, ◌++◌, Result, ok, err,
  eq_refl, if◌then◌else◌,
}
use nap_cat_qq_rs.Text.{is_blank}
use nap_cat_qq_rs.HashMap
use nap_cat_qq_rs.HashMap.{HashMap, get-insert, remove_fresh}
use nap_cat_qq_rs.Plugin.{PluginDefinition, PluginError, already_loaded, PluginBackend}
use nap_cat_qq_rs.Plugin.Sources.{Files}
use nap_cat_qq_rs.Plugin.Backends.{Host}
use nap_cat_qq_rs.Plugin.Manager.{PluginManager, check_load, start_backend, enter, load, unload}
use nap_cat_qq_rs.Plugin.Manager.Loading.{of_plugins, check-fresh, loaded-parts}

get-enter :
    (name : String) (plugin : PluginBackend) (manager : PluginManager)
    → HashMap.get name (enter name plugin manager).plugins ≡ some plugin
unfolding enter
get-enter name plugin manager =
    get-insert name name plugin manager.plugins
    ∙ ap (λ b. if b then some plugin else HashMap.get name manager.plugins) (eq_refl name)

check-taken :
    {name : String} {plugin : PluginBackend} (definition : PluginDefinition)
    (manager : PluginManager)
    → definition.metadata.name ≡ name
    → is_blank name ≡ false
    → definition.enabled ≡ true
    → HashMap.get name manager.plugins ≡ some plugin
    → check_load definition manager ≡ err (already_loaded name)
unfolding check_load
check-taken definition manager same named on taken = rw (same, named, on, taken) refl

check-passes :
    {name : String} (definition : PluginDefinition) (manager : PluginManager)
    → definition.metadata.name ≡ name
    → is_blank name ≡ false
    → definition.enabled ≡ true
    → HashMap.get name manager.plugins ≡ none
    → check_load definition manager ≡ ok tt
unfolding check_load
check-passes definition manager same named on fresh = rw (same, named, on, fresh) refl

insert-again :
    (name : String) (p q : PluginBackend) (plugins : HashMap PluginBackend)
    → HashMap.get name plugins ≡ none
    → HashMap.insert name q (HashMap.insert name p plugins) ≡ HashMap.insert name q plugins
unfolding HashMap.insert HashMap.remove
insert-again name p q plugins h =
    rw (eq_refl name, remove_fresh name plugins h)
      (ap (λ rest. (name, q) ∷ rest) (remove_fresh name plugins h))

-- A load under way: the test of its name has passed, or its backend has been started.
pub data Loading : Type 0 where
  waiting : PluginDefinition → Loading
  running : PluginDefinition → PluginBackend → Loading

-- The registry, and the loads that are under way.
abbrev pub Scene : Type 0
Scene = PluginManager × List Loading

-- What a step does: a test passes, a backend is started, a load enters its backend and answers, or
-- `unload` is called.
pub data Event : Type 0 where
  tested : PluginDefinition → Event
  started : PluginBackend → Event
  answered : Result PluginError String → Event
  unloaded : String → Event

module _ {Bytes Value : Type 0} (host : Host Bytes Value) (files : Files) where
  pub data Step : Scene → Event → Scene → Type 0 where
    tests :
        (definition : PluginDefinition) (manager : PluginManager) (loads : List Loading)
        → check_load definition manager ≡ ok tt
        → Step (manager, loads) (tested definition) (manager, loads ++ waiting definition ∷ [])
    starts :
        (definition : PluginDefinition) (backend : PluginBackend) (manager : PluginManager)
        (before after : List Loading)
        → start_backend host files definition ≡ ok backend
        → Step
            (manager, before ++ waiting definition ∷ after)
            (started backend)
            (manager, before ++ running definition backend ∷ after)
    enters :
        (definition : PluginDefinition) (backend : PluginBackend) (manager : PluginManager)
        (before after : List Loading)
        → Step
            (manager, before ++ running definition backend ∷ after)
            (answered (ok definition.metadata.name))
            (enter definition.metadata.name backend manager, before ++ after)
    unloads :
        (name : String) (manager : PluginManager) (loads : List Loading)
        → Step (manager, loads) (unloaded name) ((unload host name manager).1, loads)

  pub data Steps : Scene → List Event → Scene → Type 0 where
    here : (scene : Scene) → Steps scene [] scene
    later :
        {a b c : Scene} {event : Event} {events : List Event}
        → Step a event b
        → Steps b events c
        → Steps a (event ∷ events) c

  -- The entry of the second backend, over the first.
  last_entry :
      (first second : PluginDefinition) (manager : PluginManager) (p q : PluginBackend)
      → second.metadata.name ≡ first.metadata.name
      → HashMap.get first.metadata.name manager.plugins ≡ none
      → let name = first.metadata.name in
        Steps
          (enter name p manager, running second q ∷ [])
          (answered (ok name) ∷ [])
          (enter name q manager, [])
  unfolding enter
  last_entry first second manager p q same fresh =
      let name = first.metadata.name in
      let replaced : enter second.metadata.name q (enter name p manager) ≡ enter name q manager =
        rw same (ap of_plugins (insert-again name p q manager.plugins fresh)) in
      subst
        (λ after.
          Steps (enter name p manager, running second q ∷ []) (answered (ok name) ∷ []) (after, []))
        replaced
        (subst
          (λ told.
            Steps (enter name p manager, running second q ∷ []) (answered (ok told) ∷ [])
              (enter second.metadata.name q (enter name p manager), []))
          same (later (enters second q (enter name p manager) [] []) (here _)))

  -- The defect: of two loads under one name the second is refused when the first has ended. But
  -- there is a run in which both pass their test before either enters its backend: both backends are
  -- started, both loads answer that they succeeded, no plugin is unloaded, and the registry ends with
  -- the second backend alone, as though the first had never been.
  pub racing_loads :
      (first second : PluginDefinition) (manager : PluginManager) (p q : PluginBackend)
      → second.metadata.name ≡ first.metadata.name
      → second.enabled ≡ true
      → check_load first manager ≡ ok tt
      → start_backend host files first ≡ ok p
      → start_backend host files second ≡ ok q
      → let name = first.metadata.name in
        ((load host files second (load host files first manager).1).0 ≡ err (already_loaded name))
        × Steps
            (manager, [])
            (tested first
              ∷ tested second
              ∷ started p
              ∷ started q
              ∷ answered (ok name)
              ∷ answered (ok name)
              ∷ [])
            (enter name q manager, [])
  racing_loads first second manager p q same on passed began begun =
      let (named, enabled, fresh) = check-fresh first manager passed in
      let name = first.metadata.name in
      let taken =
        check-taken second (enter name p manager) same named on (get-enter name p manager) in
      let loaded = loaded-parts host files first manager (ok tt) (ok p) passed began in
      let passes = check-passes second manager same named on fresh in
      (
        rw (loaded, loaded-parts host files second (enter name p manager) _ _ taken refl) refl,
        later (tests first manager [] passed) (
            later (tests second manager (waiting first ∷ []) passes) (
              later (starts first p manager [] (waiting second ∷ []) began) (
                later (starts second q manager (running first p ∷ []) [] begun) (
                  later (enters first p manager [] (running second q ∷ []))
                    (last_entry first second manager p q same fresh))))),
      )
