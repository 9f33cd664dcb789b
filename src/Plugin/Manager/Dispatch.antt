-- ===== src/Plugin/Manager/Dispatch.antt =====
-- What `dispatch` answers, and how the three views of the registry agree.
use mathlib.Core.Option
use mathlib.Core.List.{Perm}
use nap_cat_qq_rs.Text.Sort.{IsSorted, sort-IsSorted, sort-perm}
use nap_cat_qq_rs.Prelude.{
  ◌↔◌, String, ◌≡◌, refl, ap, ◌⊎◌, inl, inr, Option, none, some, List, [], ◌∷◌, map, Result, ok,
  err, ◌>>=◌, arith,
}
use nap_cat_qq_rs.HashMap
use nap_cat_qq_rs.HashMap.{HashMap}
use nap_cat_qq_rs.Plugin.{PluginEvent, PluginAction, PluginError, not_found, PluginBackend, kind}
use nap_cat_qq_rs.Plugin.Backends.{Host, dispatch_backend}
use nap_cat_qq_rs.Plugin.Manager.{
  PluginManager, with_action, dispatch_all, dispatch, list, kinds, metadata,
}

module _ {Bytes Value : Type 0} (host : Host Bytes Value) (event : PluginEvent Value) where
  -- Every plugin answers, and `actions` are the actions among their answers, in their order.
  abbrev pub Answer : HashMap PluginBackend → List (String × PluginAction Value) → Type 0
  Answer [] actions = actions ≡ []
  Answer ((name, plugin) ∷ plugins) actions =
      ((dispatch_backend host event plugin ≡ ok none) × Answer plugins actions)
      ⊎ ((action : PluginAction Value) × (rest : List (String × PluginAction Value))
          × (dispatch_backend host event plugin ≡ ok (some action))
          × (actions ≡ (name, action) ∷ rest)
          × Answer plugins rest)

  -- The plugins before some one answer, and that one fails with `e`.
  abbrev pub FailsFirst : HashMap PluginBackend → PluginError → Type 0
  FailsFirst [] e = ⊥
  FailsFirst ((name, plugin) ∷ plugins) e =
      (dispatch_backend host event plugin ≡ err e)
      ⊎ ((answer : Option (PluginAction Value)) × (dispatch_backend host event plugin ≡ ok answer)
          × FailsFirst plugins e)

  -- What a dispatch answers.
  abbrev pub Dispatches :
      HashMap PluginBackend → Result PluginError (List (String × PluginAction Value)) → Type 0
  Dispatches plugins (ok actions) = Answer plugins actions
  Dispatches plugins (err e) = FailsFirst plugins e

  dispatch-cons :
      (name : String) (plugin : PluginBackend) (plugins : HashMap PluginBackend)
      (answer : Result PluginError (Option (PluginAction Value)))
      (rest : Result PluginError (List (String × PluginAction Value)))
      → dispatch_backend host event plugin ≡ answer
      → Dispatches plugins rest
      → Dispatches
          ((name, plugin) ∷ plugins)
          (answer >>= λ found. rest >>= λ actions. ok (with_action host name found actions))
  dispatch-cons name plugin plugins (err e) rest a h = inl a
  dispatch-cons name plugin plugins (ok found) (err e) a h = inr (found, a, h)
  dispatch-cons name plugin plugins (ok none) (ok actions) a h = inl (a, h)
  dispatch-cons name plugin plugins (ok (some action)) (ok actions) a h =
      inr (action, actions, a, refl, h)

  dispatch-all :
      (plugins : HashMap PluginBackend) → Dispatches plugins (dispatch_all host event plugins)
  unfolding dispatch_all
  dispatch-all [] = refl
  dispatch-all ((name, plugin) ∷ plugins) =
      dispatch-cons name plugin plugins _ (dispatch_all host event plugins) refl
        (dispatch-all plugins)

  -- `dispatch` asks the plugins in the order of the registry. If all answer, it gives the actions
  -- among their answers, each with its plugin's name, in that order; otherwise it gives the error
  -- of the first that fails, and no action.
  pub dispatch-Dispatches :
      (manager : PluginManager) → Dispatches manager.plugins (dispatch host event manager)
  unfolding dispatch
  dispatch-Dispatches manager = dispatch-all manager.plugins

get-map :
    {V W : Type 0} (f : V → W) (name : String) (entries : HashMap V)
    → HashMap.get name (map (λ e. (e.0, f e.1)) entries) ≡ Option.map f (HashMap.get name entries)
unfolding HashMap.get
get-map f name [] = refl
get-map f name ((other, v) ∷ entries) = ground (arith, get-map f name entries)

keys-map :
    {V W : Type 0} (f : V → W) (entries : HashMap V)
    → HashMap.keys (map (λ e. (e.0, f e.1)) entries) ≡ HashMap.keys entries
keys-map f [] = refl
keys-map f ((name, v) ∷ entries) = ap (λ names. name ∷ names) (keys-map f entries)

-- `list` gives the names that `kinds` has, each as often, in ascending order; and `metadata` knows
-- the names under which `kinds` has a kind, and no other.
pub views_agree :
    (name : String) (manager : PluginManager)
    → IsSorted (list manager)
      × Perm (list manager) (HashMap.keys (kinds manager))
      × ((HashMap.get name (kinds manager) ≡ none) ↔ (metadata name manager ≡ err (not_found name)))
unfolding list kinds metadata
views_agree name manager = (
  sort-IsSorted (HashMap.keys manager.plugins),
  rw (keys-map kind manager.plugins) (sort-perm (HashMap.keys manager.plugins)),
  ground (arith, get-map kind name manager.plugins),
)
