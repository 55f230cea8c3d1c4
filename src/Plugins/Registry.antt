-- ===== src/Plugins/Registry.antt =====
-- app/plugins/analyzers/registry.py and app/plugins/protocols/registry.py: the class attributes of a
-- registry as a state. The scan of the package and of the entry points is of Python's import system: the
-- classes that it meets, in its order, are arguments.
use Prim.Native.Nat.{Ordering}
use Prim.Native.String.{compare}
use zhiwei_backend.Prelude.{
  Bool, true, false, not, ◌||◌, List, [], ◌∷◌, ◌++◌, map, Option, none, some, String, str_eq,
  if◌then◌else◌,
}

-- A class that a scan meets, as far as the registries look at it; `content` is the class itself.
pub record PluginClass (C : Type 0) : Type 0 where
  pub name : String
  pub plugin_api_version : String
  pub content : C

-- `sorted` of texts
abbrev pub at_most : Ordering → Bool
at_most Ordering.lt = true
at_most Ordering.eq = true
at_most Ordering.gt = false

abbrev pub insert_name : String → List String → List String
insert_name s [] = s ∷ []
insert_name s (t ∷ ts) = if at_most (compare s t) then s ∷ t ∷ ts else t ∷ insert_name s ts

abbrev pub sorted : List String → List String
sorted [] = []
sorted (s ∷ ss) = insert_name s (sorted ss)

-- What an entry point loads: a class of the right kind, or something else; or it raises.
pub data Loaded (C : Type 0) : Type 0 where
  plugin : PluginClass C → Loaded C
  something_else load_error : Loaded C

abbrev pub plugin_api_version : String
plugin_api_version = "1"

-- A dict, in the order in which its keys came.
pub record Registry (C : Type 0) : Type 0 where
  pub classes : List (String × PluginClass C)
  pub discovered : Bool

module _ {C : Type 0} where
  abbrev pub lookup : String → List (String × PluginClass C) → Option (PluginClass C)
  lookup name [] = none
  lookup name ((k, c) ∷ classes) = if str_eq k name then some c else lookup name classes

  abbrev pub has_key : String → List (String × PluginClass C) → Bool
  has_key name [] = false
  has_key name ((k, c) ∷ classes) = str_eq k name || has_key name classes

  -- a class of another version, or with a name that is taken, is skipped
  unfoldable pub register :
      PluginClass C → List (String × PluginClass C) → List (String × PluginClass C)
  register c classes =
      if not (str_eq c.plugin_api_version plugin_api_version)
      then classes
      else if has_key c.name classes
      then classes
      else classes ++ (c.name, c) ∷ []

  -- `obj.name != "base"`
  abbrev pub register_builtin :
      PluginClass C → List (String × PluginClass C) → List (String × PluginClass C)
  register_builtin c classes = if str_eq c.name "base" then classes else register c classes

  abbrev pub discover_builtin :
      List (PluginClass C) → List (String × PluginClass C) → List (String × PluginClass C)
  discover_builtin [] classes = classes
  discover_builtin (c ∷ cs) classes = discover_builtin cs (register_builtin c classes)

  abbrev pub register_loaded :
      Loaded C → List (String × PluginClass C) → List (String × PluginClass C)
  register_loaded (Loaded.plugin c) classes = register c classes
  register_loaded Loaded.something_else classes = classes
  register_loaded Loaded.load_error classes = classes

  abbrev pub discover_entry_points :
      List (Loaded C) → List (String × PluginClass C) → List (String × PluginClass C)
  discover_entry_points [] classes = classes
  discover_entry_points (l ∷ ls) classes = discover_entry_points ls (register_loaded l classes)

  unfoldable pub discover : List (PluginClass C) → List (Loaded C) → Registry C → Registry C
  discover builtin entry_points r = if r.discovered then r else record {
    classes = discover_entry_points entry_points (discover_builtin builtin r.classes);
    discovered = true;
  }

  unfoldable pub get :
      List (PluginClass C)
      → List (Loaded C)
      → String
      → Registry C
      → Option (PluginClass C) × Registry C
  get builtin entry_points name r =
      let r' = discover builtin entry_points r in (lookup name r'.classes, r')

  abbrev pub keys : List (String × PluginClass C) → List String
  keys classes = map (λ (item : String × PluginClass C). item.0) classes

  unfoldable pub names :
      List (PluginClass C) → List (Loaded C) → Registry C → List String × Registry C
  names builtin entry_points r =
      let r' = discover builtin entry_points r in (sorted (keys r'.classes), r')

  -- `_adapters[obj.name] = obj`: the value under a key that is there is replaced
  abbrev pub assign : PluginClass C → List (String × PluginClass C) → List (String × PluginClass C)
  assign c [] = (c.name, c) ∷ []
  assign c ((k, d) ∷ classes) =
      if str_eq k c.name then (k, c) ∷ classes else (k, d) ∷ assign c classes

  abbrev pub assign_all :
      List (PluginClass C) → List (String × PluginClass C) → List (String × PluginClass C)
  assign_all [] classes = classes
  assign_all (c ∷ cs) classes =
      assign_all cs (if str_eq c.name "base" then classes else assign c classes)

  -- `AdapterRegistry.discover` and `AdapterRegistry.get`
  unfoldable pub discover_adapters : List (PluginClass C) → Registry C → Registry C
  discover_adapters found r =
      if r.discovered then r else record { classes = assign_all found r.classes; discovered = true }

  unfoldable pub get_adapter :
      List (PluginClass C) → String → Registry C → Option (PluginClass C) × Registry C
  get_adapter found name r = let r' = discover_adapters found r in (lookup name r'.classes, r')

  unfoldable pub adapter_names : List (PluginClass C) → Registry C → List String × Registry C
  adapter_names found r = let r' = discover_adapters found r in (sorted (keys r'.classes), r')
