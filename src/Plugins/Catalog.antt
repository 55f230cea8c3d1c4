-- ===== src/Plugins/Catalog.antt =====
-- What the registry of analysis plugins promises: a catalog, fixed by what the scans meet.
use zhiwei_backend.Prelude.{
  ◌≡◌, refl, sym, ap, ◌∙◌, Bool, true, false, ◌&&◌, ◌||◌, ◌⊎◌, inl, inr, List, [], ◌∷◌, ◌++◌, map,
  Option, none, some, String, str_eq, eq_iff, Bool-cases, if◌then◌else◌, arith, subst,
}
use zhiwei_backend.Plugins.Registry.{
  PluginClass, Loaded, Registry, plugin_api_version, lookup, has_key, register, discover_builtin,
  discover_entry_points, discover, get,
}

-- The abstract view: the class of a name.
abbrev pub Catalog : Type 0 → Type 0
Catalog C = String → Option (PluginClass C)

module _ {C : Type 0} where
  abbrev or_else : Option (PluginClass C) → Option (PluginClass C) → Option (PluginClass C)
  or_else none b = b
  or_else (some a) b = some a

  or_else_assoc :
      (a b c : Option (PluginClass C)) → or_else (or_else a b) c ≡ or_else a (or_else b c)
  or_else_assoc none b c = refl
  or_else_assoc (some a) b c = refl

  or_else-none : (a : Option (PluginClass C)) → or_else a none ≡ a
  or_else-none none = refl
  or_else-none (some a) = refl

  abbrev fits : String → PluginClass C → Bool
  fits name c = str_eq c.plugin_api_version plugin_api_version && str_eq c.name name

  abbrev one : String → PluginClass C → Option (PluginClass C)
  one name c = if fits name c then some c else none

  -- The first class of the framework's version with a name.
  abbrev pub first_of : List (PluginClass C) → Catalog C
  first_of [] name = none
  first_of (c ∷ cs) name = or_else (one name c) (first_of cs name)

  abbrev pub not_base : List (PluginClass C) → List (PluginClass C)
  not_base [] = []
  not_base (c ∷ cs) = if str_eq c.name "base" then not_base cs else c ∷ not_base cs

  abbrev pub plugins_of : List (Loaded C) → List (PluginClass C)
  plugins_of [] = []
  plugins_of (Loaded.plugin c ∷ ls) = c ∷ plugins_of ls
  plugins_of (Loaded.something_else ∷ ls) = plugins_of ls
  plugins_of (Loaded.load_error ∷ ls) = plugins_of ls

  -- The built-in classes come before those of the entry points.
  abbrev pub catalog : List (PluginClass C) → List (Loaded C) → Catalog C
  catalog builtin entry_points name =
      or_else (first_of (not_base builtin) name) (first_of (plugins_of entry_points) name)

  abbrev pub unused : Registry C
  unused = record { classes = []; discovered = false }

  lookup-append :
      (name : String) (c : PluginClass C) (classes : List (String × PluginClass C))
      → lookup name (classes ++ (c.name, c) ∷ [])
        ≡ or_else (lookup name classes) (if str_eq c.name name then some c else none)
  lookup-append name c [] = refl
  lookup-append name c ((k, d) ∷ classes) = elim (Bool-cases (str_eq k name)) [
    | inl e ↦ rw e refl
    | inr e ↦ rw e (lookup-append name c classes)
  ]

  has_key-lookup :
      (name : String) (classes : List (String × PluginClass C)) (b : Option (PluginClass C))
      → has_key name classes ≡ true
      → or_else (lookup name classes) b ≡ lookup name classes
  has_key-lookup name [] b h = cc
  has_key-lookup name ((k, d) ∷ classes) b h = elim (Bool-cases (str_eq k name)) [
    | inl e ↦ rw e refl
    | inr e ↦ rw e (has_key-lookup name classes b (rest e h))
  ]
    where
      rest :
          str_eq k name ≡ false
          → str_eq k name || has_key name classes ≡ true
          → has_key name classes ≡ true
      rest e h = ground arith

  lookup-register :
      (name : String) (c : PluginClass C) (classes : List (String × PluginClass C))
      → lookup name (register c classes) ≡ or_else (lookup name classes) (one name c)
  unfolding register
  lookup-register name c classes =
      elim (Bool-cases (str_eq c.plugin_api_version plugin_api_version)) [
        | inr v ↦ rw v (sym (or_else-none (lookup name classes)))
        | inl v ↦ elim (Bool-cases (has_key c.name classes)) [
          | inr k ↦ rw (v, k) (lookup-append name c classes)
          | inl k ↦ rw (v, k) (taken k)
        ]
      ]
    where
      taken :
          has_key c.name classes ≡ true
          → lookup name classes
            ≡ or_else (lookup name classes) (if str_eq c.name name then some c else none)
      taken k = elim (Bool-cases (str_eq c.name name)) [
        | inr n ↦ rw n (sym (or_else-none (lookup name classes)))
        | inl n ↦ sym (
            has_key-lookup name classes _
              (subst (λ (m : String). has_key m classes ≡ true) ((eq_iff c.name name).0 n) k))
      ]

  lookup-discover_builtin :
      (name : String) (cs : List (PluginClass C)) (classes : List (String × PluginClass C))
      → lookup name (discover_builtin cs classes)
        ≡ or_else (lookup name classes) (first_of (not_base cs) name)
  lookup-discover_builtin name [] classes = sym (or_else-none (lookup name classes))
  lookup-discover_builtin name (c ∷ cs) classes = elim (Bool-cases (str_eq c.name "base")) [
    | inl b ↦ rw b (lookup-discover_builtin name cs classes)
    | inr b ↦ rw b (
        lookup-discover_builtin name cs (register c classes)
        ∙ ap (λ (o : Option (PluginClass C)). or_else o (first_of (not_base cs) name))
            (lookup-register name c classes)
        ∙ or_else_assoc (lookup name classes) (one name c) (first_of (not_base cs) name))
  ]

  lookup-discover_entry_points :
      (name : String) (ls : List (Loaded C)) (classes : List (String × PluginClass C))
      → lookup name (discover_entry_points ls classes)
        ≡ or_else (lookup name classes) (first_of (plugins_of ls) name)
  lookup-discover_entry_points name [] classes = sym (or_else-none (lookup name classes))
  lookup-discover_entry_points name (Loaded.something_else ∷ ls) classes =
      lookup-discover_entry_points name ls classes
  lookup-discover_entry_points name (Loaded.load_error ∷ ls) classes =
      lookup-discover_entry_points name ls classes
  lookup-discover_entry_points name (Loaded.plugin c ∷ ls) classes =
      lookup-discover_entry_points name ls (register c classes)
      ∙ ap (λ (o : Option (PluginClass C)). or_else o (first_of (plugins_of ls) name))
          (lookup-register name c classes)
      ∙ or_else_assoc (lookup name classes) (one name c) (first_of (plugins_of ls) name)

  module _ (builtin : List (PluginClass C)) (entry_points : List (Loaded C)) where
    -- A registry before its first use, or one that answers as the catalog does.
    Refines : Registry C → Type 0
    Refines r =
        ((r.classes ≡ []) × (r.discovered ≡ false))
        ⊎ ((r.discovered ≡ true)
            × ((name : String) → lookup name r.classes ≡ catalog builtin entry_points name))

    discover-Refines :
        (r : Registry C)
        → Refines r
        → ((discover builtin entry_points r).discovered ≡ true)
          × ((name : String)
              → lookup name (discover builtin entry_points r).classes
                ≡ catalog builtin entry_points name)
    unfolding Refines discover
    discover-Refines r h = elim h [
      | inr (d, all) ↦ rw d (refl, all)
      | inl (nothing, d) ↦
          rw (d, nothing)
            (
              refl,
              λ name.
                  lookup-discover_entry_points name entry_points (discover_builtin builtin [])
                  ∙ ap
                      (λ (o : Option (PluginClass C)).
                        or_else o (first_of (plugins_of entry_points) name))
                      (lookup-discover_builtin name builtin []),
            )
    ]

    -- The answers to a sequence of lookups.
    unfoldable pub answers : List String → Registry C → List (Option (PluginClass C))
    answers [] r = []
    answers (name ∷ names) r =
        (get builtin entry_points name r).0 ∷ answers names (get builtin entry_points name r).1

    answers-Refines :
        (names : List String) (r : Registry C)
        → Refines r
        → answers names r ≡ map (catalog builtin entry_points) names
    unfolding answers get Refines
    answers-Refines [] r h = refl
    answers-Refines (name ∷ names) r h =
        let (d, all) = discover-Refines r h in
        let rest = answers-Refines names (discover builtin entry_points r) (inr (d, all)) in
        ap (λ (o : Option (PluginClass C)). o ∷ answers names (discover builtin entry_points r))
          (all name)
        ∙ ap (λ (os : List (Option (PluginClass C))). catalog builtin entry_points name ∷ os) rest

    -- From its first use on, every sequence of lookups in the registry of analysis plugins is answered by
    -- one catalog: of each name the first class with that name and the framework's version, where the
    -- built-in classes, but for those named base, come before those of the entry points that load.
    pub answers-catalog :
        (names : List String) → answers names unused ≡ map (catalog builtin entry_points) names
    unfolding Refines
    answers-catalog names = answers-Refines names unused (inl (refl, refl))
