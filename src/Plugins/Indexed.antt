-- ===== src/Plugins/Indexed.antt =====
-- Which plugin `resolve` of crates/room-daemon/src/plugin/mod.rs finds.
use room.Base.{
  ℕ, String, ◌≡◌, refl, Bool, true, false, Option, none, some, List, [], ◌∷◌, arith, ltb, length,
  get_elem?, any, ◌==◌, ==_refl,
}
use room.Base.Dict.{Dict, get, insert, get-insert}
use room.Protocol.Schema.{CommandInfo, name_of}
use room.Registry.State.{ok, err}
use room.Plugins.Host.{
  Plugin, PluginRegistry, empty, is_reserved, semver_satisfies, insert_commands, push_plugin,
  register, resolve,
}

abbrev pub declares : String → Plugin → Bool
declares command p = any (λ c. name_of c == command) p.commands

-- Each command of the map leads to a plugin that declares it.
abbrev pub IsIndexed : PluginRegistry → Type 0
IsIndexed registry =
    (command : String) (idx : ℕ)
    → get command registry.command_map ≡ some idx
    → (p : Plugin) × (get_elem? registry.plugins idx ≡ some p) × (declares command p ≡ true)

get_elem?-length : (ps : List Plugin) → get_elem? ps (length ps) ≡ none
get_elem?-length [] = refl
get_elem?-length (q ∷ ps) = get_elem?-length ps

module _ (api_version : ℕ) (protocol_version : String) where
  -- The registries that successful registrations make.
  pub data Registered : PluginRegistry → Type 0 where
    none_yet : Registered empty
    add :
        {registry registry' : PluginRegistry}
        → (plugin : Plugin) → Registered registry
        → register api_version protocol_version plugin registry ≡ some (ok tt, registry')
        → Registered registry'

  -- A plugin whose first command is free and whose second is reserved is refused, but its first command
  -- stays in the map, and looking it up panics.
  pub refused_then_panics :
      (plugin : Plugin) (registry : PluginRegistry) (first second : CommandInfo)
      (rest : List CommandInfo)
      → plugin.commands ≡ first ∷ (second ∷ rest)
      → ltb api_version plugin.api_version ≡ false
      → semver_satisfies protocol_version plugin.min_protocol ≡ true
      → is_reserved (name_of first) ≡ false
      → get (name_of first) registry.command_map ≡ none
      → is_reserved (name_of second) ≡ true
      → (registry' : PluginRegistry) × (register api_version protocol_version plugin registry
          ≡ some (err "reserved by built-in", registry'))
        × (resolve (name_of first) registry' ≡ none)
  unfolding register insert_commands push_plugin resolve
  refused_then_panics plugin registry first second rest same new_api new_protocol free fresh taken =
      let at_end = get_elem?-length registry.plugins in
      let idx = length registry.plugins in
      let found = get-insert (name_of first) (name_of first) idx registry.command_map in
      let known = ==_refl (name_of first) in
      (
        record registry { command_map = insert (name_of first) idx registry.command_map },
        ground (arith, same, new_api, new_protocol, free, fresh, taken),
        ground (arith, at_end, found, known),
      )
