-- ===== src/Plugins/Host.antt =====
-- `PluginRegistry` of crates/room-daemon/src/plugin/mod.rs.
use room.Base.{
  ℕ, ◌^◌, String, ◌<>◌, Bool, not, ◌&&◌, ◌||◌, Option, none, some, List, [], ◌∷◌, ◌++◌,
  if◌then◌else◌, ltb, nat_eq, length, get_elem?, any, find, unwrap_or, ◌==◌,
}
use room.Base.Dict.{Dict, get, insert}
use room.Base.Text.Decimal.{parse_uint}
use room.Base.Text.Split.{split_on}
use room.Protocol.Schema.{ParamType, choice, CommandInfo, name_of, params_of}
use room.Registry.State.{Result, ok, err}

-- What a plugin declares.
pub record Plugin : Type 0 where
  pub name : String
  pub commands : List CommandInfo
  pub api_version : ℕ
  pub min_protocol : String

pub record PluginRegistry : Type 0 where
  pub plugins : List Plugin
  pub command_map : Dict ℕ

abbrev pub empty : PluginRegistry
empty = record { plugins = []; command_map = [] }

abbrev pub reserved_commands : List String
reserved_commands =
    "who" ∷ "help" ∷ "info" ∷ "kick" ∷ "reauth" ∷ "clear-tokens" ∷ "dm" ∷ "reply" ∷ "room-info"
    ∷ "exit" ∷ "clear" ∷ "subscribe" ∷ "set_subscription" ∷ "unsubscribe" ∷ "subscribe_events"
    ∷ "set_event_filter" ∷ "set_status" ∷ "subscriptions" ∷ "team" ∷ []

unfoldable pub is_reserved : String → Bool
is_reserved cmd = any (λ r. r == cmd) reserved_commands

-- `parts.next().and_then(|p| p.parse().ok()).unwrap_or(0)`
unfoldable pub part_at : List String → ℕ → ℕ
unfolding parse_uint
part_at parts i = elim (get_elem? parts i) [
  | none ↦ 0
  | some p ↦ unwrap_or (parse_uint (2 ^ 64) p) 0
]

-- `>=` on the triples of major, minor and patch
unfoldable pub semver_satisfies : String → String → Bool
unfolding part_at split_on
semver_satisfies running required =
    let r = split_on "." running in
    let q = split_on "." required in
    ltb (part_at q 0) (part_at r 0)
    || (nat_eq (part_at q 0) (part_at r 0)
        && (ltb (part_at q 1) (part_at r 1)
            || (nat_eq (part_at q 1) (part_at r 1) && not (ltb (part_at r 2) (part_at q 2)))))

-- The loop over the commands of a plugin behind the plugins that are registered: the error, if any, and the
-- map after it; `none` is the panic where the name of the plugin is asked for that has the command already,
-- and no plugin stands at its index. A command that was inserted before an error stays.
unfoldable pub insert_commands :
    List Plugin → List CommandInfo → Dict ℕ → Option (Result (Unit {0}) × Dict ℕ)
unfolding is_reserved
insert_commands plugins [] command_map = some (ok tt, command_map)
insert_commands plugins (cmd ∷ cmds) command_map =
    let rest = insert_commands plugins cmds (insert (name_of cmd) (length plugins) command_map) in
    if is_reserved (name_of cmd)
    then some (err "reserved by built-in", command_map)
    else elim (get (name_of cmd) command_map) [
      | some existing_idx ↦ elim (get_elem? plugins existing_idx) [
        | none ↦ none
        | some existing ↦
            some (err ("already registered by '" <> (existing.name <> "'")), command_map)
      ]
      | none ↦ rest
    ]

-- The end of a registration: where the loop has succeeded, the plugin is put behind the others.
unfoldable pub push_plugin :
    Plugin
    → PluginRegistry
    → Option (Result (Unit {0}) × Dict ℕ)
    → Option (Result (Unit {0}) × PluginRegistry)
push_plugin plugin registry none = none
push_plugin plugin registry (some (err e, command_map)) =
    some (err e, record registry { command_map = command_map })
push_plugin plugin registry (some (ok _, command_map)) =
    some (ok tt, record { plugins = registry.plugins ++ (plugin ∷ []); command_map = command_map })

-- `protocol_version` and `api_version` are the broker's; the texts of the errors are shortened. `none` is a
-- panic.
module _ (api_version : ℕ) (protocol_version : String) where
  unfoldable pub register : Plugin → PluginRegistry → Option (Result (Unit {0}) × PluginRegistry)
  unfolding semver_satisfies insert_commands push_plugin
  register plugin registry =
      if ltb api_version plugin.api_version
      then some (err "requires a newer api_version", registry)
      else if not (semver_satisfies protocol_version plugin.min_protocol)
      then some (err "requires a newer room-protocol", registry)
      else push_plugin plugin registry
          (insert_commands registry.plugins plugin.commands registry.command_map)

  -- The external plugins of `with_all_plugins`: an error is printed, and the loop goes on.
  unfoldable pub register_external : List Plugin → PluginRegistry → Option PluginRegistry
  unfolding register
  register_external [] registry = some registry
  register_external (p ∷ ps) registry = elim (register p registry) [
    | none ↦ none
    | some (result, registry') ↦ register_external ps registry'
  ]

-- The plugin of a command; the outer `none` is the panic of an index that is out of range.
unfoldable pub resolve : String → PluginRegistry → Option (Option Plugin)
resolve command registry = elim (get command registry.command_map) [
  | none ↦ some none
  | some idx ↦ elim (get_elem? registry.plugins idx) [ none ↦ none | some p ↦ some (some p) ]
]

unfoldable pub commands_of : List Plugin → List CommandInfo
commands_of [] = []
commands_of (p ∷ ps) = p.commands ++ commands_of ps

unfoldable pub all_commands : PluginRegistry → List CommandInfo
unfolding commands_of
all_commands registry = commands_of registry.plugins

unfoldable pub values_of : ParamType → List String
values_of (choice values) = values
values_of _ = []

unfoldable pub completions_for : String → ℕ → PluginRegistry → List String
unfolding all_commands values_of
completions_for command arg_pos registry =
    elim (find (λ c. name_of c == command) (all_commands registry)) [
      | none ↦ []
      | some c ↦ elim (get_elem? (params_of c) arg_pos) [
        | none ↦ []
        | some p ↦ values_of p.param_type
      ]
    ]
