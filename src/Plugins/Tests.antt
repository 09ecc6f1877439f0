-- ===== src/Plugins/Tests.antt =====
-- The host of plugins on concrete plugins.
use room.Base.{String, ◌≡◌, refl, none, some, [], ◌∷◌, ◌==◌}
use room.Base.Dict.{get}
use room.Base.Text.{strip_prefix}
use room.Base.Text.Decimal.{parse_uint, scan_digits, scan}
use room.Base.Text.Split.{split_on, split_parts}
use room.Protocol.Schema.{CommandInfo, command_info, nil}
use room.Registry.State.{err}
use room.Plugins.Host.{
  Plugin, PluginRegistry, is_reserved, part_at, semver_satisfies, register, resolve,
}
use room.Plugins.Indexed.{Registered, refused_then_panics}

abbrev command : String → CommandInfo
command name = command_info name "" "" [] nil

abbrev agent : Plugin
agent = record {
  name = "agent";
  commands = command "agent" ∷ [];
  api_version = 1;
  min_protocol = "1.0.0";
}

abbrev with_agent : PluginRegistry
with_agent = record { plugins = agent ∷ []; command_map = ("agent", 0) ∷ [] }

-- A plugin with a free and a reserved command.
abbrev greedy : Plugin
greedy = record agent { commands = command "roll" ∷ (command "who" ∷ []) }

refused_then_panics_example :
    (registry' : PluginRegistry) × (register 1 "3.1.0" greedy with_agent
      ≡ some (err "reserved by built-in", registry'))
    × (resolve "roll" registry' ≡ none)
unfolding semver_satisfies part_at split_on split_parts strip_prefix parse_uint scan_digits scan
    is_reserved get ◌==◌
refused_then_panics_example =
    refused_then_panics 1 "3.1.0" greedy with_agent (command "roll") (command "who") [] refl refl
      refl refl refl refl
