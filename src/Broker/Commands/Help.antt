-- ===== src/Broker/Commands/Help.antt =====
-- `/help` of crates/room-daemon/src/broker/commands/info.rs.
use room.Base.{
  String, ◌<>◌, Option, none, some, List, [], ◌∷◌, ◌++◌, map, if◌then◌else◌, is_empty, find,
  unwrap_or, get_elem?, ◌==◌,
}
use room.Base.Text.{join, strip_prefix}
use room.Protocol.Schema.{
  ParamType, text, username, choice, number, ParamSchema, CommandInfo, CommandInfos, nil, cons,
  name_of, description_of, usage_of, params_of, subcommands_of,
}
use room.Broker.Commands.Validate.{show_int}

unfoldable pub type_hint : ParamType → String
unfolding show_int join
type_hint text = "text"
type_hint username = "username"
type_hint (number (some lo) (some hi)) =
    "number (" <> (show_int lo <> (".." <> (show_int hi <> ")")))
type_hint (number (some lo) none) = "number (" <> (show_int lo <> "..)")
type_hint (number none (some hi)) = "number (.." <> (show_int hi <> ")")
type_hint (number none none) = "number"
type_hint (choice values) = "one of: " <> join ", " values

unfoldable pub param_line : ParamSchema → String
unfolding type_hint
param_line p =
    let req = if p.required then "required" else "optional" in
    "    <"
    <> (p.name
        <> ("> — " <> (p.description <> (" [" <> (req <> ("] " <> type_hint p.param_type))))))

unfoldable pub format_command_help : CommandInfo → String
unfolding param_line join
format_command_help cmd =
    let params = params_of cmd in
    join "\n" (
      usage_of cmd
      ∷ ("  " <> description_of cmd)
      ∷ (if is_empty params then [] else "  parameters:" ∷ map param_line params))

unfoldable pub to_list : CommandInfos → List CommandInfo
to_list nil = []
to_list (cons c cs) = c ∷ to_list cs

abbrev listed : String → (CommandInfo → String) → CommandInfo → String
listed indent shown c = indent <> (shown c <> (" — " <> description_of c))

-- The help of a command that lists its subcommands.
unfoldable pub whole_help : CommandInfo → String
unfolding to_list format_command_help join
whole_help cmd =
    let subs = to_list (subcommands_of cmd) in
    if is_empty subs
    then format_command_help cmd
    else join "\n" (
        format_command_help cmd
        ∷ "  subcommands:"
        ∷ (map (listed "    " name_of) subs
            ++ (("  use /help " <> (name_of cmd <> " <subcommand> for details")) ∷ [])))

unfoldable pub resolve_help : CommandInfo → Option String → String
unfolding to_list format_command_help join whole_help
resolve_help cmd none = whole_help cmd
resolve_help cmd (some sub) =
    let subs = to_list (subcommands_of cmd) in
    if is_empty subs then whole_help cmd else elim (find (λ s. name_of s == sub) subs) [
      | some subcmd ↦ format_command_help subcmd
      | none ↦
          "unknown subcommand: /"
          <> (name_of cmd <> (" " <> (sub <> (". available: " <> join ", " (map name_of subs)))))
    ]

-- `builtins` are `builtin_command_infos`, and `plugin_cmds` the commands of the plugins.
unfoldable pub handle_help : (builtins plugin_cmds : List CommandInfo) → List String → String
unfolding resolve_help join strip_prefix
handle_help builtins plugin_cmds [] = join "\n" (
    "available commands:"
    ∷ (map (listed "  " usage_of) builtins ++ map (listed "  " usage_of) plugin_cmds))
handle_help builtins plugin_cmds (first ∷ params) =
    let target = unwrap_or (strip_prefix "/" first) first in
    let named = λ (c : CommandInfo). name_of c == target in
    elim (find named plugin_cmds) [
      | some cmd ↦ resolve_help cmd (get_elem? params 0)
      | none ↦ elim (find named builtins) [
        | some cmd ↦ resolve_help cmd (get_elem? params 0)
        | none ↦ "unknown command: /" <> target
      ]
    ]
