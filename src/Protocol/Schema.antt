-- ===== src/Protocol/Schema.antt =====
-- `CommandInfo` and its parameters (crates/room-protocol/src/plugin.rs).
use room.Base.{ℕ, String, Bool, Option, List}

-- An i64; `negsuc n` is -(n + 1).
pub data ℤ : Type 0 where
  pos : ℕ → ℤ
  negsuc : ℕ → ℤ

pub data ParamType : Type 0 where
  text username : ParamType
  choice : List String → ParamType
  number : (min max : Option ℤ) → ParamType

pub record ParamSchema : Type 0 where
  pub name : String
  pub param_type : ParamType
  pub required : Bool
  pub description : String

-- With the lists of `subcommands`.
mutual
  pub data CommandInfo : Type 0 where
    command_info :
        (name description usage : String) (params : List ParamSchema) (subcommands : CommandInfos)
        → CommandInfo

  pub data CommandInfos : Type 0 where
    nil : CommandInfos
    cons : CommandInfo → CommandInfos → CommandInfos

abbrev pub name_of : CommandInfo → String
name_of (command_info name description usage params subcommands) = name

abbrev pub description_of : CommandInfo → String
description_of (command_info name description usage params subcommands) = description

abbrev pub usage_of : CommandInfo → String
usage_of (command_info name description usage params subcommands) = usage

abbrev pub params_of : CommandInfo → List ParamSchema
params_of (command_info name description usage params subcommands) = params

abbrev pub subcommands_of : CommandInfo → CommandInfos
subcommands_of (command_info name description usage params subcommands) = subcommands
