-- ===== src/Registry/State.antt =====
-- The data of crates/room-daemon/src/registry.rs, and its file `users.json`. Each operation returns
-- its result and the registry after it: what was changed before a failed save stays changed.
use room.Base.{
  ℕ, String, ◌≡◌, refl, Bool, true, false, Option, none, some, List, [], arith, if◌then◌else◌,
}
use room.Base.Dict.{Dict}
use room.Base.Text.Codec.{Codec}

pub record User : Type 0 where
  pub username : String
  pub created_at : ℕ
  pub rooms : List String
  pub status : Option String

pub record Team : Type 0 where
  pub name : String
  pub members : List String
  pub created_at : ℕ

pub record RegistryData : Type 0 where
  pub users : Dict User
  pub tokens : Dict String
  pub teams : Dict Team

-- `file` is what `users.json` holds, `none` where there is no such file.
pub record UserRegistry : Type 0 where
  pub contents : RegistryData
  pub file : Option String

-- The clock, `serde_json` for the data, and what a save meets: `none` is success, and `some (e, rest)`
-- the error `e` with `rest` left in the file.
pub record Env : Type 0 where
  pub utc : ℕ
  pub codec : Codec RegistryData
  pub save_fault : Option (String × Option String)

pub data Result {ℓ} (A : Type ℓ) : Type ℓ where
  ok : A → Result A
  err : String → Result A

abbrev pub empty_data : RegistryData
empty_data = record { users = []; tokens = []; teams = [] }

unfoldable pub new : Option String → UserRegistry
new file = record { contents = empty_data; file = file }

-- `UserRegistry::load`
unfoldable pub load : Env → Option String → Result UserRegistry
load env none = ok (new none)
load env (some json) = elim (env.codec.decode json) [
  | none ↦ err "parse users.json"
  | some d ↦ ok (record { contents = d; file = some json })
]

unfoldable pub save : Env → UserRegistry → Result (Unit {0}) × UserRegistry
save env reg = elim (env.codec.encode reg.contents) [
  | none ↦ (err "serialize registry", reg)
  | some json ↦ elim env.save_fault [
    | none ↦ (ok tt, record reg { file = some json })
    | some (e, rest) ↦ (err e, record reg { file = rest })
  ]
]

abbrev then_ok : {A : Type 0} → Result (Unit {0}) → A → Result A
then_ok (ok _) a = ok a
then_ok (err e) a = err e

-- `self.save()?; Ok(a)`
unfoldable pub saving : {A : Type 0} → Env → UserRegistry → A → Result A × UserRegistry
saving env reg a = let (r, reg') = save env reg in (then_ok r a, reg')

-- `saving` where something changed, and `Ok(a)` with nothing written where nothing did
unfoldable pub saving_if : {A : Type 0} → Bool → Env → UserRegistry → A → Result A × UserRegistry
saving_if changed env reg a = if changed then saving env reg a else (ok a, reg)

pub contents-save : (env : Env) (reg : UserRegistry) → (save env reg).1.contents ≡ reg.contents
unfolding save
contents-save env reg = ground arith

-- A save changes the file only.
pub contents-saving :
    {A : Type 0} (env : Env) (reg : UserRegistry) (a : A)
    → (saving env reg a).1.contents ≡ reg.contents
unfolding saving
contents-saving env reg a = contents-save env reg

pub contents-saving_if :
    {A : Type 0} (changed : Bool) (env : Env) (reg : UserRegistry) (a : A)
    → (saving_if changed env reg a).1.contents ≡ reg.contents
unfolding saving_if
contents-saving_if true env reg a = contents-saving env reg a
contents-saving_if false env reg a = refl
