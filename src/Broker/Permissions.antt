-- ===== src/Broker/Permissions.antt =====
-- Who may join and send in a room (crates/room-daemon/src/broker/auth.rs).
use room.Base.{
  String, ◌≡◌, ◌⊎◌, ◌↔◌, refl, sym, ◌∙◌, not, [], Bool-cases, Bool, true, false, Option, none, some,
  arith, if◌then◌else◌, ◌==◌, ==_iff, inl, inr,
}
use room.Base.Dict.{set_contains, set_insert, set_contains-insert}
use room.Protocol.Rooms.{RoomConfig, dm_config}
use room.Registry.State.{ok, err}
use room.Broker.Auth.{check_join_permission, check_send_permission}

-- Whoever may join a room may send in it.
join_may_send :
    (username : String) (config : Option RoomConfig)
    → check_join_permission username config ≡ ok tt
    → check_send_permission username config ≡ ok tt
unfolding check_join_permission check_send_permission
join_may_send username none h = refl
join_may_send username (some config) h = ground arith

invited→eq :
    (a b u : String)
    → set_contains u (set_insert b (set_insert a []).1).1
      ≡ (if b == u then true else set_contains u (set_insert a []).1)
    → set_contains u (set_insert a []).1 ≡ (if a == u then true else set_contains u [])
    → set_contains u (set_insert b (set_insert a []).1).1 ≡ true
    → (u ≡ a) ⊎ (u ≡ b)
invited→eq a b u m n h = elim (Bool-cases (a == u)) [
  | inl e ↦ inl (sym ((==_iff a u).0 e))
  | inr e ↦ inr (sym ((==_iff b u).0 (unfold set_contains in ground (arith, m, n, h, e))))
]

invited_iff :
    (a b u : String)
    → (set_contains u (set_insert b (set_insert a []).1).1 ≡ true) ↔ ((u ≡ a) ⊎ (u ≡ b))
invited_iff a b u =
    let m = set_contains-insert b u (set_insert a []).1 in
    let n = set_contains-insert a u [] in
    (λ h. invited→eq a b u (m ∙ refl) n h, λ h. ground (arith, m, n, ==_iff a u, ==_iff b u, h))

ok_iff_then : (b : Bool) (e : String) → ((if b then ok tt else err e) ≡ ok (tt {0})) ↔ (b ≡ true)
ok_iff_then true e = (λ h. refl, λ h. refl)
ok_iff_then false e = (λ h. absurd (ground arith), λ h. absurd (ground arith))

ok_iff_not : (b : Bool) (e : String) → ((if not b then err e else ok tt) ≡ ok (tt {0})) ↔ (b ≡ true)
ok_iff_not true e = (λ h. refl, λ h. refl)
ok_iff_not false e = (λ h. absurd (ground arith), λ h. absurd (ground arith))

-- A room that is created for a direct message can be joined by its two users and by nobody else, and
-- only they can send in it.
pub dm_config-participants :
    (now user_a user_b username : String)
    → let config = some (dm_config now user_a user_b) in
      ((check_join_permission username config ≡ ok tt)
        ↔ ((username ≡ user_a) ⊎ (username ≡ user_b)))
      × ((check_send_permission username config ≡ ok tt)
          ↔ ((username ≡ user_a) ⊎ (username ≡ user_b)))
unfolding check_join_permission check_send_permission dm_config
dm_config-participants now user_a user_b username =
    let invited = invited_iff user_a user_b username in
    let joins =
      ok_iff_then (set_contains username (set_insert user_b (set_insert user_a []).1).1) _ in
    let sends =
      ok_iff_not (set_contains username (set_insert user_b (set_insert user_a []).1).1) _ in
    (
      (λ h. invited.0 (joins.0 h), λ h. joins.1 (invited.1 h)),
      (λ h. invited.0 (sends.0 h), λ h. sends.1 (invited.1 h)),
    )
