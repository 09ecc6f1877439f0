-- ===== src/Daemon/Lifecycle.antt =====
-- What the requests of crates/room-daemon/src/broker/daemon/lifecycle.rs do to the rooms of the daemon.
use room.Base.{
  String, ◌≡◌, refl, [], Bool, true, false, not, ◌&&◌, Option, some, arith, if◌then◌else◌, ◌==◌,
  ==_iff, ==_refl,
}
use room.Base.Dict.{get, get-insert, get-remove}
use room.Protocol.Rooms.{RoomConfig}
use room.Registry.State.{Result, ok, err}
use room.Broker.Room.{Room}
use room.Daemon.RoomId.{validate_room_id}
use room.Daemon.Rooms.{DaemonState, Creation, new_room, create_room_entry, destroy_room, has_room}

-- Whether a call succeeded.
abbrev pub is_ok : {A : Type 0} → Result A → Bool
is_ok (ok a) = true
is_ok (err e) = false

-- Whether a room was handed out whose shutdown is signalled.
abbrev pub is_signalled : Result Room → Bool
is_signalled (ok room) = room.state.shutdown
is_signalled (err e) = false

-- The daemon is as before but for its rooms, of which those with other ids are as before too.
abbrev pub OnlyRoom : String → DaemonState → DaemonState → Type 0
OnlyRoom room_id daemon after =
    (after ≡ record daemon { rooms = after.rooms })
    × ((other : String)
        → get other after.rooms
          ≡ (if room_id == other then get room_id after.rooms else get other daemon.rooms))

-- A room as it is when it has been created: nobody is in it, its history is what its chat file held, and its
-- tokens and its registry are the daemon's.
pub record IsFresh (room_id : String) (config : Option RoomConfig) (daemon : DaemonState)
    (room : Room) : Type 0 where
  pub named : room.state.room_id ≡ room_id
  pub tokens : room.state.auth.token_map ≡ daemon.token_map
  pub registry : room.state.auth.registry ≡ some daemon.user_registry
  pub unattended : room.state.channel.clients ≡ []
  pub history : room.state.channel.chat ≡ (daemon.files room_id).chat
  pub running : room.state.shutdown ≡ false
  pub configured : room.config ≡ config

module _ {J : Type 0} (c : Creation J) (room_id : String) (daemon : DaemonState) where
  new_room-IsFresh :
      (config : Option RoomConfig)
      → IsFresh room_id config daemon (new_room c room_id config daemon)
  unfolding new_room
  new_room-IsFresh config = record {
    named = refl;
    tokens = refl;
    registry = refl;
    unattended = refl;
    history = refl;
    running = refl;
    configured = refl;
  }

  created_lem :
      (config : Option RoomConfig)
      → let (result, after) = create_room_entry c room_id config daemon in
        OnlyRoom room_id daemon after
        × (get room_id after.rooms ≡ (
            if is_ok result
            then some (new_room c room_id config daemon)
            else get room_id daemon.rooms))
        × (is_ok result
            ≡ (is_ok (validate_room_id room_id) && not (has_room room_id daemon) && c.plugins_load))
  unfolding create_room_entry has_room
  created_lem config =
      let room = new_room c room_id config daemon in
      let known = get-insert room_id room_id room daemon.rooms in
      let self = ==_refl room_id in
      (
        (
          ground arith,
          λ other.
              let there = get-insert room_id other room daemon.rooms in
              ground (arith, there, ==_iff room_id other, known, self),
        ),
        ground (arith, known, self),
        ground arith,
      )

  destroyed_lem :
      let (result, after) = destroy_room room_id daemon in
      OnlyRoom room_id daemon after
      × (has_room room_id after ≡ false)
      × (is_ok result ≡ has_room room_id daemon)
      × (is_signalled result ≡ has_room room_id daemon)
  unfolding destroy_room has_room
  destroyed_lem =
      let known = get-remove room_id room_id daemon.rooms in
      let self = ==_refl room_id in
      (
        (
          ground arith,
          λ other.
              let gone = get-remove room_id other daemon.rooms in
              ground (arith, gone, ==_iff room_id other, known, self),
        ),
        ground (arith, known, self),
        ground arith,
        ground arith,
      )

  -- Creation and destruction change nothing of the daemon but the room they name: the tokens, the registry,
  -- the files and every other room are as before. A room is created exactly where its id is valid, it is
  -- not there and the plugins load, and is left as it was otherwise; a new room is fresh: nobody is in it,
  -- its history is what its chat file held, and its tokens and its registry are those of the daemon.
  -- Exactly a room that is there can be destroyed; its shutdown is signalled, and it is gone.
  pub rooms_lem :
      (config : Option RoomConfig)
      → let (create, after) = create_room_entry c room_id config daemon in
        let (destroy, later) = destroy_room room_id daemon in
        (OnlyRoom room_id daemon after
          × (get room_id after.rooms ≡ (
              if is_ok create
              then some (new_room c room_id config daemon)
              else get room_id daemon.rooms))
          × (is_ok create ≡ (
              is_ok (validate_room_id room_id) && not (has_room room_id daemon) && c.plugins_load)))
        × IsFresh room_id config daemon (new_room c room_id config daemon)
        × OnlyRoom room_id daemon later
        × (has_room room_id later ≡ false)
        × (is_ok destroy ≡ has_room room_id daemon)
        × (is_signalled destroy ≡ has_room room_id daemon)
  rooms_lem config =
      let (gone, absent, there, signalled) = destroyed_lem in
      (created_lem config, new_room-IsFresh config, gone, absent, there, signalled)
