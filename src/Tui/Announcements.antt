-- ===== src/Tui/Announcements.antt =====
-- What the parsers of crates/room-cli/src/tui/parse.rs read out of the broker's announcements
-- (crates/room-daemon/src/broker/admin.rs and commands/handlers.rs).

use text.Mathlib.TextLemmas.{append_assoc}
use room.Base.{String, ◌<>◌, ◌≡◌, refl, true, false, none, some, arith}
use room.Base.Text.{is_empty_text}
use room.Base.Text.Split.{strip_suffix, lacks, split_once-append, strip_suffix-append}
use room.Broker.Admin.{kick_text}
use room.Broker.Commands.Status.{status_text}
use room.Tui.Parse.{parse_kick_broadcast, parse_status_broadcast}

-- The terminal reads the kicked user out of the announcement of a kick, and the user and the status out of
-- that of a status, where the names have no space, the kicked user has a name, and the new status
-- does not make the announcement end like that of a status that was cleared.
pub announcements_read_back :
    (issuer target status : String)
    → lacks b' ' issuer ≡ true
    → is_empty_text target ≡ false
    → is_empty_text status ≡ false
    → strip_suffix " cleared their status" (status_text issuer status) ≡ none
    → (parse_kick_broadcast (kick_text issuer target) ≡ some target)
      × (parse_status_broadcast (status_text issuer "") ≡ some (issuer, ""))
      × (parse_status_broadcast (status_text issuer status) ≡ some (issuer, status))
unfolding parse_kick_broadcast parse_status_broadcast kick_text status_text is_empty_text
announcements_read_back issuer target status h named set plain =
    let kicked : strip_suffix " (token invalidated)"
          (issuer <> (" kicked " <> (target <> " (token invalidated)")))
        ≡ some (issuer <> (" kicked " <> target)) =
      rw (append_assoc, append_assoc) at
        (strip_suffix-append (issuer <> (" kicked " <> target)) " (token invalidated)") in
    (
      rw (kicked, split_once-append " " "kicked " issuer target h) (ground (arith, named)),
      rw (parse_status_broadcast, strip_suffix-append issuer " cleared their status") refl,
      ground (arith, set, plain, split_once-append " " "set status: " issuer status h),
    )
