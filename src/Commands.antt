-- ===== src/Commands.antt =====
-- commands.py: the swarm-wide commands as PX4 flight modes.
use swarmsim.Base.{String, ◌==◌, if◌then◌else◌}
use swarmsim.Errors.{Result, ok, err, unknown_command}

-- `PX4_MODE_FOR_COMMAND[command]`; ValueError for any other command.
unfoldable pub mode_for_command : String → Result String
mode_for_command command =
    if command == "rtl"
    then ok "AUTO.RTL"
    else if command == "land"
    then ok "AUTO.LAND"
    else if command == "hold"
    then ok "AUTO.LOITER"
    else err unknown_command
