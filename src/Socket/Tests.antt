-- ===== src/Socket/Tests.antt =====
-- Tests of the sockets, and their theorems at concrete sockets.
use libjustasic.Base.{◌≡◌, refl, Bool, true, false, [], some, get_or, replicate, set, arith}
use libjustasic.Flags.{ok}
use libjustasic.Socket.{Socket, ss_connecting, ss_connected}
use libjustasic.Socket.Connection.{
  is_clear, in_progress, start_connect, connection_event, client_event,
}
use libjustasic.Flags.{default_size, undefined_behaviour, out_of_range}
use libjustasic.Socket.{construct}
use libjustasic.Socket.Connection.Size.{declared_size}
use libjustasic.Base.{none}
use libjustasic.Socket.Connection.Branches.{Came, goal, connection_event-branches}

-- A socket with the declared number of flags.
abbrev narrow : Socket
narrow = record { flags = replicate 32 false; sock_fd = 3; events = [] }

abbrev connecting : Socket
connecting = record narrow { flags = set narrow.flags 8 true }

connection_event-branches_example :
    (s' : Socket) × (b : Bool) × (connection_event (some 111) connecting ≡ ok (s', b))
    × Came connecting s' b ss_connected
        (goal (get_or connecting.flags ss_connecting false) (is_clear (some 111)))
connection_event-branches_example = connection_event-branches (some 111) connecting (omega arith)

declared_size_example :
    (construct default_size (λ call. 7) none 1 0 ≡ undefined_behaviour)
    × (start_connect in_progress narrow ≡ undefined_behaviour)
    × (client_event narrow ≡ out_of_range)
declared_size_example = declared_size (λ call. 7) none 1 0 narrow refl
