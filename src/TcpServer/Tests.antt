-- ===== src/TcpServer/Tests.antt =====
-- Three clients, of which the first leaves before the third comes.
use network_library.Prelude.{ℕ, ◌≡◌, refl, List, [], ◌∷◌, arith}
use network_library.Http.Text.{bytes_of}
use network_library.TcpServer.{
  new_server, put, erase, new_connection, remove_connection_in_loop, conn_name,
}
use network_library.LoopPool.{get_next_loop}
use network_library.TcpServer.Live.{Event, comes, closes, run, step, live, names, names_of}
use network_library.InetAddress.{SockAddr, quad, swap_bytes}
use network_library.TcpServer.History.{run-live}

abbrev events : List Event
events = comes 7 ∷ comes 8 ∷ closes 1 ∷ comes 9 ∷ []

abbrev address : List ℕ
address = bytes_of "127.0.0.1:8000"

names_left :
    names (run events (new_server 0 address (bytes_of "web"))).connections
    ≡ bytes_of "web-127.0.0.1:8000#2" ∷ bytes_of "web-127.0.0.1:8000#3" ∷ []
unfolding run step new_connection put erase remove_connection_in_loop conn_name get_next_loop
names_left = refl

run-live_example :
    names (run events (new_server 0 address (bytes_of "web"))).connections
    ≡ names_of (bytes_of "web") address (2 ∷ 3 ∷ [])
unfolding live
run-live_example = run-live (bytes_of "web") address (omega arith) 0 events (omega arith) refl

abbrev any_address : SockAddr
any_address = record { sin_family = 2; sin_port = swap_bytes 8000; s_addr = quad 0 0 0 0 }
