-- ===== src/Socket/Tests.antt =====
-- The socket of an acceptor, and a peer that connects.
use network_library.Prelude.{◌≡◌, refl, true, false, [], ◌∷◌, some}
use network_library.Http.Text.{bytes_of}
use network_library.InetAddress.{SockAddr, quad, swap_bytes, to_ip_port}
use network_library.InetAddress.Reader.{inet_addr}
use network_library.Socket.{new_socket, accepted}
use network_library.Socket.Options.{
  reuse_addr, reuse_port, no_delay, run, run-options, accepted-to_ip_port,
}

run-options_example :
    (run (reuse_addr true ∷ no_delay true ∷ reuse_port false ∷ []) (new_socket 5)).options
    ≡ record {
      tcp_nodelay = true;
      so_reuseaddr = false;
      so_reuseport = false;
      so_keepalive = false;
    }
run-options_example =
    run-options (reuse_addr true ∷ no_delay true ∷ reuse_port false ∷ []) (new_socket 5)

abbrev peer : SockAddr
peer = record { sin_family = 2; sin_port = swap_bytes 40000; s_addr = quad 10 0 0 9 }

accepted-to_ip_port_example :
    (addr : SockAddr) × (accepted inet_addr (some (7, peer)) ≡ some (7, addr))
    × (to_ip_port addr ≡ bytes_of "127.0.0.1:0")
accepted-to_ip_port_example = accepted-to_ip_port inet_addr 7 peer refl
