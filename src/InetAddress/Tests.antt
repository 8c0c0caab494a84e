-- ===== src/InetAddress/Tests.antt =====
-- The address 127.0.0.1 with the port 8000, read by a reader of four numbers.
use network_library.Prelude.{◌≤◌, ◌≡◌, refl, ◌∷◌, ◌++◌, arith, length}
use network_library.Http.Response.{decimal}
use network_library.Http.Text.{bytes_of}
use network_library.InetAddress.{
  SockAddr, quad, dotted, swap_bytes, new_address, to_ip, to_ip_port, to_port,
}
use network_library.InetAddress.Reader.{inet_addr}
use network_library.InetAddress.Text.{new_address_lem, to_ip_port_inj, length-to_ip_port}

new_address_lem_example :
    (to_ip (new_address inet_addr 8000 (dotted 192 168 0 17)) ≡ dotted 192 168 0 17)
    × (to_port (new_address inet_addr 8000 (dotted 192 168 0 17)) ≡ 8000)
    × (to_ip_port (new_address inet_addr 8000 (dotted 192 168 0 17))
        ≡ dotted 192 168 0 17 ++ 58 ∷ decimal 8000)
new_address_lem_example =
    new_address_lem inet_addr 192 168 0 17 8000 (omega arith) (omega arith) (omega arith)
      (omega arith) (omega arith) refl

abbrev local : SockAddr
local = new_address inet_addr 8000 (bytes_of "127.0.0.1")

local_text : to_ip_port local ≡ bytes_of "127.0.0.1:8000"
unfolding to_ip_port
local_text = refl

to_ip_port_inj_example : (local.s_addr ≡ quad 127 0 0 1) × (local.sin_port ≡ swap_bytes 8000)
to_ip_port_inj_example =
    to_ip_port_inj local
      (record { sin_family = 2; sin_port = swap_bytes 8000; s_addr = quad 127 0 0 1 }) (omega arith)
      (omega arith) (omega arith) (omega arith) refl

length-to_ip_port_example : length (to_ip_port local) ≤ 21
length-to_ip_port_example = length-to_ip_port local
