-- ===== src/InetAddress.antt =====
-- src/net/InetAddress.h and src/net/InetAddress.cc: an IPv4 address with a port, and its text.
--
-- The machine is little-endian, so that `htons` and `ntohs` swap the two bytes, and byte `i` of an address in memory is
-- its digit to the base 256. `inet_addr` is outside.
pub mod Text
pub mod Reader
mod Tests
use network_library.Prelude.{ℕ, ◌+◌, ◌*◌, ◌/◌, ◌%◌, ◌^◌, List, [], ◌∷◌, ◌++◌}
use network_library.Http.Response.{decimal}
use network_library.Http.Text.{bytes_of}

-- `sockaddr_in`, with its port and its address as they stand in memory.
pub record SockAddr : Type 0 where
  pub sin_family : ℕ
  pub sin_port : ℕ
  pub s_addr : ℕ

-- `htons` and `ntohs`
abbrev pub swap_bytes : ℕ → ℕ
swap_bytes v = v % 256 * 256 + v / 256 % 256

-- The address with these bytes in memory, and their text.
abbrev pub quad : ℕ → ℕ → ℕ → ℕ → ℕ
quad a b c d = a + 256 * (b + 256 * (c + 256 * d))

abbrev pub dotted : ℕ → ℕ → ℕ → ℕ → List ℕ
dotted a b c d = decimal a ++ 46 ∷ (decimal b ++ 46 ∷ (decimal c ++ 46 ∷ decimal d))

-- `inet_ntop`
abbrev pub inet_ntop : ℕ → List ℕ
inet_ntop addr =
    dotted (addr % 256) (addr / 256 % 256) (addr / 256 / 256 % 256) (addr / 256 / 256 / 256 % 256)

-- `AF_INET`
abbrev pub af_inet : ℕ
af_inet = 2

-- The constructor, with the port and the text of the address.
abbrev pub new_address : (List ℕ → ℕ) → ℕ → List ℕ → SockAddr
new_address inet_addr port ip = record {
  sin_family = af_inet;
  sin_port = swap_bytes port;
  s_addr = inet_addr ip;
}

-- The constructor's default arguments.
abbrev pub default_address : (List ℕ → ℕ) → SockAddr
default_address inet_addr = new_address inet_addr 0 (bytes_of "127.0.0.1")

unfoldable pub to_ip : SockAddr → List ℕ
to_ip addr = inet_ntop addr.s_addr

unfoldable pub to_ip_port : SockAddr → List ℕ
to_ip_port addr = inet_ntop addr.s_addr ++ 58 ∷ decimal (swap_bytes addr.sin_port)

unfoldable pub to_port : SockAddr → ℕ
to_port addr = swap_bytes addr.sin_port
