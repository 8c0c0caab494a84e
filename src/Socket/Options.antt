-- ===== src/Socket/Options.antt =====
-- src/net/Socket.cc and src/net/Acceptor.cc: which options are set, and which peer a connection has.
use network_library.Prelude.{ℕ, ◌≡◌, refl, Bool, List, [], ◌∷◌, Option, none, some, arith}
use network_library.Http.Text.{bytes_of}
use network_library.InetAddress.{SockAddr, quad, default_address, to_ip_port}
use network_library.InetAddress.Text.{new_address_lem}
use network_library.Socket.{
  Socket, set_tcp_no_delay, set_reuse_addr, set_reuse_port, set_keep_alive, accept, accepted,
}

-- A call of one of the setters.
pub data Setting : Type 0 where
  no_delay reuse_addr reuse_port keep_alive : Bool → Setting

unfoldable pub run : List Setting → Socket → Socket
run [] s = s
run (no_delay on ∷ rest) s = run rest (set_tcp_no_delay on s)
run (reuse_addr on ∷ rest) s = run rest (set_reuse_addr on s)
run (reuse_port on ∷ rest) s = run rest (set_reuse_port on s)
run (keep_alive on ∷ rest) s = run rest (set_keep_alive on s)

-- What the last call of some setters sets, or else what was set before.
abbrev pub last_of : (Setting → Option Bool) → List Setting → Bool → Bool
last_of value [] before = before
last_of value (x ∷ xs) before = elim (value x) [
  | none ↦ last_of value xs before
  | some on ↦ last_of value xs on
]

abbrev pub sets_no_delay : Setting → Option Bool
sets_no_delay (no_delay on) = some on
sets_no_delay _ = none

abbrev pub sets_keep_alive : Setting → Option Bool
sets_keep_alive (keep_alive on) = some on
sets_keep_alive _ = none

-- setReuseAddr and setReusePort both.
abbrev pub sets_reuse : Setting → Option Bool
sets_reuse (reuse_addr on) = some on
sets_reuse (reuse_port on) = some on
sets_reuse _ = none

-- After any calls of the setters TCP_NODELAY and SO_KEEPALIVE are what their setters set last, SO_REUSEADDR is what
-- setReuseAddr or setReusePort set last, and SO_REUSEPORT is what it was.
pub run-options :
    (settings : List Setting) (s : Socket)
    → (run settings s).options ≡ record {
      tcp_nodelay = last_of sets_no_delay settings s.options.tcp_nodelay;
      so_reuseaddr = last_of sets_reuse settings s.options.so_reuseaddr;
      so_reuseport = s.options.so_reuseport;
      so_keepalive = last_of sets_keep_alive settings s.options.so_keepalive;
    }
unfolding run
run-options [] s = refl
run-options (no_delay on ∷ rest) s = run-options rest (set_tcp_no_delay on s)
run-options (reuse_addr on ∷ rest) s = run-options rest (set_reuse_addr on s)
run-options (reuse_port on ∷ rest) s = run-options rest (set_reuse_port on s)
run-options (keep_alive on ∷ rest) s = run-options rest (set_keep_alive on s)

-- Whichever peer connects, the address that comes with the new connection reads 127.0.0.1:0, where `inet_addr` reads
-- 127.0.0.1 as its four bytes.
pub accepted-to_ip_port :
    (inet_addr : List ℕ → ℕ) (connfd : ℕ) (peer : SockAddr)
    → inet_addr (bytes_of "127.0.0.1") ≡ quad 127 0 0 1
    → (addr : SockAddr) × (accepted inet_addr (some (connfd, peer)) ≡ some (connfd, addr))
      × (to_ip_port addr ≡ bytes_of "127.0.0.1:0")
unfolding accepted accept
accepted-to_ip_port inet_addr connfd peer reads =
    let (_, _, text) =
      new_address_lem inet_addr 127 0 0 1 0 (omega arith) (omega arith) (omega arith) (omega arith)
        (omega arith) reads in
    (default_address inet_addr, refl, text)
