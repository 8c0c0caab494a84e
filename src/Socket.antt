-- ===== src/Socket.antt =====
-- src/net/Socket.h and src/net/Socket.cc: a socket with its options, and what the acceptor (src/net/Acceptor.cc) makes
-- of one.
--
-- What the system answers is an argument. LOG_FAT exits.
pub mod Options
mod Tests
use network_library.Prelude.{ℕ, Bool, true, false, List, Option, none, some, if◌then◌else◌}
use network_library.InetAddress.{SockAddr, default_address}

-- The options of a socket that the setters know.
pub record SocketOptions : Type 0 where
  pub tcp_nodelay : Bool
  pub so_reuseaddr : Bool
  pub so_reuseport : Bool
  pub so_keepalive : Bool

-- A socket as the system has it.
pub record Socket : Type 0 where
  pub sockfd : ℕ
  pub options : SocketOptions
  pub bound : Option SockAddr
  pub is_listening : Bool
  pub is_write_shut : Bool

-- A new socket of the system.
abbrev pub new_socket : ℕ → Socket
new_socket fd = record {
  sockfd = fd;
  options = record {
    tcp_nodelay = false;
    so_reuseaddr = false;
    so_reuseport = false;
    so_keepalive = false;
  };
  bound = none;
  is_listening = false;
  is_write_shut = false;
}

-- A function goes on, or exits the process.
pub data Outcome : Type 0 where
  goes_on : Socket → Outcome
  exits : Outcome

-- `bindAddress`, with whether `bind` succeeds.
unfoldable pub bind_address : Bool → SockAddr → Socket → Outcome
bind_address true localaddr s = goes_on (record s { bound = some localaddr })
bind_address false localaddr s = exits

-- `listen`
unfoldable pub listen : Bool → Socket → Outcome
listen true s = goes_on (record s { is_listening = true })
listen false s = exits

-- `accept`, with what `accept4` answers, a descriptor and the address of the peer: the descriptor, and what stands in
-- `*peeraddr` afterwards.
unfoldable pub accept : Option (ℕ × SockAddr) → SockAddr → Option ℕ × SockAddr
accept none peeraddr = (none, peeraddr)
accept (some (connfd, addr)) peeraddr = (some connfd, peeraddr)

-- `shutdownWrite`
abbrev pub shutdown_write : Bool → Socket → Socket
shutdown_write succeeds s = if succeeds then record s { is_write_shut = true } else s

abbrev pub set_tcp_no_delay : Bool → Socket → Socket
set_tcp_no_delay on s = record s { options = record s.options { tcp_nodelay = on } }

abbrev pub set_reuse_addr : Bool → Socket → Socket
set_reuse_addr on s = record s { options = record s.options { so_reuseaddr = on } }

abbrev pub set_reuse_port : Bool → Socket → Socket
set_reuse_port on s = record s { options = record s.options { so_reuseaddr = on } }

abbrev pub set_keep_alive : Bool → Socket → Socket
set_keep_alive on s = record s { options = record s.options { so_keepalive = on } }

-- The constructor of the acceptor, on the socket that `createNonbloking` made, or `none` where there is none.
unfoldable pub new_acceptor : Option ℕ → Bool → SockAddr → Bool → Outcome
new_acceptor none binds listen_addr reuseport = exits
new_acceptor (some fd) binds listen_addr reuseport =
    bind_address binds listen_addr (set_reuse_port true (set_reuse_addr true (new_socket fd)))

-- What `Acceptor::handleRead` gives to its callback: the descriptor and `peerAddr`.
unfoldable pub accepted : (List ℕ → ℕ) → Option (ℕ × SockAddr) → Option (ℕ × SockAddr)
accepted inet_addr answer =
    let (connfd, peer_addr) = accept answer (default_address inet_addr) in
    elim connfd [ none ↦ none | some fd ↦ some (fd, peer_addr) ]
