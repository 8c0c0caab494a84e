-- ===== src/TcpServer.antt =====
-- src/net/TcpServer.h, TcpServer.cc, Acceptor.h and Acceptor.cc: the connections of a server.
--
-- A loop is its number, a connection what the server knows of it. `connections_` maps the name of each connection to
-- it, and is the list of these connections. What the server has the loops run is a log, newest first. `accept`,
-- `getsockname` and the callbacks are outside. `nextConnId_` is an int, kept as its 32 bits.
pub mod Decimal
pub mod Names
pub mod Live
pub mod History
pub mod Addresses
mod Tests
use network_library.Prelude.{
  ℕ, zero, suc, ◌+◌, ◌-◌, ◌%◌, ◌^◌, ltb, Bool, true, false, List, [], ◌∷◌, ◌++◌, Option, none, some,
  take, ◌==◌, if◌then◌else◌,
}
use network_library.Http.Text.{same_bytes}
use network_library.Http.Response.{decimal}
use network_library.LoopPool.{Pool, new_pool, start, get_next_loop}
use network_library.LoopPool

pub record Conn : Type 0 where
  pub loop : ℕ
  pub name : List ℕ
  pub sockfd : ℕ

pub data Task : Type 0 where
  listens : Task
  establishes destroys : Conn → Task
  closes_socket : ℕ → Task

pub record Acceptor : Type 0 where
  pub has_callback : Bool
  pub is_listening : Bool

pub record TcpServer : Type 0 where
  pub base_loop : ℕ
  pub ip_port : List ℕ
  pub name : List ℕ
  pub acceptor : Acceptor
  pub thread_pool : Pool
  pub next_conn_id : ℕ
  pub started : ℕ
  pub connections : List Conn
  pub log : List (ℕ × Task)

-- The constructor.
abbrev pub new_server : ℕ → List ℕ → List ℕ → TcpServer
new_server base_loop ip_port name = record {
  base_loop = base_loop;
  ip_port = ip_port;
  name = name;
  acceptor = record { has_callback = true; is_listening = false };
  thread_pool = new_pool base_loop;
  next_conn_id = 1;
  started = 0;
  connections = [];
  log = [];
}

-- `runInLoop` and `queueInLoop` of a loop.
abbrev pub tell : ℕ → Task → TcpServer → TcpServer
tell loop task s = record s { log = (loop, task) ∷ s.log }

-- `setThreadNum`
abbrev pub set_thread_num : ℕ → TcpServer → TcpServer
set_thread_num n s = record s { thread_pool = LoopPool.set_thread_num n s.thread_pool }

-- `start`
unfoldable pub start_server : (ℕ → ℕ) → TcpServer → TcpServer
start_server start_loop s =
    let s1 : TcpServer = record s { started = s.started + 1 } in
    if s.started == 0
    then tell s.base_loop listens (record s1 { thread_pool = start start_loop s.thread_pool })
    else s1

-- `Acceptor::listen`, in the loop.
abbrev pub listen : TcpServer → TcpServer
listen s = record s { acceptor = record s.acceptor { is_listening = true } }

-- `connections_[connName] = conn`
unfoldable pub put : Conn → List Conn → List Conn
put conn [] = conn ∷ []
put conn (c ∷ cs) = elim (same_bytes c.name conn.name) [
  | true ↦ conn ∷ cs
  | false ↦ c ∷ put conn cs
]

-- `connections_.erase`
unfoldable pub erase : List ℕ → List Conn → List Conn
erase name [] = []
erase name (c ∷ cs) = elim (same_bytes c.name name) [ true ↦ cs | false ↦ c ∷ erase name cs ]

-- `%d` of an int, given as its 32 bits: a minus sign before the size of a negative one.
abbrev pub int_text : ℕ → List ℕ
int_text id = if ltb id (2 ^ 31) then decimal id else 45 ∷ decimal (2 ^ 32 - id)

-- The name of a connection: that of the server, and `snprintf` into a buffer of 64 bytes.
unfoldable pub conn_name : List ℕ → List ℕ → ℕ → List ℕ
conn_name name ip_port id = name ++ take 63 (45 ∷ ip_port ++ 35 ∷ int_text id)

-- `newConnection`
unfoldable pub new_connection : ℕ → TcpServer → TcpServer
new_connection sockfd s =
    let (io_loop, pool) = get_next_loop s.thread_pool in
    let conn : Conn = record {
      loop = io_loop;
      name = conn_name s.name s.ip_port s.next_conn_id;
      sockfd = sockfd;
    } in
    tell io_loop (establishes conn) (record s {
      thread_pool = pool;
      next_conn_id = (s.next_conn_id + 1) % 2 ^ 32;
      connections = put conn s.connections;
    })

-- `removeConnectionInLoop`
unfoldable pub remove_connection_in_loop : Conn → TcpServer → TcpServer
remove_connection_in_loop conn s =
    tell conn.loop (destroys conn) (record s { connections = erase conn.name s.connections })

-- `Acceptor::handleRead`, with what `accept` answers: `none` is an error.
unfoldable pub handle_accept : Option ℕ → TcpServer → TcpServer
handle_accept none s = s
handle_accept (some connfd) s =
    if s.acceptor.has_callback
    then new_connection connfd s
    else tell s.base_loop (closes_socket connfd) s

-- The destructor.
unfoldable pub destroy_all : List Conn → TcpServer → TcpServer
destroy_all [] s = s
destroy_all (c ∷ cs) s = destroy_all cs (tell c.loop (destroys c) s)
