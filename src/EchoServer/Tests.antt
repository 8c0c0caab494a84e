-- ===== src/EchoServer/Tests.antt =====
-- Three bytes that arrive, and a write that takes them all.
use network_library.Prelude.{
  ℕ, ◌≤◌, ◌≡◌, refl, ap, subst, take, length-take, [], ◌∷◌, ◌++◌, arith, length,
}
use network_library.Buffer
use network_library.Buffer.{ReadResult, WriteResult, initial_size, max_size, extra_size, read_room}
use network_library.Buffer.Valid.{IsValid, new-IsValid}
use network_library.Buffer.Contents.{contents}
use network_library.Buffer.ReadFd.{HonoursRoom, bytes_of}
use network_library.TcpConnection
use network_library.TcpConnection.{Connection, connected, disconnecting}
use network_library.TcpConnection.Direct.{at_once}
use network_library.EchoServer.{serve}
use network_library.EchoServer.Echo.{Echoes, serve-Echoes}

abbrev up : Connection
up = record (TcpConnection.new 5) { state = connected }

up-input : IsValid up.input
unfolding TcpConnection.new
up-input = new-IsValid initial_size (omega arith)

up-output : IsValid up.output
unfolding TcpConnection.new
up-output = new-IsValid initial_size (omega arith)

up-facts : (contents up.input ≡ []) × (up.output.writer_index ≡ 8) × (length up.input.buffer ≡ 1032)
unfolding TcpConnection.new Buffer.new
up-facts = (refl, refl, refl)

abbrev readv : ℕ → ReadResult
readv room = ReadResult.received (take room (104 ∷ 105 ∷ 10 ∷ []))

readv-HonoursRoom : HonoursRoom readv
readv-HonoursRoom room bytes e =
    subst (λ r. length (bytes_of r) ≤ room) e
      (omega (arith, length-take {A = ℕ} room (104 ∷ 105 ∷ 10 ∷ [])))

arrives : readv (read_room up.input) ≡ ReadResult.received (104 ∷ 105 ∷ 10 ∷ [])
unfolding TcpConnection.new Buffer.new
arrives = refl

serve-Echoes_example :
    Echoes
      (at_once (WriteResult.wrote 3) up)
      (contents up.input ++ 104 ∷ 105 ∷ 10 ∷ [])
      up
      (serve 9 readv (WriteResult.wrote 3) up)
serve-Echoes_example =
    let (empty, start, size) = up-facts in
    serve-Echoes 9 readv (WriteResult.wrote 3) 104 (105 ∷ 10 ∷ []) up refl up-input up-output
      readv-HonoursRoom arrives (omega (arith, size))
      (omega (arith, ap (λ t. length (t ++ 104 ∷ 105 ∷ 10 ∷ [])) empty)) (λ fatal. fatal)
      (omega (arith, start, ap (λ t. length (t ++ 104 ∷ 105 ∷ 10 ∷ [])) empty))

-- The connection was idle, so the kernel gets what the write takes.
takes_three : at_once (WriteResult.wrote 3) up ≡ 3
unfolding TcpConnection.new Buffer.new
takes_three = refl
