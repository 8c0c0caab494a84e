-- ===== src/TcpServer/History.antt =====
-- src/net/TcpServer.cc: every history of a server leaves the accepted connections that have not closed in its map.
use network_library.Prelude.{
  ℕ, ◌+◌, ◌≤◌, ◌<◌, ◌≡◌, refl, sym, ap, ◌∙◌, true, false, List, [], ◌∷◌, ◌++◌, arith, length,
  Option-cases, inl, inr,
}
use network_library.TcpServer.{
  TcpServer, conn_name, new_connection, remove_connection_in_loop, new_server,
}
use network_library.TcpServer.Names.{most_ids}
use network_library.TcpServer.Live.{
  Event, comes, closes, find_conn, step, run, live, without, all_less, closing, names, names_of,
  has_name, without_name, names-put, names-erase, found, not_found, without_name-names_of, new_name,
}

all_less-weaken : (m n : ℕ) (ids : List ℕ) → m ≤ n → all_less m ids ≡ true → all_less n ids ≡ true
all_less-weaken m n [] h k = refl
all_less-weaken m n (x ∷ ids) h k = ground (arith, h, k, all_less-weaken m n ids)

all_less-append :
    (n : ℕ) (ids : List ℕ) → all_less n ids ≡ true → all_less (n + 1) (ids ++ n ∷ []) ≡ true
all_less-append n [] k = ground arith
all_less-append n (x ∷ ids) k = ground (arith, k, all_less-append n ids)

all_less-without :
    (n id : ℕ) (ids : List ℕ) → all_less n ids ≡ true → all_less n (without id ids) ≡ true
all_less-without n id [] k = refl
all_less-without n id (x ∷ ids) k = ground (arith, k, all_less-without n id ids)

names_of-append :
    (name ip_port ids : List ℕ) (x : ℕ)
    → names_of name ip_port (ids ++ x ∷ [])
      ≡ names_of name ip_port ids ++ conn_name name ip_port x ∷ []
names_of-append name ip_port [] x = refl
names_of-append name ip_port (y ∷ ids) x =
    ap (λ ns. conn_name name ip_port y ∷ ns) (names_of-append name ip_port ids x)

-- The server has connections of these numbers, all below the next.
record Tracks (name ip_port : List ℕ) (s : TcpServer) (next : ℕ) (ids : List ℕ) : Type 0 where
  own_name : s.name ≡ name
  own_ip_port : s.ip_port ≡ ip_port
  number : s.next_conn_id ≡ next
  kept : names s.connections ≡ names_of name ip_port ids
  below : all_less next ids ≡ true

module _ (name ip_port : List ℕ) (short : length ip_port ≤ 40) where
  comes-Tracks :
      (sockfd : ℕ) (s : TcpServer) (next : ℕ) (ids : List ℕ)
      → Tracks name ip_port s next ids
      → next < most_ids
      → Tracks name ip_port (step (comes sockfd) s) (next + 1) (ids ++ next ∷ [])
  unfolding step new_connection
  comes-Tracks sockfd s next ids t small =
      let fresh : has_name (conn_name s.name s.ip_port s.next_conn_id) (names s.connections)
          ≡ false =
        rw (t.own_name, t.own_ip_port, t.number, t.kept)
          (new_name name ip_port short next ids small t.below) in
      record {
        own_name = t.own_name;
        own_ip_port = t.own_ip_port;
        number = rw t.number (omega (arith, small));
        kept =
            names-put _ s.connections fresh
            ∙ rw (t.own_name, t.own_ip_port, t.number, t.kept)
                (sym (names_of-append name ip_port ids next));
        below = all_less-append next ids t.below;
      }

  closes-Tracks :
      (id : ℕ) (s : TcpServer) (next : ℕ) (ids : List ℕ)
      → Tracks name ip_port s next ids
      → next ≤ most_ids
      → id < most_ids
      → Tracks name ip_port (step (closes id) s) next (without id ids)
  unfolding step remove_connection_in_loop
  closes-Tracks id s next ids t small h =
      let same : conn_name s.name s.ip_port id ≡ conn_name name ip_port id =
        rw (t.own_name, t.own_ip_port) refl in
      let gone : without_name (conn_name s.name s.ip_port id) (names s.connections)
          ≡ names_of name ip_port (without id ids) =
        rw (same, t.kept)
          (without_name-names_of name ip_port short id ids h
            (all_less-weaken next most_ids ids small t.below)) in
      let low = all_less-without next id ids t.below in
      elim (Option-cases (find_conn (conn_name s.name s.ip_port id) s.connections)) [
        | inl absent ↦
            rw (absent, step)
              (record {
                own_name = t.own_name;
                own_ip_port = t.own_ip_port;
                number = t.number;
                kept = sym (not_found (conn_name s.name s.ip_port id) s.connections absent) ∙ gone;
                below = low;
              })
        | inr (conn, here) ↦
            rw (here, step)
              (record {
                own_name = t.own_name;
                own_ip_port = t.own_ip_port;
                number = t.number;
                kept =
                    names-erase conn.name s.connections
                    ∙ ap (λ n. without_name n (names s.connections))
                        (found (conn_name s.name s.ip_port id) s.connections conn here)
                    ∙ gone;
                below = low;
              })
      ]

  run-Tracks :
      (events : List Event) (s : TcpServer) (next : ℕ) (ids : List ℕ)
      → Tracks name ip_port s next ids
      → next + length events < most_ids
      → all_less most_ids (closing events) ≡ true
      → names (run events s).connections ≡ names_of name ip_port (live events next ids)
  unfolding run live
  run-Tracks [] s next ids t small low = t.kept
  run-Tracks (comes sockfd ∷ events) s next ids t small low =
      run-Tracks events (step (comes sockfd) s) (next + 1) (ids ++ next ∷ [])
        (comes-Tracks sockfd s next ids t (omega (arith, small))) (omega (arith, small)) low
  run-Tracks (closes id ∷ events) s next ids t small low =
      run-Tracks events (step (closes id) s) next (without id ids)
        (closes-Tracks id s next ids t (omega (arith, small)) (ground (arith, low)))
        (omega (arith, small)) (ground (arith, low))

  -- Whatever connections come and close, in whatever order, the map of a new server holds in the end exactly the
  -- connections that came and have not closed, in their order, each under a name of its own: none takes the place of
  -- another. The address is one of an IPv4 address and a port, or not much longer, and the connections are fewer than
  -- an int can count.
  pub run-live :
      (base_loop : ℕ) (events : List Event)
      → 1 + length events < most_ids
      → all_less most_ids (closing events) ≡ true
      → names (run events (new_server base_loop ip_port name)).connections
        ≡ names_of name ip_port (live events 1 [])
  run-live base_loop events small low =
      run-Tracks events (new_server base_loop ip_port name) 1 []
        (record { own_name = refl; own_ip_port = refl; number = refl; kept = refl; below = refl })
        small low
