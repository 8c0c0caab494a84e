-- ===== src/TcpServer/Live.antt =====
-- src/net/TcpServer.cc: the map of connections holds those that were accepted and not removed.
use network_library.Prelude.{
  ℕ, ◌+◌, ◌≤◌, ◌<◌, ◌≡◌, refl, sym, ap, ◌∙◌, subst, Bool, true, false, ◌&&◌, ◌||◌, List, [], ◌∷◌,
  ◌++◌, Option, none, some, arith, length, ltb, ◌==◌, if◌then◌else◌, Bool-cases, inl, inr,
}
use network_library.Prelude.Options.{some_inj}
use network_library.Http.Text.{same_bytes, same_bytes_refl, eq_of_same_bytes}
use network_library.TcpServer.{
  Conn, TcpServer, put, erase, conn_name, new_connection, remove_connection_in_loop,
}
use network_library.TcpServer.Names.{most_ids, conn_name_inj}

-- A client comes on a socket, or the connection of a number closes, if there is one.
pub data Event : Type 0 where
  comes : ℕ → Event
  closes : ℕ → Event

abbrev pub find_conn : List ℕ → List Conn → Option Conn
find_conn name [] = none
find_conn name (c ∷ cs) = elim (same_bytes c.name name) [
  | true ↦ some c
  | false ↦ find_conn name cs
]

unfoldable pub step : Event → TcpServer → TcpServer
step (comes sockfd) s = new_connection sockfd s
step (closes id) s = elim (find_conn (conn_name s.name s.ip_port id) s.connections) [
  | none ↦ s
  | some conn ↦ remove_connection_in_loop conn s
]

unfoldable pub run : List Event → TcpServer → TcpServer
run [] s = s
run (e ∷ events) s = run events (step e s)

-- The same of numbers: the next one, and those of the connections.
abbrev pub without : ℕ → List ℕ → List ℕ
without id [] = []
without id (x ∷ xs) = if x == id then xs else x ∷ without id xs

unfoldable pub live : List Event → ℕ → List ℕ → List ℕ
live [] next ids = ids
live (comes sockfd ∷ events) next ids = live events (next + 1) (ids ++ next ∷ [])
live (closes id ∷ events) next ids = live events next (without id ids)

-- Every number is below a bound.
abbrev pub all_less : ℕ → List ℕ → Bool
all_less bound [] = true
all_less bound (x ∷ xs) = ltb x bound && all_less bound xs

-- The numbers of the connections that close.
abbrev pub closing : List Event → List ℕ
closing [] = []
closing (comes sockfd ∷ events) = closing events
closing (closes id ∷ events) = id ∷ closing events

abbrev pub names : List Conn → List (List ℕ)
names [] = []
names (c ∷ cs) = c.name ∷ names cs

abbrev pub names_of : List ℕ → List ℕ → List ℕ → List (List ℕ)
names_of name ip_port [] = []
names_of name ip_port (id ∷ ids) = conn_name name ip_port id ∷ names_of name ip_port ids

abbrev pub has_name : List ℕ → List (List ℕ) → Bool
has_name name [] = false
has_name name (n ∷ ns) = same_bytes n name || has_name name ns

abbrev pub without_name : List ℕ → List (List ℕ) → List (List ℕ)
without_name name [] = []
without_name name (n ∷ ns) = if same_bytes n name then ns else n ∷ without_name name ns

pub names-put :
    (conn : Conn) (cs : List Conn)
    → has_name conn.name (names cs) ≡ false
    → names (put conn cs) ≡ names cs ++ conn.name ∷ []
unfolding put
names-put conn [] h = refl
names-put conn (c ∷ cs) h =
    let other : same_bytes c.name conn.name ≡ false = ground (arith, h) in
    rw (other, put) (ap (λ ns. c.name ∷ ns) (names-put conn cs (ground (arith, h))))

pub names-erase :
    (name : List ℕ) (cs : List Conn) → names (erase name cs) ≡ without_name name (names cs)
unfolding erase
names-erase name [] = refl
names-erase name (c ∷ cs) = elim (Bool-cases (same_bytes c.name name)) [
  | inl same ↦ rw (same, erase) refl
  | inr other ↦ rw (other, erase) (ap (λ ns. c.name ∷ ns) (names-erase name cs))
]

-- A connection that is found has the name; if none is found, no connection has it.
pub found :
    (name : List ℕ) (cs : List Conn) (conn : Conn)
    → find_conn name cs ≡ some conn
    → conn.name ≡ name
found name [] conn e = cc
found name (c ∷ cs) conn e = elim (Bool-cases (same_bytes c.name name)) [
  | inl same ↦
      subst (λ x. x.name ≡ name) (some_inj (rw (same, find_conn) at e))
        (eq_of_same_bytes c.name name same)
  | inr other ↦ found name cs conn (rw (other, find_conn) at e)
]

pub not_found :
    (name : List ℕ) (cs : List Conn)
    → find_conn name cs ≡ none
    → without_name name (names cs) ≡ names cs
not_found name [] e = refl
not_found name (c ∷ cs) e = elim (Bool-cases (same_bytes c.name name)) [
  | inl same ↦ absurd (ground (arith, same, e))
  | inr other ↦ rw other (ap (λ ns. c.name ∷ ns) (not_found name cs (rw (other, find_conn) at e)))
]

module _ (name ip_port : List ℕ) (short : length ip_port ≤ 40) where
  same_name :
      (a b : ℕ)
      → a < most_ids
      → b < most_ids
      → same_bytes (conn_name name ip_port a) (conn_name name ip_port b) ≡ (a == b)
  same_name a b h k =
      elim (Bool-cases (same_bytes (conn_name name ip_port a) (conn_name name ip_port b))) [
        | inl same ↦
            let e : a ≡ b =
              conn_name_inj name ip_port a b short h k
                (eq_of_same_bytes (conn_name name ip_port a) (conn_name name ip_port b) same) in
            same ∙ ground (arith, e)
        | inr other ↦ elim (Bool-cases (a == b)) [
          | inr apart ↦ other ∙ sym apart
          | inl equal ↦ absurd (clash (ground (arith, equal)) other)
        ]
      ]
    where
      clash : a ≡ b → same_bytes (conn_name name ip_port a) (conn_name name ip_port b) ≡ false → ⊥
      clash e other =
          let both =
            subst (λ c. same_bytes (conn_name name ip_port a) (conn_name name ip_port c) ≡ true) e
              (same_bytes_refl (conn_name name ip_port a)) in
          ground (arith, sym both ∙ other)

  pub without_name-names_of :
      (id : ℕ) (ids : List ℕ)
      → id < most_ids
      → all_less most_ids ids ≡ true
      → without_name (conn_name name ip_port id) (names_of name ip_port ids)
        ≡ names_of name ip_port (without id ids)
  without_name-names_of id [] h k = refl
  without_name-names_of id (x ∷ ids) h k = elim (Bool-cases (x == id)) [
    | inl same ↦ rw (same_name x id (ground (arith, k)) h, same) refl
    | inr other ↦
        rw (same_name x id (ground (arith, k)) h, other)
          (ap (λ ns. conn_name name ip_port x ∷ ns)
            (without_name-names_of id ids h (ground (arith, k))))
  ]

  -- A number that none of the connections has is the number of no name.
  pub new_name :
      (id : ℕ) (ids : List ℕ)
      → id < most_ids
      → all_less id ids ≡ true
      → has_name (conn_name name ip_port id) (names_of name ip_port ids) ≡ false
  new_name id [] h k = refl
  new_name id (x ∷ ids) h k =
      let below : x < id = ground (arith, k) in
      rw (same_name x id (omega (arith, below, h)) h)
        (ground (arith, below, new_name id ids h (ground (arith, k))))
