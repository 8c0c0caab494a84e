-- ===== src/InetAddress/Text.antt =====
-- src/net/InetAddress.cc: the text of an address tells it, and is short.
use network_library.Prelude.{
  ℕ, zero, suc, Bool-cases, inl, inr, ◌==◌, ◌+◌, ◌*◌, ◌/◌, ◌%◌, ◌^◌, ◌≤◌, ◌<◌, ◌≡◌, refl, ap, ap₂,
  ◌∙◌, true, List, [], ◌∷◌, ◌++◌, arith, length, length-append,
}
use network_library.Http.Response.{digits, decimal}
use network_library.Http.Text.{lacks, lacks-append}
use network_library.TcpServer.Decimal.{decimal_inj, length-decimal}
use network_library.Logger.Stamp.{cut_inj, lacks-digits}
use network_library.InetAddress.{
  SockAddr, swap_bytes, quad, dotted, inet_ntop, new_address, to_ip, to_ip_port, to_port,
}

swap_bytes-swap_bytes : (v : ℕ) → v < 65536 → swap_bytes (swap_bytes v) ≡ v
swap_bytes-swap_bytes v h = omega (arith, h)

low_byte : (a r : ℕ) → a < 256 → (a + 256 * r) % 256 ≡ a
low_byte a r h = omega (arith, h)

high_bytes : (a r : ℕ) → a < 256 → (a + 256 * r) / 256 ≡ r
high_bytes a r h = omega (arith, h)

inet_ntop-quad :
    (a b c d : ℕ)
    → a < 256
    → b < 256
    → c < 256
    → d < 256
    → inet_ntop (quad a b c d) ≡ dotted a b c d
inet_ntop-quad a b c d ha hb hc hd =
    let r = b + 256 * (c + 256 * d) in
    let e2 = high_bytes a r ha in
    let e3 = ap (λ x. x / 256) e2 ∙ high_bytes b (c + 256 * d) hb in
    let e4 = ap (λ x. x / 256) e3 ∙ high_bytes c d hc in
    dotted_eq {d' = d} (low_byte a r ha) (ap (λ x. x % 256) e2 ∙ low_byte b (c + 256 * d) hb)
      (ap (λ x. x % 256) e3 ∙ low_byte c d hc) (ap (λ x. x % 256) e4 ∙ omega (arith, hd))
  where
    dotted_eq :
        {a b c d a' b' c' d' : ℕ}
        → a ≡ a'
        → b ≡ b'
        → c ≡ c'
        → d ≡ d'
        → dotted a b c d ≡ dotted a' b' c' d'
    dotted_eq e f g h = rw (e, f, g, h) refl

-- An address that is made of the text of four bytes and of a port gives them back: toIp the text, toPort the port, and
-- toIpPort both with a colon between. `inet_addr` reads this text as those bytes.
pub new_address_lem :
    (inet_addr : List ℕ → ℕ) (a b c d port : ℕ)
    → a < 256
    → b < 256
    → c < 256
    → d < 256
    → port < 65536
    → inet_addr (dotted a b c d) ≡ quad a b c d
    → (to_ip (new_address inet_addr port (dotted a b c d)) ≡ dotted a b c d)
      × (to_port (new_address inet_addr port (dotted a b c d)) ≡ port)
      × (to_ip_port (new_address inet_addr port (dotted a b c d))
          ≡ dotted a b c d ++ 58 ∷ decimal port)
unfolding to_ip to_port to_ip_port
new_address_lem inet_addr a b c d port ha hb hc hd hp reads =
    let text = ap inet_ntop reads ∙ inet_ntop-quad a b c d ha hb hc hd in
    let number = swap_bytes-swap_bytes port hp in
    (text, number, ap₂ (λ t n. t ++ 58 ∷ decimal n) text number)

no_dot : (n : ℕ) → lacks 46 (decimal n) ≡ true
no_dot n = lacks-digits 46 (suc n) n (omega arith)

-- A colon is no digit.
no_colon : (fuel n : ℕ) → lacks 58 (digits fuel n) ≡ true
no_colon zero n = refl
no_colon (suc fuel) n = elim (Bool-cases (n / 10 == 0)) [
  | inl small ↦ rw small (ground arith)
  | inr large ↦ rw large (
      lacks-append 58 (digits fuel (n / 10)) ((n % 10 + 48) ∷ [])
      ∙ ground (arith, no_colon fuel (n / 10)))
]

dotted-no_colon : (a b c d : ℕ) → lacks 58 (dotted a b c d) ≡ true
dotted-no_colon a b c d = ground (
  arith,
  lacks-append 58 (decimal a) (46 ∷ (decimal b ++ 46 ∷ (decimal c ++ 46 ∷ decimal d))),
  lacks-append 58 (decimal b) (46 ∷ (decimal c ++ 46 ∷ decimal d)),
  lacks-append 58 (decimal c) (46 ∷ decimal d),
  no_colon (suc a) a,
  no_colon (suc b) b,
  no_colon (suc c) c,
  no_colon (suc d) d,
)

dotted_inj :
    (a b c d a' b' c' d' : ℕ)
    → dotted a b c d ≡ dotted a' b' c' d'
    → (a ≡ a') × (b ≡ b') × (c ≡ c') × (d ≡ d')
dotted_inj a b c d a' b' c' d' e =
    let (ea, r1) =
      cut_inj 46 (decimal a) (decimal b ++ 46 ∷ (decimal c ++ 46 ∷ decimal d)) (decimal a')
        (decimal b' ++ 46 ∷ (decimal c' ++ 46 ∷ decimal d')) (no_dot a) (no_dot a') e in
    let (eb, r2) =
      cut_inj 46 (decimal b) (decimal c ++ 46 ∷ decimal d) (decimal b')
        (decimal c' ++ 46 ∷ decimal d') (no_dot b) (no_dot b') r1 in
    let (ec, ed) =
      cut_inj 46 (decimal c) (decimal d) (decimal c') (decimal d') (no_dot c) (no_dot c') r2 in
    (decimal_inj a a' ea, decimal_inj b b' eb, decimal_inj c c' ec, decimal_inj d d' ed)

inet_ntop-no_colon : (addr : ℕ) → lacks 58 (inet_ntop addr) ≡ true
inet_ntop-no_colon addr =
    dotted-no_colon (addr % 256) (addr / 256 % 256) (addr / 256 / 256 % 256)
      (addr / 256 / 256 / 256 % 256)

inet_ntop_inj : (p q : ℕ) → p < 2 ^ 32 → q < 2 ^ 32 → inet_ntop p ≡ inet_ntop q → p ≡ q
inet_ntop_inj p q hp hq e =
    let (ea, eb, ec, ed) =
      dotted_inj (p % 256) (p / 256 % 256) (p / 256 / 256 % 256) (p / 256 / 256 / 256 % 256)
        (q % 256) (q / 256 % 256) (q / 256 / 256 % 256) (q / 256 / 256 / 256 % 256) e in
    omega (arith, hp, hq, ea, eb, ec, ed)

-- Two addresses with the same toIpPort have the same address and the same port.
pub to_ip_port_inj :
    (p q : SockAddr)
    → p.s_addr < 2 ^ 32
    → q.s_addr < 2 ^ 32
    → p.sin_port < 2 ^ 16
    → q.sin_port < 2 ^ 16
    → to_ip_port p ≡ to_ip_port q
    → (p.s_addr ≡ q.s_addr) × (p.sin_port ≡ q.sin_port)
unfolding to_ip_port
to_ip_port_inj p q hp hq kp kq e =
    let (ips, ports) =
      cut_inj 58 (inet_ntop p.s_addr) (decimal (swap_bytes p.sin_port)) (inet_ntop q.s_addr)
        (decimal (swap_bytes q.sin_port)) (inet_ntop-no_colon p.s_addr)
        (inet_ntop-no_colon q.s_addr) e in
    let eport = decimal_inj (swap_bytes p.sin_port) (swap_bytes q.sin_port) ports in
    (inet_ntop_inj p.s_addr q.s_addr hp hq ips, omega (arith, kp, kq, eport))

length-byte : (n : ℕ) → n < 256 → length (decimal n) ≤ 3
length-byte n h = length-decimal n 2 (omega (arith, h))

-- toIpPort has at most 21 bytes, which its buffer of 64 takes with the NUL.
pub length-to_ip_port : (p : SockAddr) → length (to_ip_port p) ≤ 21
unfolding to_ip_port
length-to_ip_port p =
    short (p.s_addr % 256) (p.s_addr / 256 % 256) (p.s_addr / 256 / 256 % 256)
      (p.s_addr / 256 / 256 / 256 % 256) (swap_bytes p.sin_port) (omega arith) (omega arith)
      (omega arith) (omega arith) (omega arith)
  where
    short :
        (a b c d port : ℕ)
        → a < 256
        → b < 256
        → c < 256
        → d < 256
        → port < 65536
        → length (dotted a b c d ++ 58 ∷ decimal port) ≤ 21
    short a b c d port ha hb hc hd hp = omega (
      arith,
      length-append (dotted a b c d) (58 ∷ decimal port),
      length-append (decimal a) (46 ∷ (decimal b ++ 46 ∷ (decimal c ++ 46 ∷ decimal d))),
      length-append (decimal b) (46 ∷ (decimal c ++ 46 ∷ decimal d)),
      length-append (decimal c) (46 ∷ decimal d),
      length-byte a ha,
      length-byte b hb,
      length-byte c hc,
      length-byte d hd,
      length-decimal port 4 (omega (arith, hp)),
    )
