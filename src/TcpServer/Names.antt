-- ===== src/TcpServer/Names.antt =====
-- src/net/TcpServer.cc: the names of the connections keep them apart.
use network_library.Prelude.{
  ℕ, ◌^◌, ◌≤◌, ◌<◌, ◌≡◌, sym, ap, ◌∙◌, List, [], ◌∷◌, ◌++◌, arith, length, length-append, take,
  take-all,
}
use network_library.Http.Response.{decimal}
use network_library.TcpServer.{conn_name, int_text}
use network_library.TcpServer.Decimal.{decimal_inj, length-decimal}

-- The numbers that nextConnId_ can count to are below this.
abbrev pub most_ids : ℕ
most_ids = 2 ^ 31

append_cancel : (front xs ys : List ℕ) → front ++ xs ≡ front ++ ys → xs ≡ ys
append_cancel [] xs ys e = e
append_cancel (x ∷ front) xs ys e = append_cancel front xs ys (tail_eq e)
  where
    tail_of : List ℕ → List ℕ
    tail_of [] = []
    tail_of (y ∷ zs) = zs

    tail_eq : {y : ℕ} {zs ws : List ℕ} → y ∷ zs ≡ y ∷ ws → zs ≡ ws
    tail_eq e = ap tail_of e

int_text-decimal : (n : ℕ) → n < most_ids → int_text n ≡ decimal n
int_text-decimal n h = ground (arith, h)

-- No name is cut off, so it tells the number of the connection.
pub conn_name_inj :
    (name ip_port : List ℕ) (a b : ℕ)
    → length ip_port ≤ 40
    → a < most_ids
    → b < most_ids
    → conn_name name ip_port a ≡ conn_name name ip_port b
    → a ≡ b
unfolding conn_name
conn_name_inj name ip_port a b short small small' e =
    let plain : name ++ take 63 (45 ∷ ip_port ++ 35 ∷ decimal a)
        ≡ name ++ take 63 (45 ∷ ip_port ++ 35 ∷ decimal b) =
      sym (ap (λ s. name ++ take 63 (45 ∷ ip_port ++ 35 ∷ s)) (int_text-decimal a small))
      ∙ e
      ∙ ap (λ s. name ++ take 63 (45 ∷ ip_port ++ 35 ∷ s)) (int_text-decimal b small') in
    let cut : take 63 (45 ∷ ip_port ++ 35 ∷ decimal a) ≡ take 63 (45 ∷ ip_port ++ 35 ∷ decimal b) =
      append_cancel name (take 63 (45 ∷ ip_port ++ 35 ∷ decimal a))
        (take 63 (45 ∷ ip_port ++ 35 ∷ decimal b)) plain in
    let whole =
      sym (take-all 63 (45 ∷ ip_port ++ 35 ∷ decimal a) (fits a small))
      ∙ cut
      ∙ take-all 63 (45 ∷ ip_port ++ 35 ∷ decimal b) (fits b small') in
    decimal_inj a b (
      append_cancel (35 ∷ []) (decimal a) (decimal b)
        (append_cancel (45 ∷ ip_port) (35 ∷ decimal a) (35 ∷ decimal b) whole))
  where
    fits : (n : ℕ) → n < most_ids → length (45 ∷ ip_port ++ 35 ∷ decimal n) ≤ 63
    fits n h = omega (
      arith,
      short,
      length-append ip_port (35 ∷ decimal n),
      length-decimal n 9 (omega (arith, h)),
    )
