-- ===== src/Std/Net.antt =====
-- `std::net::IpAddr` and `SocketAddr`: an IPv4 address by its four octets, an IPv6 address by its
-- sixteen. The flow label and scope of an IPv6 socket address are left out.
use dht_spider.Prelude.{ℕ, ◌≡◌, refl, Bool, true, false, ◌&&◌, ◌==◌, Bytes, ◌<◌, arith}
use dht_spider.Std.Order.{bytes_eq, bytes_eq_iff}

pub data IpAddr : Type 0 where
  v4 : ℕ → ℕ → ℕ → ℕ → IpAddr
  v6 : Bytes → IpAddr

pub record SocketAddr : Type 0 where
  pub ip : IpAddr
  pub port : ℕ

unfoldable pub ip_eq : IpAddr → IpAddr → Bool
ip_eq (v4 a b c d) (v4 a' b' c' d') = a == a' && (b == b' && (c == c' && d == d'))
ip_eq (v6 s) (v6 s') = bytes_eq s s'
ip_eq _ _ = false

pub ip_eq→eq : (x y : IpAddr) → ip_eq x y ≡ true → x ≡ y
unfolding ip_eq
ip_eq→eq (v4 a b c d) (v4 a' b' c' d') h = ground arith
ip_eq→eq (v4 a b c d) (v6 s) h = cc
ip_eq→eq (v6 s) (v4 a b c d) h = cc
ip_eq→eq (v6 s) (v6 s') h = cc ((bytes_eq_iff s s').0 h)

pub ip_eq_refl : (x : IpAddr) → ip_eq x x ≡ true
unfolding ip_eq
ip_eq_refl (v4 a b c d) = ground arith
ip_eq_refl (v6 s) = (bytes_eq_iff s s).1 refl

unfoldable pub addr_eq : SocketAddr → SocketAddr → Bool
unfolding ip_eq
addr_eq a b = ip_eq a.ip b.ip && a.port == b.port

-- What the octets and the port of an address always are.
abbrev pub IsV4 : IpAddr → Type 0
IsV4 (v4 a b c d) = (a < 256) × (b < 256) × (c < 256) × (d < 256)
IsV4 (v6 s) = ⊥
