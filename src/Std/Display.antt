-- ===== src/Std/Display.antt =====
-- `Display` of `IpAddr` and `SocketAddr`: dotted decimals, and the shortened form of IPv6.
use dht_spider.Prelude.{
  ℕ, zero, suc, ◌+◌, ◌*◌, ◌/◌, ◌%◌, ◌≡◌, refl, Bool, ◌&&◌, List, [], ◌∷◌, ◌++◌, Bytes, codes, ltb,
  ◌==◌, if◌then◌else◌, take, drop, get_or,
}
use dht_spider.Std.Decimal.{decimal}
use dht_spider.Std.Net.{IpAddr, v4, v6, SocketAddr}

abbrev dotted : ℕ → ℕ → ℕ → ℕ → Bytes
dotted a b c d = decimal a ++ b'.' ∷ (decimal b ++ b'.' ∷ (decimal c ++ b'.' ∷ decimal d))

-- The eight 16-bit groups of sixteen octets.
unfoldable groups : Bytes → List ℕ
groups (a ∷ b ∷ s) = (a * 256 + b) ∷ groups s
groups _ = []

hex_digit : ℕ → ℕ
hex_digit n = if ltb n 10 then 48 + n else 87 + n

-- Lower-case hexadecimal with no leading zeros, of a number below 16 ^ fuel.
hex : ℕ → ℕ → Bytes
unfolding hex_digit
hex zero n = []
hex (suc fuel) n =
    let front = hex fuel (n / 16) in
    if ltb n 16 then hex_digit n ∷ [] else front ++ hex_digit (n % 16) ∷ []

-- Groups joined by colons.
colons : List ℕ → Bytes
unfolding hex
colons [] = []
colons (g ∷ []) = hex 4 g
colons (g ∷ g' ∷ gs) = hex 4 g ++ b':' ∷ colons (g' ∷ gs)

-- The first longest run of zero groups: its start and its length. `cur` is the run at hand.
longest : ℕ → ℕ × ℕ → ℕ × ℕ → List ℕ → ℕ × ℕ
longest i cur best [] = best
longest i (start, len) best (g ∷ gs) =
    let cur' = if len == 0 then (i, 1) else (start, len + 1) in
    let rest_zero = longest (i + 1) cur' (if ltb best.1 cur'.1 then cur' else best) gs in
    let rest_other = longest (i + 1) (0, 0) best gs in if g == 0 then rest_zero else rest_other

abbrev join_run : List ℕ → ℕ × ℕ → Bytes
join_run gs (start, len) =
    if ltb 1 len
    then colons (take start gs) ++ b':' ∷ b':' ∷ colons (drop (start + len) gs)
    else colons gs

-- `::ffff:a.b.c.d`
abbrev is_mapped : List ℕ → Bool
is_mapped gs =
    get_or gs 0 1 == 0
    && (get_or gs 1 1 == 0
        && (get_or gs 2 1 == 0
            && (get_or gs 3 1 == 0 && (get_or gs 4 1 == 0 && get_or gs 5 1 == 0xffff))))

unfoldable pub ip_string : IpAddr → Bytes
unfolding decimal groups hex colons longest
ip_string (v4 a b c d) = dotted a b c d
ip_string (v6 s) =
    let gs = groups s in
    if is_mapped gs
    then codes "::ffff:" ++ dotted (get_or s 12 0) (get_or s 13 0) (get_or s 14 0) (get_or s 15 0)
    else join_run gs (longest 0 (0, 0) (0, 0) gs)

abbrev pub bracketed : IpAddr → Bytes
bracketed (v4 a b c d) = ip_string (v4 a b c d)
bracketed (v6 s) = b'[' ∷ (ip_string (v6 s) ++ b']' ∷ [])

unfoldable pub addr_string : SocketAddr → Bytes
unfolding ip_string
addr_string a = bracketed a.ip ++ b':' ∷ decimal a.port

display_v4 : addr_string (record { ip = v4 10 0 0 255; port = 6881 }) ≡ codes "10.0.0.255:6881"
unfolding addr_string
display_v4 = refl

display_v6 :
    addr_string (record {
      ip = v6 (32 ∷ 1 ∷ 13 ∷ 184 ∷ 0 ∷ 0 ∷ 0 ∷ 0 ∷ 0 ∷ 0 ∷ 0 ∷ 1 ∷ 0 ∷ 0 ∷ 0 ∷ 1 ∷ []);
      port = 80;
    })
    ≡ codes "[2001:db8::1:0:1]:80"
unfolding addr_string
display_v6 = refl

display_mapped :
    ip_string (v6 (0 ∷ 0 ∷ 0 ∷ 0 ∷ 0 ∷ 0 ∷ 0 ∷ 0 ∷ 0 ∷ 0 ∷ 255 ∷ 255 ∷ 1 ∷ 2 ∷ 3 ∷ 4 ∷ []))
    ≡ codes "::ffff:1.2.3.4"
unfolding ip_string
display_mapped = refl
