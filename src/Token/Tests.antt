-- ===== src/Token/Tests.antt =====
-- Runs of the token manager, and the theorems at concrete inputs.
use dht_spider.Prelude.{◌≡◌, refl, [], ◌∷◌, true, false, codes}
use dht_spider.Std.Net.{IpAddr, v4, ip_eq}
use dht_spider.Std.Order.{bytes_eq}
use dht_spider.Token.{TokenManager, new, token, check, clear_expired}
use dht_spider.Token.Laws.{check-token, check-token_ne}

program : Unit {0}
unfolding new token check clear_expired ip_eq bytes_eq
program = tt

abbrev here : IpAddr
here = v4 10 0 0 1

abbrev held : TokenManager
held = record { map = (here, (codes "abcde", 7)) ∷ []; expiry = 600 }

token_runs : token (new 600) 7 (codes "abcde") here ≡ (codes "abcde", held)
unfolding program
token_runs = refl

token_later : token held 600 (codes "fghij") here ≡ (codes "abcde", held)
unfolding program
token_later = refl

clear_runs : clear_expired held 607 ≡ record held { map = [] }
unfolding program
clear_runs = refl

check-token_example :
    ((check held here (codes "abcde")).0 ≡ true)
    × ((check (check held here (codes "abcde")).1 here (codes "abcde")).0 ≡ false)
unfolding program
check-token_example = check-token (new 600) 7 (codes "abcde") here

check-token_ne_example :
    ((check held here (codes "xxxxx")).0 ≡ false)
    × ((check (check held here (codes "xxxxx")).1 here (codes "abcde")).0 ≡ false)
unfolding program
check-token_ne_example = check-token_ne (new 600) 7 (codes "abcde") here (codes "xxxxx") refl
