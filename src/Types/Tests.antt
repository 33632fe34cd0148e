-- ===== src/Types/Tests.antt =====
-- Runs of the reading of an info hash.
use dht_spider.Prelude.{◌≡◌, refl, codes, Bytes, ◌⊎◌, inr}
use dht_spider.Types.{ok, err, invalid_info_hash, decode_info_hash}

abbrev refused : Bytes → Bytes ⊎ Bytes
refused s = inr (codes "bad")

decode_raw :
    decode_info_hash refused (codes "abcdefghijklmnopqrst") ≡ ok (codes "abcdefghijklmnopqrst")
unfolding decode_info_hash
decode_raw = refl

decode_short : decode_info_hash refused (codes "abc") ≡ err invalid_info_hash
unfolding decode_info_hash
decode_short = refl
