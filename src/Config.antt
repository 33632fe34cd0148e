-- ===== src/Config.antt =====
-- `Config` of src/dht.rs and its default. `Duration`s are nanoseconds.
use dht_spider.Prelude.{ℕ, List, [], ◌∷◌, Bytes, codes}
use dht_spider.Types.{Mode, standard}
use dht_spider.BlackList.{secs}

pub record Config : Type 0 where
  pub k : ℕ
  pub kbucket_size : ℕ
  pub network : Bytes
  pub address : Bytes
  pub prime_nodes : List Bytes
  pub kbucket_expired_after : ℕ
  pub node_expired_after : ℕ
  pub check_kbucket_period : ℕ
  pub token_expired_after : ℕ
  pub max_nodes : ℕ
  pub blocked_ips : List Bytes
  pub blacklist_max_size : ℕ
  pub mode : Mode
  pub refresh_node_num : ℕ
  pub try_times : ℕ

abbrev prime_hosts : List Bytes
prime_hosts =
    codes "router.bittorrent.com:6881"
    ∷ codes "dht.transmissionbt.com:6881"
    ∷ codes "router.utorrent.com:6881"
    ∷ codes "router.bitcomet.com:6881"
    ∷ codes "dht.aelitis.com:6881"
    ∷ codes "dht.libtorrent.org:25401"
    ∷ codes "router.bittorrentcloud.com:6881"
    ∷ codes "dht.anaconda.com:6881"
    ∷ codes "dht.vuze.com:6881"
    ∷ codes "dht.transmissionbt.net:6881"
    ∷ codes "router.silotis.us:6881"
    ∷ codes "router.ktorrent.com:6881"
    ∷ codes "router.tribler.org:6881"
    ∷ codes "router.bittorrent.jp:6881"
    ∷ codes "router.cn.utorrent.com:6881"
    ∷ codes "router.bittorrent.ru:6881"
    ∷ codes "router.bittorrent.kr:6881"
    ∷ []

unfoldable pub default : Config
default = record {
  k = 8;
  kbucket_size = 8;
  network = codes "udp4";
  address = codes ":6881";
  prime_nodes = prime_hosts;
  kbucket_expired_after = secs 900;
  node_expired_after = secs 900;
  check_kbucket_period = secs 30;
  token_expired_after = secs 600;
  max_nodes = 5000;
  blocked_ips = [];
  blacklist_max_size = 65536;
  mode = standard;
  refresh_node_num = 8;
  try_times = 2;
}
