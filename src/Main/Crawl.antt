-- ===== src/Main/Crawl.antt =====
-- From an announcement to the node to a request for a download.
use dht_spider.Prelude.{
  ℕ, ◌≡◌, refl, Bool, true, false, ◌&&◌, [], ◌∷◌, ◌++◌, Bytes, length, ◌==◌, ==_iff, if◌then◌else◌,
  Bool-cases, inl, inr,
}
use dht_spider.Std.Net.{SocketAddr}
use dht_spider.Std.Display.{ip_string}
use dht_spider.Std.Utf8.{from_utf8_lossy}
use dht_spider.Types.{Mode, standard, crawl}
use dht_spider.Token.{check}
use dht_spider.Dht.{Dht, Outside, emits, peer_announced}
use dht_spider.Dht.Request.{announce, announced, respond}
use dht_spider.Main.{wire_requests}

module _ (o : Outside) (ih : Bytes) (decodes : o.hex_decode (o.hex_encode ih) ≡ inl ih) where
  announced-wire_requests :
      (mode : Mode) (d : Dht) (t remote_id given ip : Bytes) (port : ℕ) (addr : SocketAddr)
      (set : Bool)
      → length ih ≡ 20
      → set ≡ true
      → wire_requests o.hex_decode (
          (announced o mode d t remote_id ih given port addr).1
          ++ emits set (peer_announced (o.hex_encode ih) ip port))
        ≡ record { info_hash = ih; ip = ip; port = port } ∷ []
  unfolding wire_requests respond
  announced-wire_requests crawl d t remote_id given ip port addr true len h = rw (decodes, len) refl
  announced-wire_requests crawl d t remote_id given ip port addr false len h = cc
  announced-wire_requests standard d t remote_id given ip port addr true len h =
      rw (decodes, len) refl
  announced-wire_requests standard d t remote_id given ip port addr false len h = cc

  -- With the callback for announcements set, and if `hex::decode` undoes `hex::encode`, an
  -- announcement with a right token and an info hash of twenty bytes leads to the request for one
  -- download, of that torrent from that peer; any other leads to none.
  pub announce-wire_requests :
      (d : Dht) (t remote_id given : Bytes) (port : ℕ) (addr : SocketAddr)
      → d.callbacks.on_announce_peer ≡ true
      → wire_requests o.hex_decode (announce o d t remote_id ih given port addr).1 ≡ (
          if (check d.tokens addr.ip (from_utf8_lossy given)).0 && length ih == 20
          then record { info_hash = ih; ip = ip_string addr.ip; port = port } ∷ []
          else [])
  unfolding announce wire_requests
  announce-wire_requests d t remote_id given port addr set =
      elim (Bool-cases (check d.tokens addr.ip (from_utf8_lossy given)).0) [
        | inl right ↦ elim (Bool-cases (length ih == 20)) [
          | inl twenty ↦
              rw (right, twenty)
                (announced-wire_requests d.cfg.mode
                  (record d { tokens = (check d.tokens addr.ip (from_utf8_lossy given)).1 }) t
                  remote_id given (ip_string addr.ip) port addr d.callbacks.on_announce_peer
                  ((==_iff (length ih) 20).0 twenty) set)
          | inr odd ↦ rw (right, odd) refl
        ]
        | inr wrong ↦ rw wrong refl
      ]
