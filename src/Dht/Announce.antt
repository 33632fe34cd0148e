-- ===== src/Dht/Announce.antt =====
-- An announcement counts with the token of the answer to `get_peers`, and only with it.
use dht_spider.Prelude.{
  ℕ, zero, suc, ◌%◌, ◌^◌, ◌<◌, ◌≡◌, refl, Bool, true, false, Option, none, some, arith, Bytes,
  codes, length, leb, ◌==◌, Bool-cases, inl, inr, ap, ◌∙◌,
}
use dht_spider.Std.Decimal.{ℤ, pos, negsuc}
use dht_spider.Std.Net.{SocketAddr}
use dht_spider.Std.Order.{bytes_eq}
use dht_spider.Std.Utf8.{from_utf8_lossy}
use dht_spider.Types.{Peer, Mode, standard, crawl}
use dht_spider.Bencode.Value.{BVal, bytes, int, list, dict, Entries, get}
use dht_spider.Peers as Peers
use dht_spider.Token.{TokenManager, token, check}
use dht_spider.Token.Laws.{check-token_iff, check-check}
use dht_spider.Config.{Config}
use dht_spider.Dht.{Dht, Outside, as_int}
use dht_spider.Dht.Request.{implied, port_of, on_get_peers, announced, announce, on_announce_peer}

-- What an announcement leaves of the peers.
abbrev pub kept : Bool → Peers.PeersManager → Bytes → Peer → Peers.PeersManager
kept true m ih p = Peers.insert m ih p
kept false m ih p = m

announce-kept :
    (o : Outside) (d : Dht) (t remote_id ih given : Bytes) (port : ℕ) (addr : SocketAddr)
    → d.cfg.mode ≡ standard
    → (length ih == 20) ≡ true
    → (announce o d t remote_id ih given port addr).0.peers
      ≡ kept
          (check d.tokens addr.ip (from_utf8_lossy given)).0
          d.peers
          ih
          (record { ip = addr.ip; port = port; token = some (from_utf8_lossy given) })
unfolding announce
announce-kept o d t remote_id ih given port addr mode len =
    elim (Bool-cases (check d.tokens addr.ip (from_utf8_lossy given)).0) [
      | inl right ↦ rw (right, len, mode) refl
      | inr wrong ↦ rw wrong refl
    ]

announce-rest :
    (o : Outside) (d : Dht) (t remote_id ih given : Bytes) (port : ℕ) (addr : SocketAddr)
    → let d' = (announce o d t remote_id ih given port addr).0 in
      (d'.cfg ≡ d.cfg) × (d'.tokens ≡ (check d.tokens addr.ip (from_utf8_lossy given)).1)
unfolding announce
announce-rest o d t remote_id ih given port addr =
    elim (Bool-cases (check d.tokens addr.ip (from_utf8_lossy given)).0) [
      | inl right ↦ elim (Bool-cases (length ih == 20)) [
        | inl twenty_bytes ↦ rw (right, twenty_bytes) (stored d.cfg.mode)
        | inr odd ↦ rw (right, odd) (refl, refl)
      ]
      | inr wrong ↦ rw wrong (refl, refl)
    ]
  where
    used : Dht
    used = record d { tokens = (check d.tokens addr.ip (from_utf8_lossy given)).1 }

    stored :
        (mode : Mode)
        → let d' = (announced o mode used t remote_id ih given port addr).0 in
          (d'.cfg ≡ d.cfg) × (d'.tokens ≡ used.tokens)
    stored crawl = (refl, refl)
    stored standard = (refl, refl)

announce-twice :
    (o : Outside) (d : Dht) (t remote_id ih given : Bytes) (port : ℕ) (addr : SocketAddr)
    → d.cfg.mode ≡ standard
    → (length ih == 20) ≡ true
    → let d2 = (announce o d t remote_id ih given port addr).0 in
      (announce o d2 t remote_id ih given port addr).0.peers ≡ d2.peers
announce-twice o d t remote_id ih given port addr mode len =
    let (same, used) = announce-rest o d t remote_id ih given port addr in
    let d2 = (announce o d t remote_id ih given port addr).0 in
    let text = from_utf8_lossy given in
    let p : Peer = record { ip = addr.ip; port = port; token = some text } in
    let refused : (check d2.tokens addr.ip text).0 ≡ false =
      ap (λ (m : TokenManager). (check m addr.ip text).0) used
      ∙ check-check d.tokens addr.ip text text in
    announce-kept o d2 t remote_id ih given port addr (ap (λ (c : Config). c.mode) same ∙ mode) len
    ∙ ap (λ (v : Bool). kept v d2.peers ih p) refused

answered :
    (o : Outside) (d : Dht) (now : ℕ) (random t ih : Bytes) (a : Entries) (addr : SocketAddr)
    → get (codes "info_hash") a ≡ some (bytes ih)
    → (length ih == 20) ≡ true
    → (on_get_peers o d now random t a addr).0
      ≡ record d { tokens = (token d.tokens now random addr.ip).1 }
unfolding on_get_peers
answered o d now random t ih a addr asked len = rw (asked, len) refl

announces :
    (o : Outside) (d : Dht) (t remote_id ih given : Bytes) (a : Entries) (n : ℤ) (addr : SocketAddr)
    → get (codes "info_hash") a ≡ some (bytes ih)
    → get (codes "token") a ≡ some (bytes given)
    → get (codes "port") a ≡ some (int n)
    → on_announce_peer o d t a remote_id addr
      ≡ announce o d t remote_id ih given
          (implied (as_int (get (codes "implied_port") a)) (port_of n) addr.port)
          addr
unfolding on_announce_peer
announces o d t remote_id ih given a n addr told with_token with_port =
    rw (told, with_token, with_port) refl

-- The port that an announcement means: the packet's own one for an `implied_port` other than 0.
abbrev pub meant_port : Option BVal → ℕ → ℕ → ℕ
meant_port (some (int (pos zero))) n sender = n
meant_port (some (int (pos (suc flag)))) n sender = sender
meant_port (some (int (negsuc flag))) n sender = sender
meant_port (some (bytes b)) n sender = n
meant_port (some (list l)) n sender = n
meant_port (some (dict m)) n sender = n
meant_port none n sender = n

port_of_lem : (n : ℕ) → n < 2 ^ 16 → port_of (pos n) ≡ n
unfolding port_of
port_of_lem n h =
    let whole : n % 2 ^ 64 ≡ n = omega arith in
    let low : n % 2 ^ 32 ≡ n = omega arith in
    let small : n % 2 ^ 16 ≡ n = omega arith in
    let positive : leb (2 ^ 31) n ≡ false = ground arith in rw (whole, low, positive, small) refl

implied-meant :
    (v : Option BVal) (n sender : ℕ) → implied (as_int v) n sender ≡ meant_port v n sender
unfolding implied
implied-meant (some (int (pos zero))) n sender = refl
implied-meant (some (int (pos (suc flag)))) n sender = ground arith
implied-meant (some (int (negsuc flag))) n sender = refl
implied-meant (some (bytes b)) n sender = refl
implied-meant (some (list l)) n sender = refl
implied-meant (some (dict m)) n sender = refl
implied-meant none n sender = refl

-- A node in the standard mode answers `get_peers` for an info hash of twenty bytes to an address,
-- and then gets an `announce_peer` for it from there with a token and a port from 0 to 65535. It
-- stores the peer if the token, as text, is the one of the answer, and leaves the peers as they
-- were otherwise. The peer is stored with the packet's own port where `implied_port` is an integer
-- other than 0, and with the port of the announcement where it is 0, no integer or missing. The
-- same announcement once more changes the peers no further.
pub announce-get_peers :
    (o : Outside) (d : Dht) (now : ℕ) (random t t' remote_id ih given : Bytes) (a a' : Entries)
    (n : ℕ) (addr : SocketAddr)
    → d.cfg.mode ≡ standard
    → (length ih == 20) ≡ true
    → get (codes "info_hash") a ≡ some (bytes ih)
    → get (codes "info_hash") a' ≡ some (bytes ih)
    → get (codes "token") a' ≡ some (bytes given)
    → get (codes "port") a' ≡ some (int (pos n))
    → n < 2 ^ 16
    → let d1 = (on_get_peers o d now random t a addr).0 in
      let d2 = (on_announce_peer o d1 t' a' remote_id addr).0 in
      let port = meant_port (get (codes "implied_port") a') n addr.port in
      let valid = bytes_eq (token d.tokens now random addr.ip).0 (from_utf8_lossy given) in
      let p : Peer = record { ip = addr.ip; port = port; token = some (from_utf8_lossy given) } in
      (d2.peers ≡ kept valid d.peers ih p)
      × ((on_announce_peer o d2 t' a' remote_id addr).0.peers ≡ d2.peers)
announce-get_peers o d now random t t' remote_id ih given a a' n addr mode len asked told with_token
      with_port small =
    let port = meant_port (get (codes "implied_port") a') n addr.port in
    let p : Peer = record { ip = addr.ip; port = port; token = some (from_utf8_lossy given) } in
    let d1 : Dht = record d { tokens = (token d.tokens now random addr.ip).1 } in
    let valid = check-token_iff d.tokens now random addr.ip (from_utf8_lossy given) in
    let meant = implied-meant (get (codes "implied_port") a') n addr.port in
    rw
      (
        answered o d now random t ih a addr asked len,
        announces o d1 t' remote_id ih given a' (pos n) addr told with_token with_port,
        port_of_lem n small,
        meant,
      )
      (
        announce-kept o d1 t' remote_id ih given port addr mode len
            ∙ ap (λ (v : Bool). kept v d1.peers ih p) valid,
        rw
            (
              announces o (announce o d1 t' remote_id ih given port addr).0 t' remote_id ih given a'
                  (pos n) addr told with_token with_port,
              port_of_lem n small,
              meant,
            )
            (announce-twice o d1 t' remote_id ih given port addr mode len),
      )
