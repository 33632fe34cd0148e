-- ===== src/Dht/Announcing.antt =====
-- A search for peers that was sent for the sake of an announcement ends in the announcement.
use dht_spider.Prelude.{
  ℕ, ◌≡◌, refl, sym, subst, ap, ◌∙◌, Bool, true, false, none, some, List, [], ◌∷◌, ◌++◌, append-nil,
  append_assoc, Bytes, codes,
}
use dht_spider.Std.Net.{SocketAddr, addr_eq}
use dht_spider.Std.Decimal.{pos}
use dht_spider.Std.Order.{bytes_cmp, bytes_eq}
use dht_spider.Std.Map.{bytes_Eq, get-remove_self}
use dht_spider.Bencode.Value.{BVal, bytes, int, dict, Entries, empty, entry, get, dict_of}
use dht_spider.Krpc.{make_query}
use dht_spider.Transaction.{Transaction, gen_id, get_by_trans_id, finish_by_trans_id}
use dht_spider.Dht.{Dht, Output, sends, Outside, ask, select_id_for, as_bytes}
use dht_spider.Dht.Response.{
  finish, announce_args, ask_announce, found_nodes, found_peers, to_announce, to_peers,
  info_hash_of, on_response,
}
use dht_spider.Dht.Acts.{Says, and_then-Says, Says-weaken}
use dht_spider.Dht.Identity.{HasId, found_nodes-HasId, found_peers-HasId}

-- The arguments of an `announce_peer` query, in the order of their keys.
abbrev pub announcement : Bytes → Bytes → ℕ → Bool → Bytes → BVal
announcement id ih port true given = dict (
    entry (codes "id") (bytes id) (
      entry (codes "implied_port") (int (pos 1)) (
        entry (codes "info_hash") (bytes ih)
          (entry (codes "port") (int (pos port)) (entry (codes "token") (bytes given) empty)))))
announcement id ih port false given = dict (
    entry (codes "id") (bytes id) (
      entry (codes "info_hash") (bytes ih)
        (entry (codes "port") (int (pos port)) (entry (codes "token") (bytes given) empty))))

announce_args-announcement :
    (id ih : Bytes) (port : ℕ) (with_own : Bool) (given : Bytes)
    → announce_args id ih port with_own given ≡ announcement id ih port with_own given
unfolding dict_of bytes_cmp
announce_args-announcement id ih port true given = refl
announce_args-announcement id ih port false given = refl

ask_announce-sends :
    (o : Outside) (now : ℕ) (addr : SocketAddr) (ih : Bytes) (port : ℕ) (with_own : Bool)
    (remote_id given : Bytes) (d : Dht)
    → (ask_announce o now addr ih port with_own remote_id given d).1
      ≡ sends addr (
          make_query o.itoa
            (gen_id d.trans).0
            (codes "announce_peer")
            (announcement (select_id_for d (some remote_id)) ih port with_own given))
        ∷ []
unfolding ask_announce ask
ask_announce-sends o now addr ih port with_own remote_id given d =
    rw (announce_args-announcement (select_id_for d (some remote_id)) ih port with_own given) refl

module _ (o : Outside) (now : ℕ) (t : Bytes) (r : Entries) (remote_id ih given : Bytes) (port : ℕ)
    (addr : SocketAddr) (trans : Transaction) (own : Bytes) where
  -- The announcement to the asked node, and what else goes out before it.
  abbrev pub Ends : Dht → List Output → Type 0
  Ends d' out =
      (get_by_trans_id d'.trans t ≡ none)
      × (before : List Output) × (d1 : Dht) × (out
          ≡ before
            ++ sends trans.addr (
                make_query o.itoa (gen_id d1.trans).0 (codes "announce_peer")
                  (announcement own ih port trans.announce_implied_port given))
              ∷ [])

  Ends-after :
      (out : List Output) (d' : Dht) (more : List Output) → Ends d' more → Ends d' (out ++ more)
  Ends-after out d' more (ended, before, d1, e) = (
    ended,
    out ++ before,
    d1,
    ap (λ (xs : List Output). out ++ xs) e ∙ sym (append_assoc out before _),
  )

  module _ (kind : trans.qtype ≡ codes "get_peers") (hash : trans.info_hash ≡ some ih)
      (scheduled : trans.announce_port ≡ some port)
      (told : get (codes "token") r ≡ some (bytes given)) where
    to_announce-ends :
        (d : Dht)
        → let (d', out) =
            ask_announce o now trans.addr ih port trans.announce_implied_port remote_id given d in
          to_announce o now t r remote_id (some trans) d ≡ some (finish t d', out ++ [])
    unfolding bytes_eq
    to_announce-ends d = rw (kind, hash, scheduled, told) refl

    to_announce-Says :
        (d : Dht)
        → HasId remote_id own d
        → Says Ends (to_announce o now t r remote_id (some trans) d)
    unfolding get_by_trans_id finish_by_trans_id
    to_announce-Says d mine =
        let (d', out) =
          ask_announce o now trans.addr ih port trans.announce_implied_port remote_id given d in
        subst (Says Ends) (sym (to_announce-ends d)) (
          get-remove_self t d'.trans.map,
          [],
          d,
          append-nil out
              ∙ ask_announce-sends o now trans.addr ih port trans.announce_implied_port remote_id
                  given d
              ∙ rw mine refl,
        )

    to_peers-Says :
        (d : Dht) → HasId remote_id own d → Says Ends (to_peers o now t r remote_id (some trans) d)
    to_peers-Says d mine =
        let found = found_peers o t (info_hash_of (some trans)) (get (codes "values") r) d in
        let kept =
          found_peers-HasId remote_id own o t (info_hash_of (some trans)) (get (codes "values") r) d
            mine in
        and_then-Says (HasId remote_id own) Ends (some found)
          (to_announce o now t r remote_id (some trans)) kept
          λ d1 out mine'.
            Says-weaken Ends _ (to_announce o now t r remote_id (some trans) d1) (Ends-after out)
              (to_announce-Says d1 mine')

-- When a response from the asked address answers a `get_peers` query that was sent for the sake of
-- an announcement, and has a token, then, whatever nodes and peers it lists too and unless the
-- node panics, the last packet that goes out is an `announce_peer` query to that address, and the
-- `get_peers` transaction is over. The query has a transaction id that the table generates, and
-- its arguments are the id that the node had for the sender of the response, the info hash, the
-- scheduled port, the token of the response and, where the port is implied, `implied_port` as 1.
pub on_response-Says :
    (o : Outside) (now : ℕ) (t : Bytes) (r : Entries) (remote_id ih given : Bytes) (port : ℕ)
    (addr : SocketAddr) (trans : Transaction) (d : Dht)
    → addr_eq trans.addr addr ≡ true
    → trans.qtype ≡ codes "get_peers"
    → trans.info_hash ≡ some ih
    → trans.announce_port ≡ some port
    → get (codes "token") r ≡ some (bytes given)
    → Says
        (Ends o now t r remote_id ih given port addr trans (select_id_for d (some remote_id)))
        (on_response o now t r remote_id addr (some trans) d)
unfolding on_response
on_response-Says o now t r remote_id ih given port addr trans d same kind hash scheduled told =
    let own = select_id_for d (some remote_id) in
    let Q = Ends o now t r remote_id ih given port addr trans own in
    let rest = to_peers o now t r remote_id (some trans) in
    let nodes = as_bytes (get (codes "nodes") r) in
    rw same (
      and_then-Says (HasId remote_id own) Q (found_nodes o now (some trans) nodes d) rest
        (found_nodes-HasId remote_id own o now (some trans) nodes d refl)
        λ d1 out mine.
          Says-weaken Q _ (rest d1)
            (Ends-after o now t r remote_id ih given port addr trans own out)
            (to_peers-Says o now t r remote_id ih given port addr trans own kind hash scheduled told
              d1 mine))
