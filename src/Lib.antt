-- ===== src/Lib.antt =====
-- A model of dht-spider, a crawler of the BitTorrent distributed hash table, and what is proved of
-- it.
--
-- The parts and how they interact. A packet from the socket is decoded by the bencode codec and
-- taken apart by the KRPC helpers; the DHT's handlers then consult the routing table and the
-- managers of tokens, peers, blocked addresses and pending queries, and answer with messages that
-- the same helpers build.
--
--   Bencode (src/bencode.rs): Value has the values and errors, `BVal::List` and `BVal::Dict` as
--     the lists `Items` and `Entries`, and `BTreeMap` as entries in the order of their keys.
--     Decode and Encode have one function for each function of the file. Text is the canonical
--     form of a value; Cursor, Atoms, Append, Collect, RoundTrip and Sound hold the proofs.
--   Util (src/util.rs): compact addresses and nodes, and integers as bytes.
--   Types (src/types.rs): nodes, peers, errors, `decode_info_hash`.
--   Krpc (src/krpc.rs): the messages of the protocol.
--   BlackList (src/blacklist.rs), Peers (src/peers.rs), Token (src/token.rs), Transaction
--     (src/transaction.rs): the managers, each a record with one function for each method, which
--     returns the new state beside its result.
--   Bitmap (src/bitmap.rs): strings of bits; Bits and Laws say what the operations do to each bit,
--     Distance what comparing two whole bitmaps means.
--   Routing (src/routing.rs): Bucket, Tree, Table and Queries have the code from one bucket up to
--     the table: `insert` in Table, lookups and upkeep in Queries. A bucket behind an `Arc` is its
--     place in a store, because `cached_buckets` refers to the buckets of the tree. The other
--     modules hold the proofs.
--   Wire (src/wire.rs): Frame has the framing and the handshake, Download what `fetch_metadata`
--     does with each message, as a step from a state to an outcome, and Fetch the whole of it on
--     the bytes that the peer sends; Queue has `WireRunner::run` as a fold over requests, ends of
--     downloads and cleanings, with a copy of the queue for each `clone` of it.
--   Dht (src/dht.rs, src/command.rs): the node. Config.antt has its configuration, Dht.antt its
--     state and the queries that it sends; Request has `handle_request`, Response
--     `handle_response` and `handle_packet`, Tick the timers of `run` and of `start`, Command the
--     method `get_peers` and the loops of `start` and `run`, as folds over the ticks, commands and
--     packets that they receive. Each returns the new state with the list of what goes out
--     (datagrams and calls of callbacks), or none where an index or an assertion fails and the
--     code panics; the depth of the stack is not modelled. Acts has the postconditions of such
--     work; the other modules hold the proofs.
--   Logger (src/logger.rs): the name of the log file of an hour, and which file a line goes to.
--   Storage (src/storage.rs): the statements of the table of torrents. Engine has the laws of the
--     statements that SQLite documents, Order what they leave to it, Memory an engine that fulfils
--     them.
--   Web (src/web.rs): the handlers of the API as functions from a request's fields and the state
--     of the table to the fields of the answer, with the command for the node that a search leads
--     to.
--   Main (src/main.rs): the argument, the set-up of the node, the requests for downloads that the
--     callbacks make of the node's outputs, and what the task for metadata logs and stores.
--   Prelude: names, Boolean tests and list lemmas that all files share. Std: what the program uses
--     of Rust's standard library (UTF-8, decimal numbers, signed arithmetic, the order of byte
--     strings, the bits of a byte, addresses and their text, hash maps).
--
-- Bytes are numbers, and a `String` is the list of its bytes. Machine integers are natural numbers
-- with their wrap-around written out; sums of indexes wrap at 64 bits, as in a release build. The
-- clock and random bytes are arguments. A `HashMap` or `DashMap` is a list of entries with one
-- entry for each key; one call runs at a time, as under the locks of the managers. A decoder runs
-- on fuel: `fuel_for` gives three calls for each byte and four more, since a call that does not
-- consume a byte is followed by one that does within two calls; that this is enough is among the
-- results. The loop of a download runs on fuel too, a round for each unit: more units than the
-- peer sends bytes are enough, unless the stream is closed.
--
-- Parameters: the crate itoa (the record `Itoa`, with what its documentation says of the text of a
-- number), `hex::decode`, `hex::encode`, the resolver and the parser of socket addresses (the
-- record `Outside` and the ticks), the hash of the crate sha1, SQLite (the record `Sqlite`, with
-- `IsSqlite` and `IsLike` as what it documents), and serde_json (the records `SerdeJson` and
-- `Texts`).
--
-- Not modelled: the opening of the database, the HTML of the web page and the texts of the
-- answers, what is only printed; sockets, channels, tasks and locks.
pub mod Prelude
pub mod Std
pub mod Bencode
pub mod Util
pub mod Types
pub mod Krpc
pub mod BlackList
pub mod Peers
pub mod Token
pub mod Transaction
pub mod Bitmap
pub mod Routing
pub mod Wire
pub mod Logger
pub mod Config
pub mod Dht
pub mod Storage
pub mod Web
pub mod Main
