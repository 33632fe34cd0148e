-- ===== src/Main.antt =====
-- src/main.rs: the argument, the set-up of the node, the callbacks that ask for downloads, and the
-- task that keeps the metadata. The crates hex and serde_json are parameters. What is only printed
-- is not modelled.
pub mod Reading
pub mod Crawl
pub mod Found
mod Tests
use dht_spider.Prelude.{
  ℕ, Bool, true, false, ◌||◌, Option, none, some, List, [], ◌∷◌, ◌++◌, Bytes, codes, if◌then◌else◌,
  ◌⊎◌, inl, inr,
}
use dht_spider.Std.Decimal.{ℤ}
use dht_spider.Std.Order.{bytes_eq}
use dht_spider.Std.Utf8.{from_utf8}
use dht_spider.Std.Display.{ip_string}
use dht_spider.Types.{crawl}
use dht_spider.Bencode.Value as Value
use dht_spider.Bencode.Value.{BVal, bytes, int, list, dict, Items, nil, item, Entries, get}
use dht_spider.Bencode.Decode.{decode}
use dht_spider.Config.{Config, default}
use dht_spider.Logger.{HourlyLogger, log}
use dht_spider.Storage as Storage
use dht_spider.Storage.{Sqlite}
use dht_spider.Dht as Dht
use dht_spider.Dht.{
  Dht, DhtCallbacks, Output, sends, peers_asked, peers_answered, peer_announced, node_found,
}
use dht_spider.Wire.Queue.{Request, request}
use dht_spider.Wire.Download.{int_of}

-- The loop over the arguments, the program's name left out.
unfoldable pub parse_from : List Bytes → Option Bytes
unfolding bytes_eq
parse_from [] = none
parse_from (arg ∷ []) = none
parse_from (arg ∷ next ∷ args) =
    let rest = parse_from (next ∷ args) in
    if bytes_eq arg (codes "-m") || bytes_eq arg (codes "--key") then some next else rest

unfoldable pub parse_args : List Bytes → Option Bytes
unfolding parse_from
parse_args [] = none
parse_args (program ∷ args) = parse_from args

-- The node that is started: a crawler with every callback but one.
abbrev pub config : Config
unfolding default
config = record default { mode = crawl; address = codes "0.0.0.0:6881" }

abbrev pub callbacks : DhtCallbacks
callbacks = record {
  on_get_peers = false;
  on_get_peers_response = true;
  on_announce_peer = true;
  on_node = true;
}

-- A file of a torrent, as the program lists it.
pub record FileInfo : Type 0 where
  pub path : List Bytes
  pub length : ℤ

pub record Metadata : Type 0 where
  pub name : Bytes
  pub files : List FileInfo

abbrev text_of : Option BVal → Option Bytes
text_of none = none
text_of (some (bytes b)) = from_utf8 b
text_of (some (int n)) = none
text_of (some (list l)) = none
text_of (some (dict m)) = none

abbrev push_some : Option Bytes → List Bytes → List Bytes
push_some none rest = rest
push_some (some s) rest = s ∷ rest

-- The elements of a path that are texts.
unfoldable pub texts_of : Items → List Bytes
unfolding from_utf8
texts_of nil = []
texts_of (item p ps) = push_some (text_of (some p)) (texts_of ps)

abbrev path_of : Option BVal → Option (List Bytes)
path_of none = none
path_of (some (list ps)) = some (texts_of ps)
path_of (some (bytes b)) = none
path_of (some (int n)) = none
path_of (some (dict m)) = none

abbrev file_of : Option ℤ → Option (List Bytes) → List FileInfo → List FileInfo
file_of (some length) (some path) rest = record { path = path; length = length } ∷ rest
file_of none path rest = rest
file_of (some length) none rest = rest

abbrev add_file : BVal → List FileInfo → List FileInfo
add_file (dict fm) rest =
    file_of (int_of (get (codes "length") fm)) (path_of (get (codes "path") fm)) rest
add_file (bytes b) rest = rest
add_file (int n) rest = rest
add_file (list l) rest = rest

unfoldable pub files_of : Items → List FileInfo
unfolding texts_of get
files_of nil = []
files_of (item f fs) = add_file f (files_of fs)

abbrev pub only_file : Bytes → Option ℤ → List FileInfo
only_file name none = []
only_file name (some n) = record { path = name ∷ []; length = n } ∷ []

-- `files` if it is a list, or else `length`
abbrev pub out_files : Bytes → Option BVal → Option ℤ → List FileInfo
out_files name (some (list files)) len = files_of files
out_files name none len = only_file name len
out_files name (some (bytes b)) len = only_file name len
out_files name (some (int n)) len = only_file name len
out_files name (some (dict m)) len = only_file name len

abbrev with_files : Bytes → List FileInfo → Option Metadata
with_files name [] = none
with_files name (f ∷ fs) = some (record { name = name; files = f ∷ fs })

abbrev named : Option Bytes → Entries → Option Metadata
named none m = none
named (some name) m =
    with_files name (out_files name (get (codes "files") m) (int_of (get (codes "length") m)))

-- What the task finds in a dictionary; `none`: the round is over.
unfoldable pub metadata_of : Entries → Option Metadata
unfolding files_of get from_utf8
metadata_of m = named (text_of (get (codes "name") m)) m

abbrev of_decoded : Value.Result BVal → Option Metadata
of_decoded (Value.ok (dict m)) = metadata_of m
of_decoded (Value.ok (bytes b)) = none
of_decoded (Value.ok (int n)) = none
of_decoded (Value.ok (list l)) = none
of_decoded (Value.err e) = none
of_decoded Value.out_of_fuel = none

unfoldable pub read_metadata : Bytes → Option Metadata
read_metadata metadata_info = of_decoded (decode metadata_info)

-- `serde_json`: the line of the log, and the text of the files.
pub record Texts : Type 0 where
  pub line : Bytes → Metadata → Bytes
  pub files_json : List FileInfo → Bytes

-- What the task changes.
pub record Kept {ℓ} (S : Type ℓ) : Type ℓ where
  pub logger : HourlyLogger
  pub storage : S

abbrev inserted {ℓ} : {S : Type ℓ} → S → Option S → S
inserted s none = s
inserted s (some s') = s'

module _ {ℓ} {S : Type ℓ} (hex_encode : Bytes → Bytes) (texts : Texts) (db : Sqlite S) where
  abbrev pub keep :
      ℕ → Bool → ℤ → Bytes → Kept S → Option Metadata → Kept S × Option (Bytes × Bytes)
  keep ts opens now info_hash k none = (k, none)
  keep ts opens now info_hash k (some m) =
      let infohash = hex_encode info_hash in
      let (logger, written) = log k.logger ts opens (texts.line infohash m) in
      let s = Storage.insert db now infohash m.name (texts.files_json m.files) k.storage in
      (record { logger = logger; storage = inserted k.storage s }, written)

  -- One round: the metadata that a download obtained is logged and stored, an error of the table
  -- passed over. With what is written to which log file.
  unfoldable pub on_response :
      ℕ → Bool → ℤ → Bytes → Bytes → Kept S → Kept S × Option (Bytes × Bytes)
  on_response ts opens now info_hash metadata_info k =
      keep ts opens now info_hash k (read_metadata metadata_info)

module _ (hex_decode : Bytes → Bytes ⊎ Bytes) where
  abbrev wire_request : Bytes ⊎ Bytes → Bytes → ℕ → Option Request
  wire_request (inl info_hash) ip port = request info_hash ip port
  wire_request (inr message) ip port = none

  -- What the callbacks ask of the downloads.
  unfoldable pub on_output : Output → Option Request
  unfolding request ip_string
  on_output (peer_announced ih ip port) = wire_request (hex_decode ih) ip port
  on_output (peers_answered ih peer) = wire_request (hex_decode ih) (ip_string peer.ip) peer.port
  on_output (peers_asked ih ip port) = none
  on_output (node_found id ip port) = none
  on_output (sends addr input) = none

  abbrev requested : Option Request → List Request → List Request
  requested none rest = rest
  requested (some r) rest = r ∷ rest

  unfoldable pub wire_requests : List Output → List Request
  unfolding on_output
  wire_requests [] = []
  wire_requests (out ∷ outs) = requested (on_output out) (wire_requests outs)

-- The node that `main` starts.
unfoldable pub node : ℕ → Bytes → Dht
unfolding Dht.new
node now self_id = record (Dht.new config now self_id) { callbacks = callbacks }
