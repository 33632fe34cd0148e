-- ===== src/Main/Reading.antt =====
-- The metadata that `main` reads from what was downloaded.
use dht_spider.Prelude.{
  ◌^◌, ◌<◌, ◌≡◌, refl, sym, ◌⊎◌, inl, inr, ap, true, none, some, List, [], ◌∷◌, ◌++◌, All, Bytes,
  codes, length,
}
use dht_spider.Std.Decimal.{ℤ}
use dht_spider.Std.Utf8.{from_utf8, is_utf8}
use dht_spider.Bencode.Value.{
  BVal, bytes, int, list, dict, Items, nil, item, Entries, get, dict_of, IsValue,
}
use dht_spider.Std.Order.{bytes_cmp}
use dht_spider.Bencode.Encode.{Itoa, encode}
use dht_spider.Bencode.RoundTrip.{decode-encode}
use dht_spider.Main.{FileInfo, texts_of, files_of, with_files, metadata_of, read_metadata}

-- A file as the dictionary of a torrent has it, and a list of files.
abbrev items_of : List Bytes → Items
items_of [] = nil
items_of (p ∷ ps) = item (bytes p) (items_of ps)

unfoldable pub file_value : FileInfo → BVal
unfolding dict_of
file_value f =
    dict_of ((codes "length", int f.length) ∷ (codes "path", list (items_of f.path)) ∷ [])

abbrev pub file_values : List FileInfo → Items
file_values [] = nil
file_values (f ∷ fs) = item (file_value f) (file_values fs)

abbrev pub IsPath : List Bytes → Type 0
IsPath path = All (λ p. is_utf8 p ≡ true) path

texts_of-items_of : (ps : List Bytes) → IsPath ps → texts_of (items_of ps) ≡ ps
unfolding texts_of
texts_of-items_of [] h = refl
texts_of-items_of (p ∷ ps) h = rw (h.0, texts_of-items_of ps h.1) refl

files_of-file_values :
    (fs : List FileInfo) → All (λ (f : FileInfo). IsPath f.path) fs → files_of (file_values fs) ≡ fs
unfolding files_of file_value bytes_cmp
files_of-file_values [] h = refl
files_of-file_values (f ∷ fs) h =
    rw (texts_of-items_of f.path h.0, files_of-file_values fs h.1) refl

-- What a torrent has besides its name: a list of files, or else the length of its only file.
abbrev pub Lists : Entries → Bytes → List FileInfo → Type 0
Lists m name fs =
    (get (codes "files") m ≡ some (list (file_values fs)))
    ⊎ ((n : ℤ) × (get (codes "files") m ≡ none)
        × (get (codes "length") m ≡ some (int n))
        × (fs ≡ record { path = name ∷ []; length = n } ∷ []))

module _ (m : Entries) (name : Bytes) (named : get (codes "name") m ≡ some (bytes name))
    (utf8 : is_utf8 name ≡ true) where
  metadata_of-Lists :
      (f : FileInfo) (fs : List FileInfo)
      → All (λ (g : FileInfo). IsPath g.path) (f ∷ fs)
      → Lists m name (f ∷ fs)
      → metadata_of m ≡ some (record { name = name; files = f ∷ fs })
  unfolding metadata_of from_utf8
  metadata_of-Lists f fs paths (inl files) =
      rw (named, utf8, files, files_of-file_values (f ∷ fs) paths) refl
  metadata_of-Lists f fs paths (inr (n, none_listed, len, only)) =
      rw (named, utf8, none_listed, len) (ap (with_files name) (sym only))

-- An encoded dictionary, a proper value that fits into memory, with a name and files, one at least,
-- whose texts are UTF-8, is read as that name and these files, whatever other keys it has and
-- whatever follows it.
pub read_metadata-encode :
    (itoa : Itoa) (m : Entries) (name rest : Bytes) (f : FileInfo) (fs : List FileInfo)
    → IsValue (dict m)
    → length (encode itoa (dict m) ++ rest) < 2 ^ 64
    → get (codes "name") m ≡ some (bytes name)
    → is_utf8 name ≡ true
    → All (λ (g : FileInfo). IsPath g.path) (f ∷ fs)
    → Lists m name (f ∷ fs)
    → read_metadata (encode itoa (dict m) ++ rest) ≡ some (record { name = name; files = f ∷ fs })
unfolding read_metadata
read_metadata-encode itoa m name rest f fs v small named utf8 paths listed =
    rw (decode-encode itoa (dict m) rest v small)
      (metadata_of-Lists m name named utf8 f fs paths listed)
