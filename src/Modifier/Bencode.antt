-- ===== src/Modifier/Bencode.antt =====
-- What src/torrent_modifier.cpp uses of libtorrent. An entry is one of several kinds of value, as its
-- `type()` tells; the dictionaries and the reading and writing of the bytes are parameters.
use torrent_builder.Common.{ℕ, ◌≡◌, Bytes, false, Option, none, some, Result, bytes_eq}

mutual
  pub data Entry (Fields : Type 0) : Type 0 where
    integer : ℕ → Entry Fields
    string : Bytes → Entry Fields
    list : Entries Fields → Entry Fields
    dict : Fields → Entry Fields
    -- preformatted text
    other : Entry Fields

  -- `lt::entry::list_type`
  pub data Entries (Fields : Type 0) : Type 0 where
    nil : Entries Fields
    item : Entry Fields → Entries Fields → Entries Fields

-- `lt::entry::dictionary_type`: `find_key`, the assignment `dict[key] = value` and `erase`, with the
-- laws of a map.
pub record Dictionary : Type 1 where
  pub Fields : Type 0
  pub find_key : Bytes → Fields → Option (Entry Fields)
  pub put : Bytes → Entry Fields → Fields → Fields
  pub erase : Bytes → Fields → Fields
  pub find_key-put :
      (key : Bytes) (value : Entry Fields) (fields : Fields)
      → find_key key (put key value fields) ≡ some value
  pub find_key-put_other :
      (k key : Bytes) (value : Entry Fields) (fields : Fields)
      → bytes_eq key k ≡ false
      → find_key k (put key value fields) ≡ find_key k fields
  pub find_key-erase : (key : Bytes) (fields : Fields) → find_key key (erase key fields) ≡ none
  pub find_key-erase_other :
      (k key : Bytes) (fields : Fields)
      → bytes_eq key k ≡ false
      → find_key k (erase key fields) ≡ find_key k fields

-- `info_section` gives the position and the length of the info dictionary, where the bytes are a
-- dictionary that has one.
pub record Codec (Fields : Type 0) : Type 0 where
  pub bdecode : Bytes → Result Bytes Fields
  pub bencode : Fields → Bytes
  pub info_section : Bytes → Option (ℕ × ℕ)
