-- ===== src/Modifier/Association.antt =====
-- A dictionary for the examples on src/torrent_modifier.cpp: the pairs in a row.
use torrent_builder.Common.{
  ℕ, ◌≡◌, refl, sym, ap, ap₂, subst, Bytes, true, false, Bool-cases, inl, inr, Option, none, some,
  if◌then◌else◌, bytes_eq, bytes_eq_refl, bytes_eq_sound,
}
use torrent_builder.Modifier.Bencode.{
  Dictionary, Entry, integer, string, list, dict, other, Entries, nil, item,
}

mutual
  pub data Value : Type 0 where
    number : ℕ → Value
    text : Bytes → Value
    values : Values → Value
    pairs : Pairs → Value
    nothing : Value

  pub data Values : Type 0 where
    no_value : Values
    value : Value → Values → Values

  pub data Pairs : Type 0 where
    empty : Pairs
    pair : Bytes → Value → Pairs → Pairs

unfoldable mutual
  pub entry : Value → Entry Pairs
  entry (number n) = integer n
  entry (text s) = string s
  entry (values vs) = list (entries vs)
  entry (pairs ps) = dict ps
  entry nothing = other

  pub entries : Values → Entries Pairs
  entries no_value = nil
  entries (value v vs) = item (entry v) (entries vs)

unfoldable mutual
  pub stored : Entry Pairs → Value
  stored (integer n) = number n
  stored (string s) = text s
  stored (list es) = values (stored_list es)
  stored (dict ps) = pairs ps
  stored other = nothing

  pub stored_list : Entries Pairs → Values
  stored_list nil = no_value
  stored_list (item e es) = value (stored e) (stored_list es)

mutual
  unfolding entry stored

  entry-stored : (e : Entry Pairs) → entry (stored e) ≡ e
  entry-stored (integer n) = refl
  entry-stored (string s) = refl
  entry-stored (list es) = ap list (entries-stored_list es)
  entry-stored (dict ps) = refl
  entry-stored other = refl

  entries-stored_list : (es : Entries Pairs) → entries (stored_list es) ≡ es
  entries-stored_list nil = refl
  entries-stored_list (item e es) = ap₂ item (entry-stored e) (entries-stored_list es)

unfoldable pub find_pair : Bytes → Pairs → Option (Entry Pairs)
unfolding entry
find_pair key empty = none
find_pair key (pair k v ps) =
    let rest = find_pair key ps in if bytes_eq k key then some (entry v) else rest

unfoldable pub put_pair : Bytes → Entry Pairs → Pairs → Pairs
unfolding stored
put_pair key e empty = pair key (stored e) empty
put_pair key e (pair k v ps) =
    let rest = put_pair key e ps in if bytes_eq k key then pair k (stored e) ps else pair k v rest

unfoldable pub erase_pair : Bytes → Pairs → Pairs
erase_pair key empty = empty
erase_pair key (pair k v ps) =
    let rest = erase_pair key ps in if bytes_eq k key then rest else pair k v rest

same_key : (j key k : Bytes) → bytes_eq j key ≡ true → bytes_eq key k ≡ false → bytes_eq j k ≡ false
same_key j key k h d = subst (λ x. bytes_eq x k ≡ false) (sym (bytes_eq_sound j key h)) d

pub find_pair-put_pair :
    (key : Bytes) (e : Entry Pairs) (ps : Pairs) → find_pair key (put_pair key e ps) ≡ some e
unfolding find_pair put_pair
find_pair-put_pair key e empty = rw (bytes_eq_refl key) (ap some (entry-stored e))
find_pair-put_pair key e (pair k v ps) = elim (Bool-cases (bytes_eq k key)) [
  | inl h ↦ rw (h, h) (ap some (entry-stored e))
  | inr h ↦ rw (h, h, find_pair-put_pair key e ps)
]

pub find_pair-put_pair_other :
    (k key : Bytes) (e : Entry Pairs) (ps : Pairs)
    → bytes_eq key k ≡ false
    → find_pair k (put_pair key e ps) ≡ find_pair k ps
unfolding find_pair put_pair
find_pair-put_pair_other k key e empty d = rw (d)
find_pair-put_pair_other k key e (pair j v ps) d = elim (Bool-cases (bytes_eq j key)) [
  | inl h ↦ rw (h, same_key j key k h d)
  | inr h ↦ rw (h, find_pair-put_pair_other k key e ps d)
]

pub find_pair-erase_pair : (key : Bytes) (ps : Pairs) → find_pair key (erase_pair key ps) ≡ none
unfolding find_pair erase_pair
find_pair-erase_pair key empty = refl
find_pair-erase_pair key (pair k v ps) = elim (Bool-cases (bytes_eq k key)) [
  | inl h ↦ rw (h, find_pair-erase_pair key ps)
  | inr h ↦ rw (h, h, find_pair-erase_pair key ps)
]

pub find_pair-erase_pair_other :
    (k key : Bytes) (ps : Pairs)
    → bytes_eq key k ≡ false
    → find_pair k (erase_pair key ps) ≡ find_pair k ps
unfolding find_pair erase_pair
find_pair-erase_pair_other k key empty d = refl
find_pair-erase_pair_other k key (pair j v ps) d = elim (Bool-cases (bytes_eq j key)) [
  | inl h ↦ rw (h, same_key j key k h d, find_pair-erase_pair_other k key ps d)
  | inr h ↦ rw (h, find_pair-erase_pair_other k key ps d)
]

abbrev pub association : Dictionary
association = record {
  Fields = Pairs;
  find_key = find_pair;
  put = put_pair;
  erase = erase_pair;
  find_key-put = find_pair-put_pair;
  find_key-put_other = find_pair-put_pair_other;
  find_key-erase = find_pair-erase_pair;
  find_key-erase_other = find_pair-erase_pair_other;
}
