-- ===== src/Modifier/Examples.antt =====
-- The theorems on src/torrent_modifier.cpp at a torrent with two trackers.
use torrent_builder.Common.{◌≡◌, refl, Bytes, [], ◌∷◌, true, false, none, some, ok, err, codes}
use torrent_builder.Modifier.{ModifyConfig}
use torrent_builder.Modifier.Bencode.{Codec}
use torrent_builder.Modifier.Trackers.{announce, announce_list, add_trackers, remove_trackers}
use torrent_builder.Modifier.Apply.{info_key, apply_modifications}
use torrent_builder.Modifier.Urls.{announced}
use torrent_builder.Modifier.Laws.{trackers_after, apply_modifications-announced}
use torrent_builder.Modifier.Untouched.{info_entry, apply_modifications-info_entry}
use torrent_builder.Modifier.Association.{
  number, text, values, pairs, no_value, value, Pairs, empty, pair, entry, stored, find_pair,
  put_pair, erase_pair, association,
}

abbrev one : Bytes
one = codes "http://a/x"

abbrev two : Bytes
two = codes "http://b/y"

abbrev three : Bytes
three = codes "http://c/z"

abbrev info : Pairs
info = pair (codes "pieces") (text (codes "hash")) empty

abbrev torrent : Pairs
torrent = pair announce (text one) (
    pair announce_list
      (values (
        value (values (value (text one) no_value))
          (value (values (value (text two) no_value)) no_value)))
      (pair (codes "created by") (text (codes "me")) (pair info_key (pairs info) empty)))

-- Removes the first tracker, adds a third one and sets the private flag.
abbrev private_config : ModifyConfig
private_config = record {
  input = codes "in.torrent";
  output = [];
  trackers = none;
  add_trackers = three ∷ [];
  remove_trackers = one ∷ [];
  is_private = some true;
  source = none;
  comment = none;
  name = none;
  entropy = false;
  dry_run = false;
}

abbrev changed : Pairs
changed = pair announce (text two) (
    pair announce_list
      (values (value (values (value (text two) (value (text three) no_value))) no_value))
      (pair (codes "created by") (text (codes "me")) (
        pair info_key
          (pairs
            (pair (codes "pieces") (text (codes "hash")) (pair (codes "private") (number 1) empty)))
          empty)))

changed_lem : apply_modifications association private_config (err []) torrent ≡ ok changed
unfolding apply_modifications find_pair put_pair erase_pair entry stored add_trackers
    remove_trackers
changed_lem = refl

announced-torrent : announced association torrent ≡ one ∷ two ∷ []
unfolding announced find_pair entry
announced-torrent = refl

announced-changed : announced association changed ≡ two ∷ three ∷ []
unfolding announced find_pair entry
announced-changed = refl

apply_modifications-announced_example :
    announced association changed ≡ trackers_after private_config (announced association torrent)
apply_modifications-announced_example =
    apply_modifications-announced association private_config (err []) torrent changed_lem

apply_modifications-info_entry_example :
    info_entry association (codes "pieces") (find_pair info_key changed)
    ≡ info_entry association (codes "pieces") (find_pair info_key torrent)
apply_modifications-info_entry_example =
    apply_modifications-info_entry association (codes "pieces") refl private_config (err []) torrent
      changed_lem

-- Sets the comment.
abbrev comment_config : ModifyConfig
comment_config = record {
  input = codes "in.torrent";
  output = [];
  trackers = none;
  add_trackers = [];
  remove_trackers = [];
  is_private = none;
  source = none;
  comment = some (codes "c");
  name = none;
  entropy = false;
  dry_run = false;
}

abbrev commented : Pairs
commented = pair announce (text one) (
    pair announce_list
      (values (
        value (values (value (text one) no_value))
          (value (values (value (text two) no_value)) no_value)))
      (pair (codes "created by") (text (codes "me"))
        (pair info_key (pairs info) (pair (codes "comment") (text (codes "c")) empty))))

-- The info dictionary takes three bytes behind the first one.
abbrev codec : Codec Pairs
codec = record {
  bdecode = λ bytes. ok torrent;
  bencode = λ fields. codes "ddie1:c1:ce";
  info_section = λ bytes. some (1, 3);
}
