-- ===== src/Modifier/Apply.antt =====
-- `apply_modifications` and `modify` of src/torrent_modifier.cpp.
use torrent_builder.Common.{
  ℕ, ◌+◌, Bytes, [], ◌∷◌, ◌++◌, Bool, true, false, not, ◌||◌, ◌==◌, Option, none, some, Result, ok,
  err, ◌>>=◌, ◌>>◌, guard, if◌then◌else◌, codes, is_empty, has_value, take, drop,
}
use torrent_builder.Modifier.{ModifyConfig}
use torrent_builder.Modifier.Bencode.{Dictionary, Codec, Entry, integer, string, dict}
use torrent_builder.Modifier.Trackers.{rebuild_trackers, add_trackers, remove_trackers}

abbrev pub info_key : Bytes
info_key = codes "info"

unfoldable pub info_modified : ModifyConfig → Bool
info_modified config =
    has_value config.is_private
    || (has_value config.source || (has_value config.name || config.entropy))

unfoldable pub has_any_mod : ModifyConfig → Bool
unfolding info_modified
has_any_mod config =
    has_value config.trackers
    || (not (is_empty config.add_trackers)
        || (not (is_empty config.remove_trackers)
            || (has_value config.comment || info_modified config)))

-- The bytes of a section.
abbrev pub section : ℕ × ℕ → Bytes → Bytes
section (start, size) buffer = take size (drop start buffer)

-- The new bytes with the original ones of the info dictionary, where these are as many.
unfoldable pub restore_info : Option (ℕ × ℕ) → Option (ℕ × ℕ) → Bytes → Bytes → Bytes
restore_info (some (old_start, old_size)) (some (start, size)) old new =
    if size == old_size
    then take start new ++ (section (old_start, old_size) old ++ drop (start + size) new)
    else new
restore_info _ _ old new = new

-- Where `save` writes.
unfoldable pub output_path : ModifyConfig → Bytes
output_path config = if is_empty config.output then config.input else config.output

module _ (lib : Dictionary) where
  unfoldable pub change_trackers : ModifyConfig → lib.Fields → Result Bytes lib.Fields
  change_trackers config root = elim config.trackers [
    | some urls ↦ ok (rebuild_trackers lib root urls)
    | none ↦ add_trackers lib (remove_trackers lib root config.remove_trackers) config.add_trackers
  ]

  -- The entry of the info dictionary: an assignment to a key of another kind of entry throws.
  unfoldable pub changed_info :
      (lib.Fields → lib.Fields) → Option (Entry lib.Fields) → lib.Fields → Result Bytes lib.Fields
  changed_info change (some (dict info)) root = ok (lib.put info_key (dict (change info)) root)
  changed_info change _ root = err (codes "invalid type requested from entry")

  -- A change through the pointer to the info dictionary.
  unfoldable pub in_info : (lib.Fields → lib.Fields) → lib.Fields → Result Bytes lib.Fields
  unfolding changed_info
  in_info change root = changed_info change (lib.find_key info_key root) root

  -- The empty text removes the key.
  unfoldable pub put_text : Bytes → Bytes → lib.Fields → lib.Fields
  put_text key [] fields = lib.erase key fields
  put_text key (c ∷ s) fields = lib.put key (string (c ∷ s)) fields

  unfoldable pub set_private : Option Bool → lib.Fields → Result Bytes lib.Fields
  unfolding in_info
  set_private none root = ok root
  set_private (some is_private) root =
      in_info (lib.put (codes "private") (integer (if is_private then 1 else 0))) root

  unfoldable pub set_source : Option Bytes → lib.Fields → Result Bytes lib.Fields
  unfolding in_info put_text
  set_source none root = ok root
  set_source (some source) root = in_info (put_text (codes "source") source) root

  unfoldable pub set_comment : Option Bytes → lib.Fields → lib.Fields
  unfolding put_text
  set_comment none root = root
  set_comment (some comment) root = put_text (codes "comment") comment root

  unfoldable pub set_name : Option Bytes → lib.Fields → Result Bytes lib.Fields
  unfolding in_info
  set_name none root = ok root
  set_name (some name) root = in_info (lib.put (codes "name") (string name)) root

  -- `entropy` is the result of `generate_entropy_hex`, which may throw.
  unfoldable pub set_entropy : Bool → Result Bytes Bytes → lib.Fields → Result Bytes lib.Fields
  unfolding in_info
  set_entropy false entropy root = ok root
  set_entropy true (ok hex) root = in_info (lib.put (codes "entropy") (string hex)) root
  set_entropy true (err e) root = err (codes "Failed to generate entropy: " ++ e)

  -- Behind the trackers.
  unfoldable pub change_fields :
      ModifyConfig → Result Bytes Bytes → lib.Fields → Result Bytes lib.Fields
  unfolding set_private set_source set_comment set_name set_entropy
  change_fields config entropy root = do
    private ← set_private config.is_private root
    sourced ← set_source config.source private
    named ← set_name config.name (set_comment config.comment sourced)
    set_entropy config.entropy entropy named

  unfoldable pub apply_modifications :
      ModifyConfig → Result Bytes Bytes → lib.Fields → Result Bytes lib.Fields
  unfolding change_trackers change_fields
  apply_modifications config entropy root = do
    guard (has_value (lib.find_key info_key root))
        (codes "Invalid torrent: missing 'info' dictionary")
    tracked ← change_trackers config root
    change_fields config entropy tracked

  -- What is saved, and where, none where nothing is; `raw_buffer` is what `load` has read.
  unfoldable pub modify :
      (Codec lib.Fields)
      → ModifyConfig
      → Result Bytes Bytes
      → Bytes
      → Result Bytes (Option (Bytes × Bytes))
  unfolding apply_modifications has_any_mod restore_info output_path
  modify codec config entropy raw_buffer =
      if is_empty raw_buffer
      then err (codes "Torrent file is empty: " ++ config.input)
      else if not (has_any_mod config)
      then ok none
      else codec.bdecode raw_buffer >>= (λ root.
        apply_modifications config entropy root >>= (λ changed.
          let encoded = codec.bencode changed in
          let buffer =
            if info_modified config
            then encoded
            else restore_info (codec.info_section raw_buffer) (codec.info_section encoded)
                raw_buffer encoded in
          ok (if config.dry_run then none else some (output_path config, buffer))))
