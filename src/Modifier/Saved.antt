-- ===== src/Modifier/Saved.antt =====
-- What `modify` of src/torrent_modifier.cpp saves.
