-- ===== src/Url/Examples.antt =====
-- Runs of `is_valid_url`.
use torrent_builder.Common.{◌≡◌, refl, true, false, codes}
use torrent_builder.Text.{starts_with, to_lower, tolower}
use torrent_builder.Url.{matches_scheme, is_valid_url}

upper_scheme : is_valid_url (codes "HTTPS://t.org/announce") ≡ true
unfolding is_valid_url matches_scheme starts_with to_lower tolower
upper_scheme = refl

no_host : is_valid_url (codes "udp://") ≡ false
unfolding is_valid_url matches_scheme starts_with to_lower tolower
no_host = refl
