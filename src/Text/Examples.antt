-- ===== src/Text/Examples.antt =====
-- Runs of the string helpers.
use torrent_builder.Common.{◌≡◌, refl, [], ◌∷◌, codes}
use torrent_builder.Text.{to_lower, join, split}

lower : to_lower (codes "Tracker.ORG") ≡ codes "tracker.org"
unfolding to_lower
lower = refl

empty_tokens_dropped : split (codes "a,,b,") b',' ≡ codes "a" ∷ codes "b" ∷ []
unfolding split
empty_tokens_dropped = refl

joined : join (codes "1" ∷ codes "22" ∷ codes "3" ∷ []) (codes ", ") ≡ codes "1, 22, 3"
unfolding join
joined = refl
