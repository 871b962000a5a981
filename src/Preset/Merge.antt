-- ===== src/Preset/Merge.antt =====
-- The laws of `merge_config_values`.
use torrent_builder.Common.{◌≡◌, refl, Option, none, some}
use torrent_builder.Preset.{ConfigValues, empty_config, overlaid, merge_config_values}

overlaid_assoc :
    {A : Type 0} (a b c : Option A) → overlaid (overlaid a b) c ≡ overlaid a (overlaid b c)
unfolding overlaid
overlaid_assoc a b none = refl
overlaid_assoc a b (some c) = refl

overlaid_left : {A : Type 0} (a : Option A) → overlaid none a ≡ a
unfolding overlaid
overlaid_left none = refl
overlaid_left (some a) = refl

-- Layers of configuration can be merged from either end, and a layer without values changes nothing
-- below or above another.
pub merge_config_values_monoid :
    (a b c : ConfigValues)
    → (merge_config_values (merge_config_values a b) c
        ≡ merge_config_values a (merge_config_values b c))
      × (merge_config_values empty_config a ≡ a)
      × (merge_config_values a empty_config ≡ a)
unfolding merge_config_values
merge_config_values_monoid a b c =
    (simp overlaid_assoc refl, simp overlaid_left refl, unfold overlaid in refl)
