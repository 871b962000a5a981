-- ===== src/Version/Laws.antt =====
-- `compare_versions` orders the versions.
use torrent_builder.Common.{◌≡◌, refl, ap, ◌∙◌, Bytes}
use torrent_builder.Version.{
  Version, Sign, negative, same, positive, number_sign, compare_prerelease_identifiers,
  version_sign, parse_version, compare_versions,
}
use torrent_builder.Version.Order.{
  opposite, Chain, number_sign-opposite, number_sign-Chain, compare_prerelease_identifiers-opposite,
  compare_prerelease_identifiers-Chain,
}

version_sign-opposite : (a b : Version) → version_sign b a ≡ opposite (version_sign a b)
unfolding version_sign
version_sign-opposite a b =
    let p = compare_prerelease_identifiers a.prerelease b.prerelease in
    ap
      (λ r.
        number_sign b.major a.major (number_sign b.minor a.minor (number_sign b.patch a.patch r)))
      (compare_prerelease_identifiers-opposite a.prerelease b.prerelease)
    ∙ (ap (λ r. number_sign b.major a.major (number_sign b.minor a.minor r))
          (number_sign-opposite a.patch b.patch p)
        ∙ (ap (number_sign b.major a.major)
              (number_sign-opposite a.minor b.minor (number_sign a.patch b.patch p))
            ∙ number_sign-opposite a.major b.major
                (number_sign a.minor b.minor (number_sign a.patch b.patch p))))

self_opposite : (r : Sign) → r ≡ opposite r → r ≡ same
self_opposite negative e = absurd (cc e)
self_opposite same e = refl
self_opposite positive e = absurd (cc e)

-- Comparing two version texts the other way round gives the opposite result, and a text is the same
-- version as itself.
pub compare_versions-opposite :
    (v w : Bytes)
    → (compare_versions w v ≡ opposite (compare_versions v w)) × (compare_versions v v ≡ same)
unfolding compare_versions
compare_versions-opposite v w = (
  version_sign-opposite (parse_version v) (parse_version w),
  self_opposite _ (version_sign-opposite (parse_version v) (parse_version v)),
)

-- The comparison is transitive: a less or equal text before a less or equal one is less if one of the
-- two steps is, and equal if both are equalities.
pub compare_versions-Chain :
    (u v w : Bytes) → Chain (compare_versions u v) (compare_versions v w) (compare_versions u w)
unfolding compare_versions version_sign
compare_versions-Chain u v w =
    let a = parse_version u in
    let b = parse_version v in
    let c = parse_version w in
    number_sign-Chain a.major b.major c.major _ _ _ (
      number_sign-Chain a.minor b.minor c.minor _ _ _ (
        number_sign-Chain a.patch b.patch c.patch _ _ _
          (compare_prerelease_identifiers-Chain a.prerelease b.prerelease c.prerelease)))
