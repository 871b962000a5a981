-- ===== src/Filename/Output/Clean.antt =====
-- The bytes of a generated name.
use torrent_builder.Common.{
  ℕ, ◌≡◌, ◌≢◌, arith, refl, sym, append_assoc, inl, inr, Bytes, List, [], ◌∷◌, ◌++◌, Bool, true,
  false, ◌||◌, Bool-cases, is_empty, if◌then◌else◌, All, All-append, codes,
}
use torrent_builder.Domain.{extract_domain}
use torrent_builder.Yaml.{ℤ}
use torrent_builder.Filename.{is_replaced, sanitize_filename_part}
use torrent_builder.Filename.Sanitize.{IsClean, sanitize_filename_part-IsClean}
use torrent_builder.Filename.Output.{
  Paths, filename, parent_path, content_name, chosen_tracker, generate_output_filename,
}

-- None of the nine bytes that file systems refuse in a name or read as a part of the path.
abbrev pub IsSafe : ℕ → Type 0
IsSafe c =
    (c ≢ b':')
    × (c ≢ b'<')
    × (c ≢ b'>')
    × (c ≢ b'"')
    × (c ≢ b'|')
    × (c ≢ b'?')
    × (c ≢ b'*')
    × (c ≢ b'\\')
    × (c ≢ b'/')

kept-IsSafe : (c : ℕ) → is_replaced c ≡ false → IsSafe c
unfolding is_replaced
kept-IsSafe c h = ground arith

underscore-IsSafe : (c : ℕ) → c ≡ b'_' → IsSafe c
underscore-IsSafe c h = ground arith

clean-IsSafe : (prev : Bool) (s : Bytes) → IsClean prev s → All IsSafe s
clean-IsSafe prev [] h = tt
clean-IsSafe prev (c ∷ s) (inl (e, h)) = (kept-IsSafe c e, clean-IsSafe false s h)
clean-IsSafe prev (c ∷ s) (inr (e, _, h)) = (underscore-IsSafe c e, clean-IsSafe true s h)

part-IsSafe : (part : Bytes) → All IsSafe (sanitize_filename_part part)
part-IsSafe part = clean-IsSafe false _ (sanitize_filename_part-IsClean part)

torrent-IsSafe : All IsSafe (codes ".torrent")
torrent-IsSafe = ground arith

-- Whatever the paths and the trackers are, the generated name ends in `.torrent` and holds none of the
-- bytes : < > " | ? * \ and /.
pub generate_output_filename-IsSafe :
    (paths : Paths) (content_path : Bytes) (trackers : List Bytes) (skip_prefix : Bool)
    (tracker_index : ℤ)
    → (name : Bytes) × (generate_output_filename paths content_path trackers skip_prefix
          tracker_index
        ≡ name ++ codes ".torrent")
      × All IsSafe (name ++ codes ".torrent")
unfolding generate_output_filename
generate_output_filename-IsSafe paths content_path trackers skip_prefix tracker_index =
    elim (Bool-cases (skip_prefix || is_empty trackers)) [
      | inl e ↦ (name, rw (e, generate_output_filename) refl, plain)
      | inr e ↦ elim (Bool-cases (is_empty domain)) [
        | inl f ↦ (name, rw (e, f, generate_output_filename) refl, plain)
        | inr f ↦ (
          prefixed,
          rw (e, f, generate_output_filename)
              (sym (
                append_assoc (sanitize_filename_part domain) (codes "_" ++ name)
                  (codes ".torrent"))),
          All-append IsSafe prefixed (codes ".torrent")
              (All-append IsSafe (sanitize_filename_part domain) (codes "_" ++ name)
                (part-IsSafe domain) (underscore-IsSafe b'_' refl, part-IsSafe _))
              torrent-IsSafe,
        )
      ]
    ]
  where
    name : Bytes
    name = sanitize_filename_part (
        content_name paths
          (if is_empty (filename content_path) then parent_path content_path else content_path))

    domain : Bytes
    domain = extract_domain (chosen_tracker trackers tracker_index)

    plain : All IsSafe (name ++ codes ".torrent")
    plain = All-append IsSafe name (codes ".torrent") (part-IsSafe _) torrent-IsSafe

    prefixed : Bytes
    prefixed = sanitize_filename_part domain ++ (codes "_" ++ name)
