-- ===== src/Batch/Built.antt =====
-- What `build_torrent_config` of src/batch.cpp makes of the values of a job.
use torrent_builder.Common.{
  ℕ, ◌*◌, ◌<◌, ◌≡◌, inl, inr, refl, arith, Bytes, Bool, true, false, ltb, ◌==◌, Bool-cases, lt→ltb,
  Option, none, some, Result, ok, err, ◌>>=◌, guard, Always, Always->>=, Always-any, is_empty,
  codes,
}
use torrent_builder.Text.{starts_with}
use torrent_builder.Yaml.{ℤ, pos, negsuc}
use torrent_builder.PieceSize.{allowed_piece_sizes, contains}
use torrent_builder.Preset.{ConfigValues}
use torrent_builder.Filename.Output.{parent_path}
use torrent_builder.Batch.{TorrentConfig, validate_piece_size}
use torrent_builder.Batch.Config.{
  Host, path_value, build_torrent_config, output_path, create_output_dir, piece_size_bytes,
}

-- An automatic size, or an allowed one.
abbrev pub IsAllowedSize : Option ℕ → Type 0
IsAllowedSize none = Unit
IsAllowedSize (some bytes) =
    (kb : ℕ) × (contains allowed_piece_sizes kb ≡ true) × (bytes ≡ kb * 1024)

pub validate_piece_size-IsAllowedSize :
    (kb : ℕ) → Always IsAllowedSize (validate_piece_size (pos kb))
unfolding validate_piece_size
validate_piece_size-IsAllowedSize kb = elim (Bool-cases (kb == 0)) [
  | inl automatic ↦ rw automatic tt
  | inr given ↦ rw given (elim (Bool-cases (contains allowed_piece_sizes kb)) [
    | inl allowed ↦ rw allowed (kb, allowed, refl)
    | inr refused ↦ rw refused tt
  ])
]

pub piece_size_bytes-IsAllowedSize :
    (size : Option ℤ) → Always IsAllowedSize (piece_size_bytes size)
unfolding piece_size_bytes
piece_size_bytes-IsAllowedSize none = tt
piece_size_bytes-IsAllowedSize (some (pos kb)) = elim (Bool-cases (ltb 0 kb)) [
  | inl given ↦ rw given (validate_piece_size-IsAllowedSize kb)
  | inr automatic ↦ rw automatic tt
]
piece_size_bytes-IsAllowedSize (some (negsuc n)) = tt

pub itself : {A : Type 0} (m : Result Bytes A) → Always (λ a. m ≡ ok a) m
itself (ok a) = refl
itself (err e) = tt

guarded : (b : Bool) (e : Bytes) → Always (λ _. b ≡ true) (guard {E = Bytes} b e)
guarded true e = refl
guarded false e = tt

pub path_value-some : (path : Option Bytes) → Always (λ p. path ≡ some p) (path_value path)
unfolding path_value
path_value-some none = tt
path_value-some (some p) = refl

pub piece_size_bytes_lem :
    (kb : ℕ) → 0 < kb → Always (λ p. p ≡ some (kb * 1024)) (piece_size_bytes (some (pos kb)))
unfolding piece_size_bytes validate_piece_size
piece_size_bytes_lem kb positive =
    rw (lt→ltb 0 kb positive, positive_ne kb positive)
      (elim (Bool-cases (contains allowed_piece_sizes kb)) [
        | inl allowed ↦ rw allowed refl
        | inr refused ↦ rw refused tt
      ])
  where
    positive_ne : (kb : ℕ) → 0 < kb → (kb == 0) ≡ false
    positive_ne kb h = ground arith

pub created :
    (host : Host) (dir output : Bytes)
    → Always (λ o. o ≡ output) (create_output_dir host dir >>= (λ _. ok output))
created host dir output = Always-any _ (create_output_dir host dir) _ (λ _. refl)

pub output_path_lem :
    (host : Host) (cv : ConfigValues) (input_path dir named : Bytes)
    → cv.output ≡ some named
    → starts_with named (codes "/") ≡ true
    → Always (λ o. o ≡ named) (output_path host cv input_path dir)
unfolding output_path
output_path_lem host cv input_path dir named given absolute =
    rw (given, output_path)
      (rw absolute (elim (Bool-cases (is_empty (parent_path named))) [
        | inl bare ↦ rw bare refl
        | inr nested ↦ rw nested (created host (parent_path named) named)
      ]))

-- What a configuration that was built shows of its parts.
pub record IsBuilt (host : Host) (cv : ConfigValues) (output_dir : Bytes) (tc : TorrentConfig)
    : Type 0 where
  pub has_path : cv.path ≡ some tc.path
  pub found : host.files.exists tc.path ≡ true
  pub placed : output_path host cv tc.path output_dir ≡ ok tc.output
  pub sized : piece_size_bytes cv.piece_size ≡ ok tc.piece_size

pub build_torrent_config-IsBuilt :
    (host : Host) (cv : ConfigValues) (output_dir : Bytes)
    → Always (IsBuilt host cv output_dir) (build_torrent_config host cv output_dir)
unfolding build_torrent_config
build_torrent_config-IsBuilt host cv output_dir =
    Always->>= (λ p. cv.path ≡ some p) _ (path_value cv.path) _ (path_value-some cv.path)
      (λ path given.
        Always->>= (λ _. host.files.exists path ≡ true) _ (guard (host.files.exists path) _) _
          (guarded (host.files.exists path) _)
          (λ _ found.
            Always->>= (λ o. output_path host cv path output_dir ≡ ok o) _
              (output_path host cv path output_dir) _ (itself (output_path host cv path output_dir))
              (λ output placed.
                Always->>= (λ s. piece_size_bytes cv.piece_size ≡ ok s) _
                  (piece_size_bytes cv.piece_size) _ (itself (piece_size_bytes cv.piece_size))
                  (λ size sized. record {
                    has_path = given;
                    found = found;
                    placed = placed;
                    sized = sized;
                  }))))
