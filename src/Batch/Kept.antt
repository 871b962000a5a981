-- ===== src/Batch/Kept.antt =====
-- What the job of src/batch.cpp asks for itself, and what the rules leave of it.
use torrent_builder.Common.{
  ℕ, ◌<◌, ◌≡◌, ◌≢◌, refl, ap, ◌∙◌, inl, inr, Bytes, [], not, ◌&&◌, ltb, Bool-cases, lt→ltb,
  if◌then◌else◌, Option, none, some, Result, ok, err, guard, Always, Always->>=, Always-any,
  is_empty, has_value, value_or, codes,
}
use torrent_builder.Yaml.{ℤ, pos, negsuc}
use torrent_builder.PieceSize.{piece_size_for_target_count}
use torrent_builder.Rules.{TrackerRule, RulesEnforcementResult}
use torrent_builder.Rules.Matching.{TrackerRulesDatabase, find_matching_rule}
use torrent_builder.Rules.Enforce.{enforce}
use torrent_builder.Preset.{ConfigValues, PresetLoader, merge_config_values, overlaid}
use torrent_builder.ContentSize.{compute_content_size}
use torrent_builder.Batch.{BatchJob}
use torrent_builder.Batch.Config.{Host, path_value}
use torrent_builder.Batch.Execute.{
  preset_values, or_value, job_values, final_values, needs_content_size, resolve_target,
  target_values, apply_rules, apply_rule, enforced_size, current_kb, has_limit, job_error,
}

-- The output and a positive piece size are the same in both.
pub record IsKept (cv out : ConfigValues) : Type 0 where
  pub same_output : out.output ≡ cv.output
  pub same_size : (kb : ℕ) → 0 < kb → cv.piece_size ≡ some (pos kb) → out.piece_size ≡ some (pos kb)

given_size :
    (kb : ℕ) (enforcement : RulesEnforcementResult)
    → 0 < kb
    → enforced_size (some (pos kb)) enforcement ≡ some (pos kb)
unfolding enforced_size current_kb
given_size kb enforcement positive = rw (lt→ltb 0 kb positive, current_kb, enforced_size) refl

enforced_size_lem :
    (kb : ℕ) (enforcement : RulesEnforcementResult) (piece_size : Option ℤ)
    → 0 < kb
    → piece_size ≡ some (pos kb)
    → enforced_size piece_size enforcement ≡ some (pos kb)
enforced_size_lem kb enforcement piece_size positive given =
    ap (λ p. enforced_size p enforcement) given ∙ given_size kb enforcement positive

apply_rule-IsKept :
    (rule : TrackerRule) (size : ℕ) (cv : ConfigValues) → IsKept cv (apply_rule rule size cv)
unfolding apply_rule
apply_rule-IsKept rule size cv = elim (Bool-cases (has_limit rule)) [
  | inr free ↦ rw free (record { same_output = refl; same_size = λ kb positive given. given })
  | inl limited ↦ rw limited (record {
    same_output = refl;
    same_size = λ kb positive given.
        enforced_size_lem kb (enforce rule size (current_kb cv.piece_size)) cv.piece_size positive
          given;
  })
]

apply_rules-IsKept :
    (rules : TrackerRulesDatabase) (size : ℕ) (cv : ConfigValues)
    → IsKept cv (apply_rules rules size cv)
unfolding apply_rules
apply_rules-IsKept rules size cv = elim (Bool-cases (is_empty (value_or cv.trackers []))) [
  | inl without ↦ rw without (record { same_output = refl; same_size = λ kb positive given. given })
  | inr some_tracker ↦ rw some_tracker (found (find_matching_rule rules (value_or cv.trackers [])))
]
  where
    found :
        (rule : Option TrackerRule)
        → IsKept cv (elim rule [ none ↦ cv | some r ↦ apply_rule r size cv ])
    found none = record { same_output = refl; same_size = λ kb positive given. given }
    found (some r) = apply_rule-IsKept r size cv

not_given : {size : Option ℤ} {kb : ℤ} → size ≡ none → size ≢ some kb
not_given e f = cc

target_values-IsKept :
    (job_index size target : ℕ) (cv : ConfigValues)
    → cv.piece_size ≡ none
    → Always (IsKept cv) (target_values job_index size target cv)
unfolding target_values
target_values-IsKept job_index size target cv e = elim (Bool-cases (ltb 0 size)) [
  | inl sized ↦ rw sized (
      Always-any _ (piece_size_for_target_count size target) _ (λ bytes. record {
        same_output = refl;
        same_size = λ kb positive given. absurd (not_given e given);
      }))
  | inr empty ↦ rw empty (record { same_output = refl; same_size = λ kb positive given. given })
]

resolve_target-IsKept :
    (job_index size : ℕ) (cv : ConfigValues) → Always (IsKept cv) (resolve_target job_index size cv)
unfolding resolve_target
resolve_target-IsKept job_index size cv = by_size cv.piece_size refl
  where
    unchanged : IsKept cv cv
    unchanged = record { same_output = refl; same_size = λ kb positive given. given }

    refused : Bytes
    refused = job_error job_index (codes "target_piece_count must be positive")

    by_target :
        (target : Option ℤ)
        → cv.piece_size ≡ none
        → Always (IsKept cv) (elim target [
          | none ↦ ok cv
          | some (negsuc n) ↦ err refused
          | some (pos n) ↦ if ltb 0 n then target_values job_index size n cv else err refused
        ])
    by_target none e = unchanged
    by_target (some (negsuc n)) e = tt
    by_target (some (pos n)) e = elim (Bool-cases (ltb 0 n)) [
      | inl positive ↦ rw positive (target_values-IsKept job_index size n cv e)
      | inr refuse ↦ rw refuse tt
    ]

    by_size :
        (given : Option ℤ)
        → cv.piece_size ≡ given
        → Always (IsKept cv) (elim given [
          | some kb ↦ ok cv
          | none ↦ elim cv.target_piece_count [
            | none ↦ ok cv
            | some (negsuc n) ↦ err refused
            | some (pos n) ↦ if ltb 0 n then target_values job_index size n cv else err refused
          ]
        ])
    by_size (some kb) e = unchanged
    by_size none e = by_target cv.target_piece_count e

IsKept-trans : {a b c : ConfigValues} → IsKept a b → IsKept b c → IsKept a c
IsKept-trans p q = record {
  same_output = q.same_output ∙ p.same_output;
  same_size = λ kb positive given. q.same_size kb positive (p.same_size kb positive given);
}

-- The values that come from those of the job.
pub record IsFinal (presets : PresetLoader) (job : BatchJob) (out : ConfigValues) : Type 0 where
  pub cv : ConfigValues
  pub found : job_values presets job ≡ ok cv
  pub kept : IsKept cv out

-- The values that the torrent is built from keep the job's output and its positive piece size.
pub final_values-IsKept :
    (host : Host) (presets : PresetLoader) (rules : TrackerRulesDatabase) (job_index : ℕ)
    (job : BatchJob)
    → Always (IsFinal presets job) (final_values host presets rules job_index job)
unfolding final_values
final_values-IsKept host presets rules job_index job =
    Always->>= (λ cv. job_values presets job ≡ ok cv) (IsFinal presets job) (job_values presets job)
      _ (itself (job_values presets job))
      (λ cv found. Always-any (IsFinal presets job) (exclusive cv) _ (λ _.
        Always-any (IsFinal presets job) (path_value cv.path) _ (λ path.
          Always->>= (IsKept cv) (IsFinal presets job)
            (resolve_target job_index (content_size cv path) cv)
            (λ r. ok (apply_rules rules (content_size cv path) r))
            (resolve_target-IsKept job_index (content_size cv path) cv)
            (λ r kept. record {
              cv = cv;
              found = found;
              kept = IsKept-trans kept (apply_rules-IsKept rules (content_size cv path) r);
            }))))
  where
    itself : {A : Type 0} (m : Result Bytes A) → Always (λ a. m ≡ ok a) m
    itself (ok a) = refl
    itself (err e) = tt

    exclusive : ConfigValues → Result Bytes (Unit {0})
    exclusive cv =
        guard (not (has_value cv.piece_size && has_value cv.target_piece_count))
          (job_error job_index (codes "piece_size and target_piece_count are mutually exclusive"))

    content_size : ConfigValues → Bytes → ℕ
    content_size cv path = if needs_content_size cv then compute_content_size host.sizes path else 0

-- The output that the job names is the one that its values name, and not the name of the job.
pub job_values-output :
    (presets : PresetLoader) (job : BatchJob) (named : Bytes)
    → job.values.output ≡ some named
    → Always (λ cv. cv.output ≡ some named) (job_values presets job)
unfolding job_values merge_config_values overlaid or_value
job_values-output presets job named given =
    Always-any _ (preset_values presets job.preset) _ (λ base. rw given refl)

pub job_values-piece_size :
    (presets : PresetLoader) (job : BatchJob) (kb : ℤ)
    → job.values.piece_size ≡ some kb
    → Always (λ cv. cv.piece_size ≡ some kb) (job_values presets job)
unfolding job_values merge_config_values overlaid
job_values-piece_size presets job kb given =
    Always-any _ (preset_values presets job.preset) _ (λ base. rw given refl)
