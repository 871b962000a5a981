-- ===== src/Rules/Overrides.antt =====
-- Which of a rule's overrides take effect.
use torrent_builder.Common.{
  ℕ, ◌≤◌, ◌≡◌, refl, inl, inr, List, [], ◌∷◌, All, Option, ltb, arith, Bool-cases, ltb→le, le→ltb,
}
use torrent_builder.Rules.{
  PieceLengthOverride, TrackerRule, Enforcing, apply_overrides, insert_override, sort_overrides,
  initial_result, snap_to_allowed, requested_kb,
}
use torrent_builder.Rules.Enforce.{
  enforce, enforced, override_stage, has_constraint, limit_stage, cap_stage,
}

-- Every bound of the list is at most `n`.
abbrev pub IsBoundedBy : ℕ → List PieceLengthOverride → Type 0
IsBoundedBy n = All (λ ov. ov.size_below ≤ n)

abbrev pub IsDescending : List PieceLengthOverride → Type 0
IsDescending [] = Unit
IsDescending (ov ∷ ovs) = IsBoundedBy ov.size_below ovs × IsDescending ovs

insert_override-IsBoundedBy :
    (n : ℕ) (ov : PieceLengthOverride) (ovs : List PieceLengthOverride)
    → ov.size_below ≤ n
    → IsBoundedBy n ovs
    → IsBoundedBy n (insert_override ov ovs)
unfolding insert_override
insert_override-IsBoundedBy n ov [] h hs = (h, tt)
insert_override-IsBoundedBy n ov (o ∷ os) h hs =
    elim (Bool-cases (ltb o.size_below ov.size_below)) [
      | inl e ↦ rw e (h, hs)
      | inr e ↦ rw e (hs.0, insert_override-IsBoundedBy n ov os h hs.1)
    ]

IsBoundedBy-le :
    (m n : ℕ) (ovs : List PieceLengthOverride) → m ≤ n → IsBoundedBy m ovs → IsBoundedBy n ovs
IsBoundedBy-le m n [] h hs = tt
IsBoundedBy-le m n (o ∷ os) h hs = (omega (arith, hs.0), IsBoundedBy-le m n os h hs.1)

insert_override-IsDescending :
    (ov : PieceLengthOverride) (ovs : List PieceLengthOverride)
    → IsDescending ovs
    → IsDescending (insert_override ov ovs)
unfolding insert_override
insert_override-IsDescending ov [] h = (tt, tt)
insert_override-IsDescending ov (o ∷ os) h = elim (Bool-cases (ltb o.size_below ov.size_below)) [
  | inl e ↦
      rw e ((ground arith, IsBoundedBy-le o.size_below ov.size_below os (ground arith) h.0), h)
  | inr e ↦ rw e (
    insert_override-IsBoundedBy o.size_below ov os (ltb→le _ _ e) h.0,
    insert_override-IsDescending ov os h.1,
  )
]

pub sort_overrides-IsDescending :
    (ovs : List PieceLengthOverride) → IsDescending (sort_overrides ovs)
unfolding sort_overrides
sort_overrides-IsDescending [] = tt
sort_overrides-IsDescending (ov ∷ ovs) =
    insert_override-IsDescending ov (sort_overrides ovs) (sort_overrides-IsDescending ovs)

module _ (current : Option ℕ) (total : ℕ) where
  apply_overrides_none :
      (n : ℕ) (ovs : List PieceLengthOverride) (e : Enforcing)
      → n ≤ total
      → IsBoundedBy n ovs
      → apply_overrides current total ovs e ≡ e
  unfolding apply_overrides
  apply_overrides_none n [] e h hs = refl
  apply_overrides_none n (o ∷ os) e h hs =
      rw (le→ltb total o.size_below (omega (arith, hs.0))) (apply_overrides_none n os e h hs.1)

  apply_overrides_head :
      (ov : PieceLengthOverride) (ovs : List PieceLengthOverride) (e : Enforcing)
      → IsBoundedBy ov.size_below ovs
      → apply_overrides current total (ov ∷ ovs) e ≡ apply_overrides current total (ov ∷ []) e
  unfolding apply_overrides
  apply_overrides_head ov ovs e h = elim (Bool-cases (ltb total ov.size_below)) [
    | inl p ↦ rw p
    | inr p ↦ rw p (apply_overrides_none ov.size_below ovs e (ltb→le _ _ p) h)
  ]

-- The rule with other overrides.
abbrev with_overrides : TrackerRule → List PieceLengthOverride → TrackerRule
with_overrides rule ovs = record rule { piece_length_overrides = ovs }

-- The stages behind the overrides do not look at them.
limit_stage-with_overrides :
    (rule : TrackerRule) (ovs : List PieceLengthOverride) (current : Option ℕ) (total : ℕ)
    (e : Enforcing)
    → limit_stage current (with_overrides rule ovs) total e ≡ limit_stage current rule total e
unfolding limit_stage
limit_stage-with_overrides rule ovs current total e = refl

cap_stage-with_overrides :
    (rule : TrackerRule) (ovs : List PieceLengthOverride) (current : Option ℕ) (e : Enforcing)
    → cap_stage current (with_overrides rule ovs) e ≡ cap_stage current rule e
unfolding cap_stage
cap_stage-with_overrides rule ovs current e = refl

override_stage_head :
    (rule : TrackerRule) (ov : PieceLengthOverride) (ovs : List PieceLengthOverride) (total : ℕ)
    (current : Option ℕ) (e : Enforcing)
    → IsBoundedBy ov.size_below ovs
    → override_stage current (with_overrides rule (ov ∷ ovs)) total e
      ≡ override_stage current (with_overrides rule (ov ∷ [])) total e
unfolding override_stage
override_stage_head rule ov ovs total current e h =
    rw (apply_overrides_head current total ov ovs e h)

enforced-with_overrides :
    (rule : TrackerRule) (ovs : List PieceLengthOverride) (total : ℕ) (current : Option ℕ)
    → enforced (with_overrides rule ovs) total current
      ≡ limit_stage current rule total (
          cap_stage current rule (
            override_stage current (with_overrides rule ovs) total (record {
              effective_kb = snap_to_allowed (requested_kb total current);
              result = initial_result rule;
            })))
unfolding enforced
enforced-with_overrides rule ovs total current =
    simp (limit_stage-with_overrides, cap_stage-with_overrides)

-- With the overrides in descending order, as the loader sorts them, only the one with the largest
-- bound takes effect: the others can be left out of the rule.
pub enforce-largest_override :
    (rule : TrackerRule) (ov : PieceLengthOverride) (ovs : List PieceLengthOverride) (total : ℕ)
    (current : Option ℕ)
    → IsDescending (ov ∷ ovs)
    → enforce (record rule { piece_length_overrides = ov ∷ ovs }) total current
      ≡ enforce (record rule { piece_length_overrides = ov ∷ [] }) total current
unfolding enforce
enforce-largest_override rule ov ovs total current h =
    rw
      (
        enforced-with_overrides rule (ov ∷ ovs) total current,
        override_stage_head rule ov ovs total current _ h.0,
        ← enforced-with_overrides rule (ov ∷ []) total current,
      )
      (unfold has_constraint initial_result in refl)
