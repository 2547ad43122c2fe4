-- ===== src/Report/Certification.antt =====
-- When a report permits certification.
use conformance_suite_v.Base.{
  ℕ, ◌+◌, ◌≡◌, refl, ◌↔◌, ◌≢◌, String, Bool, true, false, not, ◌&&◌, ◌||◌, Option, none, some, List,
  [], ◌∷◌, ◌++◌, map, arith, ltb, ◌==◌, length, filter, all, any, Bool-cases, inl, inr,
}
use conformance_suite_v.TestPlan.{
  CertificationCoverage, complete, partial, TestPlan, deselected_mandatory_step_ids,
}
use conformance_suite_v.Report.{
  failed, skipped, is_success, StepResult, ApprovedReleasePolicy, Reason,
  mandatory_deselected_reason, plan_reason, is_tool_version_approved, count_status, when,
  is_complete, policy_reasons, is_empty, eligibility_reasons, build_eligibility,
  build_smoke_check_result, eligibility_of,
}
use conformance_suite_v.Report.Status.{all-is_success}

is_empty-append : (rs ts : List Reason) → is_empty (rs ++ ts) ≡ (is_empty rs && is_empty ts)
is_empty-append [] ts = refl
is_empty-append (r ∷ rs) ts = refl

is_empty-when : (b : Bool) (r : Reason) → is_empty (when b r) ≡ not b
is_empty-when true r = refl
is_empty-when false r = refl

is_empty-plan : (ts : List String) → is_empty (map plan_reason ts) ≡ is_empty ts
is_empty-plan [] = refl
is_empty-plan (t ∷ ts) = refl

is_empty-length {ℓ} : {A : Type ℓ} (l : List A) → ltb 0 (length l) ≡ not (is_empty l)
is_empty-length [] = refl
is_empty-length (x ∷ l) = ground arith

-- the version stands in the policy, and a policy was given
abbrev pub is_approved : Option ApprovedReleasePolicy → String → Bool
is_approved none version = false
is_approved (some policy) version = is_tool_version_approved policy version

is_empty-policy :
    (policy : Option ApprovedReleasePolicy) (version : String)
    → is_empty (policy_reasons policy version) ≡ is_approved policy version
is_empty-policy none version = refl
is_empty-policy (some policy) version = ground arith

is_empty-reasons :
    (ms : List StepResult) (des : List String) (policy : Option ApprovedReleasePolicy)
    (version : String) (coverage : CertificationCoverage) (rs : List String)
    → is_empty (eligibility_reasons ms des policy version coverage rs) ≡ (
        not (ltb 0 (length des))
        && not (ltb 0 (count_status failed ms))
        && not (ltb 0 (count_status skipped ms))
        && not (length ms + length des == 0)
        && not (not (is_complete coverage))
        && is_empty rs
        && is_approved policy version)
unfolding eligibility_reasons
is_empty-reasons ms des policy version coverage rs =
    simp (is_empty-when, is_empty-append, is_empty-plan, is_empty-policy)

filter-any :
    (steps : List StepResult)
    → not (length (filter (λ (s : StepResult). s.mandatory) steps) == 0)
      ≡ any (λ s. s.mandatory) steps
unfolding filter any
filter-any [] = refl
filter-any (s ∷ steps) = ground (arith, filter-any steps)

all-filter :
    (steps : List StepResult)
    → all (λ s. is_success s.status) (filter (λ (s : StepResult). s.mandatory) steps)
      ≡ all (λ s. not s.mandatory || is_success s.status) steps
unfolding filter all
all-filter [] = refl
all-filter (s ∷ steps) = ground (arith, all-filter steps)

is_complete_iff : (c : CertificationCoverage) → (is_complete c ≡ true) ↔ (c ≡ complete)
is_complete_iff complete = (λ h. refl, λ h. refl)
is_complete_iff partial = (λ h. absurd (cc), λ h. absurd (cc))

is_empty_iff {ℓ} : {A : Type ℓ} (l : List A) → (is_empty l ≡ true) ↔ (l ≡ [])
is_empty_iff [] = (λ h. refl, λ h. refl)
is_empty_iff (x ∷ l) = (λ h. absurd (cc), λ h. absurd (cc))

-- A run is eligible exactly if a mandatory step ran, every mandatory step that ran passed or
-- warned, no mandatory step was deselected, the manifest has complete coverage, the plan gives no
-- reason against it, and a policy was supplied that approves the version of the tool.
pub eligible_iff :
    (steps : List StepResult) (deselected : List String) (policy : Option ApprovedReleasePolicy)
    (version : String) (coverage : CertificationCoverage) (reasons : List String)
    → ((build_eligibility steps deselected policy version coverage reasons).eligible ≡ true) ↔ (
        (any (λ s. s.mandatory) steps ≡ true)
        × (all (λ s. not s.mandatory || is_success s.status) steps ≡ true)
        × (deselected ≡ [])
        × (coverage ≡ complete)
        × (reasons ≡ [])
        × (is_approved policy version ≡ true))
unfolding build_eligibility
eligible_iff steps deselected policy version coverage reasons =
    let ms = filter (λ (s : StepResult). s.mandatory) steps in
    let test = is_empty-reasons ms deselected policy version coverage reasons in
    let good = all-is_success ms in
    let none_deselected = is_empty_iff deselected in
    let no_reasons = is_empty_iff reasons in
    let is_full = is_complete_iff coverage in
    (
      λ h. (
        ground (arith, test, filter-any steps, none_deselected.0, is_empty-length deselected),
        ground (arith, test, all-filter steps, good.1),
        none_deselected.0 (ground (arith, test, is_empty-length deselected)),
        is_full.0 (ground (arith, test)),
        no_reasons.0 (ground (arith, test)),
        ground (arith, test),
      ),
      λ (some_mandatory, all_good, d, c, r, a).
          ground
            (arith, test, filter-any steps, all-filter steps, good.0, is_full.1 c, no_reasons.1 r),
    )

abbrev pub StartsWith : Reason → List Reason → Type 0
StartsWith r [] = ⊥
StartsWith r (first ∷ rest) = first ≡ r

when-StartsWith : (b : Bool) (r : Reason) → b ≡ true → StartsWith r (when b r)
when-StartsWith true r h = refl
when-StartsWith false r h = absurd (cc)

StartsWith-append : (r : Reason) (rs ts : List Reason) → StartsWith r rs → StartsWith r (rs ++ ts)
StartsWith-append r [] ts h = absurd h
StartsWith-append r (first ∷ rs) ts h = h

reasons-StartsWith :
    (ms : List StepResult) (des : List String) (policy : Option ApprovedReleasePolicy)
    (version : String) (coverage : CertificationCoverage) (rs : List String)
    → is_empty des ≡ false
    → StartsWith mandatory_deselected_reason (eligibility_reasons ms des policy version coverage rs)
unfolding eligibility_reasons
reasons-StartsWith ms des policy version coverage rs h = StartsWith-append _ _ _ (
    StartsWith-append _ _ _ (
      StartsWith-append _ _ _ (
        StartsWith-append _ _ _ (
          StartsWith-append _ _ _ (
            StartsWith-append _ _ _ (
              when-StartsWith (ltb 0 (length des)) mandatory_deselected_reason
                (ground (arith, is_empty-length des))))))))

-- The report of a run whose plan deselects a mandatory step does not permit certification, and
-- gives that as its primary reason, whatever other reasons there are.
pub deselected_first :
    (steps : List StepResult) (started_at now : ℕ) (plan : TestPlan)
    (policy : Option ApprovedReleasePolicy) (version : String) (coverage : CertificationCoverage)
    (reasons : List String)
    → deselected_mandatory_step_ids plan ≢ []
    → let e =
        eligibility_of version
          (build_smoke_check_result steps started_at now (some plan) policy coverage reasons) in
      (e.eligible ≡ false) × StartsWith mandatory_deselected_reason e.reasons
unfolding build_smoke_check_result build_eligibility
deselected_first steps started_at now plan policy version coverage reasons h =
    let ms = filter (λ (s : StepResult). s.mandatory) steps in
    let ids = deselected_mandatory_step_ids plan in
    let not_empty : is_empty ids ≡ false = elim (Bool-cases (is_empty ids)) [
      | inl e ↦ absurd (h ((is_empty_iff ids).0 e))
      | inr n ↦ n
    ] in
    (
      ground (arith, is_empty-reasons ms ids policy version coverage reasons, is_empty-length ids),
      reasons-StartsWith ms ids policy version coverage reasons not_empty,
    )
