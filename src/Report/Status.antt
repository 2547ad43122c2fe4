-- ===== src/Report/Status.antt =====
-- The aggregate outcomes of a run and of a trace group.
use conformance_suite_v.Base.{
  ℕ, ◌+◌, ◌≡◌, refl, ◌↔◌, String, true, false, Option, List, [], ◌∷◌, ◌++◌, arith, if◌then◌else◌,
  leb, inl, inr, ◌⊎◌, length, all, count_if,
}
use conformance_suite_v.TestPlan.{CertificationCoverage, TestPlan}
use conformance_suite_v.Report.{
  CheckStatus, passed, failed, warn, skipped, is_status, is_success, StepResult,
  ApprovedReleasePolicy, build_smoke_check_result, count_status, summary_of, aggregate_trace_status,
}

-- a status is one of the four
pub is_status-one :
    (t : CheckStatus)
    → ((is_status t passed ≡ true)
        × (is_status t failed ≡ false)
        × (is_status t warn ≡ false)
        × (is_status t skipped ≡ false))
      ⊎ ((is_status t passed ≡ false)
          × (is_status t failed ≡ true)
          × (is_status t warn ≡ false)
          × (is_status t skipped ≡ false))
      ⊎ ((is_status t passed ≡ false)
          × (is_status t failed ≡ false)
          × (is_status t warn ≡ true)
          × (is_status t skipped ≡ false))
      ⊎ ((is_status t passed ≡ false)
          × (is_status t failed ≡ false)
          × (is_status t warn ≡ false)
          × (is_status t skipped ≡ true))
is_status-one passed = inl (refl, refl, refl, refl)
is_status-one failed = inr (inl (refl, refl, refl, refl))
is_status-one warn = inr (inr (inl (refl, refl, refl, refl)))
is_status-one skipped = inr (inr (inr (refl, refl, refl, refl)))

pub count_statuses :
    (steps : List StepResult)
    → count_status passed steps
        + count_status failed steps
        + count_status warn steps
        + count_status skipped steps
      ≡ length steps
unfolding count_if
count_statuses [] = refl
count_statuses (s ∷ steps) = ground (arith, is_status-one s.status, count_statuses steps)

pub all-is_success :
    (steps : List StepResult)
    → (all (λ s. is_success s.status) steps ≡ true)
      ↔ ((count_status failed steps ≡ 0) × (count_status skipped steps ≡ 0))
unfolding all count_if
all-is_success [] = (λ h. (refl, refl), λ h. refl)
all-is_success (s ∷ steps) =
    let ih = all-is_success steps in
    (
      λ h. ground (arith, is_status-one s.status, ih.0),
      λ h. ground (arith, is_status-one s.status, ih.1),
    )

abbrev pub rank : CheckStatus → ℕ
rank skipped = 0
rank passed = 1
rank warn = 2
rank failed = 3

-- the worse of two outcomes
abbrev pub worse : CheckStatus → CheckStatus → CheckStatus
worse s t = if leb (rank t) (rank s) then s else t

abbrev pub worst : List CheckStatus → CheckStatus
worst [] = skipped
worst (s ∷ ss) = worse s (worst ss)

worse-failed : (t : CheckStatus) → worse failed t ≡ failed
worse-failed passed = refl
worse-failed failed = refl
worse-failed warn = refl
worse-failed skipped = refl

worse-skipped : (t : CheckStatus) → worse skipped t ≡ t
worse-skipped passed = refl
worse-skipped failed = refl
worse-skipped warn = refl
worse-skipped skipped = refl

aggregate-worst : (ss : List CheckStatus) → aggregate_trace_status ss ≡ worst ss
unfolding aggregate_trace_status
aggregate-worst [] = refl
aggregate-worst (passed ∷ ss) = ground (arith, aggregate-worst ss)
aggregate-worst (failed ∷ ss) = rw (worse-failed (worst ss)) refl
aggregate-worst (warn ∷ ss) = ground (arith, aggregate-worst ss)
aggregate-worst (skipped ∷ ss) = ground (arith, aggregate-worst ss)

worse_assoc : (r s t : CheckStatus) → worse (worse r s) t ≡ worse r (worse s t)
worse_assoc r s t = ground arith

worst-append : (ss ts : List CheckStatus) → worst (ss ++ ts) ≡ worse (worst ss) (worst ts)
worst-append [] ts = rw (worse-skipped (worst ts)) refl
worst-append (s ∷ ss) ts = rw (worst-append ss ts, worse_assoc s (worst ss) (worst ts)) refl

-- The outcome of two lists of children is the worse of their outcomes, where a failure counts
-- most, then a warning, then a pass, and a skipped child least.
pub aggregate-append :
    (ss ts : List CheckStatus)
    → aggregate_trace_status (ss ++ ts)
      ≡ worse (aggregate_trace_status ss) (aggregate_trace_status ts)
aggregate-append ss ts =
    rw (aggregate-worst (ss ++ ts), aggregate-worst ss, aggregate-worst ts, worst-append ss ts) refl

-- A run passes exactly if its summary counts no failed and no skipped step, and the four counts
-- of the summary add up to its total.
pub build_smoke_check_result-summary :
    (steps : List StepResult) (started_at now : ℕ) (plan : Option TestPlan)
    (policy : Option ApprovedReleasePolicy) (coverage : CertificationCoverage)
    (reasons : List String)
    → let r = build_smoke_check_result steps started_at now plan policy coverage reasons in
      let s = summary_of r in
      ((r.status ≡ CheckStatus.passed) ↔ ((s.failed ≡ 0) × (s.skipped ≡ 0)))
      × (s.passed + s.failed + s.warn + s.skipped ≡ s.total)
unfolding build_smoke_check_result summary_of
build_smoke_check_result-summary steps started_at now plan policy coverage reasons =
    let iff = all-is_success steps in
    ((λ h. ground (arith, iff.0), λ h. ground (arith, iff.1)), count_statuses steps)
