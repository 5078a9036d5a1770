-- ===== src/Delivery/Service/Target.antt =====
-- The fixed target branch of a delivery and the Candidate that it takes in (`_assert_candidate_target`,
-- `_assert_candidate_ref` and `_integrate_candidate` of src/agentplanex/services/delivery/_service.py).
use agent_panel_x.Prelude.{
  ◌>>=◌, ◌>>◌, String, Bool, true, false, not, ◌||◌, Option, none, some, ◌==◌, if◌then◌else◌,
  is_none, opt_eq, delivery_error, Result, ok, err, raise_if,
}
use agent_panel_x.State.{ProjectRuntimeState}
use agent_panel_x.Delivery.Models.{CandidateIdentity, or_empty, delivery_candidate_ref}
use agent_panel_x.Delivery.Git.{Git, as_delivery}

-- `git.integrate_fast_forward(candidate, expected_branch, expected_head)`: how it ended, and the
-- repository after it.
pub record Integration : Type 0 where
  pub outcome : Result (Unit {0})
  pub after : Git

abbrev pub Integrate : Type 0
Integrate = (candidate expected_branch expected_head : String) → Integration

-- `_assert_candidate_ref`.
unfoldable pub assert_candidate_ref : Git → CandidateIdentity → Result (Unit {0})
assert_candidate_ref git expected = do
  ref ← delivery_candidate_ref expected.run_id
  referenced ← as_delivery (git.resolve_ref ref)
  raise_if (not (referenced == expected.candidate_commit_sha))
      (delivery_error "Candidate Git ref does not match Runtime State")

-- `head not in allowed`, for `accepted` of `None`, true and false.
unfoldable pub head_allowed : Option Bool → (head baseline candidate : String) → Bool
head_allowed none head baseline candidate = head == baseline || head == candidate
head_allowed (some true) head baseline candidate = head == candidate
head_allowed (some false) head baseline candidate = head == baseline

-- `_assert_candidate_target`.
unfoldable pub assert_candidate_target :
    Git → ProjectRuntimeState → CandidateIdentity → Option Bool → Result String
assert_candidate_target git context expected accepted = do
  raise_if (is_none context.git_branch || is_none context.git_main_version)
      (delivery_error "Candidate has no fixed target branch and commit")
  as_delivery git.assert_clean
  branch ← as_delivery git.current_branch
  raise_if (not (opt_eq context.git_branch (some branch)))
      (delivery_error "Project target branch changed during delivery")
  head ← as_delivery git.head_sha
  raise_if
      (not (
        head_allowed accepted head (or_empty context.git_main_version)
          expected.candidate_commit_sha))
      (delivery_error "Project target HEAD changed during Candidate decision")
  ok head

-- The `except` of `_integrate_candidate`: a failed call is forgiven if the target is at the Candidate.
unfoldable pub recover : ProjectRuntimeState → CandidateIdentity → Integration → Result Git
recover context expected integration = elim integration.outcome [
  | ok u ↦ ok integration.after
  | err e ↦ elim (assert_candidate_target integration.after context expected (some true)) [
    | ok head ↦
        (if head == expected.candidate_commit_sha
          then ok integration.after
          else as_delivery (err e))
    | err other ↦ as_delivery (err e)
  ]
]

unfoldable pub integrated_git :
    Bool → Git → Integration → ProjectRuntimeState → CandidateIdentity → Result Git
integrated_git true git integration context expected = recover context expected integration
integrated_git false git integration context expected = ok git

-- `_integrate_candidate`: the commit that the target is at afterwards.
unfoldable pub integrate_candidate :
    Git → Integrate → ProjectRuntimeState → CandidateIdentity → Result String
integrate_candidate git integrate context expected = do
  head ← assert_candidate_target git context expected none
  git' ←
      integrated_git (opt_eq context.git_main_version (some head)) git
        (integrate expected.candidate_commit_sha (or_empty context.git_branch)
          (or_empty context.git_main_version))
        context expected
  assert_candidate_ref git' expected
  assert_candidate_target git' context expected (some true)
