-- ===== src/Delivery/Git.antt =====
-- What Delivery and Planning read from the repository. The repository is the program `git`
-- (src/agentplanex/infrastructure/git_repository.py runs it), so its answers are a parameter.
use agent_panel_x.Prelude.{String, Option, List, delivery_error, git_error, Result, ok, err}

pub record Git : Type 0 where
  pub assert_clean : Result (Unit {0})
  pub current_branch : Result String
  pub head_sha : Result String
  pub resolve_ref : String → Result String
  -- `paths_changed_from_commit` over the Plan documents: from a commit to the worktree, or to a target.
  pub paths_changed : String → Option String → Result (List String)

-- `except GitRepositoryError as error: raise DeliveryError(str(error)) from error`.
abbrev pub as_delivery {ℓ} : {A : Type ℓ} → Result A → Result A
as_delivery (ok a) = ok a
as_delivery (err (git_error message)) = err (delivery_error message)
as_delivery (err e) = err e
