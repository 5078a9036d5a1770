-- ===== src/Delivery/Driver/Candidate/Chain.antt =====
-- The commits behind a Candidate: from the fixed baseline to the Candidate, Stage by Stage.
use agent_panel_x.Prelude.{
  [], ℕ, zero, suc, String, ◌≡◌, refl, ap, ◌∙◌, inl, inr, true, Option, none, some, List, ◌∷◌, map,
  arith, eq_iff, Option-cases, opt_eq_iff, head?, last?, all, Ensures, Ensures-bind, Ensures-guard,
  Ensures-or_raise, Ensures-then, Ensures-ok, raising, ok, Result-cases,
}
use agent_panel_x.State.{ProjectRuntimeState}
use agent_panel_x.Delivery.Models.{
  succeeded, CandidateIdentity, Stage, StageRun, stage_keys, is_succeeded,
}
use agent_panel_x.Runtime.{World}
use mathlib.Core.Path.{subst}
use agent_panel_x.Delivery.StageRuns
use agent_panel_x.Delivery.StageRuns.{list_by_run_id}
use agent_panel_x.Delivery.Driver.Candidate.{
  CandidateContract, candidate_contract, candidate_chain, effective_stage_runs, revision_base,
  base_of, starts_at, expected_input, chain, same_keys,
}
use agent_panel_x.Delivery.Driver.Candidate.Attempts.{Attempts, effective_stage_runs-Attempts}
use agent_panel_x.Delivery.Driver.Candidate.Contract.{Contracted, candidate_contract-Contracted}

-- The run that a chain of revisions started from.
pub data Origin (rows : List StageRun) : StageRun → StageRun → Type 0 where
  here : (r : StageRun) → r.revision_of_stage_run_id ≡ none → Origin rows r r
  of_parent :
      (r parent base : StageRun) (source_id : String)
      → r.revision_of_stage_run_id ≡ some source_id
      → StageRuns.get source_id rows ≡ some parent
      → Origin rows parent base
      → Origin rows r base

-- How a run continues the one before it: from its output or, as a revision, from the output of its
-- succeeded source.
pub data Continues (rows : List StageRun) (previous current : StageRun) : Type 0 where
  normally :
      current.revision_of_stage_run_id ≡ none
      → previous.output_commit_sha ≡ some current.input_commit_sha
      → Continues rows previous current
  by_revision :
      (source_id : String) (source : StageRun)
      → current.revision_of_stage_run_id ≡ some source_id
      → StageRuns.get source_id rows ≡ some source
      → source.status ≡ succeeded
      → source.output_commit_sha ≡ some current.input_commit_sha
      → Continues rows previous current

pub data Links (rows : List StageRun) : List StageRun → Type 0 where
  empty : Links rows []
  one : (r : StageRun) → Links rows (r ∷ [])
  link :
      (previous current : StageRun) (rest : List StageRun)
      → Continues rows previous current
      → Links rows (current ∷ rest)
      → Links rows (previous ∷ current ∷ rest)

-- A complete chain for the ordered Stages, of rows of the table.
pub record Chained (baseline candidate : String) (rows : List StageRun) (stages : List Stage)
    (final_run : StageRun) : Type 0 where
  pub runs : List StageRun
  pub first : StageRun
  pub base : StageRun
  pub chosen : effective_stage_runs rows stages ≡ ok runs
  pub attempts : Attempts rows runs stages
  pub order : map (λ (r : StageRun). r.stage_key) runs ≡ stage_keys stages
  pub ended : all (λ (r : StageRun). is_succeeded r.status) runs ≡ true
  pub starts : head? runs ≡ some first
  pub origin : Origin rows first base
  pub at_baseline : base.input_commit_sha ≡ baseline
  pub links : Links rows runs
  pub last : last? runs ≡ some final_run
  pub output : final_run.output_commit_sha ≡ some candidate

same_keys-eq : (xs ys : List String) → same_keys xs ys ≡ true → xs ≡ ys
same_keys-eq [] [] h = refl
same_keys-eq [] (y ∷ ys) h = cc
same_keys-eq (x ∷ xs) [] h = cc
same_keys-eq (x ∷ xs) (y ∷ ys) h = ground (arith, eq_iff x y, same_keys-eq xs ys)

revision_base-Origin :
    (fuel : ℕ) (r : StageRun) (rows : List StageRun) (base : StageRun)
    → revision_base fuel r rows ≡ ok (some base)
    → Origin rows r base
unfolding revision_base
revision_base-Origin zero r rows base h = cc
revision_base-Origin (suc fuel) r rows base h = elim (Option-cases r.revision_of_stage_run_id) [
  | inl normal ↦
      (let same : r ≡ base = ground (arith, normal) in
        subst (λ (b : StageRun). Origin rows r b) same (Origin.here r normal))
  | inr (source_id, revises) ↦ elim (Option-cases (StageRuns.get source_id rows)) [
    | inl missing ↦ absurd (ground (arith, revises, missing))
    | inr (parent, found) ↦
        Origin.of_parent r parent base source_id revises found
          (revision_base-Origin fuel parent rows base (ground (arith, revises, found)))
  ]
]

base_of-Origin :
    (runs rows : List StageRun) (base : StageRun)
    → base_of runs rows ≡ ok (some base)
    → (first : StageRun) × (head? runs ≡ some first) × Origin rows first base
unfolding base_of
base_of-Origin [] rows base h = cc
base_of-Origin (r ∷ rs) rows base h = (r, refl, revision_base-Origin _ r rows base h)

expected_input-Continues :
    (previous current : StageRun) (rows : List StageRun) (expected : Option String)
    → expected_input previous current.revision_of_stage_run_id rows ≡ ok expected
    → expected ≡ some current.input_commit_sha
    → Continues rows previous current
unfolding raising expected_input
expected_input-Continues previous current rows expected h same =
    elim (Option-cases current.revision_of_stage_run_id) [
      | inl normal ↦ Continues.normally normal (ground (arith, normal))
      | inr (source_id, revises) ↦ elim (Option-cases (StageRuns.get source_id rows)) [
        | inl missing ↦ absurd (ground (arith, revises, missing))
        | inr (source, found) ↦
            Continues.by_revision source_id source revises found (ground (arith, revises, found))
              (ground (arith, revises, found))
      ]
    ]

chain-Links : (rows runs : List StageRun) → chain rows runs ≡ ok tt → Links rows runs
unfolding raising chain
chain-Links rows [] h = Links.empty
chain-Links rows (r ∷ []) h = Links.one r
chain-Links rows (previous ∷ current ∷ rest) h =
    elim (Result-cases (expected_input previous current.revision_of_stage_run_id rows)) [
      | inl (expected, e) ↦
          Links.link previous current rest
            (expected_input-Continues previous current rows expected e
              (ground (arith, e, opt_eq_iff expected (some current.input_commit_sha))))
            (chain-Links rows (current ∷ rest) (ground (arith, e)))
      | inr (x, e) ↦ absurd (ground (arith, e))
    ]

starts_at-some :
    (base : Option StageRun) (baseline : String)
    → starts_at base baseline ≡ true
    → (r : StageRun) × (base ≡ some r) × (r.input_commit_sha ≡ baseline)
unfolding starts_at
starts_at-some none baseline h = cc
starts_at-some (some r) baseline h = (r, refl, ground (arith, eq_iff r.input_commit_sha baseline))

candidate_chain-Chained :
    (baseline candidate : String) (rows : List StageRun) (stages : List Stage)
    → Ensures
        (candidate_chain baseline candidate rows stages)
        (Chained baseline candidate rows stages)
unfolding candidate_chain
candidate_chain-Chained baseline candidate rows stages = Ensures-bind _ _ λ runs chosen.
    Ensures-guard _ _ _ λ ordered. Ensures-guard _ _ _ λ ended. Ensures-bind _ _ λ base walked.
      Ensures-guard _ _ _ λ started. Ensures-then _ _ λ linked.
        Ensures-or_raise _ _ _ λ final_run last. Ensures-guard _ _ _ λ matches.
          let (b, is_b, at) = starts_at-some base baseline (ground arith) in
          let (first, starts, origin) = base_of-Origin runs rows b (walked ∙ ap ok is_b) in
          Ensures-ok _ _ (record {
            runs = runs;
            first = first;
            base = b;
            chosen = chosen;
            attempts = (effective_stage_runs-Attempts rows stages).at runs chosen;
            order = same_keys-eq _ _ (ground arith);
            ended = ground arith;
            starts = starts;
            origin = origin;
            at_baseline = at;
            links = chain-Links rows runs linked;
            last = last;
            output = ground (arith, opt_eq_iff final_run.output_commit_sha (some candidate));
          })

-- A Candidate that the Owner can decide rests on a complete chain of commits in the rows of its Run: one
-- succeeded run for each Stage of the Milestone, in order; the first goes back through its revisions to
-- a run that starts at the target commit of the delivery; each later run starts from the output of the
-- run before it or, as a revision, of its succeeded source; and the last output is the Candidate.
pub candidate_contract-Chained :
    (context : ProjectRuntimeState) (expected : CandidateIdentity) (w : World)
    (contract : CandidateContract)
    → candidate_contract context expected w ≡ ok contract
    → (baseline : String) × (context.git_main_version ≡ some baseline)
      × Chained baseline expected.candidate_commit_sha
          (list_by_run_id expected.run_id w.stage_runs)
          contract.milestone.stages
          contract.final_run
candidate_contract-Chained context expected w contract h =
    let c : Contracted context expected w contract =
      (candidate_contract-Contracted context expected w).at contract h in
    (
      c.baseline,
      c.at_baseline,
      (candidate_chain-Chained c.baseline expected.candidate_commit_sha
            (list_by_run_id expected.run_id w.stage_runs) contract.milestone.stages).at
          contract.final_run c.chain,
    )
