-- ===== src/Site/Task/Current.antt =====
-- Which task the page takes for the site's present configuration.
use cdn_platform.Prelude.{
  ℕ, ◌≤◌, ◌≡◌, refl, ◌↔◌, inl, inr, Bool-cases, leb→le, true, Option, none, some, Text, arith,
}
use cdn_platform.Types.Site.{Site}
use cdn_platform.Types.Task.{DeploymentTask}
use cdn_platform.Site.Task.{active_task, not_before, task_matches_current_site}

-- Why a task is taken for the present configuration.
pub data Reason (parse_date : Text → Option ℕ) (task : DeploymentTask) (site : Site) : Type 0 where
  deleting : site.deleting ≡ true → Reason parse_date task site
  published : site.published ≡ true → Reason parse_date task site
  running : active_task (some task) ≡ true → Reason parse_date task site
  newer :
      (created updated : ℕ)
      → parse_date task.created_at ≡ some created
      → parse_date site.updated_at ≡ some updated
      → updated ≤ created
      → Reason parse_date task site

module _ (parse_date : Text → Option ℕ) (task : DeploymentTask) (site : Site) where
  not_before-Reason :
      (created updated : Option ℕ)
      → parse_date task.created_at ≡ created
      → parse_date site.updated_at ≡ updated
      → not_before created updated ≡ true
      → Reason parse_date task site
  not_before-Reason (some a) (some b) ea eb h = newer a b ea eb (leb→le b a h)
  not_before-Reason none _ ea eb h = cc
  not_before-Reason (some a) none ea eb h = cc

  matches-Reason :
      task_matches_current_site parse_date (some task) site ≡ true → Reason parse_date task site
  unfolding task_matches_current_site
  matches-Reason h = elim (Bool-cases site.deleting) [
    | inl d ↦ deleting d
    | inr not_deleting ↦ elim (Bool-cases site.published) [
      | inl p ↦ published p
      | inr not_published ↦ elim (Bool-cases (active_task (some task))) [
        | inl a ↦ running a
        | inr idle ↦ not_before-Reason _ _ refl refl (ground arith)
      ]
    ]
  ]

  Reason-matches :
      Reason parse_date task site → task_matches_current_site parse_date (some task) site ≡ true
  unfolding task_matches_current_site
  Reason-matches (deleting d) = rw d
  Reason-matches (published p) = ground arith
  Reason-matches (running a) = ground arith
  Reason-matches (newer created updated ec eu le) = ground arith

  -- A task is taken for the present configuration exactly when the site is being deleted or is
  -- published, the task is running, or it was created no earlier than the site was changed.
  pub task_matches_iff :
      (task_matches_current_site parse_date (some task) site ≡ true) ↔ Reason parse_date task site
  task_matches_iff = (matches-Reason, Reason-matches)
