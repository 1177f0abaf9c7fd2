-- ===== src/Dashboard/Projects.antt =====
-- internal/dashboard/projects.go: the list of projects and the creation of one.
use slay_push.Base.Text.{str_eq}
use slay_push.Store.Tenants.{create_project, list_projects}
use slay_push.Store.Users.{get_user_by_id}
use slay_push.Store.{World, Project}
use slay_push.Store.Monad.{attempt, pure, ◌>>=◌, M}
use slay_push.Dashboard.{redirect, projects_page, internal_error, answer, Answer}
use slay_push.Base.{none, ◌||◌, if◌then◌else◌, some, Option, ℕ, String}
use slay_push.Errors.{ok, err, Result}

-- A page, or an internal error where one of its statements fails.
abbrev pub or_internal : Result Answer × World → Result Answer × World
or_internal (ok a, w) = (ok a, w)
or_internal (err e, w) = (ok (answer internal_error), w)

-- `currentUserEmail`, behind requireSession.
abbrev pub current_user_email : ℕ → M String
current_user_email user_id = do u ← get_user_by_id user_id; pure u.email

projects_of : ℕ → String → M Answer
projects_of user_id message = do
  email ← current_user_email user_id
  projects ← list_projects
  pure (answer (projects_page email projects message))

-- `renderProjectsList`
unfoldable pub render_projects_list : ℕ → String → M Answer
unfolding projects_of
render_projects_list user_id message w = or_internal (projects_of user_id message w)

pub record ProjectForm : Type 0 where
  pub name : String
  pub slug : String

created : ℕ → Result Project → M Answer
created user_id (err e) =
    render_projects_list user_id "failed to create project (slug may already be in use)"
created user_id (ok p) = pure (answer (redirect "/projects"))

-- `handleCreateProject`
unfoldable pub handle_create_project : ℕ → Option ProjectForm → M Answer
unfolding created
handle_create_project user_id none = render_projects_list user_id "invalid form submission"
handle_create_project user_id (some form) =
    if str_eq form.name "" || str_eq form.slug ""
    then render_projects_list user_id "name and slug are required"
    else do made ← attempt (create_project form.name form.slug); created user_id made
