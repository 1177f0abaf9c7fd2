-- ===== src/Store/Projects.antt =====
-- Foreign keys to projects (migrations/000001: `project_id uuid not null references projects(id)`).
use slay_push.Store.{World}
use slay_push.Base.{◌==◌, any_where, Bool, ℕ}

unfoldable pub has_project : ℕ → World → Bool
has_project id w = any_where (λ p. p.id == id) w.projects
