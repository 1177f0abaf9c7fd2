-- ===== src/Dashboard/Providers/Used.antt =====
-- A credential from the form to the push.
use slay_push.Dispatch.Send.Uses.{handle_send-pushes, push_of}
use slay_push.Dispatch.Send.{handle_send}
use slay_push.Store.Recipients.{max_int, recipient_has_id}
use slay_push.Store.Fates.{AllRun}
use slay_push.Dashboard.Views.{ok_msg}
use slay_push.Dashboard.Providers.Saved.{handle_upsert-IsSaved, page_message}
use slay_push.Errors.{ok}
use slay_push.Crypto.RoundTrip.{OpensSealed, FillsBuffers}
use slay_push.Queue.{SendPayload}
use slay_push.Store.Tenants.{project_has_id}
use slay_push.Dispatch.{is_terminal, Attempt}
use slay_push.Dashboard.{Answer}
use slay_push.Store.{NotificationRecipient, World, Project, Adapter}
use slay_push.Dashboard.Providers.{
  open_envelope, handle_upsert_provider_credential, is_known, CredentialForm, ProviderCodec,
}
use slay_push.Base.{
  ap, sym, ◌∙◌, ◌∷◌, ◌<◌, false, refl, find_where_sound, none, ==_iff, some, true, ◌≡◌, find_where,
  List, ℕ, Option,
}

known_adapter : (o : Option Adapter) → is_known o ≡ true → (ad : Adapter) × (o ≡ some ad)
known_adapter none h = cc
known_adapter (some ad) h = (ad, refl)

found_project :
    (id : ℕ) (project : Project) (ps : List Project)
    → find_where (project_has_id id) ps ≡ some project
    → project.id ≡ id
found_project id project ps h =
    (==_iff project.id id).0 (find_where_sound (project_has_id id) ps project h)

-- After the page has said that a credential was saved, with the database up and no outbound limiter:
-- a send task of the project and the provider, for a recipient that is there, is not in a terminal
-- state and has room for an attempt, makes exactly one push, with the text of the form as its
-- credential; under a random source that fills its buffers and an AEAD that opens what it seals.
pub saved-IsUsed :
    (c : ProviderCodec) (user_id id : ℕ) (form : CredentialForm) (w v : World) (a : Answer)
    (attempt : Attempt) (p : SendPayload) (r : NotificationRecipient)
    → FillsBuffers c.random
    → OpensSealed w.env.aead
    → handle_upsert_provider_credential c user_id (some id) (some form) w ≡ (ok a, v)
    → page_message a.page ≡ some (ok_msg "credential saved")
    → AllRun v
    → v.env.outbound_limiter ≡ none
    → p.project_id ≡ id
    → p.provider_type ≡ form.provider
    → find_where (recipient_has_id p.recipient_id) v.recipients ≡ some r
    → is_terminal r.status ≡ false
    → r.attempt_count < max_int
    → (handle_send attempt p v).1.pushes ≡ push_of p (c.bytes_of form.credential) ∷ v.pushes
saved-IsUsed c user_id id form w v a attempt p r fills opens h s up unset project provider there
      live room =
    let saved = handle_upsert-IsSaved c user_id id form w v a fills opens h s in
    let (ad, known) = known_adapter (w.env.adapters form.provider) saved.known in
    let same_project : p.project_id ≡ saved.project.id =
      project ∙ sym (found_project id saved.project w.projects saved.of_id) in
    handle_send-pushes attempt p (c.bytes_of form.credential) saved.row ad v r up unset there live
      room (rw (same_project, provider) saved.held)
      (ap (λ e. open_envelope e.aead e.master_key saved.row.wrapped_dek saved.row.credential)
          saved.same_env
        ∙ saved.opened)
      (ap (λ e. e.adapters p.provider_type) saved.same_env
        ∙ ap (λ t. w.env.adapters t) provider
        ∙ known)
