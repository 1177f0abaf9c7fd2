-- ===== src/Api/Status/Tenancy.antt =====
-- What the two reads of a notification tell to which project.
use slay_push.Store.Fates.{read_cases}
use slay_push.Store.Monad.{advance}
use slay_push.Api.{write_error, recipient_list, write_json}
use slay_push.Errors.{ok, is_no_rows}
use slay_push.Store.Notifications.{one_row, by_id_and_project, get_notification}
use slay_push.Store.{World, NotificationRecipient, Notification}
use slay_push.Api.Status.{
  select_where, of_notification, recipient_response, with_notification, list_reply,
  list_notification_recipients, list_recipients, get_status, insert_by_time, by_time,
}
use slay_push.Base.{
  any_where, ap, sym, Bool, ==_iff, ◌==◌, select_where, true, refl, find_where-absent, find_where,
  ◌⊎◌, map, false, inr, ◌≡◌, inl, leb, arith, [], Bool-cases, ◌∷◌, ◌≤◌, All, ℕ, List,
}
use mathlib.Core.List.{Permᴰ, Memᴰ}
use mathlib.Core.Path.{subst}
use mathlib.Core.List.Permᴰ

-- Oldest first.
abbrev pub IsOrdered : List NotificationRecipient → Type 0
IsOrdered [] = Unit
IsOrdered (r ∷ rs) = All (λ s. r.created_at ≤ s.created_at) rs × IsOrdered rs

All-insert :
    (P : NotificationRecipient → Type 0) (r : NotificationRecipient)
    (rs : List NotificationRecipient)
    → P r
    → All P rs
    → All P (insert_by_time r rs)
unfolding insert_by_time
All-insert P r [] p a = (p, tt)
All-insert P r (s ∷ rs) p a = elim (Bool-cases (leb r.created_at s.created_at)) [
  | inl le ↦ rw le (p, a)
  | inr gt ↦ rw gt (a.0, All-insert P r rs p a.1)
]

All-le :
    (m n : ℕ) (rs : List NotificationRecipient)
    → m ≤ n
    → All (λ s. n ≤ s.created_at) rs
    → All (λ s. m ≤ s.created_at) rs
All-le m n [] h a = tt
All-le m n (r ∷ rs) h a = (omega (arith, a.0), All-le m n rs h a.1)

insert-IsOrdered :
    (r : NotificationRecipient) (rs : List NotificationRecipient)
    → IsOrdered rs
    → IsOrdered (insert_by_time r rs)
unfolding insert_by_time
insert-IsOrdered r [] o = (tt, tt)
insert-IsOrdered r (s ∷ rs) o = elim (Bool-cases (leb r.created_at s.created_at)) [
  | inl le ↦
      let below : r.created_at ≤ s.created_at = ground arith in
      rw le ((below, All-le r.created_at s.created_at rs below o.0), o)
  | inr gt ↦ rw gt (All-insert _ r rs (ground arith) o.0, insert-IsOrdered r rs o.1)
]

by_time-IsOrdered : (rs : List NotificationRecipient) → IsOrdered (by_time rs)
unfolding by_time
by_time-IsOrdered [] = tt
by_time-IsOrdered (r ∷ rs) = insert-IsOrdered r (by_time rs) (by_time-IsOrdered rs)

insert-perm :
    (r : NotificationRecipient) (rs : List NotificationRecipient)
    → Permᴰ (insert_by_time r rs) (r ∷ rs)
unfolding insert_by_time
insert-perm r [] = Permᴰ.refl (r ∷ [])
insert-perm r (s ∷ rs) = elim (Bool-cases (leb r.created_at s.created_at)) [
  | inl le ↦ rw le (Permᴰ.refl (r ∷ s ∷ rs))
  | inr gt ↦ rw gt (Permᴰ.trans (Permᴰ.cons refl (insert-perm r rs)) (Permᴰ.swap refl refl))
]

by_time-perm : (rs : List NotificationRecipient) → Permᴰ (by_time rs) rs
unfolding by_time
by_time-perm [] = Permᴰ.nil
by_time-perm (r ∷ rs) = Permᴰ.trans (insert-perm r (by_time rs)) (Permᴰ.cons refl (by_time-perm rs))

abbrev addressed : ℕ → NotificationRecipient → Bool
addressed id r = r.notification_id == id

join-owned :
    (id project_id : ℕ) (ns : List Notification) (rs : List NotificationRecipient)
    → any_where (by_id_and_project id project_id) ns ≡ true
    → select_where (of_notification id project_id ns) rs ≡ select_where (addressed id) rs
unfolding select_where
join-owned id project_id ns [] own = refl
join-owned id project_id ns (r ∷ rs) own = elim (Bool-cases (r.notification_id == id)) [
  | inr other ↦ rw other (join-owned id project_id ns rs own)
  | inl hit ↦
      let same = sym ((==_iff r.notification_id id).0 hit) in
      let joined = subst (λ k. any_where (by_id_and_project k project_id) ns ≡ true) same own in
      rw (hit, joined) (ap (λ l. r ∷ l) (join-owned id project_id ns rs own))
]

join-foreign :
    (id project_id : ℕ) (ns : List Notification) (rs : List NotificationRecipient)
    → any_where (by_id_and_project id project_id) ns ≡ false
    → select_where (of_notification id project_id ns) rs ≡ []
unfolding select_where
join-foreign id project_id ns [] none_own = refl
join-foreign id project_id ns (r ∷ rs) none_own = elim (Bool-cases (r.notification_id == id)) [
  | inr other ↦ rw other (join-foreign id project_id ns rs none_own)
  | inl hit ↦
      let same = sym ((==_iff r.notification_id id).0 hit) in
      let missed =
        subst (λ k. any_where (by_id_and_project k project_id) ns ≡ false) same none_own in
      rw (hit, missed) (join-foreign id project_id ns rs none_own)
]

module _ (id project_id : ℕ) where
  -- The project's notification of this id.
  pub record IsOwn (n : Notification) : Type 0 where
    pub is_asked : n.id ≡ id
    pub is_of_project : n.project_id ≡ project_id

  by_id_and_project-IsOwn : (n : Notification) → by_id_and_project id project_id n ≡ true → IsOwn n
  by_id_and_project-IsOwn n h = record {
    is_asked = ground (arith, h);
    is_of_project = ground (arith, h);
  }

  owner :
      (ns : List Notification)
      → any_where (by_id_and_project id project_id) ns ≡ true
      → (n : Notification) × Memᴰ n ns × IsOwn n
  unfolding any_where
  owner [] h = ground arith
  owner (n ∷ ns) h = elim (Bool-cases (by_id_and_project id project_id n)) [
    | inl hit ↦ (n, Memᴰ.head refl, by_id_and_project-IsOwn n hit)
    | inr miss ↦ let (m, there, own) = owner ns (rw miss at h) in (m, Memᴰ.tail there, own)
  ]

  not-IsOwn : (n : Notification) → by_id_and_project id project_id n ≡ false → ¬ (IsOwn n)
  not-IsOwn n h own =
      let a = (==_iff n.id id).1 own.is_asked in
      let b = (==_iff n.project_id project_id).1 own.is_of_project in ground arith

  unowned :
      (ns : List Notification)
      → any_where (by_id_and_project id project_id) ns ≡ false
      → All (λ n. ¬ (IsOwn n)) ns
  unfolding any_where
  unowned [] h = tt
  unowned (n ∷ ns) h = elim (Bool-cases (by_id_and_project id project_id n)) [
    | inl hit ↦ absurd (ground arith)
    | inr miss ↦ (not-IsOwn n miss, unowned ns (rw miss at h))
  ]

module _ (id project_id : ℕ) (w : World) where
  -- Where the project has a notification of this id: each row of its recipients once, and no other.
  -- Where it has none: no row.
  abbrev IsWhole : List NotificationRecipient → Type 0
  IsWhole rows =
      ((n : Notification) × Memᴰ n w.notifications
        × IsOwn id project_id n
        × Permᴰ rows (select_where (λ r. r.notification_id == id) w.recipients))
      ⊎ (All (λ n. ¬ (IsOwn id project_id n)) w.notifications × (rows ≡ []))

  -- What is listed, oldest first.
  pub record IsListing (rows : List NotificationRecipient) : Type 0 where
    pub ordered : IsOrdered rows
    pub whole : IsWhole rows

  abbrev joined_rows : List NotificationRecipient
  joined_rows = by_time (select_where (of_notification id project_id w.notifications) w.recipients)

  joined-IsWhole : IsWhole joined_rows
  unfolding by_time
  joined-IsWhole = elim (Bool-cases (any_where (by_id_and_project id project_id) w.notifications)) [
    | inl own ↦
        let (n, there, is_own) = owner id project_id w.notifications own in
        inl (
          n,
          there,
          is_own,
          subst (λ l. Permᴰ joined_rows l)
              (join-owned id project_id w.notifications w.recipients own) (by_time-perm _),
        )
    | inr none_own ↦ inr (
      unowned id project_id w.notifications none_own,
      ap by_time (join-foreign id project_id w.notifications w.recipients none_own),
    )
  ]

  -- GET /recipients lists, oldest first, the recipients of the notification of this id where the
  -- key's project has it, each row once, and no row where the project has no notification of this
  -- id; or it answers 500. It changes no table.
  pub list_recipients-IsListing :
      ((rows : List NotificationRecipient) × IsListing rows
        × (list_recipients id project_id w ≡ (
          ok (write_json 200 (recipient_list (map (recipient_response w.env.uuid_text) rows))),
          advance w,
        )))
      ⊎ (list_recipients id project_id w
          ≡ (ok (write_error 500 "failed to list recipients"), advance w))
  unfolding list_recipients list_notification_recipients list_reply
  list_recipients-IsListing =
      elim (read_cases
        (λ u.
          ok (by_time (select_where (of_notification id project_id u.notifications) u.recipients)))
        w) [
          | inr (s, q) ↦ inr (rw q refl)
          | inl q ↦ inl (
            joined_rows,
            record { ordered = by_time-IsOrdered _; whole = joined-IsWhole },
            rw q refl,
          )
        ]

  -- A notification that the project does not have is answered by 404, or by 500; no table changes.
  pub get_status_foreign :
      any_where (by_id_and_project id project_id) w.notifications ≡ false
      → (get_status id project_id w ≡ (ok (write_error 404 "notification not found"), advance w))
        ⊎ (get_status id project_id w
            ≡ (ok (write_error 500 "failed to fetch notification"), advance w))
  unfolding get_status get_notification with_notification is_no_rows
  get_status_foreign h =
      elim (read_cases (λ u. one_row (find_where (by_id_and_project id project_id) u.notifications))
        w) [
          | inr (s, q) ↦ inr (rw q refl)
          | inl q ↦
              inl
                (rw (q, find_where-absent (by_id_and_project id project_id) w.notifications h) refl)
        ]
