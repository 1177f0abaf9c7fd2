-- ===== src/Store/Listings/Pages.antt =====
-- What a page of ListDevicesByProject holds.
use slay_push.Store.Success.{query_ok}
use slay_push.Errors.{ok}
use slay_push.Store.{Device, World}
use slay_push.Base.{
  if◌then◌else◌, ◌-◌, All-select, true, select_where, inr, ◌∙◌, zero, refl, map, inl, ap, ◌≡◌, suc,
  arith, [], Bool-cases, ◌∷◌, ◌≤◌, length, leb, All, List, Bool, ℕ,
}
use slay_push.Store.Listings.{
  later_device, device_listed, device_row, take, drop, ListDevicesByProjectRow, page_of, order_by,
  insert_sorted, list_devices_by_project, ListDevicesByProjectParams,
}

-- The smaller of a limit and a number.
abbrev pub at_most : ℕ → ℕ → ℕ
at_most limit n = if leb n limit then n else limit

module _ {A : Type 0} where
  All-take : (P : A → Type 0) (n : ℕ) (xs : List A) → All P xs → All P (take n xs)
  All-take P zero xs h = tt
  All-take P (suc n) [] h = tt
  All-take P (suc n) (x ∷ xs) h = (h.0, All-take P n xs h.1)

  All-drop : (P : A → Type 0) (n : ℕ) (xs : List A) → All P xs → All P (drop n xs)
  All-drop P zero xs h = h
  All-drop P (suc n) [] h = tt
  All-drop P (suc n) (x ∷ xs) h = All-drop P n xs h.1

  length-take : (n : ℕ) (xs : List A) → length (take n xs) ≡ at_most n (length xs)
  length-take zero [] = refl
  length-take zero (x ∷ xs) = ground arith
  length-take (suc n) [] = ground arith
  length-take (suc n) (x ∷ xs) = ground (arith, length-take n xs)

  length-drop : (n : ℕ) (xs : List A) → length (drop n xs) ≡ length xs - n
  length-drop zero xs = omega arith
  length-drop (suc n) [] = omega arith
  length-drop (suc n) (x ∷ xs) = omega (arith, length-drop n xs)

  module _ (at : A → ℕ) where
    abbrev pub later : A → A → Bool
    later a b = leb (at b) (at a)

    -- The latest first.
    abbrev pub Descending : List A → Type 0
    Descending [] = Unit {0}
    Descending (x ∷ xs) = All (λ y. at y ≤ at x) xs × Descending xs

    All-insert :
        (P : A → Type 0) (a : A) (xs : List A) → P a → All P xs → All P (insert_sorted later a xs)
    unfolding insert_sorted
    All-insert P a [] p h = (p, tt)
    All-insert P a (x ∷ xs) p h = elim (Bool-cases (leb (at x) (at a))) [
      | inl first ↦ rw (first, insert_sorted) (p, h)
      | inr after ↦ rw (after, insert_sorted) (h.0, All-insert P a xs p h.1)
    ]

    All-order_by : (P : A → Type 0) (xs : List A) → All P xs → All P (order_by later xs)
    unfolding order_by
    All-order_by P [] h = tt
    All-order_by P (x ∷ xs) h = All-insert P x (order_by later xs) h.0 (All-order_by P xs h.1)

    All-weaken : (m n : ℕ) (xs : List A) → m ≤ n → All (λ y. at y ≤ m) xs → All (λ y. at y ≤ n) xs
    All-weaken m n [] h k = tt
    All-weaken m n (x ∷ xs) h k = (omega (arith, k.0), All-weaken m n xs h k.1)

    insert-Descending :
        (a : A) (xs : List A) → Descending xs → Descending (insert_sorted later a xs)
    unfolding insert_sorted
    insert-Descending a [] d = (tt, tt)
    insert-Descending a (x ∷ xs) d = elim (Bool-cases (leb (at x) (at a))) [
      | inl first ↦
          let le : at x ≤ at a = ground arith in
          rw (first, insert_sorted) ((le, All-weaken (at x) (at a) xs le d.0), d)
      | inr after ↦
          let le : at a ≤ at x = ground arith in
          rw (after, insert_sorted)
            (All-insert (λ y. at y ≤ at x) a xs le d.0, insert-Descending a xs d.1)
    ]

    order_by-Descending : (xs : List A) → Descending (order_by later xs)
    unfolding order_by
    order_by-Descending [] = tt
    order_by-Descending (x ∷ xs) = insert-Descending x (order_by later xs) (order_by-Descending xs)

    take-Descending : (n : ℕ) (xs : List A) → Descending xs → Descending (take n xs)
    take-Descending zero xs d = tt
    take-Descending (suc n) [] d = tt
    take-Descending (suc n) (x ∷ xs) d =
        (All-take (λ y. at y ≤ at x) n xs d.0, take-Descending n xs d.1)

    drop-Descending : (n : ℕ) (xs : List A) → Descending xs → Descending (drop n xs)
    drop-Descending zero xs d = d
    drop-Descending (suc n) [] d = tt
    drop-Descending (suc n) (x ∷ xs) d = drop-Descending n xs d.1

    length-insert : (a : A) (xs : List A) → length (insert_sorted later a xs) ≡ suc (length xs)
    unfolding insert_sorted
    length-insert a [] = refl
    length-insert a (x ∷ xs) = ground (arith, length-insert a xs)

    length-order_by : (xs : List A) → length (order_by later xs) ≡ length xs
    unfolding order_by
    length-order_by [] = refl
    length-order_by (x ∷ xs) = length-insert x (order_by later xs) ∙ ap suc (length-order_by xs)

-- A page of the devices that meet the filter, the latest first, each with its subscriber's external
-- id: as many as are left past the offset, up to the limit.
pub record IsDevicePage (p : ListDevicesByProjectParams) (w : World)
    (rows : List ListDevicesByProjectRow) : Type 0 where
  pub devices : List Device
  pub shown : rows ≡ map (device_row w.subscribers) devices
  pub meet : All (λ d. device_listed p w.subscribers d ≡ true) devices
  pub latest : Descending (λ d. d.created_at) devices
  pub size :
      length devices
      ≡ at_most p.page_limit
          (length (select_where (device_listed p w.subscribers) w.devices) - p.page_offset)

-- The rows that ListDevicesByProject returns are devices of the project that meet the filter, the
-- latest first, each with its subscriber's external id; there are as many as are left past the offset,
-- up to the limit.
pub list_devices-IsDevicePage :
    (p : ListDevicesByProjectParams) (w v : World) (rows : List ListDevicesByProjectRow)
    → list_devices_by_project p w ≡ (ok rows, v)
    → IsDevicePage p w rows
unfolding list_devices_by_project page_of
list_devices-IsDevicePage p w v rows h =
    let q = query_ok _ w rows v h in
    let hits = select_where (device_listed p w.subscribers) w.devices in
    let sorted = order_by later_device hits in
    record {
      devices = take p.page_limit (drop p.page_offset sorted);
      shown = cc;
      meet = All-take _ p.page_limit (drop p.page_offset sorted) (
          All-drop _ p.page_offset sorted (
            All-order_by (λ d. d.created_at) _ hits
              (All-select (device_listed p w.subscribers) w.devices)));
      latest =
          take-Descending (λ d. d.created_at) p.page_limit (drop p.page_offset sorted)
            (drop-Descending (λ d. d.created_at) p.page_offset sorted
              (order_by-Descending (λ d. d.created_at) hits));
      size =
          length-take p.page_limit (drop p.page_offset sorted)
          ∙ ap (at_most p.page_limit) (
              length-drop p.page_offset sorted
              ∙ ap (λ n. n - p.page_offset) (length-order_by (λ d. d.created_at) hits));
    }
