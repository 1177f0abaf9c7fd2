-- ===== src/Dispatch/Send/Done.antt =====
-- When a send task is done, its recipient settled and an adapter plain.
-- The recipient of an id, at some status that is terminal, or at any.
use slay_push.Queue.{is_failure}
use slay_push.Crypto.{Bytes}
use slay_push.Store.Moves.{KeepsRecipientKeys}
use slay_push.Store.Recipients.{recipient_has_id, update_recipients, to_sending}
use slay_push.Errors.{other, err, ok, is_skip_retry, Result, Err, first_non_nil}
use slay_push.Store.{Adapter, NotificationRecipient, World}
use slay_push.Provider.{SendRequest, SendResult}
use slay_push.Base.{
  ◌⊎◌, find_where_sound, true, none, find_where-update, some, false, ◌≡◌, refl, find_where, Bool,
  String, ℕ, Option,
}
use slay_push.Dispatch.{is_last_attempt, is_terminal, Attempt}

abbrev pub Exists : ℕ → World → Type 0
Exists id w = (r : NotificationRecipient) × (find_where (recipient_has_id id) w.recipients ≡ some r)

abbrev pub IsSettled : ℕ → World → Type 0
IsSettled id w =
    (r : NotificationRecipient) × (find_where (recipient_has_id id) w.recipients ≡ some r)
    × (is_terminal r.status ≡ true)

-- asynq runs the task no more: it returned nil, an error that says to skip the retry, or an error
-- that counts on the last attempt.
abbrev pub IsDone : Attempt → Result (Unit {0}) → Type 0
IsDone a (ok u) = Unit {0}
IsDone a (err e) = (is_skip_retry e ≡ true) ⊎ ((is_last_attempt a ≡ true) × (is_failure e ≡ true))

-- An update at the id of a row that is there.
pub update_found :
    (id : ℕ) (f : NotificationRecipient → NotificationRecipient) (w : World)
    (r : NotificationRecipient)
    → KeepsRecipientKeys f
    → find_where (recipient_has_id id) w.recipients ≡ some r
    → find_where (recipient_has_id id) (update_recipients id f w).recipients ≡ some (f r)
unfolding update_recipients
update_found id f w r k h =
    rw
      (
        find_where-update (recipient_has_id id) (recipient_has_id id) f w.recipients
            (λ a. rw (k a).0 refl),
        h,
        find_where_sound (recipient_has_id id) w.recipients r h,
      )
      refl

abbrev pub opt_skip : Option Err → Bool
opt_skip none = false
opt_skip (some e) = is_skip_retry e

-- An outcome of an adapter whose errors do not ask asynq to skip the retry.
abbrev pub IsPlain : SendResult × Option Err → Type 0
IsPlain o = (opt_skip o.0.failure ≡ false) × (opt_skip o.1 ≡ false)

-- No adapter makes an error of asynq's.
abbrev pub PlainAdapters : World → Type 0
PlainAdapters w =
    (name : String) (ad : Adapter)
    → w.env.adapters name ≡ some ad
    → (cred : Bytes) (req : SendRequest) (n : ℕ) → IsPlain (ad.send cred req n)

pub first_non_nil-plain :
    (x y : Option Err) (s : String)
    → opt_skip x ≡ false
    → opt_skip y ≡ false
    → is_skip_retry (first_non_nil x y (other s)) ≡ false
unfolding first_non_nil is_skip_retry
first_non_nil-plain none none s h k = refl
first_non_nil-plain none (some e) s h k = k
first_non_nil-plain (some e) y s h k = h

pub to_sending-keys : KeepsRecipientKeys to_sending
unfolding to_sending
to_sending-keys r = (refl, refl, refl)
