-- ===== src/Provider/Apns/Outcomes.antt =====
-- What the outcome of a send to APNs says of the exchange with Apple.
use slay_push.Provider.Sent.{not_sent, is_sent}
use slay_push.Provider.Cache.{Entry}
use slay_push.Errors.{ok, err, Err, Result}
use slay_push.Crypto.{Bytes}
use slay_push.Base.{refl, inr, List, ◌⊎◌, inl, arith, Bool-cases, ℕ, true, false, String, ◌≡◌}
use slay_push.Provider.{SendRequest, Status}
use slay_push.Provider.Apns.{
  client_for, notification_to, push_with, on_push, apns_send, CachedClient, PushResponse,
  status_of_reason, classify_response, Apns2,
}

-- Apple took the notification: the client of the credential pushed it, with its topic, and the
-- response counts as sent, under this id.
pub record Took {C : Type 0} (a : Apns2 C) (req : SendRequest) (n : ℕ) (id : String) : Type 0 where
  pub client : CachedClient C
  pub response : PushResponse
  pub pushed : a.push client.client (notification_to a req client) n ≡ inl response
  pub taken : a.sent response ≡ true
  pub names : response.apns_id ≡ id

module _ {C : Type 0} (a : Apns2 C) where
  reason_not_sent : (reason : String) → is_sent (status_of_reason a reason) ≡ false
  unfolding status_of_reason is_sent
  reason_not_sent reason = ground arith

  response_sent :
      (r : PushResponse)
      → (classify_response a r).status ≡ Status.sent
      → (a.sent r ≡ true) × (r.apns_id ≡ (classify_response a r).provider_message_id)
  unfolding classify_response
  response_sent r s = elim (Bool-cases (a.sent r)) [
    | inl good ↦ (good, rw good refl)
    | inr bad ↦ absurd (not_sent _ (reason_not_sent r.reason) (rw (classify_response, bad) at s))
  ]

  module _ (req : SendRequest) (n : ℕ) where
    push_sent :
        (client : CachedClient C) (x : PushResponse ⊎ Err)
        → a.push client.client (notification_to a req client) n ≡ x
        → (on_push a x).0.status ≡ Status.sent
        → Took a req n (on_push a x).0.provider_message_id
    unfolding on_push is_sent
    push_sent client (inr e) pushed s = absurd (not_sent Status.transient_error refl s)
    push_sent client (inl r) pushed s =
        let (taken, names) = response_sent r s in
        record { client = client; response = r; pushed = pushed; taken = taken; names = names }

    client_sent :
        (x : Result (CachedClient C))
        → (push_with a req n x).0.status ≡ Status.sent
        → Took a req n (push_with a req n x).0.provider_message_id
    unfolding push_with is_sent
    client_sent (err e) s = absurd (not_sent Status.unknown refl s)
    client_sent (ok client) s = push_sent client _ refl s

    -- A push that Send reports as sent, with any cache of clients, is one that Apple took, under the
    -- id that Apple gave it.
    pub apns_send_sent :
        (credential : Bytes) (m : List (Entry (CachedClient C)))
        → (apns_send a credential req n m).0.0.status ≡ Status.sent
        → Took a req n (apns_send a credential req n m).0.0.provider_message_id
    unfolding apns_send
    apns_send_sent credential m s = client_sent (client_for a credential m).0 s
