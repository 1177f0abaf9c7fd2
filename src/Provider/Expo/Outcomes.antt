-- ===== src/Provider/Expo/Outcomes.antt =====
-- What the outcome of a send to Expo says of the exchange with Expo.
use slay_push.Crypto.{Bytes}
use slay_push.Base.Text.{◌<>◌, str_eq_iff, str_eq}
use slay_push.Errors.{Result-cases, ok}
use slay_push.Base.{
  Option-cases, ◌⊎◌, ap, ◌∙◌, sym, ==_iff, true, inr, false, ◌==◌, if◌then◌else◌, Bool-cases, Bool,
  refl, inl, ◌∷◌, [], String, List, ℕ, ◌≡◌,
}
use slay_push.Provider.Expo.{
  send_payload_to, on_reply, expo_send, SendResponse, parse, on_response, Ticket, ResponseError,
  ticket_status, on_parsed, classify_ticket, Message, Codec,
}
use slay_push.Provider.{Status, SendRequest}
use slay_push.Provider.Http.{Response, Request, Http}

abbrev pub message_of : SendRequest → Message
message_of req = record {
  to = req.token;
  title = req.title;
  body = req.body;
  payload = req.payload;
}

-- Expo took the message: it answered the request that carries it with status 200, no request-level
-- error, and an ok ticket of this id first.
pub record Took (h : Http) (c : Codec) (req : SendRequest) (n : ℕ) (id : String) : Type 0 where
  pub request : Request
  pub response : Response
  pub tickets : List Ticket
  pub carries : c.marshal (message_of req) ≡ ok request.body
  pub answered : h.round_trip request n ≡ inl response
  pub is_ok : response.status_code ≡ 200
  pub ticket : Ticket
  pub parses : c.unmarshal response.body ≡ ok (record { tickets = ticket ∷ tickets; errors = [] })
  pub ticket_ok : ticket.status ≡ "ok"
  pub ticket_id : ticket.id ≡ id

ticket_status_not_sent : (error : String) → ¬ (ticket_status error ≡ Status.sent)
unfolding ticket_status
ticket_status_not_sent error = go _ _
  where
    go :
        (a b : Bool)
        → ¬ (
            (if a
              then Status.invalid_token
              else if b
              then Status.throttled
              else Status.transient_error)
            ≡ Status.sent)
    go true b k = cc
    go false true k = cc
    go false false k = cc

transient_not_sent : ¬ (Status.transient_error ≡ Status.sent)
transient_not_sent k = cc

throttled_not_sent : ¬ (Status.throttled ≡ Status.sent)
throttled_not_sent k = cc

unknown_not_sent : ¬ (Status.unknown ≡ Status.sent)
unknown_not_sent k = cc

module _ (h : Http) (c : Codec) where
  ticket_sent :
      (t : Ticket)
      → (classify_ticket h t).status ≡ Status.sent
      → (t.status ≡ "ok") × (t.id ≡ (classify_ticket h t).provider_message_id)
  unfolding classify_ticket ticket_status
  ticket_sent t s = elim (Bool-cases (str_eq t.status "ok")) [
    | inl hit ↦ ((str_eq_iff t.status "ok").0 hit, rw hit refl)
    | inr miss ↦ elim (Bool-cases (str_eq t.status "error")) [
      | inl failed ↦ absurd (ticket_status_not_sent t.error (rw (miss, failed) at s))
      | inr odd ↦ absurd (transient_not_sent (rw (miss, odd) at s))
    ]
  ]

  parsed_sent :
      (es : List ResponseError) (ts : List Ticket)
      → (on_parsed h es ts).0.status ≡ Status.sent
      → (t : Ticket) × (us : List Ticket) × (es ≡ [])
        × (ts ≡ t ∷ us)
        × (t.status ≡ "ok")
        × (t.id ≡ (on_parsed h es ts).0.provider_message_id)
  unfolding on_parsed
  parsed_sent (e ∷ es) ts s = cc
  parsed_sent [] [] s = cc
  parsed_sent [] (t ∷ ts) s = let k = ticket_sent t s in (t, ts, refl, refl, k.0, k.1)

  fields :
      (p : SendResponse) (t : Ticket) (us : List Ticket)
      → p.errors ≡ []
      → p.tickets ≡ t ∷ us
      → p ≡ record { tickets = t ∷ us; errors = [] }
  fields p t us e k = rw (sym e, sym k) refl

  response_sent :
      (r : Response)
      → (on_response h c r).0.status ≡ Status.sent
      → (r.status_code ≡ 200)
        × ((t : Ticket) × (us : List Ticket) × (c.unmarshal r.body
              ≡ ok (record { tickets = t ∷ us; errors = [] }))
            × (t.status ≡ "ok")
            × (t.id ≡ (on_response h c r).0.provider_message_id))
  unfolding on_response parse
  response_sent r s = elim (Bool-cases (r.status_code == 429)) [
    | inl limited ↦ absurd (throttled_not_sent (rw limited at s))
    | inr free ↦ elim (Bool-cases (r.status_code == 200)) [
      | inr odd ↦ absurd (transient_not_sent (rw (free, odd) at s))
      | inl fine ↦ elim (Result-cases (c.unmarshal r.body)) [
        | inl (e, bad) ↦ absurd (unknown_not_sent (rw (free, fine, bad) at s))
        | inr (p, good) ↦
            let (t, us, es_nil, ts_cons, is_ok, id) =
              parsed_sent p.errors p.tickets (rw (free, fine, good) at s) in
            (
              (==_iff r.status_code 200).0 fine,
              (t, us, good ∙ ap ok (fields p t us es_nil ts_cons), is_ok, rw (free, fine, good) id),
            )
      ]
    ]
  ]

  module _ (base_url : String) (credential : Bytes) (req : SendRequest) (n : ℕ) where
    reply_sent :
        (q : Request) (x : Response ⊎ String)
        → c.marshal (message_of req) ≡ ok q.body
        → h.round_trip q n ≡ x
        → (on_reply h c x).0.status ≡ Status.sent
        → Took h c req n (on_reply h c x).0.provider_message_id
    unfolding on_reply
    reply_sent q (inr text) m e s = cc
    reply_sent q (inl r) m e s =
        let (is_ok, (t, us, parses, ticket_ok, id)) = response_sent r s in
        record {
          request = q;
          response = r;
          tickets = us;
          carries = m;
          answered = e;
          is_ok = is_ok;
          ticket = t;
          parses = parses;
          ticket_ok = ticket_ok;
          ticket_id = id;
        }

    -- A push that Send reports as sent is one that Expo took, under the message id of its ticket.
    pub expo_send_sent :
        (expo_send h c base_url credential req n).0.status ≡ Status.sent
        → Took h c req n (expo_send h c base_url credential req n).0.provider_message_id
    unfolding expo_send send_payload_to
    expo_send_sent s = elim (Result-cases (c.marshal (message_of req))) [
      | inl (e, bad) ↦ absurd (unknown_not_sent (rw (bad, expo_send) at s))
      | inr (payload, good) ↦
          elim (Option-cases (h.url_error (base_url <> "/--/api/v2/push/send"))) [
            | inr (text, bad) ↦
                absurd (unknown_not_sent (rw (good, expo_send, bad, send_payload_to) at s))
            | inl parses ↦
                rw (good, expo_send, parses, send_payload_to)
                  (reply_sent _ _ good refl (rw (good, expo_send, parses, send_payload_to) at s))
          ]
    ]
