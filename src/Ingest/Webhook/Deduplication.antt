-- ===== src/Ingest/Webhook/Deduplication.antt =====
-- services/ingest/webhook/inbox.go: a webhook whose key the inbox has already.
use distributed_payment_mana.Prelude.{
  ◌+◌, String, Bool, true, false, none, List, [], ◌∷◌, ◌++◌, any, str_eq, eq_iff, ◌≡◌, refl, sym,
  ap, ◌∙◌, subst, arith,
}
use distributed_payment_mana.Exec.{Result, ok, err, attempt, ◌>>=◌}
use distributed_payment_mana.Exec.Outcome.{>>=-then, lift-ok}
use distributed_payment_mana.Postgres.{now, new_uuid, statement}
use distributed_payment_mana.Ingest.Dto.{PaymentWebhookRequest, Request, payment}
use distributed_payment_mana.Ingest.ApiClient.{
  Outside, Ingest, Failure, already_exists, InboxRow, pending, encoded,
}
use distributed_payment_mana.Ingest.Inbox.{has_id, has_key, add_row, store}
use distributed_payment_mana.Ingest.Webhook.{
  payment_key, stored_or, store_request, process_payment_webhook,
}

str_eq_self : (s : String) → str_eq s s ≡ true
str_eq_self s = (eq_iff s s).1 refl

any-append :
    (p : InboxRow → Bool) (xs : List InboxRow) (r : InboxRow)
    → p r ≡ true
    → any p (xs ++ r ∷ []) ≡ true
unfolding any
any-append p [] r h = ground arith
any-append p (x ∷ xs) r h = ground (arith, any-append p xs r h)

store_key :
    (out : Outside) (key webhook_type payload : String) (w v : Ingest)
    → any (has_id (out.env.uuid w.tick)) w.store ≡ false
    → attempt (store out key webhook_type payload) w ≡ (ok (ok tt), v)
    → any (has_key key) v.store ≡ true
unfolding store ◌>>=◌ now new_uuid statement add_row
store_key out key webhook_type payload w v new h =
    ground (arith, any-append (has_key key) w.store row (str_eq_self key))
  where
    row : InboxRow
    row = record {
      id = out.env.uuid w.tick;
      idempotency_key = key;
      webhook_type = webhook_type;
      payload = payload;
      status = pending;
      received_at = out.env.now (w.tick + 1);
      processed_at = none;
      error_message = none;
      retry_count = 0;
    }

store_known :
    (out : Outside) (key webhook_type payload : String) (w v : Ingest)
    → any (has_id (out.env.uuid w.tick)) w.store ≡ false
    → attempt (store out key webhook_type payload) w ≡ (ok (err already_exists), v)
    → any (has_key key) v.store ≡ true
unfolding store ◌>>=◌ now new_uuid statement add_row
store_known out key webhook_type payload w v new h = ground arith

accepted :
    (out : Outside) (key webhook_type payload : String) (w v : Ingest)
    (r : Result Failure (Unit {0}))
    → stored_or r ≡ ok tt
    → any (has_id (out.env.uuid w.tick)) w.store ≡ false
    → attempt (store out key webhook_type payload) w ≡ (ok r, v)
    → any (has_key key) v.store ≡ true
accepted out key webhook_type payload w v (ok _) s new h =
    store_key out key webhook_type payload w v new h
accepted out key webhook_type payload w v (err e) s new h =
    let known : e ≡ already_exists = ground arith in
    store_known out key webhook_type payload w v new
      (h ∙ ap (λ (x : Failure). (ok (err x), v)) known)

-- Once a webhook is stored or known, its key is in the inbox.
stored_key :
    (out : Outside) (key webhook_type : String) (req : Request) (w v : Ingest)
    → any (has_id (out.env.uuid w.tick)) w.store ≡ false
    → store_request out key webhook_type req w ≡ (ok tt, v)
    → any (has_key key) v.store ≡ true
unfolding store_request
stored_key out key webhook_type req w v new h = >>=-then _ _ w h λ payload u1 e1 k1.
    >>=-then _ _ u1 k1 λ r u2 e2 k2.
      let (fine, same) = lift-ok (encoded (out.encode req)) w e1 in
      let (answer, kept) = lift-ok (stored_or r) u2 k2 in
      let found =
        accepted out key webhook_type payload u1 u2 r answer
          (subst (λ (x : Ingest). any (has_id (out.env.uuid x.tick)) x.store ≡ false) (sym same)
            new)
          e2 in
      ap (λ (x : Ingest). any (has_key key) x.store) kept ∙ found

known_key :
    (out : Outside) (key webhook_type : String) (req : Request) (w : Ingest)
    → any (has_key key) w.store ≡ true
    → (store_request out key webhook_type req w).1.store ≡ w.store
unfolding store_request store ◌>>=◌ now new_uuid statement add_row
known_key out key webhook_type req w h = ground arith

-- After a payment webhook that the inbox, with a fresh identifier at hand, has accepted, another webhook of the same transaction and
-- event adds no row, also when it is about another refund.
pub process_payment_webhook_again :
    (out : Outside) (first second : PaymentWebhookRequest) (w v : Ingest)
    → any (has_id (out.env.uuid w.tick)) w.store ≡ false
    → process_payment_webhook out first w ≡ (ok tt, v)
    → second.transaction_id ≡ first.transaction_id
    → second.event ≡ first.event
    → (process_payment_webhook out second v).1.store ≡ v.store
unfolding process_payment_webhook
process_payment_webhook_again out first second w v new h tx event =
    let same : payment_key second ≡ payment_key first = ground arith in
    let has = stored_key out (payment_key first) "payment_webhook" (payment first) w v new h in
    known_key out (payment_key second) "payment_webhook" (payment second) v
      (ap (λ k. any (has_key k) v.store) same ∙ has)
