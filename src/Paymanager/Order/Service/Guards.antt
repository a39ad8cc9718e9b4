-- ===== src/Paymanager/Order/Service/Guards.antt =====
-- What services/paymanager/internal/order/service.go refuses: captures of an order that is on hold or
-- in a final status, and changes of a final status.
use distributed_payment_mana.Prelude.{
  ◌++◌, [], ◌∷◌, List, String, false, ◌≡◌, refl, ap, ◌∙◌, arith, ◌⊎◌, inl, inr, Bool-cases,
}
use distributed_payment_mana.Exec.{ok, err, lift, ◌>>=◌, ◌>>◌}
use distributed_payment_mana.Exec.Outcome.{Result-cases, >>=-same}
use distributed_payment_mana.Postgres.{now, new_uuid, repeatable_read}
use distributed_payment_mana.Postgres.Session.{statement, in_transaction, begun}
use distributed_payment_mana.Postgres.Session.Outcome.{in_transaction_sent}
use distributed_payment_mana.Paymanager.Order.Entity.{
  created, failed, success, status_eq, can_be_updated_to, Order, OrderUpdate, CaptureRequest,
  of_capture, of_response, Payload, Failure, database, invalid_status,
}
use distributed_payment_mana.Paymanager.Order.Tables.{Orders, ProviderCall}
use distributed_payment_mana.Paymanager.Order.Repo.{get_orders, create_event, create_order_event}
use distributed_payment_mana.Paymanager.Order.Service.{
  Outside, get_order_by_id, write_event, sink_event, change_order, apply_update,
  process_order_update, ask_capture, apply_capture, recorded, logged, result_kind, response_of,
  capture_payment, capturable,
}

-- The call of the provider that a capture of the order makes.
abbrev pub call_of : Order → CaptureRequest → ProviderCall
call_of o req = record {
  order_id = o.order_id;
  amount = req.amount;
  currency = req.currency;
  idempotency_key = req.idempotency_key;
}

get_order_by_id_sent :
    (out : Outside) (id : String) (w : Orders) → (get_order_by_id out id w).1.sent ≡ w.sent
unfolding get_order_by_id get_orders ◌>>=◌ statement
get_order_by_id_sent out id w = ground arith

write_event_sent :
    (out : Outside) (id kind key : String) (p : Payload) (w : Orders)
    → (write_event out id kind key p w).1.sent ≡ w.sent
unfolding write_event create_event ◌>>=◌ statement now new_uuid
write_event_sent out id kind key p w = ground arith

sink_event_sent :
    (out : Outside) (id kind key : String) (p : Payload) (w : Orders)
    → (sink_event out id kind key p w).1.sent ≡ w.sent
unfolding sink_event create_order_event ◌>>=◌ statement now new_uuid
sink_event_sent out id kind key p w = ground arith

-- The two events of a capture, once the provider has answered.
written :
    (out : Outside) (id : String) (req : CaptureRequest) (o : Order) (w : Orders)
    → ((ask_capture out (call_of o req) >>= λ result. recorded out id req o result) w).1.sent
      ≡ w.sent ++ call_of o req ∷ []
unfolding ask_capture recorded now
written out id req o w =
    >>=-same (λ (x : Orders). x.sent) (ask_capture out (call_of o req)) (recorded out id req o) w
      (λ result u.
        >>=-same (λ (x : Orders). x.sent) (now out.env) _ u
          (λ at v.
            >>=-same (λ (x : Orders). x.sent)
              (write_event out id "capture_requested" req.idempotency_key (of_capture req)) _ v
              (λ b x.
                >>=-same (λ (x : Orders). x.sent)
                  (write_event out id (result_kind result.status) result.provider_tx_id
                    (of_response (response_of o req result at)))
                  _ x (λ c y. refl)
                ∙ write_event_sent out id (result_kind result.status) result.provider_tx_id _ x)
            ∙ write_event_sent out id "capture_requested" req.idempotency_key _ v))

-- No call, or one for a capturable order.
abbrev pub AskedFor : Order → CaptureRequest → List ProviderCall → List ProviderCall → Type 0
AskedFor o req before after =
    (after ≡ before) ⊎ ((capturable o ≡ ok tt) × (after ≡ before ++ call_of o req ∷ []))

after_get :
    (out : Outside) (id : String) (req : CaptureRequest) (o : Order) (w : Orders)
    → AskedFor o req w.sent
        ((lift (capturable o) >> (ask_capture out (call_of o req) >>= recorded out id req o))
          w).1.sent
unfolding ◌>>=◌
after_get out id req o w = elim (Result-cases (capturable o)) [
  | inl (a, fine) ↦ inr (fine, rw fine (written out id req o w))
  | inr (e, k) ↦ inl (rw k refl)
]

logged_sent :
    (out : Outside) (id kind key : String) (p : Payload) (w : Orders)
    → (logged out (sink_event out id kind key p) w).1.sent ≡ w.sent
unfolding ◌>>=◌
logged_sent out id kind key p w = sink_event_sent out id kind key p w

apply_capture_calls :
    (out : Outside) (id : String) (req : CaptureRequest) (w : Orders)
    → ((apply_capture out id req w).1.sent ≡ w.sent)
      ⊎ ((o : Order) × ((get_order_by_id out id w).0 ≡ ok o)
          × (capturable o ≡ ok tt)
          × ((apply_capture out id req w).1.sent ≡ w.sent ++ call_of o req ∷ []))
unfolding apply_capture ◌>>=◌
apply_capture_calls out id req w = elim (Result-cases (get_order_by_id out id w).0) [
  | inl (o, k) ↦
      let same = get_order_by_id_sent out id w in
      elim (after_get out id req o (get_order_by_id out id w).1) [
        | inl l ↦ inl (rw k (l ∙ same))
        | inr (fine, l) ↦ inr (o, k, fine, rw k (l ∙ ap (λ x. x ++ call_of o req ∷ []) same))
      ]
  | inr (e, k) ↦ inl (rw k (get_order_by_id_sent out id w))
]

capture_payment_sent :
    (out : Outside) (id : String) (req : CaptureRequest) (w : Orders)
    → out.env.fault w.tick ≡ false
    → (capture_payment out id req w).1.sent ≡ (apply_capture out id req (begun w)).1.sent
unfolding capture_payment
capture_payment_sent out id req w up =
    >>=-same (λ (x : Orders). x.sent)
      (in_transaction out.env database repeatable_read (apply_capture out id req)) _ w
      (λ r u.
        >>=-same (λ (x : Orders). x.sent)
          (logged out (sink_event out id "capture_requested" req.idempotency_key (of_capture req)))
          _ u
          (λ a v.
            >>=-same (λ (x : Orders). x.sent)
              (logged out
                (sink_event out id (result_kind r.status) r.provider_tx_id (of_response r)))
              _ v (λ b x. refl)
            ∙ logged_sent out id (result_kind r.status) r.provider_tx_id (of_response r) v)
        ∙ logged_sent out id "capture_requested" req.idempotency_key (of_capture req) u)
    ∙ in_transaction_sent out.env database repeatable_read (apply_capture out id req) w up

-- The calls of the provider that one capture makes: at most one, of the order that the transaction
-- has read first, and only if that order is neither on hold nor in a final status.
pub capture_payment_calls :
    (out : Outside) (id : String) (req : CaptureRequest) (w : Orders)
    → ((capture_payment out id req w).1.sent ≡ w.sent)
      ⊎ ((o : Order) × ((get_order_by_id out id (begun w)).0 ≡ ok o)
          × (o.on_hold ≡ false)
          × (status_eq o.status success ≡ false)
          × (status_eq o.status failed ≡ false)
          × ((capture_payment out id req w).1.sent ≡ w.sent ++ call_of o req ∷ []))
unfolding capture_payment in_transaction capturable ◌>>=◌
capture_payment_calls out id req w = elim (Bool-cases (out.env.fault w.tick)) [
  | inl down ↦ inl (rw down refl)
  | inr up ↦
      let same = capture_payment_sent out id req w up in
      elim (apply_capture_calls out id req (begun w)) [
        | inl l ↦ inl (same ∙ l)
        | inr (o, k, fine, l) ↦ inr (o, k, ground arith, ground arith, ground arith, same ∙ l)
      ]
]

change_order_refused :
    (out : Outside) (u : OrderUpdate) (w : Orders) (o : Order)
    → (get_order_by_id out u.order_id w).0 ≡ ok o
    → can_be_updated_to o.status u.status ≡ false
    → (change_order out u w).0 ≡ err invalid_status
unfolding change_order ◌>>=◌
change_order_refused out u w o h k = rw (h, k) refl

-- The status of an order that is a success or has failed is final: every update of it that is
-- not a creation is an error, and leaves the tables as they were.
pub process_order_update_final :
    (out : Outside) (u : OrderUpdate) (w : Orders) (o : Order)
    → (get_order_by_id out u.order_id (begun w)).0 ≡ ok o
    → (o.status ≡ success) ⊎ (o.status ≡ failed)
    → status_eq u.status created ≡ false
    → (e : Failure) × ((process_order_update out u w).0 ≡ err e)
      × ((process_order_update out u w).1.store.tables ≡ w.store.tables)
unfolding process_order_update in_transaction apply_update ◌>>=◌ can_be_updated_to
process_order_update_final out u w o read final change = elim (Bool-cases (out.env.fault w.tick)) [
  | inl down ↦ (database, ground arith, ground arith)
  | inr up ↦
      let stays : can_be_updated_to o.status u.status ≡ false = ground arith in
      let refused = change_order_refused out u (begun w) o read stays in
      (invalid_status, ground arith, ground arith)
]
