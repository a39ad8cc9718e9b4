-- ===== src/Paymanager/Dispute/Service/Guards.antt =====
-- What services/paymanager/internal/dispute does to the status of a dispute, and what its service
-- refuses.
use distributed_payment_mana.Prelude.{
  ap, str_eq, String, true, false, Option, none, some, List, [], ◌∷◌, ◌++◌, if◌then◌else◌, ◌≡◌,
  refl, ◌∙◌, ◌⊎◌, inl, inr, subst, arith, Bool-cases,
}
use distributed_payment_mana.Exec.{ok, err, lift, ◌>>=◌, ◌>>◌}
use distributed_payment_mana.Exec.Outcome.{Result-cases, >>=-same}
use distributed_payment_mana.Postgres.{now, new_uuid, repeatable_read}
use distributed_payment_mana.Postgres.Session.{statement, in_transaction, begun}
use distributed_payment_mana.Postgres.Session.Outcome.{in_transaction_sent}
use distributed_payment_mana.Silvergate.Tables.{find}
use distributed_payment_mana.Paymanager.Dispute.Entity.{
  dispute_open, under_review, won, lost, closed, canceled, Dispute, ChargebackWebhook,
  chargeback_opened, chargeback_updated, chargeback_closed, apply_chargeback_webhook, lookup,
  resolution, resolution_of, Resolution, resolution_won, resolution_lost, is_dispute_editable,
  is_eligible, EvidenceUpsert, Evidence, Payload, of_result, Failure, dispute_not_found,
  evidence_not_found, not_editable, not_eligible, database,
}
use distributed_payment_mana.Paymanager.Dispute.Tables.{
  has_id, is_evidence_of, Store, Disputes, Representment,
}
use distributed_payment_mana.Paymanager.Dispute.Repo.{
  get_dispute_by_id, get_evidence, update_dispute, create_event, create_dispute_event,
}
use distributed_payment_mana.Paymanager.Dispute.Service.{
  Outside, submitted_as, required, ask_submit, write_event, sink_event, record_submission,
  apply_submit, submit_dispute, apply_evidence, add_evidence,
}

-- What the metadata of a webhook says of the end of a dispute: its entry "resolution", in lower case.
-- Without metadata, or without that entry, it says nothing.
abbrev pub said : (String → String) → ChargebackWebhook → String
said to_lower ev = elim ev.meta [ none ↦ "" | some m ↦ to_lower (lookup "resolution" m) ]

resolution-said :
    (to_lower : String → String) (ev : ChargebackWebhook)
    → ((str_eq (said to_lower ev) "won" ≡ true) × (resolution to_lower ev ≡ some resolution_won))
      ⊎ (((str_eq (said to_lower ev) "lost" ≡ true)
            × (resolution to_lower ev ≡ some resolution_lost))
          ⊎ ((str_eq (said to_lower ev) "won" ≡ false)
              × (str_eq (said to_lower ev) "lost" ≡ false)
              × (resolution to_lower ev ≡ none)))
unfolding resolution
resolution-said to_lower ev = at ev.meta
  where
    at :
        (m : Option (List (String × String)))
        → let text : String = elim m [ none ↦ "" | some l ↦ to_lower (lookup "resolution" l) ] in
          let res : Option Resolution = elim m [
            | none ↦ none
            | some l ↦ resolution_of (to_lower (lookup "resolution" l))
          ] in
          ((str_eq text "won" ≡ true) × (res ≡ some resolution_won))
          ⊎ (((str_eq text "lost" ≡ true) × (res ≡ some resolution_lost))
              ⊎ ((str_eq text "won" ≡ false) × (str_eq text "lost" ≡ false) × (res ≡ none)))
    at none = inr (inr (refl, refl, refl))
    at (some l) = elim (Bool-cases (str_eq (to_lower (lookup "resolution" l)) "won")) [
      | inl e ↦ inl (e, rw e refl)
      | inr e ↦ elim (Bool-cases (str_eq (to_lower (lookup "resolution" l)) "lost")) [
        | inl f ↦ inr (inl (f, rw (e, f) refl))
        | inr f ↦ inr (inr (e, f, rw (e, f) refl))
      ]
    ]

-- What a webhook makes of a dispute, whatever its status was: `opened` makes it open, also when it was
-- closed, and keeps the time of its closing; `updated` keeps its status; `closed` makes it won where
-- the metadata says "won", lost where it says "lost", and closed where it says neither, at the time
-- of the webhook.
pub apply_chargeback_webhook-status :
    (to_lower : String → String) (d after : Dispute) (ev : ChargebackWebhook)
    → apply_chargeback_webhook to_lower d ev ≡ some after
    → ((ev.status ≡ chargeback_opened)
        × (after.status ≡ dispute_open)
        × (after.closed_at ≡ d.closed_at))
      ⊎ (((ev.status ≡ chargeback_updated)
            × (after.status ≡ d.status)
            × (after.closed_at ≡ d.closed_at))
          ⊎ ((ev.status ≡ chargeback_closed)
              × (((str_eq (said to_lower ev) "won" ≡ true) × (after.status ≡ won))
                  ⊎ (((str_eq (said to_lower ev) "lost" ≡ true) × (after.status ≡ lost))
                      ⊎ ((str_eq (said to_lower ev) "won" ≡ false)
                          × (str_eq (said to_lower ev) "lost" ≡ false)
                          × (after.status ≡ closed))))
              × (after.closed_at ≡ some ev.occurred_at)))
unfolding apply_chargeback_webhook
apply_chargeback_webhook-status to_lower d after ev h = elim (resolution-said to_lower ev) [
  | inl (says, e) ↦ ground arith
  | inr (inl (says, e)) ↦ ground arith
  | inr (inr (not_won, not_lost, e)) ↦ ground arith
]

-- Evidence is never added to a dispute that is won, lost or canceled: that is always an error, and
-- leaves the tables as they were.
pub add_evidence_final :
    (out : Outside) (id : String) (upsert : EvidenceUpsert) (w : Disputes) (d : Dispute)
    → (get_dispute_by_id out.env id (begun w)).0 ≡ ok (some d)
    → (d.status ≡ won) ⊎ ((d.status ≡ lost) ⊎ (d.status ≡ canceled))
    → (e : Failure) × ((add_evidence out id upsert w).0 ≡ err e)
      × ((add_evidence out id upsert w).1.store.tables ≡ w.store.tables)
unfolding add_evidence in_transaction apply_evidence ◌>>=◌ is_dispute_editable
add_evidence_final out id upsert w d read final = elim (Bool-cases (out.env.fault w.tick)) [
  | inl down ↦ (database, ground arith, ground arith)
  | inr up ↦
      let stays : is_dispute_editable d.status ≡ false = ground arith in
      (not_editable, ground arith, ground arith)
]

write_event_sent :
    (out : Outside) (id kind key : String) (p : Payload) (w : Disputes)
    → (write_event out id kind key p w).1.sent ≡ w.sent
unfolding write_event create_event ◌>>=◌ statement now new_uuid
write_event_sent out id kind key p w = ground arith

update_dispute_sent :
    (out : Outside) (d : Dispute) (w : Disputes)
    → (update_dispute out.env out.numeric d w).1.sent ≡ w.sent
unfolding update_dispute statement
update_dispute_sent out d w = ground arith

get_sent :
    (out : Outside) (id : String) (w : Disputes)
    → ((get_dispute_by_id out.env id w).1.sent ≡ w.sent)
      × ((get_evidence out.env id w).1.sent ≡ w.sent)
unfolding get_dispute_by_id get_evidence statement
get_sent out id w = (ground arith, ground arith)

abbrev pub call_of : Dispute → Evidence → Representment
call_of d e = record { order_id = d.order_id; evidence = e.content }

recorded_sent :
    (out : Outside) (id submission : String) (d : Dispute) (w : Disputes)
    → (record_submission out id d submission w).1.sent ≡ w.sent
unfolding record_submission now
recorded_sent out id submission d w =
    >>=-same (λ (x : Disputes). x.sent) (now out.env) _ w
      (λ at v.
        >>=-same (λ (x : Disputes). x.sent)
          (update_dispute out.env out.numeric (submitted_as d submission at)) _ v
          (λ a x.
            >>=-same (λ (y : Disputes). y.sent)
              (write_event out id "evidence_submitted" submission (of_result submission)) _ x
              (λ b y. refl)
            ∙ write_event_sent out id "evidence_submitted" submission (of_result submission) x)
        ∙ update_dispute_sent out (submitted_as d submission at) v)

asked_sent :
    (out : Outside) (id : String) (d : Dispute) (e : Evidence) (w : Disputes)
    → ((ask_submit out (call_of d e) >>= record_submission out id d) w).1.sent
      ≡ w.sent ++ call_of d e ∷ []
unfolding ask_submit
asked_sent out id d e w =
    >>=-same (λ (x : Disputes). x.sent) (ask_submit out (call_of d e)) (record_submission out id d)
      w (λ submission u. recorded_sent out id submission d u)

get_read :
    (out : Outside) (id : String) (w : Disputes) (found : Option Dispute)
    → (get_dispute_by_id out.env id w).0 ≡ ok found
    → (find (has_id id) w.store.tables.disputes ≡ found)
      × ((get_dispute_by_id out.env id w).1.store.tables ≡ w.store.tables)
unfolding get_dispute_by_id statement
get_read out id w found h = (ground arith, ground arith)

evidence_read :
    (out : Outside) (id : String) (w : Disputes) (found : Option Evidence)
    → (get_evidence out.env id w).0 ≡ ok found
    → find (is_evidence_of id) w.store.tables.evidence ≡ found
unfolding get_evidence statement
evidence_read out id w found h = ground arith

-- No call, or one for an eligible dispute of the tables and its evidence.
abbrev pub AskedFor : String → Store → List Representment → List Representment → Type 0
AskedFor id s before after =
    (after ≡ before)
    ⊎ ((d : Dispute) × (e : Evidence) × (find (has_id id) s.disputes ≡ some d)
        × (find (is_evidence_of id) s.evidence ≡ some e)
        × (is_eligible d.status ≡ true)
        × (after ≡ before ++ call_of d e ∷ []))

moved :
    (id : String) (s t : Store) (before later after : List Representment)
    → s ≡ t
    → before ≡ later
    → AskedFor id s before after
    → AskedFor id t later after
moved id s t before later after same sent h =
    subst (λ x. AskedFor id t x after) sent (subst (λ x. AskedFor id x before after) same h)

after_evidence :
    (out : Outside) (id : String) (d : Dispute) (w : Disputes) (s : Store) (found : Option Evidence)
    → find (has_id id) s.disputes ≡ some d
    → find (is_evidence_of id) s.evidence ≡ found
    → is_eligible d.status ≡ true
    → AskedFor id s w.sent
        ((lift (required evidence_not_found found) >>= λ e.
            ask_submit out (call_of d e) >>= record_submission out id d)
          w).1.sent
unfolding ◌>>=◌
after_evidence out id d w s none k l h = inl refl
after_evidence out id d w s (some e) k l h = inr (d, e, k, l, h, asked_sent out id d e w)

after_eligible :
    (out : Outside) (id : String) (d : Dispute) (w : Disputes)
    → find (has_id id) w.store.tables.disputes ≡ some d
    → is_eligible d.status ≡ true
    → AskedFor id w.store.tables w.sent
        ((get_evidence out.env id >>= λ found. lift (required evidence_not_found found) >>= λ e.
            ask_submit out (call_of d e) >>= record_submission out id d)
          w).1.sent
unfolding ◌>>=◌
after_eligible out id d w l h = elim (Result-cases (get_evidence out.env id w).0) [
  | inl (found, k) ↦
      let read = evidence_read out id w found k in
      rw k (
        moved id w.store.tables w.store.tables (get_evidence out.env id w).1.sent w.sent _ refl
          (get_sent out id w).1
          (after_evidence out id d (get_evidence out.env id w).1 w.store.tables found l read h))
  | inr (e, k) ↦ inl (rw k (get_sent out id w).1)
]

after_get :
    (out : Outside) (id : String) (w : Disputes) (found : Option Dispute)
    → find (has_id id) w.store.tables.disputes ≡ found
    → AskedFor id w.store.tables w.sent
        ((lift (required dispute_not_found found) >>= λ d.
            lift (if is_eligible d.status then ok tt else err not_eligible)
            >> (get_evidence out.env id >>= λ found.
                lift (required evidence_not_found found) >>= λ e.
                ask_submit out (call_of d e) >>= record_submission out id d))
          w).1.sent
unfolding ◌>>=◌
after_get out id w none k = inl refl
after_get out id w (some d) k = elim (Bool-cases (is_eligible d.status)) [
  | inl fine ↦ rw fine (after_eligible out id d w k fine)
  | inr refused ↦ rw refused (inl refl)
]

apply_submit_calls :
    (out : Outside) (id : String) (w : Disputes)
    → AskedFor id w.store.tables w.sent (apply_submit out id w).1.sent
unfolding apply_submit ◌>>=◌
apply_submit_calls out id w = elim (Result-cases (get_dispute_by_id out.env id w).0) [
  | inl (found, k) ↦
      let (read, kept) = get_read out id w found k in
      rw k (
        moved id (get_dispute_by_id out.env id w).1.store.tables w.store.tables
          (get_dispute_by_id out.env id w).1.sent w.sent _ kept (get_sent out id w).0
          (after_get out id (get_dispute_by_id out.env id w).1 found
            (ap (λ (s : Store). find (has_id id) s.disputes) kept ∙ read)))
  | inr (e, k) ↦ inl (rw k (get_sent out id w).0)
]

sink_event_sent :
    (out : Outside) (id kind key : String) (p : Payload) (w : Disputes)
    → (sink_event out id kind key p w).1.sent ≡ w.sent
unfolding sink_event create_dispute_event ◌>>=◌ statement now new_uuid
sink_event_sent out id kind key p w = ground arith

-- One submission asks the provider at most once, and only for a dispute that is open or under review
-- and whose evidence is stored; that evidence is what it passes on.
pub submit_dispute_calls :
    (out : Outside) (id : String) (w : Disputes)
    → ((submit_dispute out id w).1.sent ≡ w.sent)
      ⊎ ((d : Dispute) × (e : Evidence) × (find (has_id id) w.store.tables.disputes ≡ some d)
          × (find (is_evidence_of id) w.store.tables.evidence ≡ some e)
          × ((d.status ≡ dispute_open) ⊎ (d.status ≡ under_review))
          × ((submit_dispute out id w).1.sent ≡ w.sent ++ call_of d e ∷ []))
unfolding submit_dispute in_transaction ◌>>=◌ is_eligible
submit_dispute_calls out id w = elim (Bool-cases (out.env.fault w.tick)) [
  | inl down ↦ inl (rw down refl)
  | inr up ↦
      let same =
        >>=-same (λ (x : Disputes). x.sent)
          (in_transaction out.env database repeatable_read (apply_submit out id)) _ w
          (λ submission u.
            sink_event_sent out id "evidence_submitted" submission (of_result submission) u)
        ∙ in_transaction_sent out.env database repeatable_read (apply_submit out id) w up in
      elim (apply_submit_calls out id (begun w)) [
        | inl l ↦ inl (same ∙ l)
        | inr (d, e, k, m, fine, l) ↦ inr (d, e, k, m, ground arith, same ∙ l)
      ]
]
