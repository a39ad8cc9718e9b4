-- ===== src/Ingest/Worker/Forwarding.antt =====
-- services/ingest/worker/inbox_worker.go: messages of a type that processMessage has no case for, the
-- payment webhooks of the inbox among them.
use distributed_payment_mana.Prelude.{false, str_eq, ◌≡◌, refl}
use distributed_payment_mana.Exec.{err}
use distributed_payment_mana.Ingest.ApiClient.{Outside, Ingest, unknown_type, InboxRow}
use distributed_payment_mana.Ingest.Worker.{Config, process_message}

pub process_message_unknown :
    (out : Outside) (cfg : Config) (m : InboxRow) (w : Ingest)
    → str_eq m.webhook_type "order_update" ≡ false
    → str_eq m.webhook_type "dispute_update" ≡ false
    → process_message out cfg m w ≡ (err unknown_type, w)
unfolding process_message
process_message_unknown out cfg m w h k = rw (h, k) refl
