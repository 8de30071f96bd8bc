-- ===== src/Credential/Notify.antt =====
-- feature/credential/credential_notification.go: the notification rows that a unit of work stores,
-- and the mail jobs that follow a committed one.
use cred_chain_golang.Base.{
  ◌≡◌, arith, ◌||◌, not, String, List, [], ◌∷◌, Option, none, some, ◌==◌, is_empty, contains, map,
  if◌then◌else◌,
}
use cred_chain_golang.Domain.Clock.{Time}
use cred_chain_golang.Domain.Fault.{Error, ok, err}
use cred_chain_golang.Domain.Credential.{Credential}
use cred_chain_golang.Effect.{Backend, World, M, ◌>>=◌, pure, on_db, on_queue, attempt}
use cred_chain_golang.Credential.Ports.{
  CredentialService, CredentialNotification, NotificationArgs, NotificationType,
}

-- credentialNumberToChain, and the same default for the mail.
unfoldable pub number_or_empty : Option String → String
number_or_empty none = ""
number_or_empty (some number) = number

-- The loop of both functions: each credential with an id and a holder, once for each id. `seen`
-- holds the ids that were taken.
unfoldable pub distinct : List String → List Credential → List Credential
unfolding contains
distinct seen [] = []
distinct seen (c ∷ cs) =
    let skip = c.id == "" || c.holder_user_id == "" || contains seen c.id in
    let rest = distinct (if skip then seen else c.id ∷ seen) cs in if skip then rest else c ∷ rest

abbrev notification : NotificationType → Credential → CredentialNotification
notification kind c = record {
  notified_user_id = c.holder_user_id;
  credential_id = c.id;
  type = kind;
}

abbrev mail_args : NotificationType → Time → Credential → NotificationArgs
mail_args event now c = record {
  credential_id = c.id;
  credential_number = number_or_empty c.number;
  holder_user_id = c.holder_user_id;
  event = event;
  event_time = now;
}

module _ {T : Backend} (s : CredentialService T) where
  -- recordLifecycleNotifications; an empty slice of credentials leaves no notification either.
  unfoldable pub record_lifecycle_notifications :
      List Credential → NotificationType → M T (Unit {0})
  unfolding distinct
  record_lifecycle_notifications creds kind =
      let notifications = map (notification kind) (distinct [] creds) in
      if is_empty notifications then pure tt else on_db (s.store_notifications notifications)

  -- enqueueLifecycleNotifications; a failure is logged and dropped.
  unfoldable pub enqueue_lifecycle_notifications :
      Time → List Credential → NotificationType → M T (Unit {0})
  unfolding distinct number_or_empty
  enqueue_lifecycle_notifications now creds event =
      let args = map (mail_args event now) (distinct [] creds) in
      if not s.mail_enabled || is_empty args
      then pure tt
      else attempt (on_queue (s.enqueuer.enqueue_notifications args))

module _ {T : Backend} (s : CredentialService T) (now : Time) (creds : List Credential)
    (event : NotificationType) (w : World T) where
  -- The mail never fails the request that it follows, and touches the queue alone.
  pub enqueue_lifecycle_notifications-ok :
      (enqueue_lifecycle_notifications s now creds event w).0 ≡ ok tt
  unfolding enqueue_lifecycle_notifications
  enqueue_lifecycle_notifications-ok = ground arith

  pub enqueue_lifecycle_notifications-frame :
      let v = (enqueue_lifecycle_notifications s now creds event w).1 in
      (v.db ≡ w.db) × (v.chain ≡ w.chain) × (v.files ≡ w.files) × (v.cache ≡ w.cache)
  unfolding enqueue_lifecycle_notifications
  enqueue_lifecycle_notifications-frame = ground arith

module _ {T : Backend} (s : CredentialService T) (creds : List Credential) (kind : NotificationType)
    (w : World T) where
  pub record_lifecycle_notifications-frame :
      let v = (record_lifecycle_notifications s creds kind w).1 in
      (v.chain ≡ w.chain) × (v.queue ≡ w.queue) × (v.files ≡ w.files) × (v.cache ≡ w.cache)
  unfolding record_lifecycle_notifications
  record_lifecycle_notifications-frame = ground arith

module _ {T : Backend} (s : CredentialService T) (now : Time) (event : NotificationType) where
  -- A request that commits and then sends its mail: the mail neither fails it nor changes what the
  -- client gets, and leaves the database and the chain alone.
  pub mail_tail-ok :
      {A : Type 0} (creds : List Credential) (a b : A) (v w' : World T)
      → (enqueue_lifecycle_notifications s now creds event >>= λ _. pure a) v ≡ (ok b, w')
      → (a ≡ b) × (w'.db ≡ v.db) × (w'.chain ≡ v.chain)
  mail_tail-ok creds a b v w' h = ground (
    arith,
    enqueue_lifecycle_notifications-ok s now creds event v,
    enqueue_lifecycle_notifications-frame s now creds event v,
  )

  pub mail_tail_never_fails :
      {A : Type 0} (creds : List Credential) (a : A) (v w' : World T) (e : Error)
      → (enqueue_lifecycle_notifications s now creds event >>= λ _. pure a) v ≡ (err e, w')
      → ⊥
  mail_tail_never_fails creds a v w' e h =
      ground (arith, enqueue_lifecycle_notifications-ok s now creds event v)

  pub mail_tail-chain :
      {A : Type 0} (creds : List Credential) (a : A) (v : World T)
      → ((enqueue_lifecycle_notifications s now creds event >>= λ _. pure a) v).1.chain ≡ v.chain
  mail_tail-chain creds a v = ground (
    arith,
    enqueue_lifecycle_notifications-ok s now creds event v,
    enqueue_lifecycle_notifications-frame s now creds event v,
  )
