-- ===== src/Downstream/Serve/Silence.antt =====
-- src/downstream.rs: a body of notifications.
use mcpstead.Base.{Option, none, some, List, [], ◌∷◌, All, ◌≡◌, refl, ◌∙◌, ap}
use mcpstead.Json.{Json}
use mcpstead.State.App.{AppState}
use mcpstead.Upstream.Host.{World, Host}
use mcpstead.Downstream.Message.{handle_message_with_metrics}
use mcpstead.Downstream.Message.Silence.{handle_message-notification}
use mcpstead.Downstream.Serve.{push_response, handle_batch, batch_response, handle_body}
use mcpstead.Downstream.Serve.Denied.{SameButMetrics}

module _ (j : Json) where
  -- an object without an id
  pub record IsNotification (value : j.Value) : Type 0 where
    pub object : j.Map
    pub is_object : j.as_object value ≡ some object
    pub no_id : j.field "id" value ≡ none

  -- a notification, or a batch of notifications
  abbrev pub OnlyNotifications : Option (List j.Value) → j.Value → Type 0
  OnlyNotifications none value = IsNotification value
  OnlyNotifications (some items) value = All IsNotification items

  module _ (h : Host (j.Value)) where
    -- no response, at the same instant, with nothing changed but the metrics
    abbrev pub IsSilent : World j.Value → Option j.Value × World j.Value → Type 0
    IsSilent w r = (r.0 ≡ none) × (r.1.now ≡ w.now) × SameButMetrics w.app r.1.app

    message-IsSilent :
        (value : j.Value) (w : World j.Value)
        → IsNotification value
        → IsSilent w (handle_message_with_metrics j h value w)
    unfolding handle_message_with_metrics
    message-IsSilent value w n =
        rw (handle_message-notification j h value n.object w n.is_object n.no_id) (refl, refl, refl)

    SameButMetrics-trans :
        (s t u : AppState j.Value) → SameButMetrics s t → SameButMetrics t u → SameButMetrics s u
    SameButMetrics-trans s t u p q =
        q ∙ ap (λ (x : AppState j.Value). record x { metrics = u.metrics }) p

    batch-IsSilent :
        (items : List j.Value) (w : World j.Value)
        → All IsNotification items
        → ((handle_batch j h items w).0 ≡ [])
          × ((handle_batch j h items w).1.now ≡ w.now)
          × SameButMetrics w.app (handle_batch j h items w).1.app
    unfolding handle_batch
    batch-IsSilent [] w n = (refl, refl, refl)
    batch-IsSilent (item ∷ items) w n =
        let r = handle_message_with_metrics j h item w in
        let here = message-IsSilent item w n.0 in
        let rest = batch-IsSilent items r.1 n.1 in
        (
          ap (λ (o : Option j.Value). push_response j h o (handle_batch j h items r.1).0) here.0
              ∙ rest.0,
          rest.1 ∙ here.1,
          SameButMetrics-trans w.app r.1.app _ here.2 rest.2,
        )

    batch_response-IsSilent :
        (w : World j.Value) (r : List j.Value × World j.Value)
        → r.0 ≡ []
        → r.1.now ≡ w.now
        → SameButMetrics w.app r.1.app
        → IsSilent w (batch_response j h r)
    batch_response-IsSilent w ([], v) e now same = (refl, now, same)
    batch_response-IsSilent w (x ∷ xs, v) e now same = cc

    body-IsSilent :
        (value : j.Value) (read : Option (List j.Value)) (w : World j.Value)
        → j.as_array value ≡ read
        → OnlyNotifications read value
        → IsSilent w (handle_body j h value w)
    unfolding handle_body
    body-IsSilent value none w e n = rw (e, handle_body) (message-IsSilent value w n)
    body-IsSilent value (some items) w e n =
        let b = batch-IsSilent items w n in
        rw (e, handle_body) (batch_response-IsSilent w (handle_batch j h items w) b.0 b.1 b.2)

    -- The messages of a body that is a notification, an object without an id, or a batch of nothing but
    -- notifications get no response, whatever they hold, and take no time: of the state they change
    -- nothing but the metrics. What the post does around them, such as to open and to end a session for
    -- an `initialize` without an id, is not part of it.
    pub handle_body-IsSilent :
        (value : j.Value) (w : World j.Value)
        → OnlyNotifications (j.as_array value) value
        → IsSilent w (handle_body j h value w)
    handle_body-IsSilent value w n = body-IsSilent value (j.as_array value) w refl n
