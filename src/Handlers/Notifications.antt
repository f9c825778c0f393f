-- ===== src/Handlers/Notifications.antt =====
-- server/src/services/notification.service.ts: rules, their history, and the schedules that an event
-- fires. The delivery of a webhook or an e-mail is a parameter: the message of its error, if any.
use montr.Base.{
  ◌⊎◌, ℕ, ◌+◌, Text, Bool, true, false, ◌&&◌, Option, none, some, List, [], ◌∷◌, ◌++◌, filter,
  codes, not, ◌==◌, text_eq, nat_eq, Action, app_error, resource_not_found, ◌>>=◌, reads, writes,
  require,
}
use montr.Base.Map.{Map, get}
use montr.Websocket.Types.{SocketLibrary}
use montr.Scheduling.Types.{Schedule, NotificationEventType}
use montr.Scheduling.Dispatch.{World}
use montr.Scheduling.Service.{same_event, on_event}
use montr.Telemetry.Service.{ClientTelemetryRow}

pub data Channel : Type 0 where
  webhook email : Channel

pub record NotificationRule : Type 0 where
  pub id : ℕ
  pub name : Text
  pub event_type : NotificationEventType
  pub channel : Channel
  pub destination : Text
  pub enabled : Bool

-- The fields of an event, each with its text; the source writes any JSON value.
abbrev pub Payload : Type 0
Payload = Map Text Text

-- A row is `sent` where it has no error.
pub record NotificationHistory : Type 0 where
  pub rule_id : ℕ
  pub event_type : NotificationEventType
  pub channel : Channel
  pub destination : Text
  pub payload : Payload
  pub error_message : Option Text

pub record ClientLogEvent : Type 0 where
  pub client_id : Text
  pub is_error : Bool
  pub target : Text
  pub message : Text

-- The server with the tables that only its handlers write.
pub record Live : Type 0 where
  pub world : World
  pub schedules : List Schedule
  pub rules : List NotificationRule
  pub next_rule : ℕ
  pub history : List NotificationHistory
  pub telemetry : List ClientTelemetryRow
  pub log_events : List ClientLogEvent

abbrev pub is_enabled_for : NotificationEventType → NotificationRule → Bool
is_enabled_for event rule = same_event rule.event_type event && rule.enabled

module _ (deliver : NotificationRule → Payload → Option Text) where
  abbrev pub history_row : NotificationRule → Payload → NotificationHistory
  history_row rule fields = record {
    rule_id = rule.id;
    event_type = rule.event_type;
    channel = rule.channel;
    destination = rule.destination;
    payload = fields;
    error_message = deliver rule fields;
  }

  abbrev pub is_sent : NotificationRule → Payload → Bool
  is_sent rule fields = elim (deliver rule fields) [ none ↦ true | some e ↦ false ]

  -- The loop over the rules, with `dispatch` in it; `sent` counts the deliveries.
  unfoldable pub dispatch_rules : Payload → List NotificationRule → ℕ → Live → Live × ℕ
  dispatch_rules fields [] sent s = (s, sent)
  dispatch_rules fields (rule ∷ rules) sent s =
      dispatch_rules fields rules (elim (is_sent rule fields) [ true ↦ sent + 1 | false ↦ sent ])
        (record s { history = s.history ++ history_row rule fields ∷ [] })

  module _ (lib : SocketLibrary) (payload : ℕ → Text ⊎ Text) where
    -- `fireEvent`; of the fields the schedules read `client_id` only.
    unfoldable pub fire_event : NotificationEventType → Payload → ℕ → Live → Live × ℕ
    unfolding dispatch_rules on_event
    fire_event event fields now s =
        let (s', sent) = dispatch_rules fields (filter (is_enabled_for event) s.rules) 0 s in
        let fired =
          on_event lib payload event (get (codes "client_id") fields) now
            (filter (λ x. x.enabled) s'.schedules) s'.world in
        (record s' { world = fired.0 }, sent)

abbrev pub find_rule : ℕ → List NotificationRule → Option NotificationRule
find_rule id [] = none
find_rule id (r ∷ rules) = elim (r.id == id) [ true ↦ some r | false ↦ find_rule id rules ]

-- `enabled !== false`
abbrev pub not_false : Option Bool → Bool
not_false none = true
not_false (some b) = b

unfoldable pub create_rule :
    Text → NotificationEventType → Channel → Text → Option Bool → Live → Live
create_rule name event channel destination enabled s = record s {
  rules =
      s.rules
      ++ (record {
        id = s.next_rule;
        name = name;
        event_type = event;
        channel = channel;
        destination = destination;
        enabled = not_false enabled;
      })
        ∷ [];
  next_rule = s.next_rule + 1;
}

unfoldable pub delete_rule : ℕ → Action Live (Unit {0})
delete_rule id = do
  row ← reads (λ s. find_rule id s.rules)
  rule ← require (app_error resource_not_found) row
  writes (λ s. record s { rules = filter (λ r. not (r.id == id)) s.rules })
