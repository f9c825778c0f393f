-- ===== src/Scheduling/Examples.antt =====
-- Example schedules.
use montr.Base.{
  ℕ, ◌+◌, ◌*◌, ◌≤◌, Text, true, false, not, ◌&&◌, Option, none, some, List, [], ◌∷◌, ◌++◌, codes,
  text_beq, text_eq, nat_eq, ◌<◌, ◌⊎◌, ◌≡◌, ◌≢◌, refl, arith, ok, includes, leb, ltb, All, inr,
  filter,
}
use montr.Base.Map.{get, has}
use montr.Database.Tables.{Client, offline}
use montr.Websocket.Types.{Socket, ReadyState, SocketLibrary}
use montr.Websocket.Manager.{new_manager}
use montr.Scheduling.Types.{
  Schedule, Date, CronLibrary, HolidayLibrary, assign, truthy_text, truthy_number,
}
use montr.Scheduling.Conditions.{evaluate_conditions, is_event_triggered, is_passed}
use montr.Scheduling.Activation.{is_schedule_active}
use montr.Scheduling.Activation.Daily.{hhmm, days_text, is_schedule_active-daily}
use mathlib.Core.List.{Perm, Mem, mem-cons_self}
use montr.Scheduling.Conflicts.{resolve_conflicts, target_key_for, or_empty}
use montr.Scheduling.Conflicts.Winner.{
  to_list, targeting, resolve_conflicts-Perm, resolve_conflicts-best,
}
use montr.Scheduling.Conflicts.Targets.{target_of, target_key_for-injective}
use montr.Scheduling.Dispatch.{World, dispatch_schedule}
use montr.Scheduling.Targeted.{AreAssigned, dispatch_schedule-assigns}
use montr.Scheduling.Service.{minute_text}
use montr.Scheduling.Audience.{
  one_client, get_schedules_for_client, get_clients_for_schedule, get_schedules_for_client-audience,
}
use montr.Scheduling.Events.{on_event-once}
use montr.Scheduling.Service.{on_event, fire_each, narrow_event_target}
use montr.Scheduling.Dispatch.{assign_and_push_each, push_if_connected}
use montr.Database.ClientRows.{update_client, get_client}
use montr.Base.Map.{modify}
use montr.Websocket.Manager.{is_connected}
use montr.Scheduling.Types.{client_offline}
use montr.Scheduling.Resumption.{interrupt_one-stays}
use montr.Scheduling.Dispatch.{interrupt_one, fire_auto_resume}
use montr.Base.Map.{delete}
use montr.Scheduling.Types.{interrupt}
use montr.Scheduling.Once.{Without, run_ticks, daily_schedule-fires_once}

fires_in_nothing :
    (expr : Text) (tz : Option Text) (from to : ℕ) (times : List ℕ)
    → none ≡ some times
    → All (λ t. (from ≤ t) × (t ≤ to)) times
fires_in_nothing expr tz from to times e = absurd cc

abbrev cron : CronLibrary
cron = record { fires = λ expr tz from to. none; fires-in = fires_in_nothing }

abbrev holidays : HolidayLibrary
holidays = record { is_holiday = λ country regions day. false }

-- Every day from eight to half past nine on the screen in the lobby.
abbrev morning : Schedule
morning = record {
  id = 4;
  name = codes "morning";
  playlist_id = 7;
  client_id = some (codes "lobby");
  group_id = none;
  start_time = some (hhmm 8 0);
  end_time = some (hhmm 9 30);
  days_of_week = days_text 0 (1 ∷ 2 ∷ []);
  priority = 1;
  enabled = true;
  cron_expression = none;
  duration_seconds = none;
  timezone = none;
  conditions = none;
  interrupt_mode = assign;
}

abbrev urgent : Schedule
urgent = record morning { id = 5; priority = 9 }

-- The `n`th day at eight.
abbrev at_eight : ℕ → Date
at_eight n = record {
  time = n * 86400000;
  full_year = 2024;
  month = 0;
  date = n;
  day = 1;
  hours = 8;
  minutes = 0;
}

is_schedule_active-daily_example : is_schedule_active cron holidays morning (at_eight 3) ≡ (
    true
    && not (is_event_triggered none)
    && is_passed (evaluate_conditions holidays none (at_eight 3))
    && (includes {A = ℕ} (0 ∷ 1 ∷ 2 ∷ []) 1
        && leb (8 * 60 + 0) (8 * 60 + 0)
        && ltb (8 * 60 + 0) (9 * 60 + 30)))
is_schedule_active-daily_example =
    is_schedule_active-daily cron holidays morning (at_eight 3) 8 0 9 30 0 (1 ∷ 2 ∷ []) refl refl
      refl refl (omega arith) (omega arith) (omega arith) (omega arith) (omega arith) (omega arith)
      (omega arith, (omega arith, (omega arith, tt)))

daily_schedule-fires_once_example : All (Without 4) (
    run_ticks cron holidays
      (morning ∷ [])
      (at_eight 3 ∷ at_eight 4 ∷ [])
      ((4, minute_text 8 0) ∷ []))
unfolding get
daily_schedule-fires_once_example =
    daily_schedule-fires_once cron holidays 8 0 4 (morning ∷ []) (at_eight 3 ∷ at_eight 4 ∷ [])
      ((4, minute_text 8 0) ∷ []) (omega arith) (omega arith)
      ((omega arith, omega arith), ((omega arith, omega arith), tt)) (inr (refl, refl), tt) refl

resolve_conflicts-best_example :
    (w : Schedule) × (get (codes "client:lobby") (resolve_conflicts (morning ∷ urgent ∷ [])).winners
      ≡ some w)
    × Mem w (morning ∷ urgent ∷ [])
    × (target_key_for w ≡ codes "client:lobby")
    × ((morning.priority < w.priority) ⊎ ((morning.priority ≡ w.priority) × (w.id ≤ morning.id)))
unfolding target_key_for
resolve_conflicts-best_example =
    resolve_conflicts-best (codes "client:lobby") (morning ∷ urgent ∷ []) morning mem-cons_self refl

resolve_conflicts-Perm_example :
    Perm
      (to_list (get (codes "client:lobby") (resolve_conflicts (morning ∷ urgent ∷ [])).winners)
        ++ or_empty (get (codes "client:lobby") (resolve_conflicts (morning ∷ urgent ∷ [])).losers))
      (targeting (codes "client:lobby") (morning ∷ urgent ∷ []))
resolve_conflicts-Perm_example =
    resolve_conflicts-Perm (codes "client:lobby") (morning ∷ urgent ∷ [])

target_key_for-injective_example :
    target_of (truthy_text morning.client_id) (truthy_number morning.group_id)
    ≡ target_of (truthy_text urgent.client_id) (truthy_number urgent.group_id)
unfolding target_key_for
target_key_for-injective_example = target_key_for-injective morning urgent refl

abbrev screen : Client
screen = record {
  name = codes "Lobby";
  assigned_playlist_id = some 1;
  interrupted_from_playlist_id = none;
  status = offline;
  last_seen = none;
  version = none;
  capabilities = none;
}

not_open : ReadyState.closing ≢ ReadyState.open_state
not_open e = cc

abbrev library : SocketLibrary
library = record {
  after_close = λ s. ReadyState.closing;
  after_close-open = not_open;
  send_throws = λ told ref message. false;
  admin_send_throws = λ told ref message. false;
}

abbrev sockets : ℕ → Socket
sockets ref = record {
  ready_state = ReadyState.open_state;
  client_id = none;
  is_alive = true;
  last_heartbeat = none;
}

abbrev world : World
world = record {
  tables = record {
    clients = (codes "lobby", screen) ∷ [];
    playlists = 1 ∷ 7 ∷ [];
    client_playlists = [];
    group_members = [];
  };
  manager = new_manager sockets;
  service = record { last_triggered = []; event_last_fired = []; resume_timers = [] };
}

abbrev payload : ℕ → Text ⊎ Text
payload playlist_id = inr []

dispatch_schedule-assigns_example :
    ((dispatch_schedule library payload morning 5 world).1 ≡ ok tt)
    × AreAssigned
        (codes "lobby" ∷ [])
        7
        world.tables.clients
        (dispatch_schedule library payload morning 5 world).0.tables.clients
unfolding has text_beq
dispatch_schedule-assigns_example =
    dispatch_schedule-assigns library payload morning 5 world refl refl (refl, tt)

-- A schedule that waits for a client to go offline.
abbrev alarm : Schedule
alarm = record morning {
  conditions =
      some (record { holidays = none; special_dates = none; event_trigger = some client_offline });
}

-- The world where the alarm fired before, long ago.
abbrev world_later : World
world_later = record world {
  service = record world.service { event_last_fired = (morning.id, 1000) ∷ [] };
}

on_event-once_example :
    let w =
      (on_event library payload client_offline none 90000000 (alarm ∷ urgent ∷ []) world_later).0 in
    on_event library payload client_offline (some (codes "hall")) 90004000 (alarm ∷ urgent ∷ []) w
    ≡ (w, 0)
unfolding fire_each dispatch_schedule assign_and_push_each update_client get_client modify get has
    text_beq narrow_event_target push_if_connected is_connected new_manager
on_event-once_example =
    on_event-once library payload client_offline none (some (codes "hall")) 90000000 90004000
      (alarm ∷ urgent ∷ []) world_later 1 (refl, tt) (λ e. ground arith) refl (omega arith, tt)

-- An interruption of one minute.
abbrev fire_drill : Schedule
fire_drill = record morning { interrupt_mode = interrupt; duration_seconds = some 60 }

interrupt_one-stays_example :
    let w = interrupt_one library payload fire_drill 5 (codes "lobby") world in
    (get (codes "lobby") w.tables.clients ≡ some (record screen { assigned_playlist_id = some 7 }))
    × (fire_auto_resume library payload (codes "lobby") w ≡ record w {
      service = record w.service { resume_timers = delete (codes "lobby") w.service.resume_timers };
    })
unfolding get text_beq
interrupt_one-stays_example =
    interrupt_one-stays library payload fire_drill 5 (codes "lobby") screen world refl refl refl

get_schedules_for_client-audience_example :
    get_schedules_for_client (codes "lobby") (morning ∷ urgent ∷ []) world.tables
    ≡ filter
        (λ s. includes (get_clients_for_schedule s world.tables) (codes "lobby"))
        (morning ∷ urgent ∷ [])
unfolding has text_beq
get_schedules_for_client-audience_example =
    get_schedules_for_client-audience (codes "lobby") (morning ∷ urgent ∷ []) world.tables
      (one_client _ _, (one_client _ _, tt)) refl tt
