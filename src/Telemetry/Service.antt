-- ===== src/Telemetry/Service.antt =====
-- server/src/services/telemetry.service.ts, and the client_telemetry table of
-- server/src/database/adapters/sql-base.adapter.ts. A row has the columns that the thresholds read. A
-- share of free space is compared as a fraction: `free / total * 100 <= p` is `free * 100 <= p * total`.
use montr.Base.{
  ℕ, zero, suc, ◌+◌, ◌-◌, ◌*◌, ◌/◌, Text, Bool, true, false, not, ◌&&◌, ◌||◌, Option, none, some,
  List, [], ◌∷◌, ◌++◌, ltb, leb, eqb, ◌==◌, text_eq, if◌then◌else◌, length, filter,
}

pub record Disk : Type 0 where
  pub mount : Text
  pub used_bytes : ℕ
  pub total_bytes : ℕ

-- `mpv` says whether the player lives; `none` is null.
pub record CreateClientTelemetryInput : Type 0 where
  pub client_id : Text
  pub cpu_pct : ℕ
  pub disks : List Disk
  pub temps : List ℕ
  pub mpv : Option Bool

-- `recorded_at` is in seconds.
pub record ClientTelemetryRow : Type 0 where
  pub sample : CreateClientTelemetryInput
  pub recorded_at : ℕ

pub data Alert : Type 0 where
  disk_low_crit disk_low_warn : Text → Alert
  cpu_high temp_high mpv_dead : Alert

abbrev pub disk_warn_pct_free : ℕ
disk_warn_pct_free = 10

abbrev pub disk_crit_pct_free : ℕ
disk_crit_pct_free = 5

abbrev pub cpu_warn_pct : ℕ
cpu_warn_pct = 90

abbrev pub cpu_warn_consecutive_ticks : ℕ
cpu_warn_consecutive_ticks = 5

abbrev pub temp_warn_celsius : ℕ
temp_warn_celsius = 85

abbrev pub record_telemetry :
    CreateClientTelemetryInput → ℕ → List ClientTelemetryRow → List ClientTelemetryRow
record_telemetry input now rows = rows ++ (record { sample = input; recorded_at = now / 1000 }) ∷ []

unfoldable pub insert_row : ClientTelemetryRow → List ClientTelemetryRow → List ClientTelemetryRow
insert_row r [] = r ∷ []
insert_row r (s ∷ rows) =
    if leb r.recorded_at s.recorded_at then r ∷ s ∷ rows else s ∷ insert_row r rows

-- `ORDER BY recorded_at ASC`
unfoldable pub sort_rows : List ClientTelemetryRow → List ClientTelemetryRow
unfolding insert_row
sort_rows [] = []
sort_rows (r ∷ rows) = insert_row r (sort_rows rows)

-- `LIMIT n`
unfoldable pub limit_rows : ℕ → List ClientTelemetryRow → List ClientTelemetryRow
limit_rows zero rows = []
limit_rows (suc n) [] = []
limit_rows (suc n) (r ∷ rows) = r ∷ limit_rows n rows

-- The rows of a client between two times, by the seconds that they are stored in.
unfoldable pub rows_between : Text → ℕ → ℕ → List ClientTelemetryRow → List ClientTelemetryRow
unfolding sort_rows
rows_between id from to rows = sort_rows (
    filter
      (λ r.
        r.sample.client_id == id
        && (leb (from / 1000) r.recorded_at && leb r.recorded_at (to / 1000)))
      rows)

unfoldable pub get_client_telemetry_range :
    Text → ℕ → ℕ → ℕ → List ClientTelemetryRow → List ClientTelemetryRow
unfolding rows_between limit_rows
get_client_telemetry_range id from to limit rows = limit_rows limit (rows_between id from to rows)

-- `slice(0, -1)`
unfoldable pub without_last : List ClientTelemetryRow → List ClientTelemetryRow
without_last [] = []
without_last (r ∷ []) = []
without_last (r ∷ s ∷ rows) = r ∷ without_last (s ∷ rows)

-- The row `n` places before the end, 1 for the last; none if there are not so many.
abbrev pub nth_row : ℕ → List ClientTelemetryRow → Option ClientTelemetryRow
nth_row n [] = none
nth_row zero (r ∷ rows) = some r
nth_row (suc n) (r ∷ rows) = nth_row n rows

unfoldable pub row_before_end : ℕ → List ClientTelemetryRow → Option ClientTelemetryRow
row_before_end n rows = if leb n (length rows) then nth_row (length rows - n) rows else none

abbrev pub drop_rows : ℕ → List ClientTelemetryRow → List ClientTelemetryRow
drop_rows zero rows = rows
drop_rows (suc n) [] = []
drop_rows (suc n) (r ∷ rows) = drop_rows n rows

-- `slice(-n)`
abbrev pub last_rows : ℕ → List ClientTelemetryRow → List ClientTelemetryRow
last_rows n rows = drop_rows (length rows - n) rows

-- `diskPctFree(used, total) > p`; a disk without a size is all free.
abbrev pub is_free_above : ℕ → Disk → Bool
is_free_above p d =
    if eqb d.total_bytes 0
    then ltb p 100
    else ltb (p * d.total_bytes) ((d.total_bytes - d.used_bytes) * 100)

unfoldable pub find_disk : Text → List Disk → Option Disk
find_disk mount [] = none
find_disk mount (d ∷ disks) = if d.mount == mount then some d else find_disk mount disks

-- `previous.some(…)`
unfoldable pub some_free_above : ℕ → Text → List ClientTelemetryRow → Bool
unfolding find_disk
some_free_above p mount [] = false
some_free_above p mount (r ∷ rows) =
    elim (find_disk mount r.sample.disks) [ none ↦ true | some d ↦ is_free_above p d ]
    || some_free_above p mount rows

unfoldable pub disk_alert : List ClientTelemetryRow → Disk → List Alert
unfolding some_free_above
disk_alert previous d =
    if not (is_free_above disk_crit_pct_free d)
      && some_free_above disk_crit_pct_free d.mount previous
    then disk_low_crit d.mount ∷ []
    else (if not (is_free_above disk_warn_pct_free d)
          && (is_free_above disk_crit_pct_free d
              && some_free_above disk_warn_pct_free d.mount previous)
        then disk_low_warn d.mount ∷ []
        else [])

unfoldable pub disk_alerts : List ClientTelemetryRow → List Disk → List Alert
unfolding disk_alert
disk_alerts previous [] = []
disk_alerts previous (d ∷ disks) = disk_alert previous d ++ disk_alerts previous disks

abbrev pub all_over : List ClientTelemetryRow → Bool
all_over [] = true
all_over (r ∷ rows) = leb cpu_warn_pct r.sample.cpu_pct && all_over rows

unfoldable pub cpu_alert : List ClientTelemetryRow → ℕ → List Alert
unfolding row_before_end
cpu_alert previous cpu =
    let last_n = last_rows (cpu_warn_consecutive_ticks - 1) previous in
    let sustained = eqb (length last_n) (cpu_warn_consecutive_ticks - 1) && all_over last_n in
    let rising = elim (row_before_end cpu_warn_consecutive_ticks previous) as (λ x. Bool) [
      | none ↦ true
      | some r ↦ ltb r.sample.cpu_pct cpu_warn_pct
    ] in
    if leb cpu_warn_pct cpu && (sustained && rising) then cpu_high ∷ [] else []

abbrev pub max_from : ℕ → List ℕ → ℕ
max_from m [] = m
max_from m (t ∷ ts) = max_from (if ltb m t then t else m) ts

abbrev pub max_temp_celsius : List ℕ → Option ℕ
max_temp_celsius [] = none
max_temp_celsius (t ∷ ts) = some (max_from t ts)

abbrev pub is_hot : Option ℕ → Bool
is_hot none = false
is_hot (some t) = leb temp_warn_celsius t

abbrev pub last_temp : Option ClientTelemetryRow → Option ℕ
last_temp none = none
last_temp (some r) = max_temp_celsius r.sample.temps

unfoldable pub temp_alert : List ClientTelemetryRow → List ℕ → List Alert
unfolding row_before_end
temp_alert previous temps =
    if is_hot (max_temp_celsius temps) && not (is_hot (last_temp (row_before_end 1 previous)))
    then temp_high ∷ []
    else []

abbrev pub is_dead : Option Bool → Bool
is_dead (some false) = true
is_dead _ = false

abbrev pub last_mpv : Option ClientTelemetryRow → Option Bool
last_mpv none = none
last_mpv (some r) = r.sample.mpv

unfoldable pub mpv_alert : List ClientTelemetryRow → Option Bool → List Alert
unfolding row_before_end
mpv_alert previous mpv =
    if is_dead mpv && not (is_dead (last_mpv (row_before_end 1 previous)))
    then mpv_dead ∷ []
    else []

-- `evaluateThresholds`: the alerts fired, in order.
unfoldable pub evaluate_thresholds :
    CreateClientTelemetryInput → ℕ → List ClientTelemetryRow → List Alert
unfolding get_client_telemetry_range without_last disk_alerts cpu_alert temp_alert mpv_alert
evaluate_thresholds input now rows =
    let recent =
      get_client_telemetry_range input.client_id (now - 600000) (now + 1000)
        (cpu_warn_consecutive_ticks + 2) rows in
    let previous = without_last recent in
    disk_alerts previous input.disks
    ++ (cpu_alert previous input.cpu_pct
        ++ (temp_alert previous input.temps ++ mpv_alert previous input.mpv))
