-- ===== src/Telemetry/Examples.antt =====
-- A client whose player died seconds after its sixth sample.
use montr.Base.{
  ℕ, Bool, true, false, some, List, [], ◌∷◌, ◌++◌, codes, text_eq, text_beq, ◌≡◌, refl,
}
use montr.Telemetry.Service.{
  CreateClientTelemetryInput, ClientTelemetryRow, evaluate_thresholds, rows_between,
}
use montr.Telemetry.Window.{any, is_mpv_dead, window, evaluate_thresholds-mpv_again}

abbrev sample : Bool → CreateClientTelemetryInput
sample alive = record {
  client_id = codes "c";
  cpu_pct = 10;
  disks = [];
  temps = [];
  mpv = some alive;
}

abbrev row : Bool → ℕ → ClientTelemetryRow
row alive at = record { sample = sample alive; recorded_at = at }

-- One sample a minute: six with the player alive, and three without.
abbrev five_rows : List ClientTelemetryRow
five_rows = row true 1000 ∷ row true 1060 ∷ row true 1120 ∷ row true 1180 ∷ row true 1240 ∷ []

abbrev all_rows : List ClientTelemetryRow
all_rows =
    (five_rows ++ row true 1300 ∷ []) ++ row false 1360 ∷ row false 1420 ∷ row false 1480 ∷ []

all_recent : window (codes "c") 1480000 all_rows ≡ all_rows
unfolding rows_between text_beq
all_recent = refl

evaluate_thresholds-mpv_again_example :
    any is_mpv_dead (evaluate_thresholds (sample false) 1480000 all_rows) ≡ true
evaluate_thresholds-mpv_again_example =
    evaluate_thresholds-mpv_again (sample false) 1480000 all_rows five_rows
      (row false 1420 ∷ row false 1480 ∷ []) (row true 1300) (row false 1360) refl all_recent refl
      refl
