-- ===== src/Telemetry/Window.antt =====
-- The samples that evaluateThresholds of server/src/services/telemetry.service.ts compares with: the
-- oldest of the last ten minutes.
use montr.Base.{
  ℕ, zero, suc, ◌+◌, ◌-◌, Text, Bool, true, false, ◌||◌, some, List, [], ◌∷◌, ◌++◌, ◌≡◌, refl, ap,
  ◌∙◌, arith, length, leb, length-append,
}
use montr.Telemetry.Service.{
  CreateClientTelemetryInput, ClientTelemetryRow, Alert, mpv_dead, rows_between, limit_rows,
  get_client_telemetry_range, without_last, row_before_end, nth_row, disk_alerts, cpu_alert,
  temp_alert, mpv_alert, evaluate_thresholds,
}

abbrev pub any : (Alert → Bool) → List Alert → Bool
any p [] = false
any p (a ∷ as') = p a || any p as'

any-append : (p : Alert → Bool) (xs ys : List Alert) → any p ys ≡ true → any p (xs ++ ys) ≡ true
any-append p [] ys h = h
any-append p (x ∷ xs) ys h = ground (arith, any-append p xs ys h)

abbrev pub is_mpv_dead : Alert → Bool
is_mpv_dead mpv_dead = true
is_mpv_dead _ = false

limit_rows-append :
    (xs ys : List ClientTelemetryRow) (m n : ℕ)
    → m ≡ length xs + n
    → limit_rows m (xs ++ ys) ≡ xs ++ limit_rows n ys
unfolding limit_rows
limit_rows-append [] ys m n e = ap (λ k. limit_rows k ys) {x = m} {y = n} (omega (arith, e))
limit_rows-append (x ∷ xs) ys zero n e = absurd (omega (arith, e))
limit_rows-append (x ∷ xs) ys (suc m) n e =
    ap (λ rows. x ∷ rows) (limit_rows-append xs ys m n (omega (arith, e)))

without_last-append :
    (xs : List ClientTelemetryRow) (y : ClientTelemetryRow) → without_last (xs ++ y ∷ []) ≡ xs
unfolding without_last
without_last-append [] y = refl
without_last-append (x ∷ []) y = refl
without_last-append (x ∷ x' ∷ xs) y = ap (λ rows. x ∷ rows) (without_last-append (x' ∷ xs) y)

nth_row-append :
    (xs : List ClientTelemetryRow) (y : ClientTelemetryRow)
    → nth_row (length xs) (xs ++ y ∷ []) ≡ some y
nth_row-append [] y = refl
nth_row-append (x ∷ xs) y = nth_row-append xs y

row_before_end-append :
    (xs : List ClientTelemetryRow) (y : ClientTelemetryRow)
    → row_before_end 1 (xs ++ y ∷ []) ≡ some y
unfolding row_before_end
row_before_end-append xs y =
    let size : length (xs ++ y ∷ []) ≡ suc (length xs) = omega (arith, length-append xs (y ∷ [])) in
    let place : length (xs ++ y ∷ []) - 1 ≡ length xs = omega (arith, size) in
    let enough : leb 1 (length (xs ++ y ∷ [])) ≡ true = ground (arith, size) in
    rw (row_before_end, enough, place) (nth_row-append xs y)

-- The samples of the client in the ten minutes up to now.
abbrev pub window : Text → ℕ → List ClientTelemetryRow → List ClientTelemetryRow
window id now rows = rows_between id (now - 600000) (now + 1000) rows

-- The rows that the new sample is compared with, where there are six older ones.
compared :
    (id : Text) (now : ℕ) (rows five newer : List ClientTelemetryRow)
    (sixth next : ClientTelemetryRow)
    → length five ≡ 5
    → window id now rows ≡ (five ++ sixth ∷ []) ++ next ∷ newer
    → without_last (get_client_telemetry_range id (now - 600000) (now + 1000) 7 rows)
      ≡ five ++ sixth ∷ []
unfolding get_client_telemetry_range limit_rows
compared id now rows five newer sixth next h w =
    let six : List ClientTelemetryRow = five ++ sixth ∷ [] in
    let size : 7 ≡ length six + 1 = omega (arith, h, length-append five (sixth ∷ [])) in
    rw (get_client_telemetry_range, w)
      (ap without_last (limit_rows-append six (next ∷ newer) 7 1 size)
        ∙ without_last-append six next)

-- A sample in which the player is dead raises the alert, whatever the newest of the samples before it
-- said, if the ten minutes up to now have seven samples or more and the sixth of them, in order of time,
-- still had the player alive.
pub evaluate_thresholds-mpv_again :
    (input : CreateClientTelemetryInput) (now : ℕ) (rows five newer : List ClientTelemetryRow)
    (sixth next : ClientTelemetryRow)
    → length five ≡ 5
    → window input.client_id now rows ≡ (five ++ sixth ∷ []) ++ next ∷ newer
    → sixth.sample.mpv ≡ some true
    → input.mpv ≡ some false
    → any is_mpv_dead (evaluate_thresholds input now rows) ≡ true
unfolding evaluate_thresholds mpv_alert
evaluate_thresholds-mpv_again input now rows five newer sixth next h w a d =
    let six : List ClientTelemetryRow = five ++ sixth ∷ [] in
    let previous = compared input.client_id now rows five newer sixth next h w in
    let before = row_before_end-append five sixth in
    let fires : any is_mpv_dead (mpv_alert six input.mpv) ≡ true = ground (arith, before, a, d) in
    rw (evaluate_thresholds, previous)
      (any-append is_mpv_dead (disk_alerts six input.disks) _ (
        any-append is_mpv_dead (cpu_alert six input.cpu_pct) _
          (any-append is_mpv_dead (temp_alert six input.temps) _ fires)))
