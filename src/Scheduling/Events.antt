-- ===== src/Scheduling/Events.antt =====
-- server/src/services/schedule.service.ts: an event fires a schedule once in its window.
use montr.Base.{
  ℕ, ◌+◌, ◌-◌, ◌<◌, Text, true, Option, none, some, List, [], ◌∷◌, ◌==◌, false, filter, ◌≡◌, ◌≢◌,
  refl, arith, nat_eq, text_eq, All, inl, inr, ◌⊎◌, Bool-cases, ap, sym, ◌∙◌, Action, Result, ok,
  throw, and_then, Thrown,
}
use montr.Base.Map.{Map, get, set, get-set, get-set_self}
use montr.Websocket.Types.{SocketLibrary}
use montr.Scheduling.Types.{Schedule, NotificationEventType, truthy_text, truthy_number}
use montr.Scheduling.Dispatch.{
  World, on_tables, push_if_connected, push_each, assignment, assign_each, assign_and_push_each,
  schedule_auto_resume, auto_resume?, interrupt_one, interrupt_each, targets, dispatch_interrupt,
  dispatch_assign, dispatch_schedule, members_of,
}
use montr.Database.ClientRows.{update_client}
use montr.Clients.Service.{interrupt_with_playlist}
use montr.Scheduling.Service.{
  fired_lately, window_ms, note_fired, fire_each, on_event, waits_for, narrow_event_target,
}

abbrev pub last_fires : World → Map ℕ ℕ
last_fires w = w.service.event_last_fired

pub result_cases :
    {A : Type 0} (r : Result A) → ((a : A) × (r ≡ ok a)) ⊎ ((t : Thrown) × (r ≡ throw t))
result_cases (ok a) = inl (a, refl)
result_cases (throw t) = inr (t, refl)

not_ok : (t : Thrown) (n : ℕ) → throw t ≡ ok n → ⊥
not_ok t n e = cc

-- A schedule whose last fire is not of its window, or is now.
abbrev pub IsReady : ℕ → Map ℕ ℕ → Schedule → Type 0
IsReady now m s = (fired_lately now (window_ms s) (get s.id m) ≡ false) ⊎ (get s.id m ≡ some now)

IsReady-set :
    (now id : ℕ) (m : Map ℕ ℕ) (s : Schedule) → IsReady now m s → IsReady now (set id now m) s
IsReady-set now id m s r = elim (Bool-cases (id == s.id)) [
  | inl same ↦ inr (ground (arith, get-set id s.id now m, same))
  | inr differs ↦
      let kept : get s.id (set id now m) ≡ get s.id m =
        ground (arith, get-set id s.id now m, differs) in
      rw kept r
]

AreReady-set :
    (now id : ℕ) (m : Map ℕ ℕ) (ss : List Schedule)
    → All (IsReady now m) ss
    → All (IsReady now (set id now m)) ss
AreReady-set now id m [] a = tt
AreReady-set now id m (s ∷ ss) a = (IsReady-set now id m s a.0, AreReady-set now id m ss a.1)

AreReady-stale :
    (now : ℕ) (m : Map ℕ ℕ) (ss : List Schedule)
    → All (λ s. fired_lately now (window_ms s) (get s.id m) ≡ false) ss
    → All (IsReady now m) ss
AreReady-stale now m [] a = tt
AreReady-stale now m (s ∷ ss) a = (inl a.0, AreReady-stale now m ss a.1)

set_fired : (now id k : ℕ) (m : Map ℕ ℕ) → get k m ≡ some now → get k (set id now m) ≡ some now
set_fired now id k m e = ground (arith, get-set id k now m, e)

-- What a run of the loop leaves: its time at every schedule of the list, and where it stood before.
record AllFired (now : ℕ) (ss : List Schedule) (before after : Map ℕ ℕ) : Type 0 where
  pub every : All (λ s. get s.id after ≡ some now) ss
  pub keeps : (k : ℕ) → get k before ≡ some now → get k after ≡ some now

module _ (lib : SocketLibrary) (payload : ℕ → Text ⊎ Text) where
  push_if_connected-fires :
      (id : Text) (p : ℕ) (w : World)
      → last_fires (push_if_connected lib payload id p w) ≡ last_fires w
  unfolding push_if_connected
  push_if_connected-fires id p w = ground arith

  push_each-fires :
      (ids : List Text) (p : ℕ) (w : World)
      → last_fires (push_each lib payload ids p w) ≡ last_fires w
  unfolding push_each
  push_each-fires [] p w = refl
  push_each-fires (id ∷ ids) p w =
      push_each-fires ids p (push_if_connected lib payload id p w) ∙ push_if_connected-fires id p w

  -- A step that keeps the map, and then one that does.
  and_then-fires :
      {A B : Type 0} (r : World × Result A) (k : A → Action World B) (w : World)
      → last_fires r.0 ≡ last_fires w
      → ((a : A) (v : World) → last_fires (k a v).0 ≡ last_fires v)
      → last_fires (and_then r k).0 ≡ last_fires w
  and_then-fires (v, ok a) k w e h = h a v ∙ e
  and_then-fires (v, throw t) k w e h = e

  assign_each-fires :
      (ids : List Text) (p : ℕ) (w : World)
      → last_fires (assign_each lib payload ids p w).0 ≡ last_fires w
  unfolding assign_each
  assign_each-fires [] p w = refl
  assign_each-fires (id ∷ ids) p w =
      and_then-fires (on_tables (update_client id (assignment lib payload p)) w) _ w refl
        (λ a v. assign_each-fires ids p v)

  assign_and_push_each-fires :
      (ids : List Text) (p : ℕ) (w : World)
      → last_fires (assign_and_push_each lib payload ids p w).0 ≡ last_fires w
  unfolding assign_and_push_each
  assign_and_push_each-fires [] p w = refl
  assign_and_push_each-fires (id ∷ ids) p w =
      and_then-fires (on_tables (update_client id (assignment lib payload p)) w) _ w refl (λ a v.
        assign_and_push_each-fires ids p (push_if_connected lib payload id p v)
        ∙ push_if_connected-fires id p v)

  auto_resume-fires :
      (id : Text) (o : Option ℕ) (now : ℕ) (w : World)
      → last_fires (auto_resume? lib payload id o now w) ≡ last_fires w
  unfolding schedule_auto_resume
  auto_resume-fires id none now w = refl
  auto_resume-fires id (some n) now w = refl

  interrupt_one-fires :
      (s : Schedule) (now : ℕ) (id : Text) (w : World)
      → last_fires (interrupt_one lib payload s now id w) ≡ last_fires w
  unfolding interrupt_one
  interrupt_one-fires s now id w =
      let r = on_tables (interrupt_with_playlist id s.playlist_id) w in
      let o = truthy_number s.duration_seconds in
      elim (result_cases r.1) [
        | inr (t, e) ↦
            let same : interrupt_one lib payload s now id w ≡ r.0 = ground (arith, e) in
            rw same refl
        | inl (c, e) ↦
            let pushed = push_if_connected lib payload id s.playlist_id r.0 in
            let same : interrupt_one lib payload s now id w
                ≡ auto_resume? lib payload id o now pushed =
              ground (arith, e) in
            rw same
              (auto_resume-fires id o now pushed ∙ push_if_connected-fires id s.playlist_id r.0)
      ]

  interrupt_each-fires :
      (s : Schedule) (now : ℕ) (ids : List Text) (w : World)
      → last_fires (interrupt_each lib payload s now ids w) ≡ last_fires w
  unfolding interrupt_each
  interrupt_each-fires s now [] w = refl
  interrupt_each-fires s now (id ∷ ids) w =
      interrupt_each-fires s now ids (interrupt_one lib payload s now id w)
      ∙ interrupt_one-fires s now id w

  dispatch_assign-fires :
      (c : Option Text) (g : Option ℕ) (p : ℕ) (w : World)
      → last_fires (dispatch_assign lib payload c g p w).0 ≡ last_fires w
  dispatch_assign-fires (some id) g p w = assign_and_push_each-fires (id ∷ []) p w
  dispatch_assign-fires none (some g) p w =
      and_then-fires (assign_each lib payload (members_of g w.tables) p w) _ w
        (assign_each-fires (members_of g w.tables) p w)
        (λ a v. push_each-fires (members_of g w.tables) p v)
  dispatch_assign-fires none none p w = assign_and_push_each-fires _ p w

  dispatch_schedule-fires :
      (s : Schedule) (now : ℕ) (w : World)
      → last_fires (dispatch_schedule lib payload s now w).0 ≡ last_fires w
  unfolding dispatch_schedule dispatch_interrupt
  dispatch_schedule-fires s now w = ground (
    arith,
    dispatch_assign-fires (truthy_text s.client_id) (truthy_number s.group_id) s.playlist_id w,
    interrupt_each-fires s now
        (targets lib payload (truthy_text s.client_id) (truthy_number s.group_id) w.tables) w,
  )

  fire_each-AllFired :
      (source : Option Text) (now : ℕ) (ss : List Schedule) (fired : ℕ) (w : World) (n : ℕ)
      → All (IsReady now (last_fires w)) ss
      → (fire_each lib payload source now ss fired w).1 ≡ ok n
      → AllFired now ss (last_fires w) (last_fires (fire_each lib payload source now ss fired w).0)
  unfolding fire_each
  fire_each-AllFired source now [] fired w n h e = record { every = tt; keeps = λ k g. g }
  fire_each-AllFired source now (s ∷ ss) fired w n h e =
      elim (Bool-cases (fired_lately now (window_ms s) (get s.id (last_fires w)))) [
        | inl lately ↦
            let same : fire_each lib payload source now (s ∷ ss) fired w
                ≡ fire_each lib payload source now ss fired w =
              ground (arith, lately) in
            let ih =
              fire_each-AllFired source now ss fired w n h.1 (ap (λ r. r.1) (sym same) ∙ e) in
            rw same (record {
              every = (ih.keeps s.id (had (last_fires w) h.0 lately), ih.every);
              keeps = ih.keeps;
            })
        | inr fresh ↦
            let noted = note_fired lib payload s now w in
            let d = dispatch_schedule lib payload (narrow_event_target source s) now noted in
            let kept : last_fires d.0 ≡ set s.id now (last_fires w) =
              dispatch_schedule-fires (narrow_event_target source s) now noted in
            elim (result_cases d.1) [
              | inr (t, q) ↦
                  let same : (fire_each lib payload source now (s ∷ ss) fired w).1 ≡ throw t =
                    ground (arith, fresh, q) in
                  absurd (not_ok t n (sym same ∙ e))
              | inl (a, q) ↦
                  let same : fire_each lib payload source now (s ∷ ss) fired w
                      ≡ fire_each lib payload source now ss (fired + 1) d.0 =
                    ground (arith, fresh, q) in
                  let ih =
                    fire_each-AllFired source now ss (fired + 1) d.0 n
                      (rw kept (AreReady-set now s.id (last_fires w) ss h.1))
                      (ap (λ r. r.1) (sym same) ∙ e) in
                  rw same (record {
                    every =
                        (ih.keeps s.id (rw kept (get-set_self s.id now (last_fires w))), ih.every);
                    keeps = λ k g. ih.keeps k (rw kept (set_fired now s.id k (last_fires w) g));
                  })
            ]
      ]
    where
      had :
          (m : Map ℕ ℕ)
          → IsReady now m s
          → fired_lately now (window_ms s) (get s.id m) ≡ true
          → get s.id m ≡ some now
      had m (inr g) l = g
      had m (inl f) l = absurd (ground (arith, f, l))

  -- What fired at `now` is left alone while its window lasts.
  fire_each-quiet :
      (source : Option Text) (now later : ℕ) (ss : List Schedule) (fired : ℕ) (w : World)
      → now ≢ 0
      → All (λ s. get s.id (last_fires w) ≡ some now) ss
      → All (λ s. later - now < window_ms s) ss
      → fire_each lib payload source later ss fired w ≡ (w, ok fired)
  unfolding fire_each
  fire_each-quiet source now later [] fired w nz a l = refl
  fire_each-quiet source now later (s ∷ ss) fired w nz a l =
      ground (arith, a.0, l.0, nz, fire_each-quiet source now later ss fired w nz a.1 l.1)

  -- When an event finds none of its schedules fired in their windows, and dispatches them without an
  -- error, the same event changes nothing and dispatches nothing while the window of each of them lasts
  -- from then, whatever had fired before.
  pub on_event-once :
      (event : NotificationEventType) (source source' : Option Text) (now later : ℕ)
      (schedules : List Schedule) (w : World) (n : ℕ)
      → All
          (λ s. fired_lately now (window_ms s) (get s.id (last_fires w)) ≡ false)
          (filter (waits_for event) schedules)
      → now ≢ 0
      → (fire_each lib payload source now (filter (waits_for event) schedules) 0 w).1 ≡ ok n
      → All (λ s. later - now < window_ms s) (filter (waits_for event) schedules)
      → let w' = (on_event lib payload event source now schedules w).0 in
        on_event lib payload event source' later schedules w' ≡ (w', 0)
  unfolding on_event
  on_event-once event source source' now later schedules w n stale nz e l =
      let ss = filter (waits_for event) schedules in
      let all =
        fire_each-AllFired source now ss 0 w n (AreReady-stale now (last_fires w) ss stale) e in
      let quiet =
        fire_each-quiet source' now later ss 0 (fire_each lib payload source now ss 0 w).0 nz
          all.every l in
      ground (arith, quiet)
