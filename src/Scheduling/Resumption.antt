-- ===== src/Scheduling/Resumption.antt =====
-- server/src/services/schedule.service.ts: an interrupting schedule with a duration, and the timer that
-- is to resume what it interrupted.
use montr.Base.{
  ℕ, Text, true, Option, none, some, ◌≡◌, refl, arith, text_eq, nat_eq, ◌⊎◌, inl, inr, ap, ◌∙◌,
  includes,
}
use montr.Base.Map.{get, delete}
use montr.Database.Tables.{Client, Tables}
use montr.Clients.Service.{interrupt_with_playlist}
use montr.Clients.Interrupts.{interrupt-resume_fails, resume_from_interrupt-refused}
use montr.Websocket.Types.{SocketLibrary}
use montr.Scheduling.Types.{Schedule, truthy_number}
use montr.Scheduling.Dispatch.{
  World, on_tables, push_if_connected, schedule_auto_resume, auto_resume?, interrupt_one,
  fire_auto_resume,
}
use montr.Scheduling.Targeted.{push_if_connected-tables}
use montr.Scheduling.Events.{result_cases}

module _ (lib : SocketLibrary) (payload : ℕ → Text ⊎ Text) where
  auto_resume?-tables :
      (id : Text) (o : Option ℕ) (now : ℕ) (w : World)
      → (auto_resume? lib payload id o now w).tables ≡ w.tables
  unfolding schedule_auto_resume
  auto_resume?-tables id none now w = refl
  auto_resume?-tables id (some n) now w = refl

  interrupt_one-tables :
      (s : Schedule) (now : ℕ) (id : Text) (w : World)
      → (interrupt_one lib payload s now id w).tables
        ≡ (interrupt_with_playlist id s.playlist_id w.tables).0
  unfolding interrupt_one
  interrupt_one-tables s now id w =
      let r = on_tables (interrupt_with_playlist id s.playlist_id) w in
      let o = truthy_number s.duration_seconds in
      elim (result_cases r.1) [
        | inr (t, e) ↦
            let same : interrupt_one lib payload s now id w ≡ r.0 = ground (arith, e) in
            rw same refl
        | inl (c, e) ↦
            let pushed = push_if_connected lib payload id s.playlist_id r.0 in
            let same : interrupt_one lib payload s now id w
                ≡ auto_resume? lib payload id o now pushed =
              ground (arith, e) in
            rw same (
              auto_resume?-tables id o now pushed
              ∙ push_if_connected-tables lib payload id s.playlist_id r.0)
      ]

  -- A schedule interrupts a client that was not interrupted before, with a playlist that exists. The
  -- client is given that playlist, and when the timer of the schedule's duration fires afterwards, all
  -- that it does is to forget itself: the client's row, and every other row and connection, stays.
  pub interrupt_one-stays :
      (s : Schedule) (now : ℕ) (id : Text) (c : Client) (w : World)
      → get id w.tables.clients ≡ some c
      → c.interrupted_from_playlist_id ≡ none
      → includes w.tables.playlists s.playlist_id ≡ true
      → let w' = interrupt_one lib payload s now id w in
        (get id w'.tables.clients ≡ some (record c { assigned_playlist_id = some s.playlist_id }))
        × (fire_auto_resume lib payload id w' ≡ record w' {
          service = record w'.service { resume_timers = delete id w'.service.resume_timers };
        })
  unfolding fire_auto_resume
  interrupt_one-stays s now id c w found fresh known =
      let w' = interrupt_one lib payload s now id w in
      let row : get id w'.tables.clients
          ≡ some (record c { assigned_playlist_id = some s.playlist_id }) =
        ap (λ (t : Tables). get id t.clients) (interrupt_one-tables s now id w)
        ∙ (interrupt-resume_fails id s.playlist_id c w.tables found fresh known).0 in
      let refused =
        resume_from_interrupt-refused id (record c { assigned_playlist_id = some s.playlist_id })
          w'.tables row fresh in
      (row, ground (arith, refused))
