-- ===== src/Service/Converge/Synced.antt =====
-- When nothing is left to be done, the last update that succeeded was for the devices of the backend.
pub mod Steps
use correlation.Base.{
  ℕ, suc, ◌+◌, ◌<◌, ◌≤◌, ◌^◌, ◌≡◌, ◌≢◌, ◌⊎◌, inl, inr, refl, sym, ap, ◌∙◌, arith, Bool, true, false,
  Option, none, some, Text, List, [], ◌∷◌, Result, ok, err, Option-cases, Result-cases, Bool-cases,
  text_eq, if◌then◌else◌, ltb, ◌==◌, ◌&&◌,
}
use mathlib.Core.Path.{subst}
use correlation.Devices.{DeviceRegistrations, list_full_string}
use correlation.Service.{Service}
use correlation.Service.Update.{Syncthing, Calls, update_syncthing}
use correlation.Service.Update.Effects.{update_settles}
use correlation.Service.Update.Effects
use correlation.Service.Loop.{LoopState, trigger_update, monitor_round, start_round, end_round}
use correlation.Service.Loop
use correlation.Service.Loop.Triggers.{IsOrdered}
use correlation.Service.Converge.{
  System, Event, change, notice, signal, begin, update, finish, perform, succeeded, ended,
  on_update, step, run, start,
}

-- how often Watch returns
module _ (y : Syncthing) (calls : Calls y) where
  abbrev pub notices : List (Event y calls) → ℕ
  notices [] = 0
  notices (notice ∷ es) = suc (notices es)
  notices (_ ∷ es) = notices es

  -- The last update that succeeded was for the devices that the backend returns.
  pub record IsFresh (s : System y calls) : Type 0 where
    pub given :
        (ds : DeviceRegistrations)
        → s.devices ≡ ok ds
        → s.service.last_devices ≡ list_full_string ds

  -- A round that reads the backend from now on is still to come.
  pub record IsDue (s : System y calls) : Type 0 where
    pub last_lt : s.loop.last_change_counter < s.loop.change_counter
    pub open_round :
        (n : ℕ) → s.loop.updating ≡ some n → (n < s.loop.change_counter) ⊎ (s.outcome ≢ some true)

  pub record IsSynced (s : System y calls) : Type 0 where
    pub ordered : IsOrdered s.loop
    pub settled : s.loop.updating ≡ none → s.outcome ≡ none
    pub promise : (s.unseen ≡ true) ⊎ (IsFresh s ⊎ IsDue s)

  none-ne-some : {A : Type 0} (a : A) → none ≢ some a
  none-ne-some a h = cc

  -- What an update comes to: it fails and leaves the service alone, or it takes over the devices.
  abbrev Performed : Result DeviceRegistrations → Service → Service × y.State × Option Text → Type 0
  Performed r s p =
      ((succeeded y calls p.2 ≡ false) × (p.0 ≡ s))
      ⊎ ((succeeded y calls p.2 ≡ true)
          × ((ds : DeviceRegistrations) → r ≡ ok ds → p.0.last_devices ≡ list_full_string ds))

  ok_same : (ds es : DeviceRegistrations) → ok ds ≡ ok es → ds ≡ es
  ok_same ds es h = cc

  of_update :
      (r : Result DeviceRegistrations) (s : Service) (p : Service × y.State × Option Text)
      → Effects.Performed y calls r s p
      → Performed r s p
  of_update r s p (inl ((e, failed), same)) = inl (rw failed, same)
  of_update r s p (inr (ds, found, done, taken, kept)) =
      inr (rw done, λ es h. taken ∙ ap list_full_string (ok_same ds es (sym found ∙ h)))

  performed :
      (r : Result DeviceRegistrations) (s : Service) (st : y.State)
      → Performed r s (update_syncthing y calls r s st)
  performed r s st = of_update r s (update_syncthing y calls r s st) (update_settles y calls r s st)

  false-ne-true : some false ≢ some true
  false-ne-true h = cc

  perform-IsSynced :
      (s : System y calls) (n : ℕ)
      → s.loop.updating ≡ some n
      → IsSynced s
      → IsSynced (perform y calls s)
  unfolding perform
  perform-IsSynced s n runs h = record {
    ordered = h.ordered;
    settled = λ idle. absurd (none-ne-some n (sym idle ∙ runs));
    promise = elim h.promise [
      | inl unseen ↦ inl unseen
      | inr rest ↦ inr (elim (performed s.devices s.service s.state) [
        | inr (done, taken) ↦ inl (record { given = taken })
        | inl (failed, same) ↦ elim rest [
          | inl fresh ↦ inl (record {
            given = λ ds e. ap (λ (x : Service). x.last_devices) same ∙ fresh.given ds e;
          })
          | inr due ↦ inr (record {
            last_lt = due.last_lt;
            open_round = λ m e. inr (λ good. false-ne-true (sym (ap some failed) ∙ good));
          })
        ]
      ])
    ];
  }
