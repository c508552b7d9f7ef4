-- ===== src/Service/Converge/Idle.antt =====
-- What a system that has come to rest has done, and that it comes to rest.
use correlation.Base.{
  ℕ, ◌+◌, ◌<◌, ◌^◌, ◌≡◌, ◌≢◌, inl, inr, refl, sym, ap, ◌∙◌, arith, Bool, true, false, Option, none,
  some, List, [], ◌∷◌, Result, ok,
}
use mathlib.Core.Path.{subst}
use correlation.Devices.{DeviceRegistrations, list_full_string}
use correlation.Service.{Service}
use correlation.Service.Update.{Syncthing, Calls, update_syncthing}
use correlation.Service.Loop.{LoopState, trigger_update, monitor_round, start_round, end_round}
use correlation.Service.Loop
use correlation.Service.Converge.{
  System, Event, change, notice, signal, begin, update, finish, perform, succeeded, ended,
  on_update, step, run, start,
}
use correlation.Service.Converge.Synced.{IsSynced, IsFresh, notices}
use correlation.Service.Converge.Synced.Steps.{step-IsSynced, finish_closed}

module _ (y : Syncthing) (calls : Calls y) where
  change_begin : (l : LoopState) → (Loop.step Loop.begin l).change_counter ≡ l.change_counter
  unfolding Loop.step
  change_begin l = ground arith

  change_finish :
      (b : Bool) (l : LoopState) → (Loop.step (Loop.finish b) l).change_counter ≡ l.change_counter
  unfolding Loop.step
  change_finish b l = ground arith

  change_signal : (l : LoopState) → (Loop.step Loop.signal l).change_counter ≡ l.change_counter
  unfolding Loop.step
  change_signal l = refl

  change_update :
      (o : Option ℕ) (q : Option Bool) (s : System y calls)
      → (on_update y calls o q s).loop ≡ s.loop
  unfolding perform
  change_update none q s = refl
  change_update (some n) none s = refl
  change_update (some n) (some b) s = refl

  change_ended :
      (q : Option Bool) (s : System y calls)
      → (ended y calls q s).loop.change_counter ≡ s.loop.change_counter
  change_ended none s = refl
  change_ended (some b) s = change_finish b s.loop

  -- only a return of Watch is a trigger
  change_step :
      (e : Event y calls) (es : List (Event y calls)) (s : System y calls)
      → s.loop.change_counter + 1 + notices y calls (e ∷ es) < 2 ^ 32
      → (step y calls e s).loop.change_counter + 1 + notices y calls es < 2 ^ 32
  change_step (change r) es s h = unfold step in h
  change_step notice es s h = unfold step monitor_round in omega arith
  change_step signal es s h = unfold step in omega (arith, change_signal s.loop)
  change_step begin es s h = unfold step in omega (arith, change_begin s.loop)
  change_step update es s h =
      unfold step in
      omega (
        arith,
        ap (λ (l : LoopState). l.change_counter) (change_update s.loop.updating s.outcome s),
      )
  change_step finish es s h = unfold step in omega (arith, change_ended s.outcome s)

  -- Any events keep the invariant, if the counter of changes has room for the returns of Watch.
  pub run-IsSynced :
      (es : List (Event y calls)) (s : System y calls)
      → s.loop.change_counter + 1 + notices y calls es < 2 ^ 32
      → IsSynced y calls s
      → IsSynced y calls (run y calls es s)
  unfolding run
  run-IsSynced [] s room h = h
  run-IsSynced (e ∷ es) s room h =
      run-IsSynced es (step y calls e s) (change_step e es s room)
        (step-IsSynced y calls e s (omega (arith, room)) h)

  -- The system starts synced.
  pub start-IsSynced :
      (service : Service) (state : y.State) (devices : Result DeviceRegistrations)
      → IsSynced y calls (start y calls service state devices)
  unfolding start
  start-IsSynced service state devices = record {
    ordered = record { last_le = omega arith; updating_le = λ n e. absurd (none-ne-some n e) };
    settled = λ e. refl;
    promise =
        inr (inr (record { last_lt = omega arith; open_round = λ n e. absurd (none-ne-some n e) }));
  }
    where
      none-ne-some : (n : ℕ) → none ≢ some n
      none-ne-some n e = cc

  -- Watch has returned for the last change, no round runs, and every trigger has been acted on.
  pub record IsIdle (s : System y calls) : Type 0 where
    pub seen : s.unseen ≡ false
    pub free : s.loop.updating ≡ none
    pub acted : s.loop.last_change_counter ≡ s.loop.change_counter

  IsFresh-of_IsIdle : (s : System y calls) → IsIdle s → IsSynced y calls s → IsFresh y calls s
  IsFresh-of_IsIdle s idle h = elim h.promise [
    | inl unseen ↦ absurd (impossible (sym idle.seen ∙ unseen))
    | inr (inl fresh) ↦ fresh
    | inr (inr due) ↦ absurd (not_less idle.acted due.last_lt)
  ]
    where
      impossible : false ≡ true → ⊥
      impossible e = cc

      not_less :
          s.loop.last_change_counter ≡ s.loop.change_counter
          → s.loop.last_change_counter < s.loop.change_counter
          → ⊥
      not_less e lt = omega arith

  -- From the start of the service, whatever happens in whatever order, with fewer than 2^32 - 2 returns of
  -- Watch: when the system is idle and the backend returns a list of devices, the last update that
  -- succeeded was made for these devices.
  pub idle_fresh :
      (es : List (Event y calls)) (service : Service) (state : y.State)
      (devices : Result DeviceRegistrations) (ds : DeviceRegistrations)
      → 2 + notices y calls es < 2 ^ 32
      → IsIdle (run y calls es (start y calls service state devices))
      → (run y calls es (start y calls service state devices)).devices ≡ ok ds
      → (run y calls es (start y calls service state devices)).service.last_devices
        ≡ list_full_string ds
  unfolding start
  idle_fresh es service state devices ds room idle now =
      (IsFresh-of_IsIdle _ idle
          (run-IsSynced es _ room (start-IsSynced service state devices))).given
        ds now

  begun :
      (l : LoopState)
      → l.updating ≡ none
      → l.signal_counter ≡ 0
      → l.last_change_counter < l.change_counter
      → Loop.step Loop.begin l ≡ record l { updating = some l.change_counter }
  unfolding Loop.step
  begun l free alive lt = ground (arith, free, alive, lt)

  -- what is left of a round that has begun with this state of the loop
  abbrev rest_of_round : System y calls → LoopState → Option Bool → System y calls
  rest_of_round s l q =
      step y calls finish (on_update y calls l.updating q (record s { unseen = false; loop = l }))

  finished_round :
      (s : System y calls) (l : LoopState) (n : ℕ)
      → l.updating ≡ some n
      → l.change_counter ≡ n
      → succeeded y calls (update_syncthing y calls s.devices s.service s.state).2 ≡ true
      → IsIdle (
          ended y calls
            (some (succeeded y calls (update_syncthing y calls s.devices s.service s.state).2))
            (perform y calls (record s { unseen = false; loop = l })))
  unfolding perform
  finished_round s l n runs counter good =
      subst
        (λ b.
          IsIdle (ended y calls (some b) (perform y calls (record s { unseen = false; loop = l }))))
        (sym good)
        (subst
          (λ (l' : LoopState).
            IsIdle (record (perform y calls (record s { unseen = false; loop = l })) {
              loop = l';
              outcome = none;
            }))
          (sym (finish_closed y calls true n l runs))
          (record { seen = refl; free = refl; acted = sym counter }))

  round_of_open :
      (s : System y calls) (l : LoopState) (n : ℕ)
      → l.updating ≡ some n
      → l.change_counter ≡ n
      → succeeded y calls (update_syncthing y calls s.devices s.service s.state).2 ≡ true
      → IsIdle (rest_of_round s l none)
  unfolding step perform
  round_of_open s l n runs counter good =
      subst
        (λ (o : Option ℕ).
          IsIdle (
            step y calls finish (on_update y calls o none (record s { unseen = false; loop = l }))))
        (sym runs) (finished_round s l n runs counter good)

  -- When no round runs and no signal has come, a return of Watch and one round bring the system to rest,
  -- if the update of that round succeeds. The counter of changes must have room for the trigger.
  pub round-IsIdle :
      (s : System y calls)
      → IsSynced y calls s
      → s.loop.updating ≡ none
      → s.loop.signal_counter ≡ 0
      → s.loop.change_counter + 1 < 2 ^ 32
      → succeeded y calls (update_syncthing y calls s.devices s.service s.state).2 ≡ true
      → IsIdle (run y calls (notice ∷ begin ∷ update ∷ finish ∷ []) s)
  unfolding run step monitor_round
  round-IsIdle s h free alive room good =
      let l = monitor_round s.loop in
      let le = h.ordered.last_le in
      subst (λ (l' : LoopState). IsIdle (rest_of_round s l' s.outcome))
        (sym (begun l free alive (omega arith)))
        (subst
          (λ (q : Option Bool).
            IsIdle (rest_of_round s (record l { updating = some l.change_counter }) q))
          (sym (h.settled free)) (round_of_open s _ l.change_counter refl refl good))
