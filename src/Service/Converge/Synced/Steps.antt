-- ===== src/Service/Converge/Synced/Steps.antt =====
-- Each event keeps what was promised.
use correlation.Base.{
  ℕ, ◌+◌, ◌<◌, ◌^◌, ◌≡◌, ◌⊎◌, inl, inr, refl, sym, ◌∙◌, arith, Bool, true, false, Option, none,
  some, Result, Option-cases, Bool-cases, if◌then◌else◌, ltb, ◌==◌, ◌&&◌,
}
use mathlib.Core.Path.{subst}
use correlation.Devices.{DeviceRegistrations}
use correlation.Service.Update.{Syncthing, Calls}
use correlation.Service.Loop.{LoopState, trigger_update, monitor_round, start_round, end_round}
use correlation.Service.Loop
use correlation.Service.Converge.{
  System, Event, change, notice, signal, begin, update, finish, ended, on_update, step,
}
use correlation.Service.Converge.Synced.{IsSynced, none-ne-some, perform-IsSynced}

module _ (y : Syncthing) (calls : Calls y) where
  some-injective : (m n : ℕ) → some m ≡ some n → m ≡ n
  some-injective m n h = cc

  change-IsSynced :
      (r : Result DeviceRegistrations) (s : System y calls)
      → IsSynced y calls s
      → IsSynced y calls (record s { devices = r; unseen = true })
  change-IsSynced r s h = record { ordered = h.ordered; settled = h.settled; promise = inl refl }

  notice-IsSynced :
      (s : System y calls)
      → s.loop.change_counter + 1 < 2 ^ 32
      → IsSynced y calls s
      → IsSynced y calls (step y calls notice s)
  unfolding step monitor_round
  notice-IsSynced s room h =
      let le = h.ordered.last_le in
      record {
        ordered = record {
          last_le = omega arith;
          updating_le = λ n e. let le_n = h.ordered.updating_le n e in omega arith;
        };
        settled = h.settled;
        promise = inr (
            inr (record {
              last_lt = omega arith;
              open_round = λ n e. let le_n = h.ordered.updating_le n e in inl (omega arith);
            }));
      }

  signal-IsSynced :
      (s : System y calls) → IsSynced y calls s → IsSynced y calls (step y calls signal s)
  unfolding step Loop.step
  signal-IsSynced s h = record {
    ordered = record { last_le = h.ordered.last_le; updating_le = h.ordered.updating_le };
    settled = h.settled;
    promise = elim h.promise [
      | inl unseen ↦ inl unseen
      | inr (inl fresh) ↦ inr (inl (record { given = fresh.given }))
      | inr (inr due) ↦ inr (inr (record { last_lt = due.last_lt; open_round = due.open_round }))
    ];
  }

  -- A round begins, or nothing happens.
  begin_cases :
      (l : LoopState)
      → (Loop.step Loop.begin l ≡ l)
        ⊎ ((l.updating ≡ none)
            × (l.last_change_counter < l.change_counter)
            × (Loop.step Loop.begin l ≡ record l { updating = some l.change_counter }))
  unfolding Loop.step
  begin_cases l = elim (Option-cases l.updating) [
    | inr (n, e) ↦ inl (rw e)
    | inl e ↦
        elim (Bool-cases (ltb l.last_change_counter l.change_counter && l.signal_counter == 0)) [
          | inl go ↦ inr (e, ground arith, rw (e, start_round, go))
          | inr stay ↦ inl (rw (e, start_round, stay))
        ]
  ]

  begun-IsSynced :
      (s : System y calls)
      → s.loop.updating ≡ none
      → s.loop.last_change_counter < s.loop.change_counter
      → IsSynced y calls s
      → IsSynced y calls
          (record s { loop = record s.loop { updating = some s.loop.change_counter } })
  begun-IsSynced s free lt h =
      let idle = h.settled free in
      record {
        ordered = record {
          last_le = h.ordered.last_le;
          updating_le = λ n e. omega (arith, some-injective _ _ e);
        };
        settled = λ e. absurd (none-ne-some y calls _ (sym e));
        promise = elim h.promise [
          | inl unseen ↦ inl unseen
          | inr (inl fresh) ↦ inr (inl (record { given = fresh.given }))
          | inr (inr due) ↦ inr (
              inr (record {
                last_lt = lt;
                open_round = λ n e. inr (λ good. none-ne-some y calls true (sym idle ∙ good));
              }))
        ];
      }

  begin-IsSynced :
      (s : System y calls) → IsSynced y calls s → IsSynced y calls (step y calls begin s)
  unfolding step
  begin-IsSynced s h = elim (begin_cases s.loop) [
    | inl same ↦ subst (λ (l : LoopState). IsSynced y calls (record s { loop = l })) (sym same) h
    | inr (free, lt, new) ↦
        subst (λ (l : LoopState). IsSynced y calls (record s { loop = l })) (sym new)
          (begun-IsSynced s free lt h)
  ]

  abbrev pub closed : Bool → ℕ → LoopState → LoopState
  closed b n l =
      if b
      then record l { last_change_counter = n; updating = none }
      else record l { updating = none }

  pub finish_closed :
      (b : Bool) (n : ℕ) (l : LoopState)
      → l.updating ≡ some n
      → Loop.step (Loop.finish b) l ≡ closed b n l
  unfolding Loop.step
  finish_closed b n l e = rw (e, end_round)

  closed-IsSynced :
      (b : Bool) (n : ℕ) (s : System y calls)
      → s.loop.updating ≡ some n
      → s.outcome ≡ some b
      → IsSynced y calls s
      → IsSynced y calls (record s { loop = closed b n s.loop; outcome = none })
  closed-IsSynced true n s runs good h = record {
    ordered = record {
      last_le = h.ordered.updating_le n runs;
      updating_le = λ m e. absurd (none-ne-some y calls m e);
    };
    settled = λ e. refl;
    promise = elim h.promise [
      | inl unseen ↦ inl unseen
      | inr (inl fresh) ↦ inr (inl (record { given = fresh.given }))
      | inr (inr due) ↦ inr (
          inr (record {
            last_lt = elim (due.open_round n runs) [ inl lt ↦ lt | inr bad ↦ absurd (bad good) ];
            open_round = λ m e. absurd (none-ne-some y calls m e);
          }))
    ];
  }
  closed-IsSynced false n s runs failed h = record {
    ordered = record {
      last_le = h.ordered.last_le;
      updating_le = λ m e. absurd (none-ne-some y calls m e);
    };
    settled = λ e. refl;
    promise = elim h.promise [
      | inl unseen ↦ inl unseen
      | inr (inl fresh) ↦ inr (inl (record { given = fresh.given }))
      | inr (inr due) ↦ inr (
          inr (record {
            last_lt = due.last_lt;
            open_round = λ m e. absurd (none-ne-some y calls m e);
          }))
    ];
  }

  ended_with :
      (o : Option Bool) (s : System y calls)
      → s.outcome ≡ o
      → IsSynced y calls s
      → IsSynced y calls (ended y calls o s)
  ended_with none s e h = h
  ended_with (some b) s e h = elim (Option-cases s.loop.updating) [
    | inl idle ↦ absurd (none-ne-some y calls b (sym (h.settled idle) ∙ e))
    | inr (n, runs) ↦
        subst (λ (l : LoopState). IsSynced y calls (record s { loop = l; outcome = none }))
          (sym (finish_closed b n s.loop runs)) (closed-IsSynced b n s runs e h)
  ]

  updated_with :
      (o : Option ℕ) (q : Option Bool) (s : System y calls)
      → s.loop.updating ≡ o
      → IsSynced y calls s
      → IsSynced y calls (on_update y calls o q s)
  updated_with none q s e h = h
  updated_with (some n) (some b) s e h = h
  updated_with (some n) none s e h = perform-IsSynced y calls s n e h

  -- Each event keeps the invariant, if the counter of changes has room for a trigger.
  pub step-IsSynced :
      (e : Event y calls) (s : System y calls)
      → s.loop.change_counter + 1 < 2 ^ 32
      → IsSynced y calls s
      → IsSynced y calls (step y calls e s)
  step-IsSynced (change r) s room h = unfold step in change-IsSynced r s h
  step-IsSynced notice s room h = notice-IsSynced s room h
  step-IsSynced signal s room h = signal-IsSynced s h
  step-IsSynced begin s room h = begin-IsSynced s h
  step-IsSynced update s room h = unfold step in updated_with s.loop.updating s.outcome s refl h
  step-IsSynced finish s room h = unfold step in ended_with s.outcome s refl h
