-- ===== src/K8s/Watching.antt =====
-- What Watch waits for.
use correlation.Base.{
  List, [], ◌∷◌, ◌≡◌, ◌≢◌, refl, arith, All, Any, none, some, Result, ok, err, text_eq, text_eq_iff,
  inl, inr, Option-cases, Bool-cases, Perm, true, false, sym, ap, ◌∙◌,
}
use correlation.Devices.{DeviceRegistrations, list_full_string}
use correlation.Devices.Change.{list_full_string_of_perm}
use correlation.K8s.{Cluster, K8sBackend, fetch, poll, watch}

module _ (k : Cluster) where
  -- In this state of the cluster the backend can tell that there is a change.
  abbrev pub IsNews : K8sBackend → k.State → Type 0
  IsNews b st =
      (regs : DeviceRegistrations) × (fetch k b st ≡ ok regs)
      × (list_full_string regs ≢ b.last_state)

  none-ne-some : (c : K8sBackend) → none ≢ some c
  none-ne-some c h = cc

  same_of_some : (c d : K8sBackend) → some c ≡ some d → c ≡ d
  same_of_some c d h = cc

  true-ne-false : false ≢ true
  true-ne-false h = cc

  poll_news :
      (b c : K8sBackend) (r : Result DeviceRegistrations)
      → poll k b r ≡ some c
      → (regs : DeviceRegistrations) × (r ≡ ok regs)
        × (list_full_string regs ≢ b.last_state)
        × (c ≡ record b { last_state = list_full_string regs; last = regs })
  unfolding poll
  poll_news b c (err e) h = cc
  poll_news b c (ok regs) h = elim (Bool-cases (text_eq (list_full_string regs) b.last_state)) [
    | inl same ↦ absurd (none-ne-some c (rw same at h))
    | inr other ↦ (
      regs,
      refl,
      (λ e. true-ne-false (rw other at ((text_eq_iff (list_full_string regs) b.last_state).1 e))),
      same_of_some _ _ (sym (rw other at h)),
    )
  ]

  poll_quiet :
      (b : K8sBackend) (r : Result DeviceRegistrations)
      → poll k b r ≡ none
      → (regs : DeviceRegistrations) → r ≡ ok regs
      → list_full_string regs ≡ b.last_state
  unfolding poll
  poll_quiet b (err e) h regs q = cc
  poll_quiet b (ok regs') h regs q =
      ground (arith, text_eq_iff (list_full_string regs') b.last_state)

  poll_same :
      (b : K8sBackend) (regs : DeviceRegistrations)
      → list_full_string regs ≡ b.last_state
      → poll k b (ok regs) ≡ none
  unfolding poll
  poll_same b regs h = ground (arith, text_eq_iff (list_full_string regs) b.last_state)

  watch_stop :
      (b d : K8sBackend) (st : k.State) (sts : List k.State)
      → poll k b (fetch k b st) ≡ some d
      → watch k b (st ∷ sts) ≡ some d
  unfolding watch
  watch_stop b d st sts h = rw (h, watch)

  watch_wait :
      (b : K8sBackend) (st : k.State) (sts : List k.State)
      → poll k b (fetch k b st) ≡ none
      → watch k b (st ∷ sts) ≡ watch k b sts
  unfolding watch
  watch_wait b st sts h = rw (h, watch)

  -- Watch returns only when it has met a state of the cluster whose devices differ from those it has
  -- last seen, and then it holds the string of the devices that it keeps, which is another than before.
  pub watch_returns :
      (b c : K8sBackend) (sts : List k.State)
      → watch k b sts ≡ some c
      → Any (IsNews b) sts
        × (c.last_state ≡ list_full_string c.last)
        × (c.last_state ≢ b.last_state)
  watch_returns b c [] h = absurd (none-ne-some c (unfold watch in h))
  watch_returns b c (st ∷ sts) h = elim (Option-cases (poll k b (fetch k b st))) [
    | inl e ↦
        let (seen, p, q) = watch_returns b c sts (sym (watch_wait b st sts e) ∙ h) in
        (inr seen, p, q)
    | inr (d, e) ↦
        let same : c ≡ d = same_of_some c d (sym h ∙ watch_stop b d st sts e) in
        let (regs, p, q, r) = poll_news b d (fetch k b st) e in
        let parts = same ∙ r in
        (
          inl (regs, p, q),
          rw parts refl,
          (λ x. q (sym (ap (λ (a : K8sBackend). a.last_state) parts) ∙ x)),
        )
  ]

  -- Watch returns if one of the states that it meets has devices that differ from those it has last seen.
  pub watch_notices :
      (b : K8sBackend) (sts : List k.State)
      → Any (IsNews b) sts
      → (c : K8sBackend) × (watch k b sts ≡ some c)
  watch_notices b [] h = absurd h
  watch_notices b (st ∷ sts) (inl (regs, p, q)) = elim (Option-cases (poll k b (fetch k b st))) [
    | inl e ↦ absurd (q (poll_quiet b (fetch k b st) e regs p))
    | inr (d, e) ↦ (d, watch_stop b d st sts e)
  ]
  watch_notices b (st ∷ sts) (inr rest) = elim (Option-cases (poll k b (fetch k b st))) [
    | inl e ↦ let (c, r) = watch_notices b sts rest in (c, watch_wait b st sts e ∙ r)
    | inr (d, e) ↦ (d, watch_stop b d st sts e)
  ]

  -- This state of the cluster lists the devices that the backend has last seen, in some order.
  abbrev pub IsRearranged : K8sBackend → k.State → Type 0
  IsRearranged b st = (regs : DeviceRegistrations) × (fetch k b st ≡ ok regs) × Perm regs b.last

  -- When lastState is the text of the last devices, Watch goes on waiting while each list of devices that
  -- it meets is a rearrangement of them.
  pub watch_ignores_order :
      (b : K8sBackend) (sts : List k.State)
      → b.last_state ≡ list_full_string b.last
      → All (IsRearranged b) sts
      → watch k b sts ≡ none
  unfolding watch
  watch_ignores_order b [] h all = refl
  watch_ignores_order b (st ∷ sts) h ((regs, p, q), all) =
      watch_wait b st sts
        (ap (poll k b) p ∙ poll_same b regs (list_full_string_of_perm regs b.last q ∙ sym h))
      ∙ watch_ignores_order b sts h all
