-- ===== src/K8s/Retries.antt =====
-- The rounds of updateAnnounce.
use correlation.Base.{
  ℕ, zero, suc, ◌<◌, ◌≤◌, ◌≡◌, ap, arith, Text, none, some, Option-cases, inl, inr,
}
use correlation.K8s.{Cluster, K8sBackend, update_announce_once, retry}

module _ (k : Cluster) (sleep : k.State → k.State) (b : K8sBackend) (value : Text) where
  -- the cluster as attempt number i finds it, if all attempts before it failed
  unfoldable pub found : ℕ → k.State → k.State
  found zero st = st
  found (suc i) st = found i (sleep (update_announce_once k b value st).0)

  retry_done :
      (n : ℕ) (st : k.State)
      → (update_announce_once k b value st).1 ≡ none
      → retry k (suc n) sleep b value st ≡ ((update_announce_once k b value st).0, 1)
  unfolding retry
  retry_done n st h = rw (h, retry)

  retry_again :
      (n : ℕ) (st : k.State) (e : Text)
      → (update_announce_once k b value st).1 ≡ some e
      → let (last, rounds) =
          retry k n sleep b value (sleep (update_announce_once k b value st).0) in
        retry k (suc n) sleep b value st ≡ (last, suc rounds)
  unfolding retry
  retry_again n st e h = rw (h, retry)

  -- The attempt that ended the loop succeeded, and it was no later than attempt i.
  pub record EndsBy (i n : ℕ) (st : k.State) : Type 0 where
    pub at : ℕ
    pub at_most : at ≤ i
    pub rounds : (retry k n sleep b value st).1 ≡ suc at
    pub succeeded : (update_announce_once k b value (found at st)).1 ≡ none
    pub result : (retry k n sleep b value st).0 ≡ (update_announce_once k b value (found at st)).0

  -- If attempt i succeeds whenever all attempts before it have failed, and i is below the number of
  -- rounds, the loop ends at an attempt that succeeds, no later than i, with the cluster as it left it.
  pub retry-EndsBy :
      (i n : ℕ) (st : k.State)
      → i < n
      → (update_announce_once k b value (found i st)).1 ≡ none
      → EndsBy i n st
  unfolding found
  retry-EndsBy i zero st lt h = elim lt [ ]
  retry-EndsBy zero (suc n) st lt h = record {
    at = 0;
    at_most = omega arith;
    rounds = rw (retry_done n st h);
    succeeded = h;
    result = rw (retry_done n st h);
  }
  retry-EndsBy (suc i) (suc n) st lt h =
      let next = sleep (update_announce_once k b value st).0 in
      elim (Option-cases (update_announce_once k b value st).1) [
        | inl now ↦ record {
          at = 0;
          at_most = omega arith;
          rounds = rw (retry_done n st now);
          succeeded = now;
          result = rw (retry_done n st now);
        }
        | inr (e, fails) ↦
            let rest = retry-EndsBy i n next (omega arith) h in
            record {
              at = suc rest.at;
              at_most = omega arith;
              rounds = rw (retry_again n st e fails) (ap suc rest.rounds);
              succeeded = rest.succeeded;
              result = rw (retry_again n st e fails) rest.result;
            }
      ]

  -- Whatever happens there are at most as many rounds as are allowed.
  pub retry_rounds : (n : ℕ) (st : k.State) → (retry k n sleep b value st).1 ≤ n
  retry_rounds zero st = unfold retry in omega arith
  retry_rounds (suc n) st = elim (Option-cases (update_announce_once k b value st).1) [
    | inl now ↦ rw (retry_done n st now) (omega arith)
    | inr (e, fails) ↦
        rw (retry_again n st e fails)
          (omega (arith, retry_rounds n (sleep (update_announce_once k b value st).0)))
  ]
