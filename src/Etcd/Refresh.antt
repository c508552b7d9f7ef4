-- ===== src/Etcd/Refresh.antt =====
-- service/backend/etcd_backend.go, announceLoop: how long the loop sleeps between two refreshes. Only the
-- sleeps are counted here, not the time that a call of etcd takes; Etcd/Expiry counts both.
use correlation.Base.{ℕ, zero, suc, ◌+◌, ◌<◌, ◌≡◌, refl, arith, Text, Option, none, some}
use correlation.Etcd.{
  KeysApi, EtcdBackend, announce_ttl, update_announce, announce_round, sleep_after,
}

module _ (api : KeysApi) (b : EtcdBackend api) where
  -- rounds of announceLoop while nothing else is called: the store behind them, and how many seconds the
  -- loop has slept
  unfoldable pub announce_rounds : ℕ → api.Store → api.Store × ℕ
  unfolding announce_round
  announce_rounds zero st = (st, 0)
  announce_rounds (suc n) st =
      let (st', slept) = announce_round api (b, st) in
      let (last, rest) = announce_rounds n st' in (last, slept + rest)

  -- The call of Set in each of the next n rounds fails.
  abbrev pub Fail : ℕ → api.Store → Type 0
  Fail zero st = Unit
  Fail (suc n) st =
      ((e : Text) × ((update_announce api (b, st)).1 ≡ some e))
      × Fail n (update_announce api (b, st)).0

  sleeps_after :
      (p : api.Store × Option Text) (o : Option Text)
      → p.1 ≡ o
      → sleep_after api p ≡ sleep_after api (p.0, o)
  sleeps_after (st, o') o e = rw e

  failed_rounds : (n : ℕ) (st : api.Store) → Fail n st → (announce_rounds n st).1 ≡ n
  unfolding announce_rounds announce_round
  failed_rounds zero st h = refl
  failed_rounds (suc n) st ((e, failed), rest) =
      rw (sleeps_after (update_announce api (b, st)) (some e) failed)
        (omega (arith, failed_rounds n (update_announce api (b, st)).0 rest))

  -- From a round that succeeds to the one behind n rounds that fail, the loop sleeps 30 + n seconds. With
  -- fewer than 30 failures that is less than the time to live of the key.
  pub announce_rounds_lem :
      (n : ℕ) (st : api.Store)
      → (update_announce api (b, st)).1 ≡ none
      → Fail n (update_announce api (b, st)).0
      → ((announce_rounds (suc n) st).1 ≡ 30 + n)
        × (n < 30 → (announce_rounds (suc n) st).1 < announce_ttl)
  unfolding announce_rounds announce_round
  announce_rounds_lem n st done failed =
      let waited = failed_rounds n (update_announce api (b, st)).0 failed in
      rw (sleeps_after (update_announce api (b, st)) none done)
        (omega (arith, waited), λ few. omega (arith, waited, few))
