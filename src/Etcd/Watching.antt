-- ===== src/Etcd/Watching.antt =====
-- The error counter of Watch.
use correlation.Base.{
  ℕ, zero, suc, ◌+◌, ◌%◌, ◌≤◌, ◌≡◌, refl, arith, Option, none, some, err, Text, ltb, ◌<◌, ◌∙◌,
  if◌then◌else◌, Bool-cases, inl, inr,
}
use correlation.Etcd.{KeysApi, EtcdBackend, watch, recent_watch_errors_max, after_next, fresh}

module _ (api : KeysApi) where
  -- n calls of Watch, whatever comes of each
  pub watches : ℕ → EtcdBackend api → EtcdBackend api
  watches zero b = b
  watches (suc n) b = watches n (watch api b).0

  watch_bound :
      (b : EtcdBackend api)
      → b.recent_watch_errors ≤ suc recent_watch_errors_max
      → (watch api b).0.recent_watch_errors ≤ suc recent_watch_errors_max
  unfolding watch
  watch_bound b h = ground arith

  -- From a counter of at most six, any number of calls of Watch leaves it at most six.
  pub watches_bound :
      (n : ℕ) (b : EtcdBackend api)
      → b.recent_watch_errors ≤ suc recent_watch_errors_max
      → (watches n b).recent_watch_errors ≤ suc recent_watch_errors_max
  unfolding watches
  watches_bound zero b h = h
  watches_bound (suc n) b h = watches_bound n (watch api b).0 (watch_bound b h)

  -- Next of every watcher fails.
  pub record IsDown : Type 0 where
    pub error : Text
    pub fails : (w : api.Watcher) → (api.next w).1 ≡ some error

  after_next_fails :
      (e : Text) (b : EtcdBackend api) (n : ℕ) (p : api.Watcher × Option Text)
      → p.1 ≡ some e
      → ((after_next api b n p).0.recent_watch_errors ≡ suc n)
        × ((after_next api b n p).0.watcher ≡ some p.0)
        × ((after_next api b n p).1 ≡ err e)
  after_next_fails e b n (w, none) h = cc
  after_next_fails e b n (w, some x) h = (refl, refl, ground arith)

  -- the counter behind a failing call
  abbrev next_count : ℕ → ℕ
  next_count n = if ltb recent_watch_errors_max n then 1 else suc n

  first_fails :
      (down : IsDown) (b : EtcdBackend api)
      → b.recent_watch_errors ≡ 0
      → ((watch api b).0.recent_watch_errors ≡ 1)
        × ((w : api.Watcher) × ((watch api b).0.watcher ≡ some w))
        × ((watch api b).1 ≡ err down.error)
  unfolding watch
  first_fails down b h =
      let (w, n) = fresh api b in
      let (p, q, r) = after_next_fails down.error b n (api.next w) (down.fails w) in
      (ground (arith, p), ((api.next w).0, q), r)

  later_fails :
      (down : IsDown) (b : EtcdBackend api) (v : api.Watcher)
      → b.watcher ≡ some v
      → ((watch api b).0.recent_watch_errors ≡ next_count b.recent_watch_errors)
        × ((w : api.Watcher) × ((watch api b).0.watcher ≡ some w))
  unfolding watch
  later_fails down b v h =
      let (w, n) = fresh api b in
      let (p, q, r) = after_next_fails down.error b n (api.next w) (down.fails w) in
      (ground (arith, p), ((api.next w).0, q))

  watches_count :
      (down : IsDown) (n c : ℕ) (b : EtcdBackend api) (v : api.Watcher)
      → b.watcher ≡ some v
      → b.recent_watch_errors ≡ suc c
      → c < 6
      → (watches n b).recent_watch_errors ≡ (c + n) % 6 + 1
  unfolding watches
  watches_count down zero c b v hw h lt = omega arith
  watches_count down (suc n) c b v hw h lt =
      let (p, (w, q)) = later_fails down b v hw in
      elim (Bool-cases (ltb recent_watch_errors_max (suc c))) [
        | inl full ↦
            ground
              (arith, watches_count down n 0 (watch api b).0 w q (ground (arith, p)) (omega arith))
        | inr room ↦ ground (
          arith,
          watches_count down n (suc c) (watch api b).0 w q (ground (arith, p)) (ground arith),
        )
      ]

  -- While Next of every watcher fails, and from a counter of 0, the counter behind call number n + 1 is
  -- n % 6 + 1: it runs from 1 to 6 over and over.
  pub watches_period :
      (down : IsDown) (n : ℕ) (b : EtcdBackend api)
      → b.recent_watch_errors ≡ 0
      → (watches (suc n) b).recent_watch_errors ≡ n % 6 + 1
  unfolding watches
  watches_period down n b h =
      let (p, (w, q), r) = first_fails down b h in
      watches_count down n 0 (watch api b).0 w q p (omega arith) ∙ ground arith
