-- ===== src/Etcd/Silence.antt =====
-- What the announcement of a device in etcd depends on.
use correlation.Base.{is_empty, List, [], ◌∷◌, ◌≡◌, refl, ◌∙◌, arith, All, Bool, true, false, ◌||◌}
use correlation.Etcd.{
  KeysApi, EtcdBackend, EtcdOp, call_announce, call_un_announce, call_watch, loop_round,
  un_announce, step, run,
}

module _ (api : KeysApi) where
  -- Nothing is announced.
  pub record IsSilent (b : EtcdBackend api) : Type 0 where
    pub no_id : b.announce_device_id ≡ []

  -- anything but a call of Announce
  abbrev pub is_quiet : EtcdOp api → Bool
  is_quiet (call_announce device_id address) = false
  is_quiet _ = true

  step-IsSilent :
      (o : EtcdOp api) (b : EtcdBackend api) (st : api.Store)
      → is_quiet o ≡ true
      → IsSilent b
      → IsSilent (step api o (b, st)).0 × ((step api o (b, st)).1 ≡ st)
  unfolding step
  step-IsSilent (call_announce i a) b st q h = cc
  step-IsSilent call_un_announce b st q h = ground arith
  step-IsSilent call_watch b st q h = ground arith
  step-IsSilent loop_round b st q h = ground arith

  run_silent :
      (os : List (EtcdOp api)) (b : EtcdBackend api) (st : api.Store)
      → All (λ o. is_quiet o ≡ true) os
      → IsSilent b
      → (run api os (b, st)).1 ≡ st
  unfolding run
  run_silent [] b st q h = refl
  run_silent (o ∷ os) b st (q, qs) h =
      let (kept, same) = step-IsSilent o b st q h in
      let (b', st') = step api o (b, st) in run_silent os b' st' qs kept ∙ same

  un_announce-IsSilent :
      (b : EtcdBackend api) (st : api.Store) → IsSilent (un_announce api (b, st)).0
  unfolding un_announce
  un_announce-IsSilent b st = ground arith

  -- Once UnAnnounce is through, the store stays as it left it, through any number of rounds of the
  -- announce loop, watches and further calls of UnAnnounce, until Announce is called again.
  pub un_announce_lasts :
      (os : List (EtcdOp api)) (b : EtcdBackend api) (st : api.Store)
      → All (λ o. is_quiet o ≡ true) os
      → (run api os (un_announce api (b, st))).1 ≡ (un_announce api (b, st)).1
  un_announce_lasts os b st q =
      let h = un_announce-IsSilent b st in
      let (b', st') = un_announce api (b, st) in run_silent os b' st' q h

  -- A device with an address is announced only while the loop that refreshes it runs.
  pub record IsLive (b : EtcdBackend api) : Type 0 where
    pub started :
        ((is_empty b.announce_device_id || is_empty b.announce_address) ≡ false)
        → b.announce_started ≡ true

  step-IsLive :
      (o : EtcdOp api) (b : EtcdBackend api) (st : api.Store)
      → IsLive b
      → IsLive (step api o (b, st)).0
  unfolding step
  step-IsLive (call_announce i a) b st h = ground arith
  step-IsLive call_un_announce b st h = ground arith
  step-IsLive call_watch b st h = ground arith
  step-IsLive loop_round b st h = ground arith

  -- Whatever is called in whatever order: if at first the announce loop has been started in case a device
  -- ID and an address are set, that is so at the end.
  pub run-IsLive :
      (os : List (EtcdOp api)) (b : EtcdBackend api) (st : api.Store)
      → IsLive b
      → IsLive (run api os (b, st)).0
  unfolding run
  run-IsLive [] b st h = h
  run-IsLive (o ∷ os) b st h =
      let kept = step-IsLive o b st h in
      let (b', st') = step api o (b, st) in run-IsLive os b' st' kept
