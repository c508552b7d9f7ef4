-- ===== src/Etcd/Directory/Simulation.antt =====
-- Every step of the etcd backend is a move of the abstract directory.
use correlation.Base.{
  is_empty, Text, [], ◌∷◌, ◌≡◌, ◌≢◌, ◌⊎◌, inl, inr, refl, sym, ap, arith, true, false, ◌||◌, Option,
  none, some, Bool-cases,
}
use mathlib.Core.Path.{subst}
use correlation.Paths.{path_join}
use correlation.Paths.Child.{IsName}
use correlation.Etcd.{
  KeysApi, EtcdBackend, EtcdOp, call_announce, call_un_announce, call_watch, loop_round,
  announce_ttl, announce, un_announce, watch, update_announce, announce_round, loop_step,
  sleep_after, step,
}
use correlation.Etcd.Directory.Keys.{set-Puts, delete-Removes}
use correlation.Etcd.Directory.{
  Same, SetFails, Move, set_own, withdraw, wait, refresh, IsKeyValue, view,
}

empty_id : (id : Text) → is_empty id ≡ true → id ≡ []
empty_id [] h = refl
empty_id (c ∷ s) h = cc

full_id : (id : Text) → is_empty id ≡ false → id ≢ []
full_id id h e = ground arith

one_empty : (i a : Text) → (is_empty i || is_empty a) ≡ true → (i ≡ []) ⊎ (a ≡ [])
one_empty [] a h = inl refl
one_empty (c ∷ i) a h = inr (empty_id a h)

-- An instance announces under a proper name, if at all.
abbrev pub HasName : Text → Type 0
HasName id = (id ≡ []) ⊎ IsName id

module _ (api : KeysApi) (keys : IsKeyValue api) where
  module _ (b : EtcdBackend api) where
    announce_fields :
        (id address : Text)
        → ((announce api id address b).announce_device_id ≡ id)
          × ((announce api id address b).announce_address ≡ address)
          × ((announce api id address b).devices_key ≡ b.devices_key)
    unfolding announce
    announce_fields id address = ground arith

    -- Announce starts the announce loop, unless it is given no device or no address.
    announce_starts :
        (id address : Text)
        → ((announce api id address b).announce_started ≡ true)
          ⊎ (((announce api id address b).announce_started ≡ b.announce_started)
              × ((id ≡ []) ⊎ (address ≡ [])))
    unfolding announce
    announce_starts id address = elim (Bool-cases (is_empty id || is_empty address)) [
      | inl e ↦ inr (ground (arith, e), one_empty id address e)
      | inr e ↦ inl (ground (arith, e))
    ]

    watch_fields :
        ((watch api b).0.announce_device_id ≡ b.announce_device_id)
        × ((watch api b).0.announce_address ≡ b.announce_address)
        × ((watch api b).0.announce_started ≡ b.announce_started)
        × ((watch api b).0.devices_key ≡ b.devices_key)
    unfolding watch
    watch_fields = ground arith

    key-Same :
        (c : EtcdBackend api) (st : api.Store)
        → c.devices_key ≡ b.devices_key
        → Same (view api keys b st).directory (view api keys c st).directory
    unfolding view
    key-Same c st e j hj = ap (λ k. keys.value st (path_join k j)) e

    announce-Move :
        (id address : Text) (st : api.Store)
        → Move api
            (call_announce id address)
            (view api keys b st)
            (view api keys (announce api id address b) st)
    unfolding view
    announce-Move id address st =
        let (p, q, r) = announce_fields id address in
        set_own id address refl p q (announce_starts id address)
          (key-Same (announce api id address b) st r)

    watch-Move :
        (st : api.Store)
        → Move api call_watch (view api keys b st) (view api keys (watch api b).0 st)
    unfolding view
    watch-Move st =
        let (p, q, s, r) = watch_fields in wait refl p q s (key-Same (watch api b).0 st r)

    abbrev pub silent : EtcdBackend api
    silent = record b { announce_device_id = []; announce_address = [] }

    un_announce_empty :
        (st : api.Store)
        → is_empty b.announce_device_id ≡ true
        → un_announce api (b, st) ≡ (silent, st)
    unfolding un_announce
    un_announce_empty st h = ground (arith, h)

    -- UnAnnounce deletes the key of the device
    pub un_announce_full :
        (st : api.Store)
        → is_empty b.announce_device_id ≡ false
        → un_announce api (b, st)
          ≡ (silent, (api.delete st (path_join b.devices_key b.announce_device_id)).0)
    unfolding un_announce
    un_announce_full st h = ground (arith, h)

    abbrev pub ViewMove : EtcdOp api → api.Store → EtcdBackend api × api.Store → Type 0
    ViewMove o st p = Move api o (view api keys b st) (view api keys p.0 p.1)

    un_announce-Move :
        (st : api.Store)
        → HasName b.announce_device_id
        → ViewMove call_un_announce st (un_announce api (b, st))
    unfolding view
    un_announce-Move st name = elim (Bool-cases (is_empty b.announce_device_id)) [
      | inl none_there ↦
          subst (ViewMove call_un_announce st) (sym (un_announce_empty st none_there)) (
            withdraw refl refl refl refl
              (inl ((λ j hj. refl), inl (empty_id b.announce_device_id none_there))))
      | inr there ↦ subst (ViewMove call_un_announce st) (sym (un_announce_full st there)) (
          withdraw refl refl refl refl (elim name [
            | inl e ↦ absurd (full_id b.announce_device_id there e)
            | inr n ↦ elim (delete-Removes api keys b st b.announce_device_id n) [
              | inl ((e, failed), same) ↦ inl (same, inr (st, b.devices_key, e, failed))
              | inr gone ↦ inr (full_id b.announce_device_id there, gone)
            ]
          ]))
    ]

    round_idle :
        (st : api.Store)
        → (is_empty b.announce_device_id || is_empty b.announce_address) ≡ true
        → (announce_round api (b, st)).0 ≡ st
    unfolding announce_round
    round_idle st h = ground (arith, h)

    round_sets :
        (st : api.Store)
        → (is_empty b.announce_device_id || is_empty b.announce_address) ≡ false
        → (announce_round api (b, st)).0
          ≡ (api.set st
              (path_join b.devices_key b.announce_device_id)
              b.announce_address
              announce_ttl).0
    unfolding announce_round
    round_sets st h =
        rw (h, update_announce) (store_of (api.set st _ b.announce_address announce_ttl))
      where
        store_of : (p : api.Store × Option Text) → (sleep_after api p).0 ≡ p.0
        store_of (s, none) = refl
        store_of (s, some e) = refl

    neither_empty : (i a : Text) → (is_empty i || is_empty a) ≡ false → (i ≢ []) × (a ≢ [])
    neither_empty i a h = (λ e. ground (arith, h), λ e. ground (arith, h))

    -- nothing to do for a round
    idle_reason :
        (is_empty b.announce_device_id || is_empty b.announce_address) ≡ true
        → (b.announce_started ≡ false)
          ⊎ ((b.announce_device_id ≡ [])
              ⊎ ((b.announce_address ≡ []) ⊎ SetFails api b.announce_device_id b.announce_address))
    idle_reason h = elim (one_empty b.announce_device_id b.announce_address h) [
      | inl e ↦ inr (inl e)
      | inr e ↦ inr (inr (inl e))
    ]

    round-Move :
        (st : api.Store)
        → HasName b.announce_device_id
        → ViewMove loop_round st (b, (announce_round api (b, st)).0)
    unfolding view
    round-Move st name =
        elim (Bool-cases (is_empty b.announce_device_id || is_empty b.announce_address)) [
          | inl idle ↦
              subst (λ st'. ViewMove loop_round st (b, st')) (sym (round_idle st idle))
                (refresh refl refl refl refl (inl ((λ j hj. refl), idle_reason idle)))
          | inr set ↦
              let (full_i, full_a) = neither_empty b.announce_device_id b.announce_address set in
              subst (λ st'. ViewMove loop_round st (b, st')) (sym (round_sets st set))
                (refresh refl refl refl refl (elim name [
                  | inl e ↦ absurd (full_i e)
                  | inr n ↦
                      elim (set-Puts api keys b st b.announce_device_id b.announce_address
                        announce_ttl n) [
                          | inl ((e, failed), same) ↦
                              inl (same, inr (inr (inr (st, b.devices_key, e, failed))))
                          | inr put ↦ inr (full_i, full_a, put)
                        ]
                ]))
        ]

    loop_cases :
        (st : api.Store)
        → ((b.announce_started ≡ false) × (loop_step api (b, st) ≡ (b, st)))
          ⊎ (loop_step api (b, st) ≡ (b, (announce_round api (b, st)).0))
    loop_cases st = elim (Bool-cases b.announce_started) [
      | inl e ↦ inr (rw e)
      | inr e ↦ inl (e, rw e)
    ]

    loop-Move :
        (st : api.Store)
        → HasName b.announce_device_id
        → ViewMove loop_round st (loop_step api (b, st))
    unfolding view
    loop-Move st name = elim (loop_cases st) [
      | inl (stopped, none_runs) ↦
          subst (ViewMove loop_round st) (sym none_runs)
            (refresh refl refl refl refl (inl ((λ j hj. refl), inl stopped)))
      | inr runs ↦ subst (ViewMove loop_round st) (sym runs) (round-Move st name)
    ]

    pub step-Move :
        (o : EtcdOp api) (st : api.Store)
        → HasName b.announce_device_id
        → ViewMove o st (step api o (b, st))
    unfolding step
    step-Move (call_announce id address) st name = announce-Move id address st
    step-Move call_un_announce st name = un_announce-Move st name
    step-Move call_watch st name = watch-Move st
    step-Move loop_round st name = loop-Move st name
