-- ===== src/Etcd/Directory/Instances.antt =====
-- Runs of one instance among the others.
use correlation.Base.{
  Text, List, [], ◌∷◌, ◌≡◌, ◌≢◌, inl, inr, refl, sym, ap, ◌∙◌, All, none, some, text_ne,
  if◌then◌else◌,
}
use mathlib.Core.Path.{subst}
use correlation.Paths.{path_join}
use correlation.Paths.Child.{IsName}
use correlation.Etcd.{
  KeysApi, EtcdBackend, EtcdOp, call_announce, call_un_announce, call_watch, loop_round, step, run,
}
use correlation.Etcd.Directory.{View, Move, set_own, withdraw, wait, refresh, IsKeyValue, view}
use correlation.Etcd.Directory.Simulation.{HasName, step-Move}

module _ (api : KeysApi) where
  -- Announce is called with a proper device ID, or with none.
  abbrev pub IsProper : EtcdOp api → Type 0
  IsProper (call_announce id address) = HasName id
  IsProper call_un_announce = Unit
  IsProper call_watch = Unit
  IsProper loop_round = Unit

  -- Announce is not called with this device ID.
  abbrev pub Spares : Text → EtcdOp api → Type 0
  Spares j (call_announce id address) = id ≢ j
  Spares j call_un_announce = Unit
  Spares j call_watch = Unit
  Spares j loop_round = Unit

  -- A move for each operation, one after the other.
  abbrev pub Moves : List (EtcdOp api) → View → View → Type 0
  Moves [] v v' = v ≡ v'
  Moves (o ∷ os) v v' = (w : View) × Move api o v w × Moves os w v'

  -- a move leaves a proper name or none
  pub Move-HasName :
      (o : EtcdOp api) (v w : View) → IsProper o → HasName v.id → Move api o v w → HasName w.id
  Move-HasName o v w proper h (set_own id address e p q s same) =
      subst HasName (sym p) (subst IsProper e proper)
  Move-HasName o v w proper h (withdraw e p q s d) = inl p
  Move-HasName o v w proper h (wait e p q s d) = subst HasName (sym p) h
  Move-HasName o v w proper h (refresh e p q s d) = subst HasName (sym p) h

  -- an entry that a move leaves alone, and whose name stays another's
  pub Move-Spares :
      (j : Text) (o : EtcdOp api) (v w : View)
      → IsName j
      → Spares j o
      → v.id ≢ j
      → j ≢ []
      → Move api o v w
      → (w.directory j ≡ v.directory j) × (w.id ≢ j)
  Move-Spares j o v w hj spared other full (set_own id address e p q s same) =
      (same j hj, λ x. subst (Spares j) e spared (sym p ∙ x))
  Move-Spares j o v w hj spared other full (withdraw e p q s (inl (same, reason))) =
      (same j hj, λ x. full (sym x ∙ p))
  Move-Spares j o v w hj spared other full (withdraw e p q s (inr (own, gone))) = (
    gone j hj ∙ ap (λ t. if t then none else v.directory j) (text_ne v.id j other),
    λ x. full (sym x ∙ p),
  )
  Move-Spares j o v w hj spared other full (wait e p q s same) = (same j hj, λ x. other (sym p ∙ x))
  Move-Spares j o v w hj spared other full (refresh e p q s (inl (same, reason))) =
      (same j hj, λ x. other (sym p ∙ x))
  Move-Spares j o v w hj spared other full (refresh e p q s (inr (own, set, put))) = (
    put j hj ∙ ap (λ t. if t then some v.address else v.directory j) (text_ne v.id j other),
    λ x. other (sym p ∙ x),
  )

  Moves-spare :
      (j : Text) (os : List (EtcdOp api)) (v w : View)
      → IsName j
      → All (Spares j) os
      → v.id ≢ j
      → Moves os v w
      → w.directory j ≡ v.directory j
  Moves-spare j [] v w hj spared other e = ap (λ (x : View). x.directory j) (sym e)
  Moves-spare j (o ∷ os) v w hj (first, spared) other (u, m, ms) =
      let (kept, still) = Move-Spares j o v u hj first other hj.full m in
      Moves-spare j os u w hj spared still ms ∙ kept

  module _ (keys : IsKeyValue api) where
    pub run-Moves :
        (os : List (EtcdOp api)) (b : EtcdBackend api) (st : api.Store)
        → All IsProper os
        → HasName b.announce_device_id
        → let (b', st') = run api os (b, st) in Moves os (view api keys b st) (view api keys b' st')
    unfolding run view
    run-Moves [] b st proper name = refl
    run-Moves (o ∷ os) b st (p, proper) name =
        let m = step-Move api keys b o st name in
        let name' = Move-HasName o (view api keys b st) _ p name m in
        let (b', st') = step api o (b, st) in
        (view api keys b' st', m, run-Moves os b' st' proper name')

    -- Whatever an instance does, with proper device IDs, it never touches the entry of a device under
    -- whose name it has not been announced.
    pub run-Spares :
        (j : Text) (os : List (EtcdOp api)) (b : EtcdBackend api) (st : api.Store)
        → All IsProper os
        → All (Spares j) os
        → HasName b.announce_device_id
        → IsName j
        → b.announce_device_id ≢ j
        → keys.value (run api os (b, st)).1 (path_join (run api os (b, st)).0.devices_key j)
          ≡ keys.value st (path_join b.devices_key j)
    unfolding view
    run-Spares j os b st proper spared name hj other =
        Moves-spare j os _ _ hj spared other (run-Moves os b st proper name)
