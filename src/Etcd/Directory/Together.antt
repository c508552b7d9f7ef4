-- ===== src/Etcd/Directory/Together.antt =====
-- service/backend/etcd_backend.go: several instances on one store.
use correlation.Base.{
  ℕ, Text, List, [], ◌∷◌, ◌≡◌, ◌≢◌, inl, inr, sym, ap, ◌∙◌, arith, All, Bool-cases, some, ◌==◌,
  text_eq_refl, if◌then◌else◌,
}
use mathlib.Core.Path.{subst}
use correlation.Paths.{path_join}
use correlation.Paths.Child.{IsName}
use correlation.Etcd.{
  KeysApi, EtcdBackend, EtcdOp, call_announce, call_un_announce, call_watch, loop_round, announce,
  un_announce, watch, step,
}
use correlation.Etcd.Directory.{View, Move, set_own, withdraw, wait, refresh, IsKeyValue, view}
use correlation.Etcd.Directory.Simulation.{HasName, step-Move}
use correlation.Etcd.Directory.Instances.{IsProper, Spares, Move-HasName, Move-Spares}

module _ (api : KeysApi) where
  -- the backends of all instances, by a number
  abbrev pub Backends : Type 0
  Backends = ℕ → EtcdBackend api

  unfoldable pub update_at : ℕ → EtcdBackend api → Backends → Backends
  update_at n b bs m = if n == m then b else bs m

  -- an operation of one instance
  unfoldable pub step_of : ℕ × EtcdOp api → Backends × api.Store → Backends × api.Store
  unfolding update_at
  step_of (n, o) (bs, st) = let (b, st') = step api o (bs n, st) in (update_at n b bs, st')

  -- operations of the instances, in any order
  unfoldable pub run_together : List (ℕ × EtcdOp api) → Backends × api.Store → Backends × api.Store
  unfolding step_of
  run_together [] s = s
  run_together (e ∷ es) s = run_together es (step_of e s)

  -- an operation that does not change what an instance announces
  abbrev pub Keeps : EtcdOp api → Type 0
  Keeps (call_announce id address) = ⊥
  Keeps call_un_announce = ⊥
  Keeps call_watch = Unit
  Keeps loop_round = Unit

  -- The instance i keeps its announcement, and the others announce other devices, under proper IDs.
  abbrev pub IsFair : ℕ → Text → ℕ × EtcdOp api → Type 0
  IsFair i j (n, o) = IsProper api o × (n ≡ i → Keeps o) × (n ≢ i → Spares api j o)

  -- What is so of the backend n while i announces the device j at the address a.
  pub record IsMember (path : Text) (i : ℕ) (j a : Text) (n : ℕ) (b : EtcdBackend api)
      : Type 0 where
    pub key : b.devices_key ≡ path
    pub name : HasName b.announce_device_id
    pub own : n ≡ i → (b.announce_device_id ≡ j) × (b.announce_address ≡ a)
    pub other : n ≢ i → b.announce_device_id ≢ j

  each_backend :
      (P : ℕ → EtcdBackend api → Type 0) (n : ℕ) (b : EtcdBackend api) (bs : Backends)
      → P n b
      → ((m : ℕ) → P m (bs m))
      → (m : ℕ) → P m (update_at n b bs m)
  unfolding update_at
  each_backend P n b bs h hs m = elim (Bool-cases (n == m)) [
    | inl e ↦ let same : n ≡ m = ground (arith, e) in rw e (subst (λ m. P m b) same h)
    | inr e ↦ rw e (hs m)
  ]

  step-devices_key :
      (o : EtcdOp api) (b : EtcdBackend api) (st : api.Store)
      → (step api o (b, st)).0.devices_key ≡ b.devices_key
  unfolding step announce un_announce watch
  step-devices_key (call_announce id address) b st = ground arith
  step-devices_key call_un_announce b st = ground arith
  step-devices_key call_watch b st = ground arith
  step-devices_key loop_round b st = ground arith

  -- an operation of i itself
  own-Move :
      (j a : Text) (o : EtcdOp api) (v w : View)
      → IsName j
      → Keeps o
      → v.id ≡ j
      → v.address ≡ a
      → v.directory j ≡ some a
      → Move api o v w
      → (w.id ≡ j) × (w.address ≡ a) × (w.directory j ≡ some a)
  own-Move j a o v w hj keeps own at stored (set_own id address e p q s same) =
      absurd (subst Keeps e keeps)
  own-Move j a o v w hj keeps own at stored (withdraw e p q s d) = absurd (subst Keeps e keeps)
  own-Move j a o v w hj keeps own at stored (wait e p q s same) =
      (p ∙ own, q ∙ at, same j hj ∙ stored)
  own-Move j a o v w hj keeps own at stored (refresh e p q s (inl (same, reason))) =
      (p ∙ own, q ∙ at, same j hj ∙ stored)
  own-Move j a o v w hj keeps own at stored (refresh e p q s (inr (full, set, put))) =
      (p ∙ own, q ∙ at, put j hj ∙ rw (own, text_eq_refl j) (ap some at))

  module _ (keys : IsKeyValue api) (path : Text) (i : ℕ) (j a : Text) (hj : IsName j) where
    -- what holds while i announces the device: all backends are members, and its entry is there
    pub record IsKept (bs : Backends) (st : api.Store) : Type 0 where
      pub members : (n : ℕ) → IsMember path i j a n (bs n)
      pub entry : keys.value st (path_join path j) ≡ some a

    -- the backend that makes an operation, and the entry behind it
    moved :
        (n : ℕ) (o : EtcdOp api) (b b' : EtcdBackend api) (st st' : api.Store)
        → IsFair i j (n, o)
        → b'.devices_key ≡ b.devices_key
        → Move api o (view api keys b st) (view api keys b' st')
        → IsMember path i j a n b
        → keys.value st (path_join path j) ≡ some a
        → IsMember path i j a n b' × (keys.value st' (path_join path j) ≡ some a)
    unfolding view
    moved n o b b' st st' (proper, own, others) same m h entry =
        let here : keys.value st (path_join b.devices_key j) ≡ some a =
          ap (λ k. keys.value st (path_join k j)) h.key ∙ entry in
        let there = ap (λ k. keys.value st' (path_join k j)) (sym (same ∙ h.key)) in
        let name = Move-HasName api o (view api keys b st) (view api keys b' st') proper h.name m in
        elim (Bool-cases (n == i)) [
          | inl e ↦
              let is : n ≡ i = ground (arith, e) in
              let (id, at) = h.own is in
              let (id', at', stored) = own-Move j a o _ _ hj (own is) id at here m in
              (
                record {
                  key = same ∙ h.key;
                  name = name;
                  own = λ q. (id', at');
                  other = λ q. absurd (q is);
                },
                there ∙ stored,
              )
          | inr e ↦
              let isnt : n ≢ i = λ q. ground (arith, e, q) in
              let (stays, still) =
                Move-Spares api j o _ _ hj (others isnt) (h.other isnt) hj.full m in
              (
                record {
                  key = same ∙ h.key;
                  name = name;
                  own = λ q. absurd (isnt q);
                  other = λ q. still;
                },
                there ∙ stays ∙ here,
              )
        ]

    step_of-IsKept :
        (n : ℕ) (o : EtcdOp api) (bs : Backends) (st : api.Store)
        → IsFair i j (n, o)
        → IsKept bs st
        → IsKept (step_of (n, o) (bs, st)).0 (step_of (n, o) (bs, st)).1
    unfolding step_of
    step_of-IsKept n o bs st fair h =
        let (b', st') = step api o (bs n, st) in
        let m = step-Move api keys (bs n) o st (h.members n).name in
        let (member, entry) =
          moved n o (bs n) b' st st' fair (step-devices_key o (bs n) st) m (h.members n) h.entry in
        record {
          members = each_backend (IsMember path i j a) n b' bs member h.members;
          entry = entry;
        }

    -- On a store that all instances share, the entry of an instance stays, with its address, through any
    -- interleaving of operations of all instances in which the instance keeps its announcement and the
    -- others announce other devices, as long as no key expires.
    pub run_together-IsKept :
        (es : List (ℕ × EtcdOp api)) (bs : Backends) (st : api.Store)
        → All (IsFair i j) es
        → IsKept bs st
        → IsKept (run_together es (bs, st)).0 (run_together es (bs, st)).1
    unfolding run_together
    run_together-IsKept [] bs st fair h = h
    run_together-IsKept ((n, o) ∷ es) bs st (first, fair) h =
        run_together-IsKept es _ _ fair (step_of-IsKept n o bs st first h)
