-- ===== src/Etcd/Expiry.antt =====
-- service/backend/etcd_backend.go, announceLoop against the time to live of its key: etcd drops a key when
-- its time is over.
use correlation.Base.{
  ℕ, suc, ◌+◌, ◌-◌, ◌≤◌, Text, List, ◌≡◌, refl, sym, ap, ◌∙◌, arith, is_empty, is_empty_ne, [], ◌∷◌,
  ◌++◌, ◌⊎◌, false, Any, Option, none, some, ok, err, Result-cases, inl, inr,
}
use mathlib.Core.Path.{subst}
use correlation.Devices.{DeviceRegistration, DeviceRegistrations}
use correlation.Address.{parse_device_info}
use correlation.Paths.{path_join}
use correlation.Paths.Child.{IsName, base-path_join}
use correlation.Etcd.{
  KeysApi, Node, EtcdBackend, announce_ttl, update_announce, announce_round, sleep_after,
  get_devices, read_devices_tree,
}
use correlation.Etcd.Registry.{IsShown, collect_finds, read_nodes}

-- What the documentation of etcd says of a key with a time to live. `pass` is what some seconds make of
-- the store, with all that other clients do meanwhile, and `Lives` says that a key has a value, and that it
-- will have it for so many seconds from now, unless this backend writes to it.
pub record Expires (api : KeysApi) : Type 1 where
  pub pass : ℕ → api.Store → api.Store
  pub Lives : api.Store → Text → Text → ℕ → Type 0
  pub set_ok :
      (st st' : api.Store) (key value : Text) (ttl : ℕ)
      → api.set st key value ttl ≡ (st', none)
      → Lives st' key value ttl
  pub set_err :
      (st st' : api.Store) (key value e : Text) (ttl n : ℕ)
      → api.set st key value ttl ≡ (st', some e)
      → n ≤ ttl
      → Lives st key value n
      → Lives st' key value n
  pub pass_on :
      (st : api.Store) (key value : Text) (m n : ℕ)
      → Lives st key value (m + n)
      → Lives (pass m st) key value n
  pub listed :
      (st : api.Store) (dir name value : Text) (n : ℕ) (response : Option (List Node))
      → IsName name
      → IsShown name
      → Lives st (path_join dir name) value (suc n)
      → api.get st dir ≡ ok response
      → (ns : List Node) × (response ≡ some ns)
        × Any (λ node. node ≡ record { key = path_join dir name; value = value }) ns

none-ne-some : {A : Type 0} (a : A) → none ≡ some a → ⊥
none-ne-some a h = cc

module _ (api : KeysApi) (etcd : Expires api) (b : EtcdBackend api) where
  open etcd use {pass, Lives, set_ok, set_err, pass_on, listed}

  -- Rounds of announceLoop. Each has the seconds that go by before Set takes effect in etcd, and those from
  -- then until it returns; the sleep follows.
  unfoldable pub announce_loop : List (ℕ × ℕ) → api.Store → api.Store
  unfolding announce_round
  announce_loop [] st = st
  announce_loop ((before, behind) ∷ rounds) st =
      let (st', slept) = announce_round api (b, pass before st) in
      announce_loop rounds (pass (behind + slept) st')

  -- how many seconds the key lives on after a round, if it had so many before
  abbrev pub life_left : ℕ → ℕ → ℕ → Option Text → ℕ
  life_left left before behind none = 60 - (behind + 30)
  life_left left before behind (some e) = left - (before + behind + 1)

  -- The key has time left at the end of each round, with the sleep behind it.
  unfoldable pub IsTimely : ℕ → List (ℕ × ℕ) → api.Store → Type 0
  unfolding announce_round
  IsTimely left [] st = Unit
  IsTimely left ((before, behind) ∷ rounds) st =
      let (st', slept) = announce_round api (b, pass before st) in
      let left' = life_left left before behind (update_announce api (b, pass before st)).1 in
      (1 ≤ left') × IsTimely left' rounds (pass (behind + slept) st')

  abbrev key_of : Text
  key_of = path_join b.devices_key b.announce_device_id

  -- The backend announces a device, as one that peers can read.
  pub record Announces (d : DeviceRegistration) : Type 0 where
    pub name : IsName b.announce_device_id
    pub shown : IsShown b.announce_device_id
    pub full : is_empty b.announce_address ≡ false
    pub parses : parse_device_info b.announce_address ≡ ok d

  module _ (d : DeviceRegistration) (announces : Announces d) where
    sets :
        (st : api.Store)
        → update_announce api (b, st) ≡ api.set st key_of b.announce_address announce_ttl
    unfolding update_announce
    sets st =
        let named = is_empty_ne b.announce_device_id announces.name.full in
        ground (arith, named, announces.full)

    -- a round leaves the key for longer than the sleep behind it
    round_lives :
        (left before behind : ℕ) (st : api.Store) (p : api.Store × Option Text)
        → update_announce api (b, pass before st) ≡ p
        → left ≤ 60
        → (left ≡ 0) ⊎ Lives st key_of b.announce_address left
        → 1 ≤ life_left left before behind p.1
        → Lives
            (sleep_after api p).0
            key_of
            b.announce_address
            (behind + (sleep_after api p).1 + life_left left before behind p.1)
    round_lives left before behind st (st', none) round most alive some_left =
        subst (Lives st' key_of b.announce_address) (full_life behind some_left) (
          set_ok (pass before st) st' key_of b.announce_address announce_ttl
            (sym (sets (pass before st)) ∙ round))
      where
        full_life : (n : ℕ) → 1 ≤ 60 - (n + 30) → 60 ≡ n + 30 + (60 - (n + 30))
        full_life n h = omega (arith, h)
    round_lives left before behind st (st', some e) round most (inl empty) some_left =
        absurd (omega (arith, empty, some_left))
    round_lives left before behind st (st', some e) round most (inr alive) some_left =
        let n = behind + 1 + (left - (before + behind + 1)) in
        let time : left ≡ before + n = omega (arith, some_left) in
        set_err (pass before st) st' key_of b.announce_address e announce_ttl n
          (sym (sets (pass before st)) ∙ round) (omega (arith, most, some_left))
          (pass_on st key_of b.announce_address before n
            (subst (Lives st key_of b.announce_address) time alive))

    left_bound :
        (left before behind : ℕ) (o : Option Text) → left ≤ 60 → life_left left before behind o ≤ 60
    left_bound left before behind none most = omega arith
    left_bound left before behind (some e) most = omega (arith, most)

    -- some seconds behind a round
    sleep_lives :
        (st : api.Store) (n l t : ℕ)
        → Lives st key_of b.announce_address (n + l)
        → t ≤ n
        → 1 ≤ l
        → Lives (pass t st) key_of b.announce_address (suc (n + l - t - 1))
    sleep_lives st n l t alive within some_left =
        pass_on st key_of b.announce_address t (suc (n + l - t - 1))
          (subst (Lives st key_of b.announce_address) (split_time n l t within some_left) alive)
      where
        split_time : (n l t : ℕ) → t ≤ n → 1 ≤ l → n + l ≡ t + suc (n + l - t - 1)
        split_time n l t within some_left = omega (arith, within, some_left)

    -- some seconds behind the last Set of some rounds
    stays_alive :
        (rounds : List (ℕ × ℕ)) (left before behind t : ℕ) (st : api.Store)
        → left ≤ 60
        → (left ≡ 0) ⊎ Lives st key_of b.announce_address left
        → IsTimely left (rounds ++ (before, behind) ∷ []) st
        → let (st', slept) = announce_round api (b, pass before (announce_loop rounds st)) in
          t ≤ behind + slept → (m : ℕ) × Lives (pass t st') key_of b.announce_address (suc m)
    unfolding IsTimely announce_round announce_loop
    stays_alive [] left before behind t st most alive (some_left, rest) within =
        let lives =
          round_lives left before behind st (update_announce api (b, pass before st)) refl most
            alive some_left in
        (_, sleep_lives (announce_round api (b, pass before st)).0 _ _ t lives within some_left)
    stays_alive ((x, z) ∷ rounds) left before behind t st most alive (some_left, rest) within =
        let lives =
          round_lives left x z st (update_announce api (b, pass x st)) refl most alive some_left in
        let (st', slept) = announce_round api (b, pass x st) in
        stays_alive rounds (life_left left x z (update_announce api (b, pass x st)).1) before behind
          t (pass (z + slept) st') (left_bound left x z _ most)
          (inr (pass_on st' key_of b.announce_address (z + slept) _ lives)) rest within

    reads :
        (c : EtcdBackend api) (st : api.Store) (ds : DeviceRegistrations) (n : ℕ)
        → c.devices_key ≡ b.devices_key
        → Lives st key_of b.announce_address (suc n)
        → get_devices api c st ≡ ok ds
        → Any (λ e. e ≡ record d { id = b.announce_device_id }) ds
    unfolding get_devices read_devices_tree
    reads c st ds n same alive got = elim (Result-cases (api.get st c.devices_key)) [
      | inr (x, e) ↦ absurd (failed x ds (rw (e, get_devices, read_devices_tree) at got))
      | inl (response, e) ↦
          let (ns, is, at) =
            listed st b.devices_key b.announce_device_id b.announce_address n response
              announces.name announces.shown alive (rw same at e) in
          let found = collect_finds api ns _ d announces.parses at in
          let read = read_nodes api c st ns (e ∙ ap ok is) in
          subst (Any (λ e. e ≡ record d { id = b.announce_device_id }))
            (same_devices (sym read ∙ got))
            (rw (base-path_join b.devices_key b.announce_device_id announces.name) at found)
    ]
      where
        failed : (x : Text) (l : DeviceRegistrations) → err x ≡ ok l → ⊥
        failed x l q = cc

        same_devices : {l m : DeviceRegistrations} → ok l ≡ ok m → l ≡ m
        same_devices q = cc

    -- When etcd keeps a key for its time to live, and lists it, a backend announces a device with an address
    -- that parses, under a single path element that does not begin with an underscore, and any number of
    -- rounds of the announce loop have gone by: let the first Set succeed, let each round, however long its
    -- call of Set takes, end with its sleep less than 60 seconds after the last Set that succeeded took
    -- effect, and let nobody else write to the key. Then a peer on the same path whose Get succeeds finds
    -- the device at each second from the moment at which the last Set took effect, or failed, to the end of
    -- the sleep behind it.
    pub announce_loop-keeps :
        (c : EtcdBackend api) (st : api.Store) (ds : DeviceRegistrations) (rounds : List (ℕ × ℕ))
        (before behind t : ℕ)
        → c.devices_key ≡ b.devices_key
        → IsTimely 0 (rounds ++ (before, behind) ∷ []) st
        → let (st', slept) = announce_round api (b, pass before (announce_loop rounds st)) in
          t ≤ behind + slept
          → get_devices api c (pass t st') ≡ ok ds
          → Any (λ e. e ≡ record d { id = b.announce_device_id }) ds
    announce_loop-keeps c st ds rounds before behind t same timely within got =
        let (m, alive) =
          stays_alive rounds 0 before behind t st (omega arith) (inl refl) timely within in
        reads c _ ds m same alive got
