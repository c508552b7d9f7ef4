-- ===== src/Examples/Expiry.antt =====
-- An etcd with one key that expires, and which refuses to set it again too early.
use correlation.Base.{
  ℕ, zero, suc, ◌+◌, ◌-◌, ◌≤◌, Text, codes, List, [], ◌∷◌, ◌++◌, ◌≡◌, refl, sym, ap, ◌∙◌, arith,
  Any, Option, none, some, Result, ok, inl, pos, true, leb, if◌then◌else◌, Bool-cases, inr, text_eq,
}
use mathlib.Core.Path.{subst}
use correlation.Strings.{split, join}
use correlation.Strconv.{itoa, atoi}
use correlation.Address.{parse_device_info}
use correlation.Paths.{path_join, base}
use correlation.Devices.{DeviceRegistration}
use correlation.Etcd.{KeysApi, Node, EtcdBackend, announce_round, update_announce, get_devices}
use correlation.Etcd.Expiry.{Expires, Announces, IsTimely, announce_loop, announce_loop-keeps}
use correlation.Examples.Etcd.{ab-IsName, ab-IsShown}
use correlation.Examples.Values.{local_ip}

record Cell : Type 0 where
  node : Node
  life : ℕ

abbrev write : ℕ → Cell → Cell → Cell × Option Text
write n old new = if leb 30 n then (old, some (codes "too early")) else (new, none)

abbrev entries : ℕ → Node → List Node
entries zero node = []
entries (suc n) node = node ∷ []

abbrev expiring : KeysApi
expiring = record {
  Store = Cell;
  Watcher = ℕ;
  get = λ st dir. ok (some (entries st.life st.node));
  set = λ st key value ttl.
      write st.life st (record { node = record { key = key; value = value }; life = ttl });
  delete = λ st key. (record st { life = 0 }, none);
  new_watcher = λ dir. 0;
  next = λ n. (n, none);
}

record Has (st : Cell) (key value : Text) (n : ℕ) : Type 0 where
  node : st.node ≡ record { key = key; value = value }
  time : n ≤ st.life

write_ok : (n : ℕ) (old new st : Cell) → write n old new ≡ (st, none) → new ≡ st
write_ok n old new st h = elim (Bool-cases (leb 30 n)) [
  | inl e ↦ absurd (impossible (rw e at h))
  | inr e ↦ let same : ◌≡◌ {A = Cell × Option Text} (new, none) (st, none) = rw e at h in cc
]
  where
    impossible : ◌≡◌ {A = Cell × Option Text} (old, some (codes "too early")) (st, none) → ⊥
    impossible q = cc

write_err : (n : ℕ) (old new st : Cell) (e : Text) → write n old new ≡ (st, some e) → old ≡ st
write_err n old new st x h = elim (Bool-cases (leb 30 n)) [
  | inl e ↦
      let same : ◌≡◌ {A = Cell × Option Text} (old, some (codes "too early")) (st, some x) =
        rw e at h in
      cc
  | inr e ↦ absurd (impossible (rw e at h))
]
  where
    impossible : ◌≡◌ {A = Cell × Option Text} (new, none) (st, some x) → ⊥
    impossible q = cc

listed :
    (st : Cell) (key value : Text) (n : ℕ) (response : Option (List Node))
    → Has st key value (suc n)
    → ◌≡◌ {A = Result (Option (List Node))} (ok (some (entries st.life st.node))) (ok response)
    → (ns : List Node) × (response ≡ some ns)
      × Any (λ node. node ≡ record { key = key; value = value }) ns
listed st key value n response h e =
    (st.node ∷ [], sym (same_response e) ∙ ap some (filled st.node st.life n h.time), inl h.node)
  where
    filled : (node : Node) (life n : ℕ) → suc n ≤ life → entries life node ≡ node ∷ []
    filled node zero n h = absurd (omega (arith, h))
    filled node (suc life) n h = refl

    same_response : {r r' : Option (List Node)} → ok r ≡ ok r' → r ≡ r'
    same_response q = cc

shorter : (m n life : ℕ) → m + n ≤ life → n ≤ life - m
shorter m n life h = omega (arith, h)

abbrev expiring-Expires : Expires expiring
expiring-Expires = record {
  pass = λ n st. record st { life = st.life - n };
  Lives = Has;
  set_ok = λ st st' key value ttl h.
      subst (λ c. Has c key value ttl)
        (write_ok st.life st (record { node = record { key = key; value = value }; life = ttl }) st'
          h)
        (record { node = refl; time = omega arith });
  set_err = λ st st' key value e ttl n h few alive.
      subst (λ c. Has c key value n)
        (write_err st.life st (record { node = record { key = key; value = value }; life = ttl })
          st' e h)
        alive;
  pass_on =
      λ st key value m n alive. record { node = alive.node; time = shorter m n st.life alive.time };
  listed = λ st dir name value n response named shown alive e.
      listed st (path_join dir name) value n response alive e;
}

abbrev announcing : EtcdBackend expiring
announcing = record {
  watcher = none;
  devices_key = codes "/c";
  recent_watch_errors = 0;
  announce_started = true;
  announce_device_id = codes "AB";
  announce_address = codes "10.0.0.1:22";
}

abbrev device : DeviceRegistration
device = record { id = []; ip = local_ip; port = pos 22 }

announcing-Announces : Announces expiring expiring-Expires announcing device
unfolding parse_device_info split itoa atoi
announcing-Announces = record { name = ab-IsName; shown = ab-IsShown; full = refl; parses = refl }

abbrev empty : Cell
empty = record { node = record { key = []; value = [] }; life = 0 }

-- the first two of three rounds, each with the time that Set takes
abbrev rounds : List (ℕ × ℕ)
rounds = (1, 0) ∷ (0, 1) ∷ []

-- the second round fails
in_time : IsTimely expiring expiring-Expires announcing 0 (rounds ++ (2, 4) ∷ []) empty
unfolding IsTimely announce_round update_announce
in_time = (omega arith, (omega arith, (omega arith, tt)))

-- the store ten seconds into the sleep behind the last round
abbrev later : Cell
later =
    let (st, slept) = announce_round expiring (
      announcing,
      expiring-Expires.pass 2 (announce_loop expiring expiring-Expires announcing rounds empty),
    ) in
    record st { life = st.life - 14 }

announce_loop-keeps_example :
    Any (λ e. e ≡ record device { id = codes "AB" }) (record device { id = codes "AB" } ∷ [])
unfolding announce_round announce_loop update_announce get_devices parse_device_info split itoa atoi
    path_join base text_eq join
announce_loop-keeps_example =
    announce_loop-keeps expiring expiring-Expires announcing device announcing-Announces announcing
      empty (record device { id = codes "AB" } ∷ []) rounds 2 4 14 refl in_time (omega arith) refl
