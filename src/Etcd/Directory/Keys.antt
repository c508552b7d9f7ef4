-- ===== src/Etcd/Directory/Keys.antt =====
-- What Set and Delete of a device's key do to the directory.
use correlation.Base.{
  ℕ, Text, ◌≡◌, ◌≢◌, ◌⊎◌, inl, inr, sym, ap, ◌∙◌, true, false, none, some, if◌then◌else◌,
  Bool-cases, text_eq, text_eq_iff, text_ne, text_eq_refl,
}
use correlation.Paths.{path_join, base}
use correlation.Paths.Child.{IsName, base-path_join}
use correlation.Etcd.{KeysApi, EtcdBackend}
use correlation.Etcd.Directory.{Same, Puts, Removes, IsKeyValue, view}

path_join_injective :
    (dir i j : Text) → IsName i → IsName j → path_join dir i ≡ path_join dir j → i ≡ j
path_join_injective dir i j hi hj e =
    sym (base-path_join dir i hi) ∙ ap base e ∙ base-path_join dir j hj

-- two names have the same key exactly when they are the same
text_eq-path_join :
    (dir i j : Text)
    → IsName i
    → IsName j
    → text_eq (path_join dir i) (path_join dir j) ≡ text_eq i j
text_eq-path_join dir i j hi hj = elim (Bool-cases (text_eq i j)) [
  | inl same ↦
      ap (λ x. text_eq (path_join dir i) (path_join dir x)) (sym ((text_eq_iff i j).0 same))
      ∙ text_eq_refl (path_join dir i)
      ∙ sym same
  | inr other ↦
      text_ne (path_join dir i) (path_join dir j) (λ e.
        true-ne-false (sym ((text_eq_iff i j).1 (path_join_injective dir i j hi hj e)) ∙ other))
      ∙ sym other
]
  where
    true-ne-false : true ≢ false
    true-ne-false e = cc

module _ (api : KeysApi) (keys : IsKeyValue api) where
  pub set-Puts :
      (b : EtcdBackend api) (st : api.Store) (id address : Text) (ttl : ℕ)
      → IsName id
      → let st' = (api.set st (path_join b.devices_key id) address ttl).0 in
        (((e : Text) × ((api.set st (path_join b.devices_key id) address ttl).1 ≡ some e))
          × Same (view api keys b st).directory (view api keys b st').directory)
        ⊎ Puts id address (view api keys b st).directory (view api keys b st').directory
  unfolding view
  set-Puts b st id address ttl name =
      elim (keys.after_set st (path_join b.devices_key id) address ttl) [
        | inr (error, same) ↦ inl (error, λ j hj. same (path_join b.devices_key j))
        | inl put ↦ inr (λ j hj.
            put (path_join b.devices_key j)
            ∙ ap (λ t. if t then some address else keys.value st (path_join b.devices_key j))
                (text_eq-path_join b.devices_key id j name hj))
      ]

  pub delete-Removes :
      (b : EtcdBackend api) (st : api.Store) (id : Text)
      → IsName id
      → let st' = (api.delete st (path_join b.devices_key id)).0 in
        (((e : Text) × ((api.delete st (path_join b.devices_key id)).1 ≡ some e))
          × Same (view api keys b st).directory (view api keys b st').directory)
        ⊎ Removes id (view api keys b st).directory (view api keys b st').directory
  unfolding view
  delete-Removes b st id name = elim (keys.after_delete st (path_join b.devices_key id)) [
    | inr (error, same) ↦ inl (error, λ j hj. same (path_join b.devices_key j))
    | inl gone ↦ inr (λ j hj.
        gone (path_join b.devices_key j)
        ∙ ap (λ t. if t then none else keys.value st (path_join b.devices_key j))
            (text_eq-path_join b.devices_key id j name hj))
  ]
