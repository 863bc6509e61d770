-- ===== src/LedgerConfig/Saved.antt =====
-- What was saved by pkg/config/ledgerconfig/mgr/updatemgr.go is read by querymgr.go.
use fabric_peer_ext.Prelude.{
  false, if◌then◌else◌, String, Option, some, List, [], ◌∷◌, ◌≡◌, refl, sym, ap, ◌∙◌, subst,
  Bool-cases, inl, inr, All,
}
use fabric_peer_ext.Prelude.Outcome.{bind_ok, Outcome, ok, err, panic}
use fabric_peer_ext.Prelude.Bytes.{Bytes}
use fabric_peer_ext.LedgerConfig.Config.{Key, Value, Config, Error}
use fabric_peer_ext.LedgerConfig.KeyValueMap.{KeyValueMap, new_key_value_map}
use fabric_peer_ext.LedgerConfig.Keys.{marshal_key, index_key}
use fabric_peer_ext.Prelude.Assoc.{lookup}
use fabric_peer_ext.LedgerConfig.Config.{key_eq, key_beq, key_beq_iff}
use fabric_peer_ext.LedgerConfig.Keys.{
  key_divider, index_key, null_byte, LacksEach, marshal_key_inj, marshal_key-ne-index_key,
}
use fabric_peer_ext.LedgerConfig.Manager.{
  StateStore, Json, IsUtf8, with_text, get_config, add_index, save_entry, save_entries, save_map,
  validate_entries, save, index_value,
}

module _ {A : Type 0} where
  pub with_text_ok :
      (text : String) (values : List Bytes) (o : Outcome Error A) (a : A)
      → with_text text values o ≡ ok a
      → o ≡ ok a
  with_text_ok text values (ok a) b h = h
  with_text_ok text values (err e) b h = cc
  with_text_ok text values panic b h = cc

module _ {A : Type 0} where
  ok-inj : (a b : A) → (let x : Outcome Error A = ok a in x) ≡ ok b → a ≡ b
  ok-inj a b e = cc

  some-inj : {a b : A} → some a ≡ some b → a ≡ b
  some-inj e = cc

-- A key whose fields hold neither the divider nor a null byte.
abbrev pub IsClean : Key → Type 0
IsClean k = LacksEach key_divider k × LacksEach null_byte k

module _ (store : StateStore) (json : Json) where
  open store use {State, get_state, put_state}

  -- After one round the entry is there, and the other keys have what they had.
  save_entry_state :
      (s s' : State) (k j : Key) (v : Value)
      → IsClean k
      → IsClean j
      → save_entry store json s k v ≡ ok s'
      → (bytes : Bytes) × (json.marshal v ≡ ok bytes)
        × (get_state s' (marshal_key j)
            ≡ (if key_beq k j then ok bytes else get_state s (marshal_key j)))
  unfolding save_entry add_index
  save_entry_state s s' k j v ck cj h =
      let (bytes, marshalled, h₁) = bind_ok _ _ s' h in
      let (s₁, first, h₂) = bind_ok _ _ s' h₁ in
      let first' = with_text_ok _ _ _ s₁ first in
      let second = with_text_ok _ _ _ s' h₂ in
      (
        bytes,
        with_text_ok _ _ _ bytes marshalled,
        rw
            (
              store.get-put s₁ s' (index_key k) (marshal_key j) index_value second,
              marshal_key-ne-index_key k j cj.1,
              store.get-put s s₁ (marshal_key k) (marshal_key j) bytes first',
              marshal_key_inj k j ck.0 cj.0,
            )
            refl,
      )

  abbrev pub AreOther : Key → KeyValueMap → Type 0
  AreOther k m = All (λ e. key_beq e.0 k ≡ false) m

  abbrev pub HasDistinctKeys : KeyValueMap → Type 0
  HasDistinctKeys [] = Unit
  HasDistinctKeys ((k, v) ∷ m) = AreOther k m × HasDistinctKeys m

  others_kept :
      (s s' : State) (k : Key) (m : KeyValueMap)
      → IsClean k
      → All (λ e. IsClean e.0) m
      → AreOther k m
      → save_entries store json s m ≡ ok s'
      → get_state s' (marshal_key k) ≡ get_state s (marshal_key k)
  unfolding save_entries
  others_kept s s' k [] ck cs h e = ap (λ t. get_state t (marshal_key k)) (sym (ok-inj s s' e))
  others_kept s s' k ((j, v) ∷ m) ck cs h e =
      let (s₁, one, rest) = bind_ok _ _ s' e in
      let (bytes, marshalled, at) = save_entry_state s s₁ j k v cs.0 ck one in
      others_kept s₁ s' k m ck cs.1 h.1 rest
      ∙ at
      ∙ ap (λ b. if b then ok bytes else get_state s (marshal_key k)) h.0

  entry_read :
      (s s' : State) (k : Key) (v : Value) (m : KeyValueMap)
      → All (λ e. IsClean e.0) m
      → HasDistinctKeys m
      → lookup k m ≡ some v
      → IsUtf8 v
      → save_entries store json s m ≡ ok s'
      → get_config store json s' k ≡ ok (some v)
  unfolding save_entries get_config lookup
  entry_read s s' k v [] cs d l valid e = cc
  entry_read s s' k v ((j, w) ∷ m) cs d l valid e =
      let (s₁, one, rest) = bind_ok _ _ s' e in
      elim (Bool-cases (key_beq j k)) [
        | inl q ↦
            let same : j ≡ k = (key_beq_iff j k).0 q in
            let ck : IsClean k = subst IsClean same cs.0 in
            let (bytes, marshalled, at) = save_entry_state s s₁ j k w cs.0 ck one in
            let value : w ≡ v =
              some-inj (subst (λ b. (if b then some w else lookup k m) ≡ some v) q l) in
            let held : get_state s' (marshal_key k) ≡ ok bytes =
              others_kept s₁ s' k m ck cs.1 (subst (λ i. AreOther i m) same d.0) rest
              ∙ at
              ∙ ap (λ b. if b then ok bytes else get_state s (marshal_key k)) q in
            rw
              (
                held,
                json.marshal_nonempty w bytes marshalled,
                json.unmarshal-marshal w bytes (subst IsUtf8 (sym value) valid) marshalled,
                value,
              )
              refl
        | inr q ↦
            entry_read s₁ s' k v m cs.1 d.1
              (subst (λ b. (if b then some w else lookup k m) ≡ some v) q l) valid rest
      ]

  -- When `Save` succeeds, each key of the map that the configuration gives has its value there,
  -- in whatever order the map is walked, if the texts of that value are UTF-8, the keys are distinct
  -- in that order and no field of them holds the divider or a null byte.
  pub get_config-save :
      (validators : List (Key → Value → Option Error)) (order : KeyValueMap → KeyValueMap)
      (s s' : State) (tx_id : Bytes) (cfg : Config) (m : KeyValueMap) (k : Key) (v : Value)
      → new_key_value_map cfg tx_id ≡ ok m
      → All (λ e. IsClean e.0) (order m)
      → HasDistinctKeys (order m)
      → lookup k (order m) ≡ some v
      → IsUtf8 v
      → save store json validators order s tx_id cfg ≡ ok s'
      → get_config store json s' k ≡ ok (some v)
  unfolding save save_map
  get_config-save validators order s s' tx_id cfg m k v made clean distinct found valid saved =
      let (m', made', rest) = bind_ok _ _ s' saved in
      let same : m' ≡ m = ok-inj m' m (sym made' ∙ made) in
      let (checked, passed, written) =
        bind_ok {A = Unit}
          (with_text "validation error" [] (validate_entries validators (order m')))
          (λ c. save_map store json s (order m')) s' rest in
      let (opened, got, looped) =
        bind_ok {A = Unit} _ (λ o. save_entries store json s (order m')) s' written in
      entry_read s s' k v (order m) clean distinct found valid
        (subst (λ n. save_entries store json s (order n) ≡ ok s') same looped)
