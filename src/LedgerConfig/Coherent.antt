-- ===== src/LedgerConfig/Coherent.antt =====
-- The cache of pkg/config/ledgerconfig/service/service.go agrees with the ledger.
use fabric_peer_ext.Prelude.{
  true, false, if◌then◌else◌, Option, none, some, [], ◌≡◌, ◌≢◌, refl, sym, ap, ◌∙◌, subst,
  Bool-cases, inl, inr,
}
use fabric_peer_ext.Prelude.Outcome.{Outcome, ok, err, panic, ◌>>=◌}
use fabric_peer_ext.Prelude.Bytes.{Bytes, bytes_beq, bytes_beq_iff}
use fabric_peer_ext.LedgerConfig.Config.{Key, Value, Error, is_empty}
use fabric_peer_ext.LedgerConfig.Keys.{marshal_key}
use fabric_peer_ext.Prelude.Assoc.{lookup, put, remove, lookup-put, lookup-remove}
use fabric_peer_ext.LedgerConfig.Config.{validate_key, key_eq, key_beq, key_beq_iff}
use fabric_peer_ext.LedgerConfig.Keys.{
  marshal_key, unmarshal_key-marshal_key, key_divider, LacksEach, marshal_key_inj,
}
use fabric_peer_ext.LedgerConfig.Manager.{StateStore, Json, get_config, get_value}
use fabric_peer_ext.LedgerConfig.Service.{Cache, found, load, loaded, get, handle_key_update}

key_self : (k : Key) → key_beq k k ≡ true
key_self k = (key_beq_iff k k).1 refl

bytes_self : (b : Bytes) → bytes_beq b b ≡ true
bytes_self b = (bytes_beq_iff b b).1 refl

module _ {A : Type 0} where
  some-inj : {a b : A} → some a ≡ some b → a ≡ b
  some-inj e = cc

  none-ne-some : {a : A} → none ≢ some a
  none-ne-some e = cc

module _ (store : StateStore) (json : Json) where
  open store use {State, get_state, put_state, del_state}

  -- A step of the ledger and its service: a value is committed and the service is told of it, a key
  -- is deleted likewise, or the service is asked. The keys do not hold the divider in their fields.
  pub data Step : Cache → State → Cache → State → Type 0 where
    written :
        {c : Cache} {s s' : State} (k : Key) (v : Value) (bytes : Bytes)
        → LacksEach key_divider k
        → is_empty bytes ≡ false
        → json.unmarshal bytes ≡ ok v
        → put_state s (marshal_key k) bytes ≡ ok s'
        → Step c s
            (handle_key_update store json c
              (record { key = marshal_key k; value = bytes; is_delete = false })).0
            s'
    deleted :
        {c : Cache} {s s' : State} (k : Key)
        → LacksEach key_divider k
        → del_state s (marshal_key k) ≡ ok s'
        → Step c s
            (handle_key_update store json c
              (record { key = marshal_key k; value = []; is_delete = true })).0
            s'
    asked :
        {c : Cache} {s : State} (k : Key)
        → LacksEach key_divider k
        → Step c s (get store json c s k).0 s

  pub data Reach : Cache → State → Cache → State → Type 0 where
    start : {c : Cache} {s : State} → Reach c s c s
    step : {c d e : Cache} {s t u : State} → Reach c s d t → Step d t e u → Reach c s e u

  -- What is cached is in the ledger.
  unfoldable pub IsCoherent : Cache → State → Type 0
  IsCoherent c s =
      (k : Key) (v : Value)
      → lookup k c ≡ some v
      → LacksEach key_divider k × (get_config store json s k ≡ ok (some v))

  same_config :
      (s s' : State) (k : Key)
      → get_state s' (marshal_key k) ≡ get_state s (marshal_key k)
      → get_config store json s' k ≡ get_config store json s k
  unfolding get_config
  same_config s s' k h = rw h refl

  put-IsCoherent :
      (c : Cache) (s : State) (k : Key) (v : Value)
      → LacksEach key_divider k
      → get_config store json s k ≡ ok (some v)
      → ((j : Key) (w : Value)
          → key_beq k j ≡ false
          → lookup j c ≡ some w
          → LacksEach key_divider j × (get_config store json s j ≡ ok (some w)))
      → IsCoherent (put k v c) s
  unfolding IsCoherent
  put-IsCoherent c s k v clean at others j w found_there =
      let here : (if key_beq k j then some v else lookup j c) ≡ some w =
        sym (lookup-put k j v c) ∙ found_there in
      elim (Bool-cases (key_beq k j)) [
        | inl q ↦
            let same : k ≡ j = (key_beq_iff k j).0 q in
            let value : v ≡ w =
              some-inj (subst (λ b. (if b then some v else lookup j c) ≡ some w) q here) in
            (
              subst (LacksEach key_divider) same clean,
              subst (λ i. get_config store json s i ≡ ok (some w)) same
                  (at ∙ ap (λ x. ok (some x)) value),
            )
        | inr q ↦ others j w q (subst (λ b. (if b then some v else lookup j c) ≡ some w) q here)
      ]

  written_config :
      (s s' : State) (k j : Key) (bytes : Bytes)
      → LacksEach key_divider k
      → LacksEach key_divider j
      → put_state s (marshal_key k) bytes ≡ ok s'
      → get_state s' (marshal_key j)
        ≡ (if key_beq k j then ok bytes else get_state s (marshal_key j))
  written_config s s' k j bytes hk hj h =
      rw (store.get-put s s' (marshal_key k) (marshal_key j) bytes h, marshal_key_inj k j hk hj)
        refl

  -- what the service does with the write of a key
  handle_written :
      (c : Cache) (k : Key) (v : Value) (bytes : Bytes)
      → LacksEach key_divider k
      → json.unmarshal bytes ≡ ok v
      → (handle_key_update store json c
          (record { key = marshal_key k; value = bytes; is_delete = false })).0
        ≡ put k v c
  unfolding handle_key_update
  handle_written c k v bytes clean parsed = rw (unmarshal_key-marshal_key k clean, parsed) refl

  handle_deleted :
      (c : Cache) (k : Key)
      → LacksEach key_divider k
      → (handle_key_update store json c
          (record { key = marshal_key k; value = []; is_delete = true })).0
        ≡ remove k c
  unfolding handle_key_update
  handle_deleted c k clean = rw (unmarshal_key-marshal_key k clean) refl

  written_value :
      (s : State) (k : Key) (v : Value) (bytes : Bytes)
      → get_state s (marshal_key k) ≡ ok bytes
      → is_empty bytes ≡ false
      → json.unmarshal bytes ≡ ok v
      → get_config store json s k ≡ ok (some v)
  unfolding get_config
  written_value s k v bytes held some_bytes parsed = rw (held, some_bytes, parsed) refl

  after_write :
      (c : Cache) (s s' : State) (k : Key) (v : Value) (bytes : Bytes)
      → LacksEach key_divider k
      → is_empty bytes ≡ false
      → json.unmarshal bytes ≡ ok v
      → put_state s (marshal_key k) bytes ≡ ok s'
      → IsCoherent c s
      → IsCoherent (put k v c) s'
  unfolding IsCoherent
  after_write c s s' k v bytes clean some_bytes parsed stored coherent =
      let at : (j : Key)
          → LacksEach key_divider j
          → get_state s' (marshal_key j)
            ≡ (if key_beq k j then ok bytes else get_state s (marshal_key j)) =
        (λ j cj. written_config s s' k j bytes clean cj stored) in
      put-IsCoherent c s' k v clean
        (written_value s' k v bytes
          (at k clean ∙ ap (λ b. if b then ok bytes else get_state s (marshal_key k)) (key_self k))
          some_bytes parsed)
        (λ j w q held.
          let (cj, read) = coherent j w held in
          (
            cj,
            same_config s s' j
                  (at j cj ∙ ap (λ b. if b then ok bytes else get_state s (marshal_key j)) q)
                ∙ read,
          ))

  after_delete :
      (c : Cache) (s s' : State) (k : Key)
      → LacksEach key_divider k
      → del_state s (marshal_key k) ≡ ok s'
      → IsCoherent c s
      → IsCoherent (remove k c) s'
  unfolding IsCoherent
  after_delete c s s' k clean gone coherent j w held =
      let here : (if key_beq k j then none else lookup j c) ≡ some w =
        sym (lookup-remove k j c) ∙ held in
      elim (Bool-cases (key_beq k j)) [
        | inl q ↦
            absurd (none-ne-some (subst (λ b. (if b then none else lookup j c) ≡ some w) q here))
        | inr q ↦
            let (cj, read) =
              coherent j w (subst (λ b. (if b then none else lookup j c) ≡ some w) q here) in
            let kept : get_state s' (marshal_key j) ≡ get_state s (marshal_key j) =
              store.get-del s s' (marshal_key k) (marshal_key j) gone
              ∙ ap (λ b. if b then ok [] else get_state s (marshal_key j))
                  (marshal_key_inj k j clean cj ∙ q) in
            (cj, same_config s s' j kept ∙ read)
      ]

  value_found :
      (r : Outcome Error (Unit {0})) (o : Outcome Error (Option Value)) (v : Value)
      → ((r >>= (λ opened. o)) >>= found store json) ≡ ok v
      → o ≡ ok (some v)
  value_found (ok tt) (ok (some w)) v h = cc
  value_found (ok tt) (ok none) v h = cc
  value_found (ok tt) (err e) v h = cc
  value_found (ok tt) panic v h = cc
  value_found (err e) o v h = cc
  value_found panic o v h = cc

  -- the loading of a key that is not cached
  after_load :
      (c : Cache) (s : State) (k : Key) (o : Outcome Error Value)
      → LacksEach key_divider k
      → load store json s k ≡ o
      → IsCoherent c s
      → IsCoherent (loaded store json c k o).0 s
  unfolding IsCoherent load get_value
  after_load c s k (ok v) clean h coherent =
      put-IsCoherent c s k v clean
        (value_found (store.get_retriever s) (get_config store json s k) v h)
        (λ j w q held. coherent j w held)
  after_load c s k (err e) clean h coherent = coherent
  after_load c s k panic clean h coherent = coherent

  after_get :
      (c : Cache) (s : State) (k : Key) (e : Option Error) (held : Option Value)
      → LacksEach key_divider k
      → validate_key k ≡ e
      → lookup k c ≡ held
      → IsCoherent c s
      → IsCoherent (get store json c s k).0 s
  unfolding get
  after_get c s k (some e) held clean v l coherent = rw v coherent
  after_get c s k none (some w) clean v l coherent = rw (v, l) coherent
  after_get c s k none none clean v l coherent =
      rw (v, l) (after_load c s k (load store json s k) clean refl coherent)

  Step-IsCoherent :
      {c : Cache} {s : State} {d : Cache} {t : State}
      → Step c s d t
      → IsCoherent c s
      → IsCoherent d t
  Step-IsCoherent (written {c} {s} {s'} k v bytes clean some_bytes parsed stored) coherent =
      subst (λ d. IsCoherent d s') (sym (handle_written c k v bytes clean parsed))
        (after_write c s s' k v bytes clean some_bytes parsed stored coherent)
  Step-IsCoherent (deleted {c} {s} {s'} k clean gone) coherent =
      subst (λ d. IsCoherent d s') (sym (handle_deleted c k clean))
        (after_delete c s s' k clean gone coherent)
  Step-IsCoherent (asked {c} {s} k clean) coherent = after_get c s k _ _ clean refl refl coherent

  Reach-IsCoherent :
      {c : Cache} {s : State} {d : Cache} {t : State}
      → Reach c s d t
      → IsCoherent c s
      → IsCoherent d t
  Reach-IsCoherent start coherent = coherent
  Reach-IsCoherent (step r one) coherent = Step-IsCoherent one (Reach-IsCoherent r coherent)

  empty-IsCoherent : (s : State) → IsCoherent [] s
  unfolding IsCoherent lookup
  empty-IsCoherent s k v held = absurd (none-ne-some held)

  loaded_answer : (c : Cache) (k : Key) (o : Outcome Error Value) → (loaded store json c k o).1 ≡ o
  loaded_answer c k (ok v) = refl
  loaded_answer c k (err e) = refl
  loaded_answer c k panic = refl

  get_held :
      (c : Cache) (s : State) (k : Key) (held : Option Value)
      → validate_key k ≡ none
      → lookup k c ≡ held
      → IsCoherent c s
      → store.get_retriever s ≡ ok tt
      → (get store json c s k).1 ≡ load store json s k
  unfolding get load get_value IsCoherent
  get_held c s k (some v) valid l coherent opened = rw (valid, l, opened, (coherent k v l).1) refl
  get_held c s k none valid l coherent opened =
      rw (valid, l) (loaded_answer c k (load store json s k))

  -- Whatever values are committed, deleted and asked for, one after the other, since the service was
  -- created with an empty
  -- cache, a valid key is answered with what the ledger holds for it, if the state of the ledger can be opened. The divider occurs in no field
  -- of the keys that were written, deleted or asked for before.
  pub get-load :
      (s : State) (c : Cache) (t : State) (k : Key)
      → Reach [] s c t
      → validate_key k ≡ none
      → store.get_retriever t ≡ ok tt
      → (get store json c t k).1 ≡ load store json t k
  get-load s c t k r valid opened =
      get_held c t k _ valid refl (Reach-IsCoherent r (empty-IsCoherent s)) opened
