-- ===== src/LedgerConfig/Keys.antt =====
-- pkg/common/compositekey/compositekey.go, and the keys in the state database of
-- pkg/config/ledgerconfig/mgr/updatemgr.go and querymgr.go.
use fabric_peer_ext.Prelude.{
  ℕ, ◌==◌, true, false, if◌then◌else◌, List, [], ◌∷◌, ◌++◌, append_assoc, append-nil, All, ◌≡◌, ◌≢◌,
  refl, sym, ap, ◌∙◌, Bool-cases, inl, inr, arith,
}
use fabric_peer_ext.Prelude.Outcome.{Outcome, ok, err, panic}
use fabric_peer_ext.Prelude.Bytes.{Bytes, bytes_beq, bytes_beq_iff, split, join, Lacks, split-join}
use fabric_peer_ext.LedgerConfig.Config.{Key, Error, message, key_beq, key_beq_iff}

-- `compositeKeyNamespace` and `minUnicodeRuneValue`
abbrev pub null_byte : ℕ
null_byte = 0

-- `maxUnicodeRuneValue` in UTF-8
abbrev pub max_unicode_rune : Bytes
max_unicode_rune = 0xf4 ∷ 0x8f ∷ 0xbf ∷ 0xbf ∷ []

-- the loop of `Create`
abbrev pub with_attributes : Bytes → List Bytes → Bytes
with_attributes ck [] = ck
with_attributes ck (att ∷ atts) = with_attributes (ck ++ (att ++ null_byte ∷ [])) atts

-- `compositekey.Create`
unfoldable pub create_composite : Bytes → List Bytes → Bytes
create_composite object_type attributes =
    with_attributes (null_byte ∷ (object_type ++ null_byte ∷ [])) attributes

-- the loop of `Split`, with the component that has been read so far
unfoldable pub components_from : Bytes → Bytes → List Bytes
components_from [] component = []
components_from (c ∷ s) component =
    let next = components_from s [] in
    let more = components_from s (component ++ c ∷ []) in
    if c == null_byte then component ∷ next else more

abbrev pub behind_first : Bytes → Bytes
behind_first [] = []
behind_first (c ∷ s) = s

abbrev pub head_and_rest : List Bytes → Outcome Error (Bytes × List Bytes)
head_and_rest [] = panic
head_and_rest (p ∷ ps) = ok (p, ps)

-- `compositekey.Split`; it panics where there is no component
unfoldable pub split_composite : Bytes → Outcome Error (Bytes × List Bytes)
unfolding components_from
split_composite key = head_and_rest (components_from (behind_first key) [])

-- `CreateRangeKeysForPartialCompositeKey`
unfoldable pub create_range_keys : Bytes → List Bytes → Bytes × Bytes
unfolding create_composite
create_range_keys object_type attributes =
    let start_key = create_composite object_type attributes in
    (start_key, start_key ++ max_unicode_rune)

-- `keyDivider`, "!"
abbrev pub key_divider : ℕ
key_divider = 33

-- `indexMspID`, "cfgmgmt-mspid"
abbrev pub index_msp_id : Bytes
index_msp_id = 99 ∷ 102 ∷ 103 ∷ 109 ∷ 103 ∷ 109 ∷ 116 ∷ 45 ∷ 109 ∷ 115 ∷ 112 ∷ 105 ∷ 100 ∷ []

-- `MarshalKey`
unfoldable pub marshal_key : Key → Bytes
marshal_key k =
    join
      (k.msp_id ∷ k.peer_id ∷ k.app_name ∷ k.app_version ∷ k.component_name ∷ k.component_version
        ∷ [])
      key_divider

abbrev pub key_of_parts : List Bytes → Outcome Error Key
key_of_parts (a ∷ b ∷ c ∷ d ∷ e ∷ f ∷ rest) = ok (record {
  msp_id = a;
  peer_id = b;
  app_name = c;
  app_version = d;
  component_name = e;
  component_version = f;
})
key_of_parts parts = err (message "invalid config str" [])

-- `UnmarshalKey`; its error has the text in it
unfoldable pub unmarshal_key : Bytes → Outcome Error Key
unmarshal_key str = key_of_parts (split str key_divider)

-- `getIndexKey` for the organization of the key
unfoldable pub index_key : Key → Bytes
unfolding create_composite
index_key k = create_composite index_msp_id (k.msp_id ∷ marshal_key k ∷ [])

abbrev pub last_part : List Bytes → Outcome Error Bytes
last_part [] = panic
last_part (p ∷ []) = ok p
last_part (p ∷ q ∷ ps) = last_part (q ∷ ps)

abbrev pub key_from_split : Outcome Error (Bytes × List Bytes) → Outcome Error Bytes
key_from_split (ok (object_type, parts)) = last_part parts
key_from_split (err e) = err e
key_from_split panic = panic

abbrev pub unmarshal_last : Outcome Error Bytes → Outcome Error Key
unmarshal_last (ok part) = unmarshal_key part
unmarshal_last (err e) = err e
unmarshal_last panic = panic

-- `getKeyFromCompositeKey`
unfoldable pub key_from_composite_key : Bytes → Outcome Error Key
unfolding unmarshal_key split_composite
key_from_composite_key key = unmarshal_last (key_from_split (split_composite key))

-- No field of the key holds the byte.
abbrev pub LacksEach : ℕ → Key → Type 0
LacksEach c k =
    Lacks c k.msp_id
    × Lacks c k.peer_id
    × Lacks c k.app_name
    × Lacks c k.app_version
    × Lacks c k.component_name
    × Lacks c k.component_version

-- A key without the divider in its fields is read back from its text.
pub unmarshal_key-marshal_key :
    (k : Key) → LacksEach key_divider k → unmarshal_key (marshal_key k) ≡ ok k
unfolding unmarshal_key marshal_key
unmarshal_key-marshal_key k (a, b, c, d, e, f) = ap key_of_parts (
    split-join k.msp_id
      (k.peer_id ∷ k.app_name ∷ k.app_version ∷ k.component_name ∷ k.component_version ∷ [])
      key_divider a (b, (c, (d, (e, (f, tt))))))

ok_inj : {a b : Key} → (let x : Outcome Error Key = ok a in x) ≡ ok b → a ≡ b
ok_inj e = cc

false-ne-true : false ≢ true
false-ne-true e = cc

differ : (j k : Key) → key_beq j k ≡ false → j ≢ k
differ j k q e = false-ne-true (sym q ∙ (key_beq_iff j k).1 e)

index_msp_id-Lacks : Lacks null_byte index_msp_id
index_msp_id-Lacks = (
  refl,
  (
    refl,
    (refl, (refl, (refl, (refl, (refl, (refl, (refl, (refl, (refl, (refl, (refl, tt))))))))))),
  ),
)

-- For keys without the divider in their fields, the texts are equal only if the keys are.
pub marshal_key_inj :
    (j k : Key)
    → LacksEach key_divider j
    → LacksEach key_divider k
    → bytes_beq (marshal_key j) (marshal_key k) ≡ key_beq j k
marshal_key_inj j k hj hk = elim (Bool-cases (key_beq j k)) [
  | inl q ↦
      (bytes_beq_iff (marshal_key j) (marshal_key k)).1 (ap marshal_key ((key_beq_iff j k).0 q))
      ∙ sym q
  | inr q ↦ elim (Bool-cases (bytes_beq (marshal_key j) (marshal_key k))) [
    | inl e ↦ absurd (
        differ j k q (
          ok_inj (
            sym (unmarshal_key-marshal_key j hj)
            ∙ ap unmarshal_key ((bytes_beq_iff (marshal_key j) (marshal_key k)).0 e)
            ∙ unmarshal_key-marshal_key k hk)))
    | inr e ↦ e ∙ sym q
  ]
]

-- the attributes, each with the byte that ends it
abbrev terminated : List Bytes → Bytes
terminated [] = []
terminated (att ∷ atts) = att ++ null_byte ∷ terminated atts

with_attributes_lem :
    (ck : Bytes) (atts : List Bytes) → with_attributes ck atts ≡ ck ++ terminated atts
with_attributes_lem ck [] = sym (append-nil ck)
with_attributes_lem ck (att ∷ atts) =
    with_attributes_lem (ck ++ (att ++ null_byte ∷ [])) atts
    ∙ append_assoc ck (att ++ null_byte ∷ []) (terminated atts)
    ∙ ap (λ t. ck ++ t) (append_assoc att (null_byte ∷ []) (terminated atts))

components_front :
    (p s component : Bytes)
    → Lacks null_byte p
    → components_from (p ++ null_byte ∷ s) component ≡ (component ++ p) ∷ components_from s []
unfolding components_from
components_front [] s component h = ap (λ t. t ∷ components_from s []) (sym (append-nil component))
components_front (c ∷ p) s component h = rw h.0 (
    components_front p s (component ++ c ∷ []) h.1
    ∙ ap (λ t. t ∷ components_from s []) (append_assoc component (c ∷ []) p))

components_all :
    (atts : List Bytes) → All (Lacks null_byte) atts → components_from (terminated atts) [] ≡ atts
unfolding components_from
components_all [] h = refl
components_all (att ∷ atts) h =
    components_front att (terminated atts) [] h.0 ∙ ap (◌∷◌ att) (components_all atts h.1)

-- `Split` gives back the type and the attributes of `Create`, if none of them holds a null byte.
pub split_composite-create_composite :
    (object_type : Bytes) (atts : List Bytes)
    → Lacks null_byte object_type
    → All (Lacks null_byte) atts
    → split_composite (create_composite object_type atts) ≡ ok (object_type, atts)
unfolding split_composite create_composite
split_composite-create_composite object_type atts h hs =
    ap (λ t. head_and_rest (components_from (behind_first t) []))
      (with_attributes_lem (null_byte ∷ (object_type ++ null_byte ∷ [])) atts
        ∙ ap (◌∷◌ null_byte) (append_assoc object_type (null_byte ∷ []) (terminated atts)))
    ∙ ap head_and_rest (components_all (object_type ∷ atts) (h, hs))

Lacks-append : (c : ℕ) (s t : Bytes) → Lacks c s → Lacks c t → Lacks c (s ++ t)
Lacks-append c [] t h k = k
Lacks-append c (b ∷ s) t h k = (h.0, Lacks-append c s t h.1 k)

Lacks-join :
    (c sep : ℕ) (ps : List Bytes) → (sep == c) ≡ false → All (Lacks c) ps → Lacks c (join ps sep)
unfolding join
Lacks-join c sep [] n h = tt
Lacks-join c sep (p ∷ []) n h = h.0
Lacks-join c sep (p ∷ q ∷ ps) n h =
    Lacks-append c p (sep ∷ join (q ∷ ps) sep) h.0 (n, Lacks-join c sep (q ∷ ps) n h.1)

pub marshal_key-Lacks : (k : Key) → LacksEach null_byte k → Lacks null_byte (marshal_key k)
unfolding marshal_key
marshal_key-Lacks k (a, b, c, d, e, f) =
    Lacks-join null_byte key_divider _ refl (a, (b, (c, (d, (e, (f, tt))))))

-- From its index entry a key is read back, if its fields hold neither the divider nor a null byte.
pub key_from_composite_key-index_key :
    (k : Key)
    → LacksEach key_divider k
    → LacksEach null_byte k
    → key_from_composite_key (index_key k) ≡ ok k
unfolding key_from_composite_key index_key
key_from_composite_key-index_key k h n =
    ap (λ o. unmarshal_last (key_from_split o))
      (split_composite-create_composite index_msp_id (k.msp_id ∷ marshal_key k ∷ [])
        index_msp_id-Lacks (n.0, (marshal_key-Lacks k n, tt)))
    ∙ unmarshal_key-marshal_key k h

null_differs :
    (t m s : Bytes) → Lacks null_byte m → bytes_beq (null_byte ∷ t) (m ++ key_divider ∷ s) ≡ false
null_differs t [] s h = refl
null_differs t (c ∷ m) s h = ground (arith, h.0)

-- The text of a key is no index entry.
pub marshal_key-ne-index_key :
    (j k : Key) → LacksEach null_byte k → bytes_beq (index_key j) (marshal_key k) ≡ false
unfolding marshal_key index_key create_composite join
marshal_key-ne-index_key j k n = null_differs (behind_first (index_key j)) k.msp_id _ n.0
