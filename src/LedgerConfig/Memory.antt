-- ===== src/LedgerConfig/Memory.antt =====
-- A state in memory and an encoding of values, for the tests of pkg/config/ledgerconfig.
use fabric_peer_ext.Prelude.{
  ℕ, zero, suc, Bool, true, false, if◌then◌else◌, Option, none, some, List, [], ◌∷◌, ◌≡◌, refl, sym,
  ap, ◌∙◌,
}
use fabric_peer_ext.Prelude.Outcome.{Outcome, ok, err}
use fabric_peer_ext.Prelude.Assoc.{lookup, put, remove, lookup-put, lookup-remove}
use fabric_peer_ext.Prelude.Bytes.{Bytes, bytes_beq, bytes_eq}
use fabric_peer_ext.LedgerConfig.Config.{Value, Error, message, is_empty, key_eq}
use fabric_peer_ext.LedgerConfig.Manager.{StateStore, Json}

-- A state in memory; an absent key has empty bytes.
abbrev pub or_empty : Option Bytes → Bytes
or_empty none = []
or_empty (some v) = v

abbrev pub memory_get : List (Bytes × Bytes) → Bytes → Outcome Error Bytes
memory_get s k = ok (or_empty (lookup k s))

pub unwrapped :
    {s t : List (Bytes × Bytes)}
    → (let x : Outcome Error (List (Bytes × Bytes)) = ok s in x) ≡ ok t
    → s ≡ t
unwrapped e = cc

pub or_empty_if :
    (b : Bool) (o p : Option Bytes)
    → (let x : Outcome Error Bytes = ok (or_empty (if b then o else p)) in x)
      ≡ (if b then ok (or_empty o) else ok (or_empty p))
or_empty_if true o p = refl
or_empty_if false o p = refl

abbrev pub memory : StateStore
memory = record {
  State = List (Bytes × Bytes);
  get_state = memory_get;
  put_state = λ s k v. ok (put k v s);
  del_state = λ s k. ok (remove k s);
  get_retriever = λ s. ok tt;
  get_store = λ s. ok tt;
  by_partial_key = λ s p. ok [];
  get-put = λ s s' k j v h.
      ap (λ t. memory_get t j) (sym (unwrapped h))
      ∙ ap (λ o. ok (or_empty o)) (lookup-put k j v s)
      ∙ or_empty_if (bytes_beq k j) (some v) (lookup j s);
  get-del = λ s s' k j h.
      ap (λ t. memory_get t j) (sym (unwrapped h))
      ∙ ap (λ o. ok (or_empty o)) (lookup-remove k j s)
      ∙ or_empty_if (bytes_beq k j) none (lookup j s);
}

-- An encoding of values: each byte is one more, and a null byte ends each text.
abbrev pub encode_text : Bytes → Bytes → Bytes
encode_text [] t = zero ∷ t
encode_text (n ∷ p) t = suc n ∷ encode_text p t

abbrev pub encode_texts : List Bytes → Bytes
encode_texts [] = []
encode_texts (p ∷ ps) = encode_text p (encode_texts ps)

abbrev pub onto_first : ℕ → List Bytes → List Bytes
onto_first n [] = (n ∷ []) ∷ []
onto_first n (p ∷ ps) = (n ∷ p) ∷ ps

abbrev pub decode_texts : Bytes → List Bytes
decode_texts [] = []
decode_texts (zero ∷ s) = [] ∷ decode_texts s
decode_texts (suc n ∷ s) = onto_first n (decode_texts s)

decode_text_lem : (p t : Bytes) → decode_texts (encode_text p t) ≡ p ∷ decode_texts t
decode_text_lem [] t = refl
decode_text_lem (n ∷ p) t = ap (onto_first n) (decode_text_lem p t)

pub decode_texts_lem : (ps : List Bytes) → decode_texts (encode_texts ps) ≡ ps
decode_texts_lem [] = refl
decode_texts_lem (p ∷ ps) = decode_text_lem p (encode_texts ps) ∙ ap (◌∷◌ p) (decode_texts_lem ps)

abbrev pub value_of : List Bytes → Outcome Error Value
value_of (a ∷ b ∷ c ∷ tags) = ok (record { tx_id = a; format = b; config = c; tags = tags })
value_of ps = err (message "not a value" [])

abbrev pub texts_of : Value → List Bytes
texts_of v = v.tx_id ∷ v.format ∷ v.config ∷ v.tags

pub encoded : {a b : Bytes} → (let x : Outcome Error Bytes = ok a in x) ≡ ok b → a ≡ b
encoded e = cc

pub encode_nonempty : (p t : Bytes) → is_empty (encode_text p t) ≡ false
encode_nonempty [] t = refl
encode_nonempty (n ∷ p) t = refl

abbrev pub texts : Json
texts = record {
  marshal = λ v. ok (encode_texts (texts_of v));
  unmarshal = λ b. value_of (decode_texts b);
  unmarshal-marshal = λ v b valid h.
      ap (λ t. value_of (decode_texts t)) (sym (encoded h))
      ∙ ap value_of (decode_texts_lem (texts_of v));
  marshal_nonempty = λ v b h. ap is_empty (sym (encoded h)) ∙ encode_nonempty v.tx_id _;
}
