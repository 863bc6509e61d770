-- ===== src/PvtData/Assembler.antt =====
-- `TxPvtdataAssembler` of pkg/pvtdatastorage/common/helper.go: the private write set of a transaction
-- from the write sets of its collections, which arrive by namespace.
use fabric_peer_ext.Prelude.{
  ℕ, Bool, true, false, not, String, Option, none, some, List, [], ◌∷◌, ◌++◌, append_assoc,
  append-nil, map, if◌then◌else◌, ◌≡◌, refl, sym, ap, ◌∙◌, Bool-cases, inl, inr,
}
use fabric_peer_ext.Prelude.Outcome.{Outcome, ok, panic, ◌>>=◌}
use fabric_peer_ext.Prelude.Bytes.{Bytes, bytes_beq, bytes_beq_iff}
use fabric_peer_ext.PvtData.Expiry.{
  CollPvtRwSet, NsPvtRwSet, TxPvtData, DataEntry, coll_data_entries, ns_data_entries,
  prepare_data_entries,
}

pub record TxPvtdataAssembler : Type 0 where
  pub block_num : ℕ
  pub tx_num : ℕ
  pub tx_wset : List NsPvtRwSet
  -- `none` stands for nil
  pub current_ns_wset : Option NsPvtRwSet
  pub first_call : Bool

unfoldable pub new_tx_pvtdata_assembler : ℕ → ℕ → TxPvtdataAssembler
new_tx_pvtdata_assembler block_num tx_num = record {
  block_num = block_num;
  tx_num = tx_num;
  tx_wset = [];
  current_ns_wset = none;
  first_call = true;
}

abbrev pub empty_ns_wset : Bytes → NsPvtRwSet
empty_ns_wset ns = record { namespace = ns; colls = [] }

abbrev pub begin : TxPvtdataAssembler → Bytes → TxPvtdataAssembler
begin a ns =
    if a.first_call
    then record a { current_ns_wset = some (empty_ns_wset ns); first_call = false }
    else a

abbrev pub with_coll : TxPvtdataAssembler → NsPvtRwSet → CollPvtRwSet → TxPvtdataAssembler
with_coll a current coll = record a {
  current_ns_wset = some (record current { colls = current.colls ++ coll ∷ [] });
}

-- behind `done` the current set is nil, and to read its namespace panics
abbrev pub add_to :
    TxPvtdataAssembler
    → Option NsPvtRwSet
    → Bytes
    → CollPvtRwSet
    → Outcome String TxPvtdataAssembler
add_to a none ns coll = panic
add_to a (some current) ns coll =
    if not (bytes_beq current.namespace ns)
    then ok (with_coll (record a { tx_wset = a.tx_wset ++ current ∷ [] }) (empty_ns_wset ns) coll)
    else ok (with_coll a current coll)

-- `Add`
unfoldable pub add_coll :
    TxPvtdataAssembler → Bytes → CollPvtRwSet → Outcome String TxPvtdataAssembler
add_coll a ns coll = let a' = begin a ns in add_to a' a'.current_ns_wset ns coll

-- `done`
unfoldable pub done_assembling : TxPvtdataAssembler → TxPvtdataAssembler
done_assembling a = record a {
  tx_wset = elim a.current_ns_wset [ none ↦ a.tx_wset | some current ↦ a.tx_wset ++ current ∷ [] ];
  current_ns_wset = none;
}

-- `GetTxPvtdata`
unfoldable pub get_tx_pvtdata : TxPvtdataAssembler → TxPvtData
unfolding done_assembling
get_tx_pvtdata a = record { seq_in_block = a.tx_num; ns_pvt_rwset = (done_assembling a).tx_wset }

-- the calls of `Add` for the collections of a transaction
unfoldable pub add_each :
    TxPvtdataAssembler → List (Bytes × CollPvtRwSet) → Outcome String TxPvtdataAssembler
unfolding add_coll
add_each a [] = ok a
add_each a ((ns, coll) ∷ rest) = do a' ← add_coll a ns coll; add_each a' rest

-- the collections of write sets, each with its namespace
abbrev pub with_ns : Bytes → List CollPvtRwSet → List (Bytes × CollPvtRwSet)
with_ns ns [] = []
with_ns ns (c ∷ cs) = (ns, c) ∷ with_ns ns cs

abbrev pub flattened : List NsPvtRwSet → List (Bytes × CollPvtRwSet)
flattened [] = []
flattened (n ∷ ns) = with_ns n.namespace n.colls ++ flattened ns

with_ns-append :
    (ns : Bytes) (cs ds : List CollPvtRwSet)
    → with_ns ns (cs ++ ds) ≡ with_ns ns cs ++ with_ns ns ds
with_ns-append ns [] ds = refl
with_ns-append ns (c ∷ cs) ds = ap (◌∷◌ (ns, c)) (with_ns-append ns cs ds)

flattened-append : (ms ns : List NsPvtRwSet) → flattened (ms ++ ns) ≡ flattened ms ++ flattened ns
flattened-append [] ns = refl
flattened-append (m ∷ ms) ns =
    ap (λ t. with_ns m.namespace m.colls ++ t) (flattened-append ms ns)
    ∙ sym (append_assoc (with_ns m.namespace m.colls) (flattened ms) (flattened ns))

-- what has been added so far, with a current set
abbrev so_far : List NsPvtRwSet → NsPvtRwSet → List (Bytes × CollPvtRwSet)
so_far tx_wset current = flattened tx_wset ++ with_ns current.namespace current.colls

abbrev running : ℕ → ℕ → List NsPvtRwSet → NsPvtRwSet → TxPvtdataAssembler
running block_num tx_num tx_wset current = record {
  block_num = block_num;
  tx_num = tx_num;
  tx_wset = tx_wset;
  current_ns_wset = some current;
  first_call = false;
}

abbrev Adds : ℕ → ℕ → List NsPvtRwSet → NsPvtRwSet → Bytes → CollPvtRwSet → Type 0
Adds b t ws current ns coll =
    (ws' : List NsPvtRwSet) × (current' : NsPvtRwSet) × (add_coll (running b t ws current) ns coll
      ≡ ok (running b t ws' current'))
    × (so_far ws' current' ≡ so_far ws current ++ (ns, coll) ∷ [])

add_one :
    (b t : ℕ) (ws : List NsPvtRwSet) (current : NsPvtRwSet) (ns : Bytes) (coll : CollPvtRwSet)
    → Adds b t ws current ns coll
unfolding add_coll
add_one b t ws current ns coll = elim (Bool-cases (bytes_beq current.namespace ns)) [
  | inl q ↦
      let same : current.namespace ≡ ns = (bytes_beq_iff current.namespace ns).0 q in
      (
        ws,
        record current { colls = current.colls ++ coll ∷ [] },
        rw q refl,
        ap (λ s. flattened ws ++ s)
              (with_ns-append current.namespace current.colls (coll ∷ [])
                ∙ ap (λ n. with_ns current.namespace current.colls ++ (n, coll) ∷ []) same)
            ∙ sym (
                append_assoc (flattened ws) (with_ns current.namespace current.colls)
                  ((ns, coll) ∷ [])),
      )
  | inr q ↦ (
    ws ++ current ∷ [],
    record { namespace = ns; colls = coll ∷ [] },
    rw q refl,
    ap (λ s. s ++ (ns, coll) ∷ [])
        (flattened-append ws (current ∷ [])
          ∙ ap (λ s. flattened ws ++ s) (append-nil (with_ns current.namespace current.colls))),
  )
]

add_rest :
    (b t : ℕ) (ws : List NsPvtRwSet) (current : NsPvtRwSet) (xs : List (Bytes × CollPvtRwSet))
    → (a : TxPvtdataAssembler) × (add_each (running b t ws current) xs ≡ ok a)
      × (a.tx_num ≡ t)
      × (flattened (done_assembling a).tx_wset ≡ so_far ws current ++ xs)
unfolding add_each done_assembling
add_rest b t ws current [] = (
  running b t ws current,
  refl,
  refl,
  flattened-append ws (current ∷ [])
      ∙ ap (λ s. flattened ws ++ s) (append-nil (with_ns current.namespace current.colls))
      ∙ sym (append-nil (so_far ws current)),
)
add_rest b t ws current ((ns, coll) ∷ xs) =
    let (ws', current', added, now) = add_one b t ws current ns coll in
    let (a, rest, num, all) = add_rest b t ws' current' xs in
    (
      a,
      rw added rest,
      num,
      all ∙ ap (λ s. s ++ xs) now ∙ append_assoc (so_far ws current) ((ns, coll) ∷ []) xs,
    )

add_each_done :
    (block_num tx_num : ℕ) (xs : List (Bytes × CollPvtRwSet))
    → (a : TxPvtdataAssembler) × (add_each (new_tx_pvtdata_assembler block_num tx_num) xs ≡ ok a)
      × (a.tx_num ≡ tx_num)
      × (flattened (done_assembling a).tx_wset ≡ xs)
unfolding add_each done_assembling new_tx_pvtdata_assembler add_coll
add_each_done b t [] = (new_tx_pvtdata_assembler b t, refl, refl, refl)
add_each_done b t ((ns, coll) ∷ xs) =
    let (a, rest, num, all) = add_rest b t [] (record { namespace = ns; colls = coll ∷ [] }) xs in
    (a, rw ((bytes_beq_iff ns ns).1 refl) rest, num, all)

abbrev pub entry_of : ℕ → ℕ → Bytes × CollPvtRwSet → DataEntry
entry_of block_num tx_num (ns, coll) = record {
  key = record {
    ns_coll_blk = record { ns = ns; coll = coll.collection_name; blk_num = block_num };
    tx_num = tx_num;
  };
  value = coll;
}

map-append : {A B : Type 0} (f : A → B) (xs ys : List A) → map f (xs ++ ys) ≡ map f xs ++ map f ys
map-append f [] ys = refl
map-append f (x ∷ xs) ys = ap (◌∷◌ (f x)) (map-append f xs ys)

coll_entries :
    (b t : ℕ) (ns : Bytes) (cs : List CollPvtRwSet)
    → coll_data_entries b t ns cs ≡ map (entry_of b t) (with_ns ns cs)
coll_entries b t ns [] = refl
coll_entries b t ns (c ∷ cs) = ap (◌∷◌ (entry_of b t (ns, c))) (coll_entries b t ns cs)

ns_entries :
    (b t : ℕ) (ns : List NsPvtRwSet) → ns_data_entries b t ns ≡ map (entry_of b t) (flattened ns)
ns_entries b t [] = refl
ns_entries b t (n ∷ ns) =
    ap (λ es. es ++ ns_data_entries b t ns) (coll_entries b t n.namespace n.colls)
    ∙ ap (λ es. map (entry_of b t) (with_ns n.namespace n.colls) ++ es) (ns_entries b t ns)
    ∙ sym (map-append (entry_of b t) (with_ns n.namespace n.colls) (flattened ns))

-- What is put together from the data entries of a transaction has the same data entries again, in the
-- same order: adding any collections one after the other succeeds, and the private data that the
-- assembler then gives has an entry for each of them.
pub prepare_data_entries-get_tx_pvtdata :
    (block_num tx_num : ℕ) (xs : List (Bytes × CollPvtRwSet))
    → (a : TxPvtdataAssembler) × (add_each (new_tx_pvtdata_assembler block_num tx_num) xs ≡ ok a)
      × (prepare_data_entries block_num (get_tx_pvtdata a ∷ [])
          ≡ map (entry_of block_num tx_num) xs)
unfolding get_tx_pvtdata prepare_data_entries add_each done_assembling new_tx_pvtdata_assembler
prepare_data_entries-get_tx_pvtdata b t xs =
    let (a, added, nums, all) = add_each_done b t xs in
    (
      a,
      added,
      append-nil (ns_data_entries b a.tx_num (done_assembling a).tx_wset)
          ∙ ap (λ n. ns_data_entries b n (done_assembling a).tx_wset) nums
          ∙ ns_entries b t (done_assembling a).tx_wset
          ∙ ap (map (entry_of b t)) all,
    )
