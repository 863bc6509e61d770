-- ===== src/Validation/TxResults.antt =====
-- pkg/validation/validator/txresults.go: the committer accumulates the codes and the IDs of a
-- block's transactions from the results of several validators.
pub mod Aligned
pub mod Merged
use fabric_peer_ext.Prelude.{
  ℕ, zero, suc, ◌+◌, ◌==◌, Bool, true, false, not, ◌||◌, if◌then◌else◌, String, str_eq, List, [],
  ◌∷◌, length, replicate,
}
use fabric_peer_ext.Prelude.Outcome.{Outcome, ok, err, panic, ◌>>=◌, index, assign}
use fabric_peer_ext.Validation.TxFlags.{
  Codes, Error, flags_length, tx_ids_length, ValidationFlags, new, set_flag, flag,
}

-- The channel ID and the mutex serve the log and the locking only.
pub record TxResults : Type 0 where
  pub flags : ValidationFlags
  pub tx_ids : List String
  pub block_number : ℕ

-- What the code reads of a block: its number, the number of its transactions, and the filter in
-- its metadata.
pub record Block : Type 0 where
  pub number : ℕ
  pub size : ℕ
  pub filter : ValidationFlags

abbrev pub contains : List String → String → Bool
contains [] s = false
contains (x ∷ xs) s = str_eq x s || contains xs s

module _ (c : Codes) where
  open c use {not_validated, duplicate_txid}

  -- the loop that copies the flags of the block; `n` rounds from index `i`
  unfoldable pub copy_flags :
      ℕ → ℕ → ValidationFlags → ValidationFlags → Outcome Error ValidationFlags
  copy_flags zero i current flags = ok flags
  copy_flags (suc n) i current flags = do
    code ← flag current i
    flags' ← set_flag flags i code
    copy_flags n (i + 1) current flags'

  unfoldable pub new_tx_results : Block → Outcome Error TxResults
  unfolding copy_flags
  new_tx_results block = do
    flags ← copy_flags block.size 0 block.filter (new c block.size)
    ok (record { flags = flags; tx_ids = replicate (length flags) ""; block_number = block.number })

  -- one round of the loop of `Merge`
  unfoldable pub merge_at :
      ℕ
      → ℕ
      → List String
      → ValidationFlags × List String
      → Outcome Error (ValidationFlags × List String)
  merge_at i f tx_ids (flags, own) = if f == not_validated then ok (flags, own) else do
    current ← flag flags i
    if current == not_validated
        then (do
          tx_id ← index tx_ids i
          flags' ← set_flag flags i f
          own' ← assign own i tx_id
          ok (flags', own'))
        else (do
          -- the ID is read for the log
          logged ← index own i
          ok (flags, own))

  unfoldable pub merge_loop :
      ℕ
      → ValidationFlags
      → List String
      → ValidationFlags × List String
      → Outcome Error (ValidationFlags × List String)
  merge_loop i [] tx_ids s = ok s
  merge_loop i (f ∷ fs) tx_ids s = do s' ← merge_at i f tx_ids s; merge_loop (i + 1) fs tx_ids s'

  -- one round of the loop of `markDuplicateTxIDs`, with the set of the IDs seen
  unfoldable pub mark_at :
      ℕ → String → List String × ValidationFlags → Outcome Error (List String × ValidationFlags)
  mark_at i tx_id (seen, flags) =
      if str_eq tx_id ""
      then ok (seen, flags)
      else if contains seen tx_id
      then (do flags' ← set_flag flags i duplicate_txid; ok (seen, flags'))
      else ok (tx_id ∷ seen, flags)

  unfoldable pub mark_loop :
      ℕ → List String → List String × ValidationFlags → Outcome Error ValidationFlags
  mark_loop i [] (seen, flags) = ok flags
  mark_loop i (tx_id ∷ tx_ids) s = do s' ← mark_at i tx_id s; mark_loop (i + 1) tx_ids s'

  unfoldable pub all_validated : ValidationFlags → Bool
  all_validated [] = true
  all_validated (f ∷ fs) = if f == not_validated then false else all_validated fs

  unfoldable pub merge :
      TxResults → ValidationFlags → List String → Outcome Error (TxResults × Bool)
  merge r flags tx_ids =
      if not (length flags == length r.flags)
      then err (flags_length (length flags) (length r.flags))
      else if not (length tx_ids == length r.tx_ids)
      then err (tx_ids_length (length tx_ids) (length r.tx_ids))
      else do
        (merged, own) ← merge_loop 0 flags tx_ids (r.flags, r.tx_ids)
        marked ← mark_loop 0 own ([], merged)
        ok (record r { flags = marked; tx_ids = own }, all_validated marked)

  -- `UnvalidatedMap`: the indexes that are not validated, from index `i` on
  unfoldable pub unvalidated_from : ℕ → ValidationFlags → List ℕ
  unvalidated_from i [] = []
  unvalidated_from i (f ∷ fs) =
      let rest = unvalidated_from (i + 1) fs in if f == not_validated then i ∷ rest else rest

  abbrev pub unvalidated_map : TxResults → List ℕ
  unvalidated_map r = unvalidated_from 0 r.flags
