-- ===== src/BlockVisitor/Height.antt =====
-- `Visitor` of pkg/common/blockvisitor/blockvisitor.go: the number of the last committed block.
use fabric_peer_ext.Prelude.{
  ℕ, false, String, Option, none, some, List, [], ◌∷◌, if◌then◌else◌, ◌==◌, ltb, All, ltb→lt,
  lt→ltb, Bool-cases, ==_iff, ◌⊎◌, inl, inr, ◌≡◌, subst, sym, ap, refl, ◌≢◌, ◌+◌, ◌%◌, ◌^◌, ◌<◌,
  ◌≤◌, arith,
}
use fabric_peer_ext.BlockVisitor.Data.{TxPvtData, Block, Protocol, Context}
use fabric_peer_ext.BlockVisitor.Action.{
  Failure, Options, report, dispatch, reported, halted_by, publish,
}
use fabric_peer_ext.BlockVisitor.Visit.{visit_block}
use fabric_peer_ext.BlockVisitor.Items.{
  Item, call, undecodable, crash, items, Verdict, finished, stopped, crashed, verdict, outcome,
  and_then, attempt, perform,
}
use fabric_peer_ext.BlockVisitor.Refinement.{visit_block-perform}

pub record Visitor : Type 0 where
  pub channel_id : String
  pub last_committed_block : ℕ

-- `LedgerHeight`, on 64 bits
unfoldable pub ledger_height : Visitor → ℕ
ledger_height v = (v.last_committed_block + 1) % 2 ^ 64

module _ (proto : Protocol) (S : Type 0) (opts : Options proto S) where
  -- The number is stored when the visit ends, however it ends.
  unfoldable pub visit :
      Visitor → Block → (ℕ → Option TxPvtData) → S → (S × Option Failure) × Visitor
  visit v b pvt_data s = (
    visit_block proto S opts v.channel_id b pvt_data s,
    record v { last_committed_block = b.number },
  )

-- The loop of `SetLastCommittedBlockNum`, which compares and swaps against the number that it
-- loaded first; the list is what the field holds at the attempts. `none`: it is still running.
abbrev swap_loop : ℕ → ℕ → List ℕ → Option ℕ
swap_loop loaded block_num [] = none
swap_loop loaded block_num (held ∷ rest) =
    let next = swap_loop loaded block_num rest in if held == loaded then some block_num else next

-- What the field holds after `SetLastCommittedBlockNum`, the number loaded given.
unfoldable pub set_last_committed_block_num : ℕ → ℕ → List ℕ → Option ℕ
set_last_committed_block_num loaded block_num held =
    if ltb loaded block_num then swap_loop loaded block_num held else some loaded

not_ltb : (a b : ℕ) → ltb a b ≡ false → b ≤ a
not_ltb a b h = ground arith

-- `SetLastCommittedBlockNum` without another writer ends at its first attempt, with the larger of
-- the two numbers.
pub set_last_committed_block_num_alone :
    (last block_num : ℕ)
    → (stored : ℕ) × (set_last_committed_block_num last block_num (last ∷ []) ≡ some stored)
      × (last ≤ stored)
      × (block_num ≤ stored)
      × ((stored ≡ last) ⊎ (stored ≡ block_num))
unfolding set_last_committed_block_num
set_last_committed_block_num_alone last block_num = elim (Bool-cases (ltb last block_num)) [
  | inl h ↦ (
    block_num,
    rw (h, (==_iff last last).1 refl) refl,
    omega (arith, ltb→lt last block_num h),
    omega arith,
    inr refl,
  )
  | inr h ↦ (last, rw h refl, omega arith, not_ltb last block_num h, inl refl)
]

swap_loop_fails :
    (loaded block_num : ℕ) (held : List ℕ)
    → All (λ h. h ≢ loaded) held
    → swap_loop loaded block_num held ≡ none
swap_loop_fails loaded block_num [] differs = refl
swap_loop_fails loaded block_num (h ∷ hs) differs = elim (Bool-cases (h == loaded)) [
  | inl e ↦ absurd (differs.0 ((==_iff h loaded).0 e))
  | inr e ↦ rw e (swap_loop_fails loaded block_num hs differs.1)
]

-- Once the field has been changed to another number than the loaded one, `SetLastCommittedBlockNum`
-- does not end in any number of attempts for which the field keeps differing from it.
pub stale_load_spins :
    (loaded block_num : ℕ) (held : List ℕ)
    → loaded < block_num
    → All (λ h. h ≢ loaded) held
    → set_last_committed_block_num loaded block_num held ≡ none
unfolding set_last_committed_block_num
stale_load_spins loaded block_num held h differs =
    rw (lt→ltb loaded block_num h) (swap_loop_fails loaded block_num held differs)

module _ (proto : Protocol) (S : Type 0) (opts : Options proto S) where
  -- `Visit` of a block leaves the client in the state in which it is left by its handlers and its
  -- error handler called on the items of the block, in their order, up to the first that halts,
  -- and it ends as they do: to the end, at an error of the error handler, or in a panic: at a
  -- missing flag, a payload without a header or an action that is nil (the texts of errors are
  -- left aside). However it ends, the ledger height is then one more than the number of the block,
  -- on 64 bits.
  pub visit-perform :
      (v : Visitor) (b : Block) (pvt_data : ℕ → Option TxPvtData) (s : S)
      → (outcome (visit proto S opts v b pvt_data s).0
          ≡ perform proto S opts (items proto v.channel_id b pvt_data) s)
        × (ledger_height (visit proto S opts v b pvt_data s).1 ≡ (b.number + 1) % 2 ^ 64)
  unfolding visit ledger_height
  visit-perform v b pvt_data s = (visit_block-perform proto S opts v.channel_id b pvt_data s, refl)

  abbrev IsLenient : Type 0
  IsLenient = (e : String) (ctx : Context proto) (s : S) → (opts.handle_error e ctx s).1 ≡ none

  report_lenient :
      IsLenient
      → (e : String) (ctx : Context proto) (s : S)
      → (outcome (report proto S opts e ctx s)).1 ≢ stopped
  unfolding report
  report_lenient h e ctx s p =
      let never : verdict (halted_by proto S (opts.handle_error e ctx s).1) ≡ finished =
        ap (λ r. verdict (halted_by proto S r)) (h e ctx s) in
      cc

  reported_lenient :
      IsLenient
      → (ctx : Context proto) (r : S × Option String)
      → (outcome (reported proto S opts ctx r)).1 ≢ stopped
  reported_lenient h ctx (s, none) p = cc
  reported_lenient h ctx (s, some e) p = report_lenient h e ctx s p

  attempt_lenient :
      IsLenient → (i : Item proto) (s : S) → (outcome (attempt proto S opts i s)).1 ≢ stopped
  unfolding publish
  attempt_lenient h (call e ctx) s p = reported_lenient h ctx (dispatch proto S opts e s) p
  attempt_lenient h (undecodable e ctx) s p = report_lenient h e ctx s p
  attempt_lenient h crash s p = cc

  and_then_lenient :
      (r : S × Verdict) (f : S → S × Verdict)
      → r.1 ≢ stopped
      → ((s : S) → (f s).1 ≢ stopped)
      → (and_then r f).1 ≢ stopped
  and_then_lenient (s, finished) f h k p = k s p
  and_then_lenient (s, stopped) f h k p = h p
  and_then_lenient (s, crashed) f h k p = cc

  perform_lenient :
      IsLenient → (is : List (Item proto)) (s : S) → (perform proto S opts is s).1 ≢ stopped
  unfolding perform
  perform_lenient h [] s p = cc
  perform_lenient h (i ∷ is) s p =
      and_then_lenient (outcome (attempt proto S opts i s)) (perform proto S opts is)
        (attempt_lenient h i s) (perform_lenient h is) p

  -- Where the error handler returns no error, a visit does not end in an error, whatever the
  -- handlers return and whatever of the block does not decode.
  pub visit_lenient :
      (v : Visitor) (b : Block) (pvt_data : ℕ → Option TxPvtData) (s : S)
      → ((e : String) (ctx : Context proto) (t : S) → (opts.handle_error e ctx t).1 ≡ none)
      → (outcome (visit proto S opts v b pvt_data s).0).1 ≢ stopped
  visit_lenient v b pvt_data s h =
      subst (λ r. r.1 ≢ stopped) (sym (visit-perform v b pvt_data s).0)
        (perform_lenient h (items proto v.channel_id b pvt_data) s)
