-- ===== src/Validation/ResultsCache/Laws.antt =====
-- What the cache of pkg/validation/validationresults holds after its operations.
use fabric_peer_ext.Prelude.{ℕ, ◌==◌, ◌≡◌, ◌&&◌, if◌then◌else◌, [], ◌∷◌, ◌++◌, arith}
use fabric_peer_ext.Prelude.Assoc.{lookup_nil, put, lookup-put, lookup-remove, nat_eq}
use fabric_peer_ext.Validation.ResultsCache.{
  Results, hash, Cache, segment_of, get, add_segment, add, remove_block,
}

segment_of_nil : (segment : ℕ) → segment_of [] segment ≡ []
segment_of_nil segment = rw lookup_nil

-- `Add` appends the result to the segment of its block and of the hash of its codes, returns that
-- segment, and leaves every other segment of every block as it was.
pub segment_of-add :
    (c : Cache) (r : Results) (block segment : ℕ)
    → ((add c r).1 ≡ segment_of (get (add c r).0 r.block_number) (hash r.tx_flags))
      × (segment_of (get (add c r).0 block) segment ≡ (
          if (r.block_number == block) && (hash r.tx_flags == segment)
          then segment_of (get c block) segment ++ r ∷ []
          else segment_of (get c block) segment))
unfolding add add_segment
segment_of-add c r block segment =
    let h = hash r.tx_flags in
    let old = get c r.block_number in
    let results = segment_of old h ++ r ∷ [] in
    let segments = put h results old in
    ground (
      arith,
      lookup-put r.block_number block segments c,
      lookup-put r.block_number r.block_number segments c,
      lookup-put h segment results old,
      lookup-put h h results old,
    )

-- `Remove` empties the block, and leaves every segment of the other blocks as it was.
pub segment_of-remove_block :
    (c : Cache) (removed block segment : ℕ)
    → segment_of (get (remove_block c removed).0 block) segment
      ≡ (if removed == block then [] else segment_of (get c block) segment)
unfolding remove_block
segment_of-remove_block c removed block segment =
    simp lookup-remove (ground (arith, segment_of_nil segment))
