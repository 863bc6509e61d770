-- ===== src/Validation/ResultsCache.antt =====
-- pkg/validation/validationresults/validationresults.go: the validation results of peers, kept by
-- block and, within a block, by a hash of the validation codes.
pub mod Laws
use Prim.Native.Nat.{bit_xor}
use fabric_peer_ext.Prelude.{
  ℕ, ◌*◌, ◌%◌, ◌^◌, Bool, String, Option, none, some, List, [], ◌∷◌, ◌++◌,
}
use fabric_peer_ext.Prelude.Assoc.{lookup, put, remove, nat_eq}
use fabric_peer_ext.Validation.TxFlags.{ValidationFlags}

pub record Results : Type 0 where
  pub block_number : ℕ
  pub tx_flags : ValidationFlags
  pub tx_ids : List String
  -- the text of an error, or ""
  pub error : String
  pub endpoint : String
  pub local : Bool
  pub msp_id : String
  pub signature : List ℕ
  pub identity : List ℕ

-- `fnv.New32a` of Go's hash/fnv
abbrev pub fnv_from : ℕ → List ℕ → ℕ
fnv_from h [] = h
fnv_from h (b ∷ bs) = fnv_from (bit_xor h b * 16777619 % 2 ^ 32) bs

unfoldable pub hash : ValidationFlags → ℕ
hash tx_flags = fnv_from 2166136261 tx_flags

abbrev pub Segments : Type 0
Segments = List (ℕ × List Results)

abbrev pub Cache : Type 0
Cache = List (ℕ × Segments)

-- a nil slice and an empty one are alike to `append` and `range`
abbrev pub or_empty {ℓ} : {A : Type ℓ} → Option (List A) → List A
or_empty none = []
or_empty (some xs) = xs

abbrev pub segment_of : Segments → ℕ → List Results
segment_of segments segment = or_empty (lookup segment segments)

-- `results.add`
unfoldable pub add_segment : Segments → Results → Segments × List Results
add_segment segments result =
    let results = segment_of segments (hash result.tx_flags) ++ result ∷ [] in
    (put (hash result.tx_flags) results segments, results)

-- `Cache.get`
abbrev pub get : Cache → ℕ → Segments
get c block_num = or_empty (lookup block_num c)

unfoldable pub add : Cache → Results → Cache × List Results
unfolding add_segment
add c result =
    let (segments, results) = add_segment (get c result.block_number) result in
    (put result.block_number segments c, results)

unfoldable pub all_segments : Segments → List Results
all_segments [] = []
all_segments ((_, results) ∷ segments) = results ++ all_segments segments

unfoldable pub remove_block : Cache → ℕ → Cache × List Results
remove_block c block_num = (remove block_num c, all_segments (get c block_num))
