-- ===== src/Disseminator.antt =====
-- pkg/collections/transientdata/dissemination/disseminator.go: the endorsers that transient data is
-- sent to, chosen by the hash of its key.
pub mod Counting
pub mod Members
pub mod Rounds
pub mod Chosen
pub mod Endless
mod Tests
use fabric_peer_ext.Prelude.{
  ℕ, zero, suc, ◌+◌, ◌*◌, ◌%◌, ◌^◌, ltb, leb, ◌==◌, length, Bool, true, false, not, ◌||◌,
  if◌then◌else◌, String, str_eq, str_compare, is_lt, Option, none, some, List, [], ◌∷◌, ◌++◌,
}
use Prim.Native.Nat.{bit_xor}
use fabric_peer_ext.Prelude.Outcome.{Outcome, ok, err, panic, ◌>>=◌, index, push_front}
use fabric_peer_ext.Prelude.Bytes.{Bytes}
use fabric_peer_ext.Prelude.Sort.{Sort}
use fabric_peer_ext.Discovery.{Member, PeerGroup, Gossip, less, contains, has_role, get_members}

pub data Error : Type 0 where
  no_orgs : Error
  no_endorsers : Error

-- What is read of the policy of the collection. `member_orgs` are the keys of a Go map, in some
-- order; a maximum below 0 acts as 0 does, since it is compared to a size.
pub record AccessPolicy : Type 0 where
  pub member_orgs : List String
  pub maximum_peer_count : ℕ

-- `getHash32`: the 32-bit FNV-1a hash of the key, from the standard library
abbrev pub fnv_from : ℕ → Bytes → ℕ
fnv_from h [] = h
fnv_from h (b ∷ key) = fnv_from ((bit_xor h b * 16777619) % 2 ^ 32) key

unfoldable pub get_hash32 : Bytes → ℕ
get_hash32 key = fnv_from 2166136261 key

unfoldable pub contains_org : List String → String → Bool
contains_org [] org = false
contains_org (s ∷ ss) org = str_eq s org || contains_org ss org

abbrev pub min : ℕ → ℕ → ℕ
min i j = if ltb i j then i else j

abbrev pub endorser_role : String
endorser_role = "endorser"

module _ (to_lower : String → String) where
  -- the filter of `getEndorsers`
  unfoldable pub accepts_endorser : List String → PeerGroup → Member → Bool
  unfolding contains contains_org has_role
  accepts_endorser msp_ids exclude_peers m =
      if contains exclude_peers m
      then false
      else if not (contains_org msp_ids m.msp_id)
      then false
      else has_role to_lower m endorser_role

module _ (to_lower : String → String) (gossip : Gossip) (self : Member) where
  unfoldable pub get_endorsers : List String → PeerGroup → PeerGroup
  unfolding accepts_endorser get_members
  get_endorsers msp_ids exclude_peers =
      get_members gossip self (accepts_endorser to_lower msp_ids exclude_peers)

  module _ (s : Sort) (policy : AccessPolicy) where
    open policy use {member_orgs, maximum_peer_count}

    abbrev pub string_less : String → String → Bool
    string_less a b = is_lt (str_compare a b)

    -- the loop of `chooseOrgs`, with the rounds that are left
    unfoldable pub choose_orgs_from : List String → ℕ → ℕ → ℕ → Outcome Error (List String)
    choose_orgs_from sorted h i zero = ok []
    choose_orgs_from sorted h i (suc n) = do
      org ← index sorted ((h + i) % length sorted)
      push_front org (choose_orgs_from sorted h (i + 1) n)

    unfoldable pub choose_orgs : ℕ → Outcome Error (List String)
    unfolding choose_orgs_from
    choose_orgs h =
        choose_orgs_from (s.sort String string_less member_orgs) h 0
          (min maximum_peer_count (length member_orgs))

    -- the endorser of an organization, of which `endorsers_for_org` are all in order
    abbrev pub add_from : PeerGroup → ℕ → PeerGroup → Outcome Error PeerGroup
    add_from endorsers h [] = ok endorsers
    add_from endorsers h (e ∷ es) = do
      endorser_for_org ← index (e ∷ es) (h % length (e ∷ es))
      ok (
          if contains endorsers endorser_for_org
          then endorsers
          else endorsers ++ endorser_for_org ∷ [])

    abbrev pub endorsers_for_org : String → PeerGroup
    endorsers_for_org org = s.sort Member less (get_endorsers (org ∷ []) [])

    unfoldable pub append_endorsers_from_orgs :
        PeerGroup → ℕ → List String → Outcome Error PeerGroup
    unfolding get_endorsers contains
    append_endorsers_from_orgs endorsers h [] = ok endorsers
    append_endorsers_from_orgs endorsers h (org ∷ orgs) =
        let rest = (do
          more ← add_from endorsers h (endorsers_for_org org)
          append_endorsers_from_orgs more h orgs) in
        if length endorsers == maximum_peer_count then ok endorsers else rest

    -- the loop of `chooseEndorsers`, on fuel; `none` means that the fuel ran out
    unfoldable pub choose_loop :
        ℕ → ℕ → List String → ℕ → ℕ → PeerGroup → Option (Outcome Error PeerGroup)
    unfolding append_endorsers_from_orgs
    choose_loop zero h orgs all i endorsers = none
    choose_loop (suc fuel) h orgs all i endorsers =
        if ltb (length endorsers) maximum_peer_count
        then (elim (append_endorsers_from_orgs endorsers (h + i) orgs) [
          | ok more ↦
              let again = choose_loop fuel h orgs all (i + 1) more in
              if leb all (length more) then some (ok more) else again
          | err e ↦ some (err e)
          | panic ↦ some panic
        ])
        else some (ok endorsers)

    abbrev pub is_nil {ℓ} : {A : Type ℓ} → List A → Bool
    is_nil [] = true
    is_nil (a ∷ as') = false

    unfoldable pub choose_endorsers : ℕ → ℕ → List String → Option (Outcome Error PeerGroup)
    unfolding choose_loop get_endorsers
    choose_endorsers fuel h orgs =
        let all_endorsers = get_endorsers orgs [] in
        if is_nil all_endorsers
        then some (err no_endorsers)
        else choose_loop fuel h orgs (length all_endorsers) 0 []

    -- what is done with the chosen organizations, or the error
    abbrev pub with_orgs {ℓ} :
        {A : Type ℓ}
        → Outcome Error (List String)
        → (List String → Option (Outcome Error A))
        → Option (Outcome Error A)
    with_orgs (ok []) next = some (err no_orgs)
    with_orgs (ok (org ∷ orgs)) next = next (org ∷ orgs)
    with_orgs (err e) next = some (err e)
    with_orgs panic next = some panic

    unfoldable pub resolve_endorsers : ℕ → Bytes → Option (Outcome Error PeerGroup)
    unfolding get_hash32 choose_orgs choose_endorsers
    resolve_endorsers fuel key =
        with_orgs (choose_orgs (get_hash32 key)) (choose_endorsers fuel (get_hash32 key))

    unfoldable pub resolve_all_endorsers_in_orgs_for_key :
        Bytes → PeerGroup → Option (Outcome Error PeerGroup)
    unfolding get_hash32 choose_orgs get_endorsers
    resolve_all_endorsers_in_orgs_for_key key exclude_peers =
        with_orgs (choose_orgs (get_hash32 key))
          λ orgs. some (ok (get_endorsers orgs exclude_peers))

    unfoldable pub resolve_all_endorsers : PeerGroup → Option (Outcome Error PeerGroup)
    unfolding get_endorsers
    resolve_all_endorsers exclude_peers =
        with_orgs (ok member_orgs) λ orgs. some (ok (get_endorsers orgs exclude_peers))
