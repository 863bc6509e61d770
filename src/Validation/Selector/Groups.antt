-- ===== src/Validation/Selector/Groups.antt =====
-- Which groups `groups` of pkg/validation/validationpolicy/peergroupselector.go selects.
use mathlib.Core.List.{Permᴰ}
use mathlib.Core.List.Permᴰ
use fabric_peer_ext.Prelude.{
  ℕ, ◌+◌, ◌%◌, ◌≤◌, ◌<◌, ltb, ◌==◌, ◌≡◌, refl, ◌∙◌, true, false, String, Option, none, some, List,
  [], ◌∷◌, ◌++◌, map, length, get_elem?, All, arith, Bool-cases, Option-cases, inl, inr,
}
use fabric_peer_ext.Prelude.Outcome.{ok, err, index_of_get_elem?, lt_of_get_elem?}
use fabric_peer_ext.Prelude.Sort.{Sort, perm_singleton, length-perm, All-perm}
use fabric_peer_ext.Discovery.{Member, PeerGroup, contains, less}
use fabric_peer_ext.Discovery.Laws.{contains-append, contains-cons, contains_head, contains-index}
use fabric_peer_ext.Validation.Selector.{
  Error, no_validators_or_committers, PeerGroups, PeerGroupSelector, select_committer,
  committer_with_role, select_validator, as_peer_groups, less_groups, sort_groups, first_choice,
  second_choice, third_choice, chosen_groups, groups,
}

head-contains :
    (cs : PeerGroup) (m : Member)
    → ◌≡◌ {A = Option Member} (elim cs [ [] ↦ none | p ∷ _ ↦ some p ]) (some m)
    → contains cs m ≡ true
head-contains [] m h = cc
head-contains (p ∷ cs) m h = ground (arith, contains_head p cs)

committer_with_role-contains :
    (to_lower : String → String) (cs : PeerGroup) (m : Member)
    → committer_with_role to_lower cs ≡ some m
    → contains cs m ≡ true
unfolding committer_with_role
committer_with_role-contains to_lower [] m h = cc
committer_with_role-contains to_lower (p ∷ cs) m h =
    ground
      (arith, contains_head p cs, contains-cons p cs m, committer_with_role-contains to_lower cs m)

length-as_peer_groups : (ms : List Member) → length (as_peer_groups ms) ≡ length ms
length-as_peer_groups [] = refl
length-as_peer_groups (m ∷ ms) = omega (arith, length-as_peer_groups ms)

module _ (to_lower : String → String) (sorting : Sort) where
  sort_singles :
      (ms : List Member) → map (sorting.sort Member less) (as_peer_groups ms) ≡ as_peer_groups ms
  sort_singles [] = refl
  sort_singles (m ∷ ms) =
      cc (perm_singleton m (sorting.sort_perm Member less (m ∷ [])) refl, sort_singles ms)

  pub sort_groups-perm :
      (ms : List Member) → Permᴰ (sort_groups sorting (as_peer_groups ms)) (as_peer_groups ms)
  unfolding sort_groups
  sort_groups-perm ms =
      rw (sort_groups, sort_singles ms)
        (sorting.sort_perm PeerGroup less_groups (as_peer_groups ms))

  pub sort_groups_single :
      (m : Member) → sort_groups sorting (as_peer_groups (m ∷ [])) ≡ (m ∷ []) ∷ []
  sort_groups_single m = perm_singleton (m ∷ []) (sort_groups-perm (m ∷ [])) refl

  module _ (s : PeerGroupSelector) where
    abbrev IsPeer : Member → Type 0
    IsPeer m = contains (s.committers ++ s.validators) m ≡ true

    IsPeer-of_committer : (m : Member) → contains s.committers m ≡ true → IsPeer m
    IsPeer-of_committer m h = ground (arith, contains-append s.committers s.validators m)

    IsPeer-of_validator : (m : Member) → contains s.validators m ≡ true → IsPeer m
    IsPeer-of_validator m h = ground (arith, contains-append s.committers s.validators m)

    select_committer-IsPeer : (m : Member) → select_committer s ≡ some m → IsPeer m
    unfolding select_committer
    select_committer-IsPeer m h = IsPeer-of_committer m (head-contains s.committers m h)

    select_validator_total :
        (o : Option Member) × (select_validator to_lower s ≡ ok o)
        × ((m : Member) → o ≡ some m → IsPeer m)
    unfolding select_validator
    select_validator_total = elim (Option-cases (committer_with_role to_lower s.committers)) [
      | inr (m, e) ↦ (
        some m,
        ground (arith, e),
        λ m' e'.
            IsPeer-of_committer m' (committer_with_role-contains to_lower s.committers m' (e ∙ e')),
      )
      | inl e ↦ elim (Bool-cases (length s.validators == 0)) [
        | inl empty ↦ (none, ground (arith, e, empty), λ m' e'. cc)
        | inr full ↦
            let (m, at, c) =
              contains-index {E = Error} s.validators (s.block.number % length s.validators)
                (in_range (length s.validators) full) in
            (
              some m,
              ground (arith, e, full, at),
              λ m' e'. IsPeer-of_validator m' (ground (arith, c)),
            )
      ]
    ]
      where
        in_range : (n : ℕ) → (n == 0) ≡ false → s.block.number % n < n
        in_range n h = ground arith

    second_choice_total :
        (o : Option Member)
        → ((m : Member) → o ≡ some m → IsPeer m)
        → (o' : Option Member) × (second_choice to_lower s o ≡ ok o')
          × ((m : Member) → o' ≡ some m → IsPeer m)
    second_choice_total (some m) h = (some m, refl, h)
    second_choice_total none h =
        elim (Bool-cases (ltb s.block.size s.policy.single_peer_transaction_threshold)) [
          | inl few ↦ let (o, e, p) = select_validator_total in (o, rw few e, p)
          | inr many ↦ (none, rw many, λ m e. cc)
        ]

    abbrev IsChosen : Option Member → Type 0
    IsChosen none = 0 < length s.validators
    IsChosen (some m) = IsPeer m

    select_committer_total :
        0 < length s.committers → (m : Member) × (select_committer s ≡ some m) × IsPeer m
    unfolding select_committer
    select_committer_total h = elim (Option-cases (select_committer s)) [
      | inl e ↦ absurd (no_head s.committers h e)
      | inr (m, e) ↦ (m, e, select_committer-IsPeer m e)
    ]
      where
        no_head :
            (cs : PeerGroup)
            → 0 < length cs
            → ◌≡◌ {A = Option Member} (elim cs [ [] ↦ none | p ∷ _ ↦ some p ]) none
            → ⊥
        no_head [] h e = absurd (omega arith)
        no_head (p ∷ cs) h e = cc

    third_choice_total :
        (o : Option Member)
        → ((m : Member) → o ≡ some m → IsPeer m)
        → 0 < length s.committers + length s.validators
        → (o' : Option Member) × (third_choice s o ≡ ok o') × IsChosen o'
    third_choice_total (some m) h some_peer = (some m, refl, h m refl)
    third_choice_total none h some_peer = elim (Bool-cases (length s.validators == 0)) [
      | inl empty ↦
          let (m, e, p) = select_committer_total (ground (arith, some_peer, empty)) in
          (some m, rw (empty, e), p)
      | inr full ↦ (none, rw full, ground arith)
    ]

    -- The groups come one peer each from the committers and the validators.
    abbrev pub IsSolo : PeerGroup → Type 0
    IsSolo g = (m : Member) × (g ≡ m ∷ []) × IsPeer m

    All-IsSolo :
        (ms : List Member)
        → ((m : Member) → contains ms m ≡ true → IsPeer m)
        → All IsSolo (as_peer_groups ms)
    All-IsSolo [] h = tt
    All-IsSolo (m ∷ ms) h = (
      (m, refl, h m (contains_head m ms)),
      All-IsSolo ms (λ m' c. h m' (ground (arith, contains-cons m ms m', c))),
    )

    chosen-IsSolo :
        (o : Option Member)
        → IsChosen o
        → (0 < length (chosen_groups s o)) × All IsSolo (chosen_groups s o)
    chosen-IsSolo (some m) h = (omega arith, ((m, refl, h), tt))
    chosen-IsSolo none h = (
      omega (arith, length-as_peer_groups s.validators),
      All-IsSolo s.validators IsPeer-of_validator,
    )

    first_choice-IsPeer : (m : Member) → first_choice s ≡ some m → IsPeer m
    first_choice-IsPeer m h = ground (arith, select_committer-IsPeer m)

    chosen-perm :
        (o : Option Member) → Permᴰ (sort_groups sorting (chosen_groups s o)) (chosen_groups s o)
    chosen-perm none = sort_groups-perm s.validators
    chosen-perm (some m) = sort_groups-perm (m ∷ [])

    -- If there is a committer or a validator, `groups` returns at least one group, without error
    -- or panic, and every group has exactly one peer, a committer or a validator of the channel.
    pub groups_total :
        0 < length s.committers + length s.validators
        → (gs : PeerGroups) × (groups to_lower sorting s ≡ ok gs) × (0 < length gs) × All IsSolo gs
    unfolding groups
    groups_total some_peer =
        let (o, e, p) = second_choice_total (first_choice s) first_choice-IsPeer in
        let (o', e', p') = third_choice_total o p some_peer in
        let (some_group, solo) = chosen-IsSolo o' p' in
        let perm = chosen-perm o' in
        (
          sort_groups sorting (chosen_groups s o'),
          rw (e, e'),
          omega (arith, length-perm perm),
          All-perm IsSolo (Permᴰ.symm perm) solo,
        )

    -- Without committers and validators `groups` fails.
    pub groups_no_peers :
        s.committers ≡ []
        → s.validators ≡ []
        → groups to_lower sorting s ≡ err (no_validators_or_committers s.block.number)
    unfolding groups select_committer select_validator
    groups_no_peers c v = ground arith

    -- Below the committer's threshold the first committer validates the block alone.
    pub groups_few :
        {m : Member} {cs : PeerGroup}
        → s.block.size < s.policy.committer_transaction_threshold
        → s.committers ≡ m ∷ cs
        → groups to_lower sorting s ≡ ok ((m ∷ []) ∷ [])
    unfolding groups select_committer
    groups_few {m} few c = ground (arith, sort_groups_single m)

    -- From the committer's threshold on and below the single peer's, one peer validates the block:
    -- where no committer has the validator's role it is the validator at the index that is the
    -- block's number modulo the number of validators.
    pub groups_single :
        {m : Member}
        → s.policy.committer_transaction_threshold ≤ s.block.size
        → s.block.size < s.policy.single_peer_transaction_threshold
        → committer_with_role to_lower s.committers ≡ none
        → get_elem? s.validators (s.block.number % length s.validators) ≡ some m
        → groups to_lower sorting s ≡ ok ((m ∷ []) ∷ [])
    unfolding groups select_validator
    groups_single {m} above below c v = ground (
      arith,
      sort_groups_single m,
      index_of_get_elem? {E = Error} s.validators (s.block.number % length s.validators) v,
      lt_of_get_elem? s.validators (s.block.number % length s.validators) v,
    )

    -- From both thresholds on, if there is a validator, the groups are the validators, one each,
    -- in some order.
    pub groups_many :
        s.policy.committer_transaction_threshold ≤ s.block.size
        → s.policy.single_peer_transaction_threshold ≤ s.block.size
        → 0 < length s.validators
        → (gs : PeerGroups) × (groups to_lower sorting s ≡ ok gs)
          × Permᴰ gs (as_peer_groups s.validators)
    unfolding groups
    groups_many above above' v = (
      sort_groups sorting (as_peer_groups s.validators),
      ground arith,
      sort_groups-perm s.validators,
    )
