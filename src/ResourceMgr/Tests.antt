-- ===== src/ResourceMgr/Tests.antt =====
-- Creators that need one another: tests of pkg/resource/resourcemgr.go.
use fabric_peer_ext.Prelude.{
  ℕ, zero, suc, ◌==◌, if◌then◌else◌, Option, none, some, List, [], ◌∷◌, any, ◌≡◌, refl, arith,
}
use fabric_peer_ext.ResourceMgr.{
  Created, made, missing, broken, Fault, provider_not_found, Manager, register, initialize_from,
  initialize_round, initialize_loop, initialize,
}
use fabric_peer_ext.ResourceMgr.Rounds.{IsEnded, initialize_ends}

-- Creator n needs the resource n - 1, and 9 fails.
abbrev create_after : List ℕ → ℕ → Created ℕ
create_after providers zero = made 0
create_after providers (suc n) =
    if n == 8
    then broken "nine"
    else if any (λ p. p == n) providers
    then made (suc n)
    else missing "no provider"

abbrev three_creators : Manager ℕ ℕ
three_creators = record { creators = 2 ∷ 1 ∷ 0 ∷ []; resources = [] }

three_rounds : initialize create_after 3 three_creators (20 ∷ []) ≡ some (20 ∷ 0 ∷ 1 ∷ 2 ∷ [], none)
unfolding initialize initialize_loop initialize_round initialize_from any
three_rounds = refl

no_provider :
    initialize create_after 2 (register (record { creators = 5 ∷ []; resources = [] }) 0) []
    ≡ some (0 ∷ [], some (provider_not_found "no provider"))
unfolding initialize initialize_loop initialize_round initialize_from any register
no_provider = refl

initialize_ends_example :
    (rs : List ℕ) × (err : Option Fault) × (initialize create_after 3 three_creators (20 ∷ [])
      ≡ some (rs, err))
    × IsEnded create_after (20 ∷ []) (20 ∷ []) (2 ∷ 1 ∷ 0 ∷ []) rs err
initialize_ends_example = initialize_ends create_after three_creators (20 ∷ []) 3 (omega arith)
