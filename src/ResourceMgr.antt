-- ===== src/ResourceMgr.antt =====
-- pkg/resource/resourcemgr.go: the manager creates the registered resources, in rounds, until all
-- creators have found their providers. The invoker of pkg/common/injectinvoker, which calls a
-- creator by reflection, is a parameter: what it answers for the providers that it has so far.
use fabric_peer_ext.Prelude.{
  ℕ, zero, suc, Bool, true, false, if◌then◌else◌, String, Option, none, some, List, [], ◌∷◌, ◌++◌,
}
mod Given
pub mod Rounds
mod Tests

pub data Created (Resource : Type 0) : Type 0 where
  made : Resource → Created Resource
  -- the cause of the error is `ErrProviderNotFound`
  missing : String → Created Resource
  broken : String → Created Resource

-- An error by its cause.
pub data Fault : Type 0 where
  provider_not_found other_error : String → Fault

-- What `initialize` returns, with the providers of the invoker behind it.
pub record Round (Creator Resource : Type 0) : Type 0 where
  pub resources : List Resource
  pub unsatisfied : List Creator
  pub providers : List Resource
  pub error : Option Fault

pub record Manager (Creator Resource : Type 0) : Type 0 where
  pub creators : List Creator
  pub resources : List Resource

module _ {Creator Resource : Type 0} where
  unfoldable pub register : Manager Creator Resource → Creator → Manager Creator Resource
  register m creator = record m { creators = m.creators ++ creator ∷ [] }

module _ {Resource : Type 0} where
  abbrev pub is_nil : List Resource → Bool
  is_nil [] = true
  is_nil (r ∷ rs) = false

  -- `err != nil && (Cause(err) != ErrProviderNotFound || len(resources) == 0)`
  abbrev pub gives_up : Option Fault → List Resource → Bool
  gives_up none resources = false
  gives_up (some (other_error e)) resources = true
  gives_up (some (provider_not_found e)) resources = is_nil resources

  -- the three cases of what a creator gives
  abbrev pub on_created :
      {B : Type 0} → Created Resource → (Resource → B) → (String → B) → (String → B) → B
  on_created (made r) if_made if_missing if_broken = if_made r
  on_created (missing e) if_made if_missing if_broken = if_missing e
  on_created (broken e) if_made if_missing if_broken = if_broken e

module _ {Creator Resource : Type 0} (create : List Resource → Creator → Created Resource) where
  -- the loop of `initialize`: the providers, the creators that are left, and its variables
  unfoldable pub initialize_from :
      List Resource
      → List Creator
      → List Resource
      → List Creator
      → Option Fault
      → Round Creator Resource
  initialize_from providers [] resources unsatisfied err_last = record {
    resources = resources;
    unsatisfied = unsatisfied;
    providers = providers;
    error = err_last;
  }
  initialize_from providers (creator ∷ creators) resources unsatisfied err_last =
      on_created (create providers creator)
        (λ r.
          initialize_from (providers ++ r ∷ []) creators (resources ++ r ∷ []) unsatisfied err_last)
        (λ e.
          initialize_from providers creators resources (unsatisfied ++ creator ∷ [])
            (some (provider_not_found e)))
        (λ e. record {
          resources = [];
          unsatisfied = [];
          providers = providers;
          error = some (other_error e);
        })

  unfoldable pub initialize_round : List Resource → List Creator → Round Creator Resource
  initialize_round providers creators = initialize_from providers creators [] [] none

  -- the loop of `Initialize`, with the resources so far: the resources and the error; `none` when
  -- the fuel does not suffice
  unfoldable pub initialize_loop :
      ℕ → List Resource → List Resource → List Creator → Option (List Resource × Option Fault)
  initialize_loop fuel resources providers [] = some (resources, none)
  initialize_loop zero resources providers (c ∷ cs) = none
  initialize_loop (suc fuel) resources providers (c ∷ cs) =
      let round = initialize_round providers (c ∷ cs) in
      let rest =
        initialize_loop fuel (resources ++ round.resources) round.providers round.unsatisfied in
      if gives_up round.error round.resources
      then some (resources ++ round.resources, round.error)
      else rest

  -- `Initialize` with the providers, in at most `fuel` rounds
  unfoldable pub initialize :
      ℕ → Manager Creator Resource → List Resource → Option (List Resource × Option Fault)
  initialize fuel m providers = initialize_loop fuel (m.resources ++ providers) providers m.creators
