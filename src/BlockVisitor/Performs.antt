-- ===== src/BlockVisitor/Performs.antt =====
-- The traversal of pkg/common/blockvisitor/blockvisitor.go performs the items of a block.
use fabric_peer_ext.Prelude.{
  Bool, true, false, String, Option, none, some, List, [], ◌∷◌, ◌++◌, map, if◌then◌else◌, ◌≡◌, refl,
  ◌∙◌, sym, ap,
}
use mathlib.Core.List.{flat_map}
use fabric_peer_ext.BlockVisitor.Data.{Decoded, good, bad, decoded, Protocol, Event, Context}
use fabric_peer_ext.BlockVisitor.Action.{
  VisitError, Failure, halt, warn, panic, halts, Options, Action, done, fail, report, publish, ◌▸◌,
  for_each, wrapped, wrap_result,
}
use fabric_peer_ext.BlockVisitor.Items.{
  Item, call, undecodable, crash, Verdict, finished, stopped, crashed, outcome, and_then, attempt,
  perform,
}

module _ {S : Type 0} where
  outcome_step :
      (r : S × Option Failure) (second : Action S)
      → outcome (let (s', f) = r in if halts f then (s', f) else second s')
        ≡ and_then (outcome r) (λ s. outcome (second s))
  outcome_step (s, none) second = refl
  outcome_step (s, some (halt e)) second = refl
  outcome_step (s, some (warn e)) second = refl
  outcome_step (s, some panic) second = refl

  and_then_assoc :
      (r : S × Verdict) (f g : S → S × Verdict)
      → and_then (and_then r f) g ≡ and_then r (λ s. and_then (f s) g)
  and_then_assoc (s, finished) f g = refl
  and_then_assoc (s, stopped) f g = refl
  and_then_assoc (s, crashed) f g = refl

  and_then_finished : (r : S × Verdict) → and_then r (λ s. (s, finished)) ≡ r
  and_then_finished (s, finished) = refl
  and_then_finished (s, stopped) = refl
  and_then_finished (s, crashed) = refl

  outcome-wrap_result :
      (f : VisitError → VisitError) (r : S × Option Failure) → outcome (wrap_result f r) ≡ outcome r
  outcome-wrap_result f (s, none) = refl
  outcome-wrap_result f (s, some (halt e)) = refl
  outcome-wrap_result f (s, some (warn e)) = refl
  outcome-wrap_result f (s, some panic) = refl

  and_then_congr :
      (r : S × Verdict) (f g : S → S × Verdict)
      → ((s : S) → f s ≡ g s)
      → and_then r f ≡ and_then r g
  and_then_congr (s, finished) f g h = h s
  and_then_congr (s, stopped) f g h = refl
  and_then_congr (s, crashed) f g h = refl

module _ (proto : Protocol) (S : Type 0) (opts : Options proto S) where
  -- The action ends as the items do, with the same state of the client.
  unfoldable pub Performs : Action S → List (Item proto) → Type 0
  Performs m is = (s : S) → outcome (m s) ≡ perform proto S opts is s

  perform-append :
      (is js : List (Item proto)) (s : S)
      → perform proto S opts (is ++ js) s
        ≡ and_then (perform proto S opts is s) (perform proto S opts js)
  unfolding perform
  perform-append [] js s = refl
  perform-append (i ∷ is) js s =
      and_then_congr (outcome (attempt proto S opts i s)) (perform proto S opts (is ++ js))
        (λ s'. and_then (perform proto S opts is s') (perform proto S opts js))
        (perform-append is js)
      ∙ sym (
          and_then_assoc (outcome (attempt proto S opts i s)) (perform proto S opts is)
            (perform proto S opts js))

  pub done-Performs : Performs done []
  unfolding Performs perform
  done-Performs s = refl

  -- an action that only warns
  pub warn-Performs : (e : String) → Performs (fail (warn e)) []
  unfolding Performs perform
  warn-Performs e s = refl

  pub publish-Performs :
      (e : Event proto) (ctx : Context proto)
      → Performs (publish proto S opts e ctx) (call e ctx ∷ [])
  unfolding Performs perform
  publish-Performs e ctx s = sym (and_then_finished (outcome (publish proto S opts e ctx s)))

  pub report-Performs :
      (e : String) (ctx : Context proto)
      → Performs (report proto S opts e ctx) (undecodable e ctx ∷ [])
  unfolding Performs perform
  report-Performs e ctx s = sym (and_then_finished (outcome (report proto S opts e ctx s)))

  pub panic-Performs : Performs (fail panic) (crash ∷ [])
  unfolding Performs perform
  panic-Performs s = refl

  pub wrapped-Performs :
      (f : VisitError → VisitError) (a : Action S) (is : List (Item proto))
      → Performs a is
      → Performs (wrapped f a) is
  unfolding Performs
  wrapped-Performs f a is h s = outcome-wrap_result f (a s) ∙ h s

  pub then-Performs :
      (a b : Action S) (is js : List (Item proto))
      → Performs a is
      → Performs b js
      → Performs (a ▸ b) (is ++ js)
  unfolding Performs
  then-Performs a b is js h k s =
      outcome_step (a s) b
      ∙ and_then_congr (outcome (a s)) (λ s'. outcome (b s')) (perform proto S opts js) k
      ∙ ap (λ r. and_then r (perform proto S opts js)) (h s)
      ∙ sym (perform-append is js s)

  -- A second action that does nothing drops a warning of the first.
  pub then_done-Performs :
      (a : Action S) (is : List (Item proto)) → Performs a is → Performs (a ▸ done) is
  unfolding Performs
  then_done-Performs a is h s = outcome_step (a s) done ∙ and_then_finished (outcome (a s)) ∙ h s

  pub then_warn-Performs :
      (a : Action S) (e : String) (is : List (Item proto))
      → Performs a is
      → Performs (a ▸ fail (warn e)) is
  unfolding Performs
  then_warn-Performs a e is h s =
      outcome_step (a s) (fail (warn e)) ∙ and_then_finished (outcome (a s)) ∙ h s

  pub if_Performs :
      (b : Bool) (a a' : Action S) (is is' : List (Item proto))
      → Performs a is
      → Performs a' is'
      → Performs (if b then a else a') (if b then is else is')
  if_Performs true a a' is is' h h' = h
  if_Performs false a a' is is' h h' = h'

  module _ {ℓ} {A : Type ℓ} where
    pub for_each-Performs :
        (body : A → Action S) (f : A → List (Item proto))
        → ((a : A) → Performs (body a) (f a))
        → (as' : List A) → Performs (for_each body as') (flat_map f as')
    unfolding flat_map
    for_each-Performs body f h [] = done-Performs
    for_each-Performs body f h (a ∷ as') =
        then-Performs (body a) (for_each body as') (f a) (flat_map f as') (h a)
          (for_each-Performs body f h as')

    pub for_each-map-Performs :
        (body : A → Action S) (f : A → Item proto)
        → ((a : A) → Performs (body a) (f a ∷ []))
        → (as' : List A) → Performs (for_each body as') (map f as')
    for_each-map-Performs body f h [] = done-Performs
    for_each-map-Performs body f h (a ∷ as') =
        then-Performs (body a) (for_each body as') (f a ∷ []) (map f as') (h a)
          (for_each-map-Performs body f h as')

    pub decoded-Performs :
        (d : Decoded A) (next : A → Action S) (failed : String → Action S)
        (f : A → List (Item proto)) (g : String → List (Item proto))
        → ((a : A) → Performs (next a) (f a))
        → ((e : String) → Performs (failed e) (g e))
        → Performs (decoded d next failed) (decoded d f g)
    decoded-Performs (good a) next failed f g h k = h a
    decoded-Performs (bad e) next failed f g h k = k e
