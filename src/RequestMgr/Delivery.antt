-- ===== src/RequestMgr/Delivery.antt =====
-- A response of pkg/common/requestmgr/requestmgr.go reaches the request with its ID, once.
use fabric_peer_ext.Prelude.{
  ℕ, ◌==◌, ==_iff, true, false, Bool-cases, Option, none, some, List, [], ◌∷◌, All, ◌≡◌, ◌≢◌, refl,
  sym, ap, ◌∙◌, subst, inl, inr, ◌⊎◌,
}
use fabric_peer_ext.Prelude.Assoc.{nat_eq, lookup, put, remove, lookup-put, lookup-remove}
use fabric_peer_ext.RequestMgr.{
  Response, Request, ChannelMgr, new_request, new_request_id, empty_request, Progress, returned,
  waits, send, send_on, respond_to, respond, remove_request, cancel, Ready, context_done,
  response_there, already_completed, answered, get_from, get_response,
}

-- The request is registered and has no response yet.
abbrev pub IsWaiting : ChannelMgr → ℕ → Type 0
IsWaiting c id = (lookup id c.registered ≡ some tt) × (lookup id c.heap ≡ some empty_request)

same_key : (k : ℕ) → (k == k) ≡ true
same_key k = (==_iff k k).1 refl

other_key : (k j : ℕ) → k ≢ j → (k == j) ≡ false
other_key k j h = elim (Bool-cases (k == j)) [ inl e ↦ absurd (h ((==_iff k j).0 e)) | inr e ↦ e ]

module _ {V : Type 0} where
  pub lookup-put_same : (k : ℕ) (v : V) (m : List (ℕ × V)) → lookup k (put k v m) ≡ some v
  lookup-put_same k v m = lookup-put k k v m ∙ rw (same_key k) refl

  pub lookup-put_other :
      (k j : ℕ) (v : V) (m : List (ℕ × V)) → k ≢ j → lookup j (put k v m) ≡ lookup j m
  lookup-put_other k j v m h = lookup-put k j v m ∙ rw (other_key k j h) refl

  lookup-remove_same : (k : ℕ) (m : List (ℕ × V)) → lookup k (remove k m) ≡ none
  lookup-remove_same k m = lookup-remove k k m ∙ rw (same_key k) refl

pub new_request-IsWaiting : (c : ChannelMgr) → IsWaiting (new_request c).0 (new_request c).1
unfolding new_request
new_request-IsWaiting c = (
  lookup-put_same (new_request_id c) tt c.registered,
  lookup-put_same (new_request_id c) empty_request c.heap,
)

returned-inj : {A : Type 0} {a b : A} → returned a ≡ returned b → a ≡ b
returned-inj e = cc

-- The request is the same in both.
abbrev pub SameRequest : ℕ → ChannelMgr → ChannelMgr → Type 0
SameRequest id c c' =
    (lookup id c'.registered ≡ lookup id c.registered) × (lookup id c'.heap ≡ lookup id c.heap)

same_of_equal : (id : ℕ) (c c' : ChannelMgr) → c ≡ c' → SameRequest id c c'
same_of_equal id c c' e =
    (ap (λ d. lookup id d.registered) (sym e), ap (λ d. lookup id d.heap) (sym e))

send_on-other :
    (c c' : ChannelMgr) (id j : ℕ) (r : Response) (q : Request) (chan : List Response)
    → j ≢ id
    → send_on c j r q chan ≡ returned c'
    → SameRequest id c c'
send_on-other c c' id j r q [] h e =
    let q' : Request = record q { resp_chan = r ∷ [] } in
    let d : record c { heap = put j q' c.heap } ≡ c' = returned-inj e in
    (
      ap (λ m. lookup id m.registered) (sym d),
      ap (λ m. lookup id m.heap) (sym d) ∙ lookup-put_other j id q' c.heap h,
    )
send_on-other c c' id j r q (x ∷ xs) h e = cc

pub send-other :
    (c c' : ChannelMgr) (id j : ℕ) (r : Response) (o : Option Request)
    → j ≢ id
    → send c j r o ≡ returned c'
    → SameRequest id c c'
send-other c c' id j r none h e = same_of_equal id c c' (returned-inj e)
send-other c c' id j r (some q) h e = send_on-other c c' id j r q q.resp_chan h e

respond_to-other :
    (c c' : ChannelMgr) (id j : ℕ) (r : Response) (o : Option (Unit {0}))
    → j ≢ id
    → respond_to c j r o ≡ returned c'
    → SameRequest id c c'
respond_to-other c c' id j r none h e = same_of_equal id c c' (returned-inj e)
respond_to-other c c' id j r (some found) h e = send-other c c' id j r (lookup j c.heap) h e

-- A response to another request leaves this one as it is.
pub respond-other :
    (c c' : ChannelMgr) (id j : ℕ) (r : Response)
    → j ≢ id
    → respond c j r ≡ returned c'
    → SameRequest id c c'
unfolding respond
respond-other c c' id j r h e = respond_to-other c c' id j r (lookup j c.registered) h e

Progress-cases : {A : Type 0} (p : Progress A) → (p ≡ waits) ⊎ ((a : A) × (p ≡ returned a))
Progress-cases waits = inl refl
Progress-cases (returned a) = inr (a, refl)

waits-ne-returned : {A : Type 0} {a : A} → waits ≢ returned a
waits-ne-returned e = cc

-- `Respond` for each of the responses, one after the other, unless one waits
abbrev pub and_then : Progress ChannelMgr → (ChannelMgr → Progress ChannelMgr) → Progress ChannelMgr
and_then waits next = waits
and_then (returned c) next = next c

unfoldable pub respond_all : ChannelMgr → List (ℕ × Response) → Progress ChannelMgr
respond_all c [] = returned c
respond_all c ((j, r) ∷ rs) = and_then (respond c j r) (λ d. respond_all d rs)

respond_all-IsWaiting :
    (c c' : ChannelMgr) (id : ℕ) (rs : List (ℕ × Response))
    → All (λ p. p.0 ≢ id) rs
    → respond_all c rs ≡ returned c'
    → IsWaiting c id
    → IsWaiting c' id
unfolding respond_all
respond_all-IsWaiting c c' id [] h e w = subst (λ d. IsWaiting d id) (returned-inj e) w
respond_all-IsWaiting c c' id ((j, r) ∷ rs) h e w = elim (Progress-cases (respond c j r)) [
  | inl q ↦ absurd (waits-ne-returned (sym (ap (λ p. and_then p (λ d'. respond_all d' rs)) q) ∙ e))
  | inr (d, q) ↦
      let (same, same') = respond-other c d id j r h.0 q in
      respond_all-IsWaiting d c' id rs h.1
        (sym (ap (λ p. and_then p (λ d'. respond_all d' rs)) q) ∙ e) (same ∙ w.0, same' ∙ w.1)
]

abbrev finished_request : Request
finished_request = record { resp_chan = []; is_done = true }

abbrev finished_mgr : ChannelMgr → ℕ → ChannelMgr
finished_mgr c id = record c {
  heap = put id finished_request c.heap;
  registered = remove id c.registered;
}

cancel_waiting : (c : ChannelMgr) (id : ℕ) → IsWaiting c id → cancel c id ≡ finished_mgr c id
unfolding cancel remove_request
cancel_waiting c id w = rw (w.0, w.1) refl

completed_answer :
    (c : ChannelMgr) (id : ℕ) (ready : Ready)
    → get_from c id ready (some finished_request) ≡ returned (c, already_completed)
completed_answer c id context_done = refl
completed_answer c id response_there = refl

waiting_answer :
    (c : ChannelMgr) (id : ℕ) (r : Response)
    → IsWaiting c id
    → (c' : ChannelMgr) × (c'' : ChannelMgr) × (respond c id r ≡ returned c')
      × (get_response c' id response_there ≡ returned (c'', answered r))
      × ((late : Response) → respond c'' id late ≡ returned c'')
      × ((ready : Ready) → get_response c'' id ready ≡ returned (c'', already_completed))
unfolding respond get_response
waiting_answer c id r w =
    let full : Request = record { resp_chan = r ∷ []; is_done = false } in
    let c' : ChannelMgr = record c { heap = put id full c.heap } in
    let c₁ : ChannelMgr = record c { heap = put id empty_request c'.heap } in
    (
      c',
      finished_mgr c₁ id,
      rw w.0 (rw w.1 refl),
      rw (lookup-put_same id full c.heap) (
          ap (λ d. returned (d, answered r))
            (cancel_waiting c₁ id (w.0, lookup-put_same id empty_request c'.heap))),
      λ late. rw (lookup-remove_same id c.registered) refl,
      λ ready.
          rw (lookup-put_same id finished_request c₁.heap)
            (completed_answer (finished_mgr c₁ id) id ready),
    )

-- Whatever responses to other requests arrive after `NewRequest`, unless one of them waits, the
-- response with the ID of the request is delivered to it: `Respond` returns, `GetResponse` then
-- returns that response, and after it a late response to the same ID is dropped and another
-- `GetResponse` returns an error.
pub answer_delivered :
    (c c₁ : ChannelMgr) (rs : List (ℕ × Response)) (r : Response)
    → All (λ p. p.0 ≢ (new_request c).1) rs
    → respond_all (new_request c).0 rs ≡ returned c₁
    → (c₂ : ChannelMgr) × (c₃ : ChannelMgr) × (respond c₁ (new_request c).1 r ≡ returned c₂)
      × (get_response c₂ (new_request c).1 response_there ≡ returned (c₃, answered r))
      × ((late : Response) → respond c₃ (new_request c).1 late ≡ returned c₃)
      × ((ready : Ready)
          → get_response c₃ (new_request c).1 ready ≡ returned (c₃, already_completed))
answer_delivered c c₁ rs r h e =
    waiting_answer c₁ (new_request c).1 r (
      respond_all-IsWaiting (new_request c).0 c₁ (new_request c).1 rs h e (new_request-IsWaiting c))
