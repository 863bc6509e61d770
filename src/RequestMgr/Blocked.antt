-- ===== src/RequestMgr/Blocked.antt =====
-- The lock of pkg/common/requestmgr/requestmgr.go: `Respond` sends while it holds the read lock, so a
-- send on a full channel keeps `NewRequest` and `Cancel` from the write lock.
use fabric_peer_ext.Prelude.{
  ℕ, ◌==◌, ==_iff, Bool, true, false, ◌||◌, Bool-cases, some, List, [], ◌∷◌, any, ◌≡◌, ◌≢◌, refl,
  sym, ◌∙◌, subst, inl, inr,
}
use fabric_peer_ext.Prelude.Assoc.{nat_eq, lookup, put}
use fabric_peer_ext.RequestMgr.{
  Response, Request, ChannelMgr, new_request, returned, waits, send, respond, cancel,
}
use fabric_peer_ext.RequestMgr.Delivery.{lookup-put_other, send-other, respond-other, SameRequest}

-- The calls of `Respond` that wait in their send, each with the read lock.
abbrev pub Responders : Type 0
Responders = List (ℕ × Response)

pub data Removed : ℕ × Response → Responders → Responders → Type 0 where
  here : {b : ℕ × Response} {bs : Responders} → Removed b (b ∷ bs) bs
  there :
      {b a : ℕ × Response} {bs bs' : Responders} → Removed b bs bs' → Removed b (a ∷ bs) (a ∷ bs')

-- The steps of the calls on a channel manager but those that receive a response of the request
-- `id`. `cancels` and `requests_new` take the write lock, so no responder waits; a writer that waits
-- for the lock, which in Go keeps further readers out, is left aside.
pub data Step (id : ℕ) : ChannelMgr → Responders → ChannelMgr → Responders → Type 0 where
  responds :
      {c c' : ChannelMgr} {bs : Responders} (j : ℕ) (r : Response)
      → respond c j r ≡ returned c'
      → Step id c bs c' bs
  responder_waits :
      {c : ChannelMgr} {bs : Responders} (j : ℕ) (r : Response)
      → respond c j r ≡ waits
      → Step id c bs c ((j, r) ∷ bs)
  responder_resumes :
      {c c' : ChannelMgr} {bs bs' : Responders} (j : ℕ) (r : Response)
      → Removed (j, r) bs bs'
      → send c j r (lookup j c.heap) ≡ returned c'
      → Step id c bs c' bs'
  receives :
      {c : ChannelMgr} {bs : Responders} (j : ℕ) (q : Request) (x : Response) (xs : List Response)
      → j ≢ id
      → lookup j c.heap ≡ some q
      → q.resp_chan ≡ x ∷ xs
      → Step id c bs (record c { heap = put j (record q { resp_chan = xs }) c.heap }) bs
  cancels : {c : ChannelMgr} (j : ℕ) → Step id c [] (cancel c j) []
  requests_new : {c : ChannelMgr} → Step id c [] (new_request c).0 []

pub data Run (id : ℕ) : ChannelMgr → Responders → ChannelMgr → Responders → Type 0 where
  stop : {c : ChannelMgr} {bs : Responders} → Run id c bs c bs
  go :
      {c d e : ChannelMgr} {as' bs cs : Responders}
      → Step id c as' d bs
      → Run id d bs e cs
      → Run id c as' e cs

-- The channel of the request, which is registered, is full, and a response to it waits.
abbrev pub IsFull : ℕ → ChannelMgr → Type 0
IsFull id c =
    (lookup id c.registered ≡ some tt)
    × (q : Request) × (x : Response) × (xs : List Response) × (lookup id c.heap ≡ some q)
    × (q.resp_chan ≡ x ∷ xs)

abbrev pub waits_on : ℕ → Responders → Bool
waits_on id bs = any (λ b. b.0 == id) bs

IsFull-same : (id : ℕ) (c c' : ChannelMgr) → SameRequest id c c' → IsFull id c → IsFull id c'
IsFull-same id c c' same (g, q, x, xs, e, f) = (same.0 ∙ g, q, x, xs, same.1 ∙ e, f)

full_sends :
    (id : ℕ) (c : ChannelMgr) (r : Response) → IsFull id c → send c id r (lookup id c.heap) ≡ waits
full_sends id c r (g, q, x, xs, e, f) = rw (e, f) refl

full_responds : (id : ℕ) (c : ChannelMgr) (r : Response) → IsFull id c → respond c id r ≡ waits
unfolding respond
full_responds id c r full = rw full.0 (full_sends id c r full)

false-ne-true : false ≢ true
false-ne-true e = cc

waits-ne-returned : {A : Type 0} {a : A} → waits ≢ returned a
waits-ne-returned e = cc

differs : (j id : ℕ) → (j == id) ≡ false → j ≢ id
differs j id q e = false-ne-true (sym q ∙ (==_iff j id).1 e)

any_behind : (b b' : Bool) → b' ≡ true → (b || b') ≡ true
any_behind true b' h = refl
any_behind false b' h = h

Removed-waits :
    (id : ℕ) {b : ℕ × Response} {bs bs' : Responders}
    → Removed b bs bs'
    → (b.0 == id) ≡ false
    → waits_on id bs ≡ true
    → waits_on id bs' ≡ true
unfolding any
Removed-waits id (here {b} {bs}) q w = subst (λ t. (t || waits_on id bs) ≡ true) q w
Removed-waits id (there {b} {a} {bs} {bs'} m) q w = elim (Bool-cases (a.0 == id)) [
  | inl h ↦ rw h refl
  | inr h ↦
      let rest = subst (λ t. (t || waits_on id bs) ≡ true) h w in rw h (Removed-waits id m q rest)
]

Step-IsFull :
    (id : ℕ) {c c' : ChannelMgr} {bs bs' : Responders}
    → Step id c bs c' bs'
    → IsFull id c × (waits_on id bs ≡ true)
    → IsFull id c' × (waits_on id bs' ≡ true)
unfolding any
Step-IsFull id (responds {c} {c'} {bs} j r e) (full, w) = elim (Bool-cases (j == id)) [
  | inl q ↦ absurd (
      waits-ne-returned (
        sym (full_responds id c r full)
        ∙ subst (λ k. respond c k r ≡ returned c') ((==_iff j id).0 q) e))
  | inr q ↦ (IsFull-same id c c' (respond-other c c' id j r (differs j id q) e) full, w)
]
Step-IsFull id (responder_waits {c} {bs} j r e) (full, w) =
    (full, any_behind (j == id) (waits_on id bs) w)
Step-IsFull id (responder_resumes {c} {c'} {bs} {bs'} j r m e) (full, w) =
    elim (Bool-cases (j == id)) [
      | inl q ↦ absurd (
          waits-ne-returned (
            sym (full_sends id c r full)
            ∙ subst (λ k. send c k r (lookup k c.heap) ≡ returned c') ((==_iff j id).0 q) e))
      | inr q ↦ (
        IsFull-same id c c' (send-other c c' id j r (lookup j c.heap) (differs j id q) e) full,
        Removed-waits id m q w,
      )
    ]
Step-IsFull id (receives {c} {bs} j q x xs h e f) (full, w) = (
  IsFull-same id c (record c { heap = put j (record q { resp_chan = xs }) c.heap })
      (refl, lookup-put_other j id (record q { resp_chan = xs }) c.heap h) full,
  w,
)
Step-IsFull id (cancels j) (full, w) = cc
Step-IsFull id requests_new (full, w) = cc

Run-IsFull :
    (id : ℕ) {c c' : ChannelMgr} {bs bs' : Responders}
    → Run id c bs c' bs'
    → IsFull id c × (waits_on id bs ≡ true)
    → IsFull id c' × (waits_on id bs' ≡ true)
Run-IsFull id stop h = h
Run-IsFull id (go s r) h = Run-IsFull id r (Step-IsFull id s h)

-- Once a second response waits for the full channel of a request, and as long as nobody receives
-- the first one (a `GetResponse` whose context ended does not), the read lock is not released,
-- whatever the other calls do: no `Cancel` and no `NewRequest` of the channel can go on.
pub Run-never_unlocks :
    (id : ℕ) (c c' : ChannelMgr) (bs bs' : Responders)
    → IsFull id c
    → waits_on id bs ≡ true
    → Run id c bs c' bs'
    → bs' ≢ []
unfolding any
Run-never_unlocks id c c' bs bs' full w run e =
    false-ne-true (subst (λ l. waits_on id l ≡ true) e (Run-IsFull id run (full, w)).1)
