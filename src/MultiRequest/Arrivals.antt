-- ===== src/MultiRequest/Arrivals.antt =====
-- What `Execute` of pkg/common/multirequest/multirequest.go returns for the responses in the order
-- of their arrival.
use fabric_peer_ext.Prelude.{
  ℕ, ◌≤◌, Bool, true, false, if◌then◌else◌, Bool-cases, Option-cases, ◌||◌, subst, String, none,
  some, List, [], ◌∷◌, length, any, All, ◌≡◌, refl, inl, inr, arith,
}
use fabric_peer_ext.Prelude.Outcome.{ok}
use fabric_peer_ext.MultiRequest.{
  Values, all_set, Res, Response, handle_response, wait_all, execute,
}
use fabric_peer_ext.MultiRequest.Overlay.{overlay, merge-overlay, length-overlay, all_set-overlay}

-- The responses without an error, up to the first that has all its values.
abbrev pub used : List Res → List Res
used [] = []
used (r ∷ rs) =
    let rest = used rs in
    elim r.error [ some e ↦ rest | none ↦ r ∷ (if all_set r.values then [] else rest) ]

abbrev pub merged : Values → List Res → Values
merged vs [] = vs
merged vs (r ∷ rs) = merged (overlay vs r.values) rs

abbrev pub last_id : String → List Res → String
last_id id [] = id
last_id id (r ∷ rs) = last_id r.id rs

wait_all_done : (rs : List Res) (resp : Response) → wait_all rs true resp ≡ ok resp
unfolding wait_all
wait_all_done [] resp = refl
wait_all_done (r ∷ rs) resp = wait_all_done rs resp

wait_all_lem :
    (rs : List Res) (resp : Response)
    → wait_all rs false resp
      ≡ ok (record {
        request_id = last_id resp.request_id (used rs);
        values = merged resp.values (used rs);
      })
unfolding wait_all handle_response
wait_all_lem [] resp = refl
wait_all_lem (r ∷ rs) resp = elim (Option-cases r.error) [
  | inr (e, q) ↦ rw q (wait_all_lem rs resp)
  | inl q ↦ elim (Bool-cases (all_set r.values)) [
    | inl c ↦
        rw (q, merge-overlay resp.values r.values, c)
          (wait_all_done rs (record { request_id = r.id; values = overlay resp.values r.values }))
    | inr c ↦
        rw (q, merge-overlay resp.values r.values, c)
          (wait_all_lem rs (record { request_id = r.id; values = overlay resp.values r.values }))
  ]
]

-- `Execute` does not panic and returns the overlay, in the order of arrival, of the responses
-- without an error up to the first that has all its values, with the ID of the last of these.
pub execute_lem :
    (responses : List Res)
    → execute responses
      ≡ ok
          (record { request_id = last_id "" (used responses); values = merged [] (used responses) })
unfolding execute
execute_lem responses = wait_all_lem responses (record { request_id = ""; values = [] })

abbrev pub is_complete : Res → Bool
is_complete r = elim r.error [ some e ↦ false | none ↦ all_set r.values ]

merged_complete :
    (n : ℕ) (rs : List Res) (vs : Values)
    → length vs ≤ n
    → All (λ r. r.error ≡ none → length r.values ≡ n) rs
    → any is_complete rs ≡ true
    → all_set (merged vs (used rs)) ≡ true
unfolding any
merged_complete n [] vs b same h = cc
merged_complete n (r ∷ rs) vs b same h = elim (Option-cases r.error) [
  | inr (e, q) ↦
      let rest : any is_complete rs ≡ true =
        subst
          (λ o.
            ((elim o [ some x ↦ false | none ↦ all_set r.values ]) || any is_complete rs) ≡ true)
          q h in
      rw q (merged_complete n rs vs b same.1 rest)
  | inl q ↦
      let size : length r.values ≡ n = same.0 q in
      let grown : length (overlay vs r.values) ≡ length r.values =
        length-overlay vs r.values (omega (arith, b, size)) in
      elim (Bool-cases (all_set r.values)) [
        | inl c ↦ rw (q, c) (all_set-overlay vs r.values (omega (arith, b, size)) c)
        | inr c ↦
            let rest : (all_set r.values || any is_complete rs) ≡ true =
              subst
                (λ o.
                  ((elim o [ some x ↦ false | none ↦ all_set r.values ]) || any is_complete rs)
                  ≡ true)
                q h in
            let rest' : any is_complete rs ≡ true =
              subst (λ b'. (b' || any is_complete rs) ≡ true) c rest in
            rw (q, c)
              (merged_complete n rs (overlay vs r.values) (omega (arith, grown, size)) same.1 rest')
      ]
]

-- Where the responses without an error have the same number of values and one of them has all its
-- values, in whatever order they arrive, `Execute` returns a response that has all its values.
pub execute_complete :
    (n : ℕ) (responses : List Res)
    → All (λ r. r.error ≡ none → length r.values ≡ n) responses
    → any is_complete responses ≡ true
    → (resp : Response) × (execute responses ≡ ok resp) × (all_set resp.values ≡ true)
execute_complete n responses same h = (
  record { request_id = last_id "" (used responses); values = merged [] (used responses) },
  execute_lem responses,
  merged_complete n responses [] (omega arith) same h,
)
