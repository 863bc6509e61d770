-- ===== src/RequestMgr/Channels.antt =====
-- The channel managers of pkg/common/requestmgr/requestmgr.go: one for each channel, made at its
-- first use. A manager stands on a heap, and its address is what `forChannel` returns.
use fabric_peer_ext.Prelude.{
  ℕ, true, Bool-cases, String, Option, none, some, List, [], ◌∷◌, ◌++◌, length, length-append, ◌≡◌,
  ◌≢◌, refl, sym, ap, ◌∙◌, inl, inr, arith,
}
use fabric_peer_ext.Prelude.Assoc.{string_eq, lookup, put, lookup-put}
use fabric_peer_ext.RequestMgr.{ChannelMgr, new_channel_mgr}

pub record RequestMgr : Type 0 where
  pub managers : List ChannelMgr
  pub mgrs : List (String × ℕ)

-- the part of `forChannel` under the write lock
unfoldable pub create_manager : RequestMgr → String → RequestMgr × ℕ
create_manager m channel_id =
    let at = length m.managers in
    (record { managers = m.managers ++ new_channel_mgr ∷ []; mgrs = put channel_id at m.mgrs }, at)

abbrev pub found_or_created : RequestMgr → String → Option ℕ → RequestMgr × ℕ
found_or_created m channel_id none = create_manager m channel_id
found_or_created m channel_id (some at) = (m, at)

-- `forChannel`, when no other call comes between its two locks
unfoldable pub for_channel : RequestMgr → String → RequestMgr × ℕ
for_channel m channel_id = found_or_created m channel_id (lookup channel_id m.mgrs)

abbrev pub for_channels : RequestMgr → List String → RequestMgr
for_channels m [] = m
for_channels m (ch ∷ chs) = for_channels (for_channel m ch).0 chs

same_channel : (ch : String) → string_eq.beq ch ch ≡ true
same_channel ch = (string_eq.beq_iff ch ch).1 refl

created_found :
    (m : RequestMgr) (ch : String)
    → lookup ch (create_manager m ch).0.mgrs ≡ some (create_manager m ch).1
unfolding create_manager
created_found m ch = lookup-put ch ch (length m.managers) m.mgrs ∙ rw (same_channel ch) refl

none-ne-some : {at : ℕ} → none ≢ some at
none-ne-some e = cc

found_after :
    (m : RequestMgr) (ch other_ch : String) (o : Option ℕ) (at : ℕ)
    → lookup other_ch m.mgrs ≡ o
    → lookup ch m.mgrs ≡ some at
    → lookup ch (found_or_created m other_ch o).0.mgrs ≡ some at
unfolding create_manager
found_after m ch other_ch (some a) at e h = h
found_after m ch other_ch none at e h = elim (Bool-cases (string_eq.beq other_ch ch)) [
  | inl q ↦
      let same : other_ch ≡ ch = (string_eq.beq_iff other_ch ch).0 q in
      absurd (none-ne-some (sym e ∙ ap (λ k. lookup k m.mgrs) same ∙ h))
  | inr q ↦ lookup-put other_ch ch (length m.managers) m.mgrs ∙ rw q h
]

stays_found :
    (m : RequestMgr) (ch : String) (chs : List String) (at : ℕ)
    → lookup ch m.mgrs ≡ some at
    → lookup ch (for_channels m chs).mgrs ≡ some at
unfolding for_channel
stays_found m ch [] at h = h
stays_found m ch (c ∷ chs) at h =
    stays_found (for_channel m c).0 ch chs at (found_after m ch c (lookup c m.mgrs) at refl h)

first_found :
    (m : RequestMgr) (ch : String) (o : Option ℕ)
    → lookup ch m.mgrs ≡ o
    → lookup ch (found_or_created m ch o).0.mgrs ≡ some (found_or_created m ch o).1
first_found m ch none e = created_found m ch
first_found m ch (some at) e = e

-- Calls of `forChannel` one after the other return the same manager for the same channel, whatever
-- other channels are asked for between them.
pub for_channel_stable :
    (m : RequestMgr) (ch : String) (chs : List String)
    → (for_channel (for_channels (for_channel m ch).0 chs) ch).1 ≡ (for_channel m ch).1
unfolding for_channel
for_channel_stable m ch chs =
    rw
      (stays_found (for_channel m ch).0 ch chs (for_channel m ch).1
        (first_found m ch (lookup ch m.mgrs) refl))
      refl

grown :
    (m : RequestMgr) (ch : String)
    → (create_manager m ch).1 ≢ (create_manager (create_manager m ch).0 ch).1
unfolding create_manager
grown m ch e = absurd (omega (arith, e, length-append m.managers (new_channel_mgr ∷ [])))

-- When two calls of `forChannel` for a channel both look before either of them writes, they return
-- different managers, and a later call returns that of the second.
pub create_manager_twice :
    (m : RequestMgr) (ch : String)
    → ((create_manager m ch).1 ≢ (create_manager (create_manager m ch).0 ch).1)
      × ((for_channel (create_manager (create_manager m ch).0 ch).0 ch).1
          ≡ (create_manager (create_manager m ch).0 ch).1)
unfolding for_channel
create_manager_twice m ch = (grown m ch, rw (created_found (create_manager m ch).0 ch) refl)
