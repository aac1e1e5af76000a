-- ===== src/Issuer/Wireguard/Peers/Gather.antt =====
-- What the first loop of `sync` collects.
use evgenium_network_linux.Prelude.{
  string_eq, Bool, Bool-cases, Dict, List, Option, Result, Result-cases, String, [], arith, err,
  false, get, if◌then◌else◌, inl, inr, none, not, ok, some, ◌&&◌, ◌==◌, ◌∷◌, ◌≡◌, eq_iff, get-put,
  sym, true, ◌∙◌, All, All-put, contains, put, ◌≢◌, All-mono, Option-cases, subst, ◌⊎◌,
}
use evgenium_network_linux.Issuer.Model.{Device}
use evgenium_network_linux.Issuer.Wireguard.Address.{is_wireguard}
use evgenium_network_linux.Issuer.Wireguard.Peers.{gather, Wanted, key_of, want, address_of}

abbrev is_key_of : String → Result String → Bool
is_key_of k (ok j) = k == j
is_key_of k (err e) = false

-- an enabled WireGuard record of a live account, with the key `k`
abbrev pub asks_for : String → Bool × Device → Bool
asks_for k (live, d) = is_wireguard d && live && not d.disabled && is_key_of k (key_of d)

-- The record that the accounts ask to have as the peer `k`, the first one if there are more.
unfoldable pub peer_of : String → List (Bool × Device) → Option Device
peer_of k [] = none
peer_of k ((live, d) ∷ rest) = if asks_for k (live, d) then some d else peer_of k rest

abbrev or_later : Option Device → Option Device → Option Device
or_later none later = later
or_later (some d) later = some d

want-get :
    (live : Bool) (d : Device) (key : String) (wanted : Dict String Device)
    (addresses : List String) (st : Wanted) (k : String)
    → want live d key (wanted, addresses) ≡ ok st
    → get k st.0
      ≡ or_later (get k wanted) (if live && not d.disabled && k == key then some d else none)
unfolding want
want-get live d key wanted addresses st k h = ground (arith, get-put k key d wanted, eq_iff k key)

-- the rounds of `gather` that do not end the loop
gather_skip :
    (live : Bool) (d : Device) (rest : List (Bool × Device)) (st : Wanted)
    → is_wireguard d ≡ false
    → gather ((live, d) ∷ rest) st ≡ gather rest st
unfolding gather
gather_skip live d rest st other = rw (other, gather)

gather_take :
    (live : Bool) (d : Device) (rest : List (Bool × Device)) (st end : Wanted)
    → is_wireguard d ≡ true
    → gather ((live, d) ∷ rest) st ≡ ok end
    → (key : String) × (st' : Wanted) × (key_of d ≡ ok key)
      × (want live d key st ≡ ok st')
      × (gather rest st' ≡ ok end)
unfolding gather
gather_take live d rest st end wg h = elim (Result-cases (key_of d)) [
  | inl (key, e) ↦ elim (Result-cases (want live d key st)) [
    | inl (st', e') ↦ (key, st', e, e', ground arith)
    | inr (x, e') ↦ absurd (ground arith)
  ]
  | inr (x, e) ↦ absurd (ground arith)
]

pub gather-get :
    (l : List (Bool × Device)) (st end : Wanted) (k : String)
    → gather l st ≡ ok end
    → get k end.0 ≡ or_later (get k st.0) (peer_of k l)
unfolding peer_of
gather-get [] st end k h = unfold gather in ground arith
gather-get ((live, d) ∷ rest) st end k h = elim (Bool-cases (is_wireguard d)) [
  | inl wg ↦
      let (key, st', e, e', later) = gather_take live d rest st end wg h in
      let ih = gather-get rest st' end k later in
      let step = want-get live d key st.0 st.1 st' k e' in ground (arith)
  | inr other ↦
      let ih = gather-get rest st end k (sym (gather_skip live d rest st other) ∙ h) in ground arith
]

-- No two entries share a key or an address, and each stands under its own key.
abbrev pub Differs : String → String → String × Device → Type 0
Differs k a e = (k ≢ e.0) × (address_of e.1 ≢ ok a)

abbrev pub IsConsistent : Dict String Device → Type 0
IsConsistent [] = Unit
IsConsistent ((k, d) ∷ rest) =
    (key_of d ≡ ok k)
    × ((a : String) × (address_of d ≡ ok a) × All (Differs k a) rest)
    × IsConsistent rest

-- the set of addresses holds those of all entries
abbrev IsListed : List String → String × Device → Type 0
IsListed addresses e = (a : String) → address_of e.1 ≡ ok a → contains addresses a ≡ true

put-IsConsistent :
    (key : String) (d : Device) (a : String) (wanted : Dict String Device) (addresses : List String)
    → key_of d ≡ ok key
    → address_of d ≡ ok a
    → get key wanted ≡ none
    → contains addresses a ≡ false
    → All (IsListed addresses) wanted
    → IsConsistent wanted
    → IsConsistent (put key d wanted)
put-IsConsistent key d a [] addresses ek ea absent new listed c = (ek, (a, ea, tt), tt)
put-IsConsistent key d a ((k, q) ∷ rest) addresses ek ea absent new listed c =
    let other : (key == k) ≡ false = ground arith in
    rw other (
      c.0,
      (
        c.1.0,
        c.1.1,
        All-put (Differs k c.1.0) key d rest
            (
              λ same. cc (other, (eq_iff key k).1 (sym same)),
              λ same. cc (new, listed.0 a (c.1.1 ∙ sym same ∙ ea)),
            )
            c.1.2,
      ),
      put-IsConsistent key d a rest addresses ek ea (rw other at absent) new listed.1 c.2,
    )

-- A round of the loop leaves its variables alone, or adds a new key with a new address.
want_cases :
    (live : Bool) (d : Device) (key : String) (wanted : Dict String Device)
    (addresses : List String) (st : Wanted)
    → want live d key (wanted, addresses) ≡ ok st
    → (st ≡ (wanted, addresses))
      ⊎ ((a : String) × (address_of d ≡ ok a)
          × (get key wanted ≡ none)
          × (contains addresses a ≡ false)
          × (st ≡ (put key d wanted, a ∷ addresses)))
unfolding want
want_cases live d key wanted addresses st h = elim (Bool-cases (live && not d.disabled)) [
  | inr idle ↦ inl (ground arith)
  | inl asked ↦ elim (Option-cases (get key wanted)) [
    | inr (q, twice) ↦ absurd (ground arith)
    | inl new ↦ elim (Result-cases (address_of d)) [
      | inr (x, bad) ↦ absurd (ground arith)
      | inl (a, good) ↦ elim (Bool-cases (contains addresses a)) [
        | inl twice ↦ absurd (ground arith)
        | inr free ↦ inr (a, good, new, free, ground arith)
      ]
    ]
  ]
]

abbrev pub IsSound : Wanted → Type 0
IsSound st = All (IsListed st.1) st.0 × IsConsistent st.0

want-IsSound :
    (live : Bool) (d : Device) (key : String) (st end : Wanted)
    → key_of d ≡ ok key
    → want live d key st ≡ ok end
    → IsSound st
    → IsSound end
want-IsSound live d key st end e h s = elim (want_cases live d key st.0 st.1 end h) [
  | inl same ↦ subst IsSound (sym same) s
  | inr (a, ea, absent, new, same) ↦ subst IsSound (sym same) (
    All-put (IsListed (a ∷ st.1)) key d st.0
        (λ b eb. let same_address : a ≡ b = cc in ground (arith, eq_iff b a))
        (All-mono (IsListed st.1) (IsListed (a ∷ st.1)) st.0
          (λ q f b eb. let old = f b eb in ground arith) s.0),
    put-IsConsistent key d a st.0 st.1 e ea absent new s.0 s.1,
  )
]

pub gather-IsSound :
    (l : List (Bool × Device)) (st end : Wanted) → gather l st ≡ ok end → IsSound st → IsSound end
gather-IsSound [] st end h s = let same : st ≡ end = unfold gather in cc h in subst IsSound same s
gather-IsSound ((live, d) ∷ rest) st end h s = elim (Bool-cases (is_wireguard d)) [
  | inl wg ↦
      let (key, st', e, e', later) = gather_take live d rest st end wg h in
      gather-IsSound rest st' end later (want-IsSound live d key st st' e e' s)
  | inr other ↦ gather-IsSound rest st end (sym (gather_skip live d rest st other) ∙ h) s
]
