-- ===== src/Client/Policy/Clear.antt =====
-- The local networks of `direct_networks` of src/network_policy.py, without those of the tunnels.
use evgenium_network_linux.Prelude.{
  Bool-cases, List, String, [], ◌∷◌, ◌≡◌, ◌++◌, true, false, All, All-append, inl, inr,
}
use evgenium_network_linux.Client.Policy.{
  Addresses, clear_lan, outside, outside_all, parsed, reserved,
}

-- What is relied on of `address_exclude`: what it leaves does not overlap the block, and overlaps
-- nothing else than the network did.
pub record Laws {N : Type 0} (ip : Addresses N) : Type 0 where
  pub excluded :
      (net block : N)
      → ip.subnet_of block net ≡ true
      → All (λ m. ip.overlaps m block ≡ false) (ip.address_exclude net block)
  pub within :
      (net block other : N)
      → ip.subnet_of block net ≡ true
      → ip.overlaps net other ≡ false
      → All (λ m. ip.overlaps m other ≡ false) (ip.address_exclude net block)

module _ {N : Type 0} (ip : Addresses N) (laws : Laws ip) where
  abbrev pub AreOutside : N → List N → Type 0
  AreOutside block nets = All (λ m. ip.overlaps m block ≡ false) nets

  outside-AreOutside : (block : N) (nets : List N) → AreOutside block (outside ip block nets)
  unfolding outside
  outside-AreOutside block [] = tt
  outside-AreOutside block (net ∷ nets) =
      let rest = outside-AreOutside block nets in
      elim (Bool-cases (ip.overlaps net block)) [
        | inr apart ↦ rw apart (apart, rest)
        | inl meets ↦ elim (Bool-cases (ip.subnet_of block net)) [
          | inl inner ↦ rw (meets, inner) (All-append _ _ _ (laws.excluded net block inner) rest)
          | inr outer ↦ rw (meets, outer) rest
        ]
      ]

  outside-keeps :
      (block other : N) (nets : List N)
      → AreOutside other nets
      → AreOutside other (outside ip block nets)
  unfolding outside
  outside-keeps block other [] h = tt
  outside-keeps block other (net ∷ nets) h =
      let rest = outside-keeps block other nets h.1 in
      elim (Bool-cases (ip.overlaps net block)) [
        | inr apart ↦ rw apart (h.0, rest)
        | inl meets ↦ elim (Bool-cases (ip.subnet_of block net)) [
          | inl inner ↦
              rw (meets, inner) (All-append _ _ _ (laws.within net block other inner h.0) rest)
          | inr outer ↦ rw (meets, outer) rest
        ]
      ]

  outside_all-keeps :
      (blocks : List N) (other : N) (nets : List N)
      → AreOutside other nets
      → AreOutside other (outside_all ip blocks nets)
  unfolding outside_all
  outside_all-keeps [] other nets h = h
  outside_all-keeps (block ∷ blocks) other nets h =
      outside_all-keeps blocks other (outside ip block nets) (outside-keeps block other nets h)

  outside_all-AreOutside :
      (blocks nets : List N) → All (λ b. AreOutside b (outside_all ip blocks nets)) blocks
  unfolding outside_all
  outside_all-AreOutside [] nets = tt
  outside_all-AreOutside (block ∷ blocks) nets = (
    outside_all-keeps blocks block (outside ip block nets) (outside-AreOutside block nets),
    outside_all-AreOutside blocks (outside ip block nets),
  )

  AreOutside-append :
      (blocks xs ys : List N)
      → All (λ b. AreOutside b xs) blocks
      → All (λ b. AreOutside b ys) blocks
      → All (λ b. AreOutside b (xs ++ ys)) blocks
  AreOutside-append [] xs ys hx hy = tt
  AreOutside-append (b ∷ blocks) xs ys hx hy =
      (All-append _ xs ys hx.0 hy.0, AreOutside-append blocks xs ys hx.1 hy.1)

  none_outside : (blocks : List N) → All (λ b. AreOutside b []) blocks
  none_outside [] = tt
  none_outside (b ∷ blocks) = (tt, none_outside blocks)

  -- Whatever local networks the machine has: no network that is sent out directly for them overlaps
  -- one that the tunnels use.
  pub clear_lan-AreOutside :
      (lan : List String) → All (λ b. AreOutside b (clear_lan ip lan)) (parsed ip reserved)
  unfolding clear_lan
  clear_lan-AreOutside [] = none_outside (parsed ip reserved)
  clear_lan-AreOutside (item ∷ lan) =
      AreOutside-append (parsed ip reserved) _ (clear_lan ip lan)
        (outside_all-AreOutside (parsed ip reserved) (parsed ip (item ∷ [])))
        (clear_lan-AreOutside lan)
