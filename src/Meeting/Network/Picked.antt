-- ===== src/Meeting/Network/Picked.antt =====
-- The places that the client picks.
use sas.Base.{
  ℕ, ◌+◌, ◌≤◌, ◌<◌, ◌≡◌, ◌≢◌, ◌⊎◌, inl, inr, Bool-cases, true, List, [], ◌∷◌, ltb, ◌==◌, arith,
}
use sas.Meeting.Network.{picked, comes}

-- a place lies behind, is that of a chunk ahead, is the last or is beyond it
pub place-cases :
    (i next last : ℕ)
    → next ≤ last
    → ((i < next) × (i < last)) ⊎ (((next ≤ i) × (i < last)) ⊎ ((i ≡ last) ⊎ (last < i)))
place-cases i next last h = elim (Bool-cases (ltb i next)) [
  | inl old ↦ inl (ground arith)
  | inr new ↦ inr (elim (Bool-cases (ltb i last)) [
    | inl more ↦ inl (ground arith)
    | inr past ↦ inr (elim (Bool-cases (i == last)) [
      | inl same ↦ inl (ground arith)
      | inr beyond ↦ inr (ground arith)
    ])
  ])
]

module _ (last : ℕ) where
  -- the places that are picked, by the place that comes first
  pub picked_behind :
      (i next : ℕ) (places : List ℕ)
      → i < next
      → picked last next (i ∷ places) ≡ picked last next places
  unfolding picked
  picked_behind i next places h = ground arith

  pub picked_ahead :
      (i next : ℕ) (places : List ℕ)
      → next ≤ i
      → i < last
      → picked last next (i ∷ places) ≡ i ∷ picked last (i + 1) places
  unfolding picked
  picked_ahead i next places h more = ground arith

  pub picked_last :
      (next : ℕ) (places : List ℕ) → next ≤ last → picked last next (last ∷ places) ≡ []
  unfolding picked
  picked_last next places h = ground arith

  pub picked_beyond :
      (i next : ℕ) (places : List ℕ)
      → next ≤ last
      → last < i
      → picked last next (i ∷ places) ≡ picked last next places
  unfolding picked
  picked_beyond i next places h past = ground arith

  pub comes_later :
      (i : ℕ) (places : List ℕ) → i ≢ last → comes last (i ∷ places) ≡ comes last places
  unfolding comes
  comes_later i places h = ground arith

  pub comes_now : (places : List ℕ) → comes last (last ∷ places) ≡ true
  unfolding comes
  comes_now places = ground arith

-- places in their order, from `next` on and below `last`
abbrev pub Rising : ℕ → ℕ → List ℕ → Type 0
Rising last next [] = Unit
Rising last next (i ∷ places) = (next ≤ i) × (i < last) × Rising last (i + 1) places

pub picked-Rising :
    (last next : ℕ) (places : List ℕ) → next ≤ last → Rising last next (picked last next places)
unfolding picked
picked-Rising last next [] h = tt
picked-Rising last next (i ∷ places) h = elim (place-cases i next last h) [
  | inl (old, more) ↦ rw (picked_behind last i next places old) (picked-Rising last next places h)
  | inr (inl (new, more)) ↦
      rw (picked_ahead last i next places new more)
        (new, more, picked-Rising last (i + 1) places (omega arith))
  | inr (inr (inl same)) ↦ rw (same, picked_last last next places h) tt
  | inr (inr (inr past)) ↦
      rw (picked_beyond last i next places h past) (picked-Rising last next places h)
]
