-- ===== src/LruList/Sequences.antt =====
-- Sequences of entries: what is left of one when an entry goes, and what it has at its ends.
use hkv.Base.{
  ℕ, suc, ◌≡◌, refl, sym, ap, ◌≢◌, ◌⊎◌, inl, inr, List, [], ◌∷◌, ◌++◌, All, All-back, length,
  head_of, last_of, Apart,
}

pub All-out {κ} :
    (P : ℕ → Type κ) (qs ws : List ℕ) (p : ℕ) → All P (qs ++ p ∷ ws) → All P (qs ++ ws)
All-out P [] ws p h = h.1
All-out P (x ∷ qs) ws p h = (h.0, All-out P qs ws p h.1)

pub All-at {κ} : (P : ℕ → Type κ) (qs ws : List ℕ) (p : ℕ) → All P (qs ++ p ∷ ws) → P p
All-at P [] ws p h = h.0
All-at P (x ∷ qs) ws p h = All-at P qs ws p h.1

-- Without the entry `p` the others are still apart, and differ from it.
pub Apart-out :
    (qs ws : List ℕ) (p : ℕ) → Apart (qs ++ p ∷ ws) → All (λ q. q ≢ p) (qs ++ ws) × Apart (qs ++ ws)
Apart-out [] ws p a = a
Apart-out (x ∷ qs) ws p a =
    let (out, rest) = Apart-out qs ws p a.1 in
    (
      ((λ e. All-at (λ q. q ≢ x) qs ws p a.0 (sym e)), out),
      (All-out (λ q. q ≢ x) qs ws p a.0, rest),
    )

pub Apart-parts : (qs ws : List ℕ) → Apart (qs ++ ws) → All (λ x. All (λ w. w ≢ x) ws) qs × Apart ws
Apart-parts [] ws a = (tt, a)
Apart-parts (x ∷ qs) ws a = let r = Apart-parts qs ws a.1 in ((back qs a.0, r.0), r.1)
  where
    back : (qs : List ℕ) → All (λ w. w ≢ x) (qs ++ ws) → All (λ w. w ≢ x) ws
    back [] h = h
    back (q ∷ qs) h = back qs h.1

pub last_of-append :
    (q : ℕ) (qs : List ℕ) (y : ℕ) (ws : List ℕ) → last_of q (qs ++ y ∷ ws) ≡ last_of y ws
last_of-append q [] y ws = refl
last_of-append q (x ∷ qs) y ws = last_of-append x qs y ws

pub last_of-All {κ} : (P : ℕ → Type κ) (z : ℕ) (zs : List ℕ) → P z → All P zs → P (last_of z zs)
last_of-All P z [] h hs = h
last_of-All P z (w ∷ zs) h hs = last_of-All P w zs hs.0 hs.1

-- The front of a list is empty, or has a last entry.
pub front-cases : (xs : List ℕ) → (xs ≡ []) ⊎ ((qs : List ℕ) × (y : ℕ) × (xs ≡ qs ++ y ∷ []))
front-cases [] = inl refl
front-cases (x ∷ xs) = elim (front-cases xs) [
  | inl none ↦ inr ([], x, ap (λ l. x ∷ l) none)
  | inr (qs, y, e) ↦ inr (x ∷ qs, y, ap (λ l. x ∷ l) e)
]

pub uncons :
    (qs : List ℕ) (y : ℕ) (ws : List ℕ) → (h : ℕ) × (rest : List ℕ) × (qs ++ y ∷ ws ≡ h ∷ rest)
uncons [] y ws = (y, ws, refl)
uncons (x ∷ qs) y ws = (x, qs ++ y ∷ ws, refl)

pub head_of-append :
    (qs : List ℕ) (y : ℕ) (us ws : List ℕ) → head_of (qs ++ y ∷ us) ≡ head_of (qs ++ y ∷ ws)
head_of-append [] y us ws = refl
head_of-append (x ∷ qs) y us ws = refl

pub length-out :
    (qs : List ℕ) (y p : ℕ) (ws : List ℕ) → length (qs ++ y ∷ p ∷ ws) ≡ suc (length (qs ++ y ∷ ws))
length-out [] y p ws = refl
length-out (x ∷ qs) y p ws = ap suc (length-out qs y p ws)

pub All-every {κ} : (P : ℕ → Type κ) (xs : List ℕ) → ((x : ℕ) → P x) → All P xs
All-every P [] h = tt
All-every P (x ∷ xs) h = (h x, All-every P xs h)

-- Where `p` is behind `y`.
module _ (y p : ℕ) (ws : List ℕ) where
  pub All-behind {κ} :
      (P : ℕ → Type κ) (qs : List ℕ) → All P (qs ++ y ∷ p ∷ ws) → All P (qs ++ y ∷ ws) × P p
  All-behind P [] h = ((h.0, h.1.1), h.1.0)
  All-behind P (x ∷ qs) h = let r = All-behind P qs h.1 in ((h.0, r.0), r.1)

  pub Apart-behind :
      (qs : List ℕ)
      → Apart (qs ++ y ∷ p ∷ ws)
      → All (λ q. q ≢ p) (qs ++ y ∷ ws) × Apart (qs ++ y ∷ ws)
  Apart-behind [] a = (((λ e. a.0.0 (sym e)), a.1.0), (a.0.1, a.1.1))
  Apart-behind (x ∷ qs) a =
      let (out, rest) = Apart-behind qs a.1 in
      let r = All-behind (λ q. q ≢ x) qs a.0 in (((λ e. r.1 (sym e)), out), (r.0, rest))

  pub ends_differ :
      (qs : List ℕ) → Apart (qs ++ y ∷ p ∷ ws) → head_of (qs ++ y ∷ p ∷ ws) ≢ last_of p ws
  ends_differ [] a = λ e. last_of-All (λ q. q ≢ y) p ws a.0.0 a.0.1 (sym e)
  ends_differ (x ∷ qs) a =
      let back = All-back (λ q. q ≢ x) qs (y ∷ p ∷ ws) a.0 in
      λ e. last_of-All (λ q. q ≢ x) p ws back.1.0 back.1.1 (sym e)

pub head_of-All {κ} :
    (P : ℕ → Type κ) (qs : List ℕ) (y : ℕ) (ws : List ℕ)
    → All P (qs ++ y ∷ ws)
    → P (head_of (qs ++ y ∷ ws))
head_of-All P [] y ws h = h.0
head_of-All P (x ∷ qs) y ws h = h.0
