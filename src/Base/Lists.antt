-- ===== src/Base/Lists.antt =====
-- Lists of addresses: length, membership as a test, the last element, indexing and writing.
use Prim.Native.Nat.{ℕ, zero, suc, ◌+◌}
use mathlib.Core.Path.{◌≡◌, refl, ap, sym, subst}
use mathlib.Core.Logic.{◌≢◌}
use mathlib.Core.Bool.{Bool, true, false, ◌||◌}
use mathlib.Core.List.{List, [], ◌∷◌, ◌++◌}
use native.Mathlib.Omega.{arith}
use patrick_landon_os.Base.Tests.{◌==◌, eq_of_==}

module _ {ℓ} {A : Type ℓ} where
  abbrev pub length : List A → ℕ
  length [] = 0
  length (x ∷ xs) = suc (length xs)

  abbrev pub get_or : List A → ℕ → A → A
  get_or [] i d = d
  get_or (x ∷ xs) zero d = x
  get_or (x ∷ xs) (suc i) d = get_or xs i d

  -- A write out of bounds changes nothing.
  abbrev pub set : List A → ℕ → A → List A
  set [] i v = []
  set (x ∷ xs) zero v = v ∷ xs
  set (x ∷ xs) (suc i) v = x ∷ set xs i v

  abbrev pub replicate : ℕ → A → List A
  replicate zero a = []
  replicate (suc n) a = a ∷ replicate n a

  -- The last element, or `d` if there is none.
  abbrev pub last_or : A → List A → A
  last_or d [] = d
  last_or d (x ∷ xs) = last_or x xs

  abbrev pub All {κ} : (A → Type κ) → List A → Type κ
  All P [] = Unit
  All P (x ∷ xs) = P x × All P xs

module _ {ℓ} {A : Type ℓ} where
  pub length-append : (xs ys : List A) → length (xs ++ ys) ≡ length xs + length ys
  length-append [] ys = omega arith
  length-append (x ∷ xs) ys = omega (arith, length-append xs ys)

  pub length-set : (xs : List A) (i : ℕ) (v : A) → length (set xs i v) ≡ length xs
  length-set [] i v = refl
  length-set (x ∷ xs) zero v = refl
  length-set (x ∷ xs) (suc i) v = ap suc (length-set xs i v)

  pub last_or-append :
      (d : A) (xs : List A) (y : A) (ys : List A) → last_or d (xs ++ y ∷ ys) ≡ last_or y ys
  last_or-append d [] y ys = refl
  last_or-append d (x ∷ xs) y ys = last_or-append x xs y ys

  pub append-ne : (p : A) (xs ys : List A) → (xs ++ p ∷ ys) ≢ []
  append-ne p [] ys e = cc
  append-ne p (x ∷ xs) ys e = cc

  pub All-append {κ} : (P : A → Type κ) (xs ys : List A) → All P xs → All P ys → All P (xs ++ ys)
  All-append P [] ys hx hy = hy
  All-append P (x ∷ xs) ys hx hy = (hx.0, All-append P xs ys hx.1 hy)

pub set-append {ℓ} :
    {A : Type ℓ} (pre : List A) (r v : A) (rs : List A)
    → set (pre ++ r ∷ rs) (length pre) v ≡ pre ++ v ∷ rs
set-append [] r v rs = refl
set-append (x ∷ pre) r v rs = ap (λ l. x ∷ l) (set-append pre r v rs)

pub get_or-append {ℓ} :
    {A : Type ℓ} (pre : List A) (r d : A) (rs : List A) → get_or (pre ++ r ∷ rs) (length pre) d ≡ r
get_or-append [] r d rs = refl
get_or-append (x ∷ pre) r d rs = get_or-append pre r d rs

abbrev pub has : ℕ → List ℕ → Bool
has a [] = false
has a (x ∷ xs) = (a == x) || has a xs

-- No address occurs twice.
abbrev pub Distinct : List ℕ → Type 0
Distinct [] = Unit
Distinct (x ∷ xs) = (has x xs ≡ false) × Distinct xs

pub has-eq : (a b : ℕ) (xs : List ℕ) → (a == b) ≡ true → has b xs ≡ true → has a xs ≡ true
has-eq a b xs e i = subst (λ c. has c xs ≡ true) (sym (eq_of_== a b e)) i

-- What is in a list differs from what is not.
pub ne_of_has : (a b : ℕ) (xs : List ℕ) → has a xs ≡ true → has b xs ≡ false → a ≢ b
ne_of_has a b xs i o e = cc (subst (λ c. has c xs ≡ true) e i)

pub has-append : (a : ℕ) (xs ys : List ℕ) → has a (xs ++ ys) ≡ (has a xs || has a ys)
has-append a [] ys = refl
has-append a (x ∷ xs) ys = ground (arith, has-append a xs ys)

pub has-last_or : (x : ℕ) (xs : List ℕ) → has (last_or x xs) (x ∷ xs) ≡ true
has-last_or x [] = ground arith
has-last_or x (y ∷ ys) = ground (arith, has-last_or y ys)

pub Distinct-append_one :
    (xs : List ℕ) (p : ℕ) → Distinct xs → has p xs ≡ false → Distinct (xs ++ p ∷ [])
Distinct-append_one [] p d out = (refl, tt)
Distinct-append_one (x ∷ xs) p d out =
    (ground (arith, has-append x xs (p ∷ [])), Distinct-append_one xs p d.1 (ground arith))

pub Distinct-init :
    (xs : List ℕ) (p : ℕ) → Distinct (xs ++ p ∷ []) → Distinct xs × (has p xs ≡ false)
Distinct-init [] p d = (tt, refl)
Distinct-init (x ∷ xs) p d =
    let (ih, out) = Distinct-init xs p d.1 in
    ((ground (arith, has-append x xs (p ∷ [])), ih), ground (arith, has-append x xs (p ∷ [])))

pub Distinct-middle :
    (xs : List ℕ) (p : ℕ) (ys : List ℕ)
    → Distinct (xs ++ p ∷ ys)
    → Distinct (xs ++ ys) × (has p (xs ++ ys) ≡ false)
Distinct-middle [] p ys d = (d.1, d.0)
Distinct-middle (x ∷ xs) p ys d =
    let (rest, out) = Distinct-middle xs p ys d.1 in
    (
      (ground (arith, has-append x xs (p ∷ ys), has-append x xs ys), rest),
      ground (arith, has-append x xs (p ∷ ys)),
    )
