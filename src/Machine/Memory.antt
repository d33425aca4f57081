-- ===== src/Machine/Memory.antt =====
-- Memory holding objects of one type: an address has an object, or none. NULL never has one.
use patrick_landon_os.Base.{
  ℕ, ◌≡◌, ◌≢◌, Option, none, some, Bool, true, false, ◌==◌, if◌then◌else◌, arith, not, ◌&&◌, ◌∙◌,
}
use mathlib.Core.Option

abbrev pub Ptr : Type 0
Ptr = ℕ

-- `((void *)0xFFFFFFFF)`, the program's own definition.
abbrev pub null : Ptr
null = 0xFFFFFFFF

abbrev pub Store : Type 0 → Type 0
Store A = Ptr → Option A

module _ {A : Type 0} where
  abbrev pub is_some : Option A → Bool
  is_some none = false
  is_some (some a) = true

  -- A pointer that may be dereferenced.
  unfoldable pub live : Store A → Ptr → Bool
  live h p = not (p == null) && is_some (h p)

  -- The object at an address, `d` where there is none.
  unfoldable pub get : A → Store A → Ptr → A
  get d h p = Option.get_or (h p) d

  -- Changes the object at an address, if there is one.
  unfoldable pub upd : Store A → Ptr → (A → A) → Store A
  upd h p f q = if q == p then Option.map f (h q) else h q

  pub live-ne : (h : Store A) (p : Ptr) → live h p ≡ true → p ≢ null
  unfolding live
  live-ne h p e = ground arith

  pub live-upd : (h : Store A) (p : Ptr) (f : A → A) (q : Ptr) → live (upd h p f) q ≡ live h q
  unfolding live upd
  live-upd h p f q = ground arith

  pub get-upd :
      (d : A) (h : Store A) (p : Ptr) (f : A → A) (q : Ptr)
      → live h p ≡ true
      → get d (upd h p f) q ≡ (if q == p then f (get d h q) else get d h q)
  unfolding live get upd
  get-upd d h p f q e = ground arith

  pub get-upd_self :
      (d : A) (h : Store A) (p : Ptr) (f : A → A)
      → live h p ≡ true
      → get d (upd h p f) p ≡ f (get d h p)
  get-upd_self d h p f e = ground (arith, get-upd d h p f p e)

  -- Two updates of the same object.
  pub live-upd_twice :
      (h : Store A) (p : Ptr) (f g : A → A) (q : Ptr) → live (upd (upd h p f) p g) q ≡ live h q
  live-upd_twice h p f g q = live-upd (upd h p f) p g q ∙ live-upd h p f q

  pub get-upd_twice :
      (d : A) (h : Store A) (p : Ptr) (f g : A → A) (q : Ptr)
      → live h p ≡ true
      → get d (upd (upd h p f) p g) q ≡ (if q == p then g (f (get d h q)) else get d h q)
  get-upd_twice d h p f g q e =
      ground (arith, get-upd d (upd h p f) p g q (simp live-upd e), get-upd d h p f q e)
