-- ===== src/Machine/Frame.antt =====
-- What an operation leaves alone: the objects it does not name, and the fields it does not set.
use patrick_landon_os.Base.{◌≡◌, true, false, List, has, ◌∙◌, arith, refl}
use patrick_landon_os.Machine.Memory.{Ptr, Store, live, get, upd, live-upd, get-upd}

-- `g` is `h` but for the objects at `ys`, and in these `mask` sees no change.
pub record Touched {A : Type 0} (d : A) (mask : A → A) (ys : List Ptr) (h g : Store A)
    : Type 0 where
  pub same_live : (a : Ptr) → live g a ≡ live h a
  pub same_mask : (a : Ptr) → mask (get d g a) ≡ mask (get d h a)
  pub outside : (a : Ptr) → has a ys ≡ false → get d g a ≡ get d h a

module _ {A : Type 0} {d : A} {mask : A → A} {ys : List Ptr} where
  pub Touched-upd :
      (h : Store A) (p : Ptr) (f : A → A)
      → live h p ≡ true
      → has p ys ≡ true
      → ((c : A) → mask (f c) ≡ mask c)
      → Touched d mask ys h (upd h p f)
  Touched-upd h p f e i keeps = record {
    same_live = live-upd h p f;
    same_mask = λ a. ground (arith, get-upd d h p f a e, keeps (get d h a));
    outside = λ a o. ground (arith, get-upd d h p f a e);
  }

  pub Touched-trans :
      {h g k : Store A} → Touched d mask ys h g → Touched d mask ys g k → Touched d mask ys h k
  Touched-trans r s = record {
    same_live = λ a. s.same_live a ∙ r.same_live a;
    same_mask = λ a. s.same_mask a ∙ r.same_mask a;
    outside = λ a o. s.outside a o ∙ r.outside a o;
  }

  pub Touched-refl : (h : Store A) → Touched d mask ys h h
  Touched-refl h = record { same_live = λ a. refl; same_mask = λ a. refl; outside = λ a o. refl }

  pub Touched-weaken :
      {zs : List Ptr} {h g : Store A}
      → ((a : Ptr) → has a zs ≡ false → has a ys ≡ false)
      → Touched d mask ys h g
      → Touched d mask zs h g
  Touched-weaken sub r = record {
    same_live = r.same_live;
    same_mask = r.same_mask;
    outside = λ a o. r.outside a (sub a o);
  }
