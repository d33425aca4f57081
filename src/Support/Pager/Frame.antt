-- ===== src/Support/Pager/Frame.antt =====
-- The turns of the frames: `getFrame`.
use patrick_landon_os.Base.{
  ◌<◌, ◌≡◌, refl, Word, ◌+◌, ◌%◌, ◌==◌, ◌+w◌, arith, Bool-cases, inl, inr, ℕ, ◌-◌, ◌∙◌, sym, ap,
  suc, zero,
}
use patrick_landon_os.Const.{pool_size}
use patrick_landon_os.Support.Vm.{Vm, ok, Act, ok-injective, ◌>>◌}
use patrick_landon_os.Support.Pager.{get_frame}

-- The frame after the one that was given last.
abbrev pub next_frame : Vm → Word
next_frame m = (m.frame_no + 1) % pool_size

pub get_frame-next_frame :
    (m : Vm)
    → m.frame_no < pool_size
    → get_frame m ≡ ok (next_frame m) (record m { frame_no = next_frame m })
unfolding get_frame
get_frame-next_frame m h = elim (Bool-cases ((m.frame_no +w 1) == pool_size)) [
  | inl e ↦ let z : next_frame m ≡ 0 = ground arith in rw (e, z) refl
  | inr e ↦ let z : next_frame m ≡ (m.frame_no +w 1) = ground arith in rw (e, z) refl
]

-- The frame that the call after `n` others gives.
unfoldable pub nth_frame : ℕ → Act Word
nth_frame zero = get_frame
nth_frame (suc n) = do get_frame; nth_frame n

-- The frame that is `n` after the next one.
abbrev pub frame_after : ℕ → Vm → Word
frame_after n m = (m.frame_no + 1 + n) % pool_size

nth_frame-frame_after :
    (n : ℕ) (m : Vm)
    → m.frame_no < pool_size
    → nth_frame n m ≡ ok (frame_after n m) (record m { frame_no = frame_after n m })
unfolding nth_frame
nth_frame-frame_after zero m h =
    let z : m.frame_no + 1 + 0 ≡ m.frame_no + 1 = omega arith in
    get_frame-next_frame m h ∙ sym (rw z refl)
nth_frame-frame_after (suc n) m h =
    let next : frame_after n (record m { frame_no = next_frame m }) ≡ frame_after (suc n) m =
      omega arith in
    rw (get_frame-next_frame m h) (
      nth_frame-frame_after n (record m { frame_no = next_frame m }) (omega arith)
      ∙ ap (λ t. ok t (record m { frame_no = t })) next)

-- When the frame `g` is given.
pub record OneTurn (m : Vm) (g : Word) : Type 0 where
  pub turn : ℕ
  pub soon : turn < pool_size
  pub gives : nth_frame turn m ≡ ok g (record m { frame_no = g })
  pub alone : (n : ℕ) → n < pool_size → nth_frame n m ≡ ok g (record m { frame_no = g }) → n ≡ turn

-- `getFrame`, called POOLSIZE times, gives each frame of the pool exactly once: a frame that was given
-- is not given again before all the others were.
pub get_frame-OneTurn : (m : Vm) (g : Word) → m.frame_no < pool_size → g < pool_size → OneTurn m g
get_frame-OneTurn m g h k =
    let turn : ℕ = (g + pool_size - (m.frame_no + 1) % pool_size) % pool_size in
    let lands : frame_after turn m ≡ g = omega arith in
    record {
      turn = turn;
      soon = omega arith;
      gives = nth_frame-frame_after turn m h ∙ ap (λ t. ok t (record m { frame_no = t })) lands;
      alone = λ n hn e.
          let same : frame_after n m ≡ g = ok-injective (sym (nth_frame-frame_after n m h) ∙ e) in
          omega arith;
    }
